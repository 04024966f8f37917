-- ===== src/Broker/Surveys.antt =====
-- ahp/broker/surveys.py: the queue of surveys and the store of their answers. A time is a whole
-- number of seconds, a score a number of millionths; the store holds the values that the JSON texts
-- stand for. The clock's answer is `now`, the drawn uuid `survey_id`.
pub mod Corpus
pub mod Pending
pub mod Export
use Prim.Native.String.{◌++◌}
use mathlib.Core.List
use agent_handshake_protocol.Prelude.{
  ℕ, zero, suc, ◌+◌, ◌-◌, ◌*◌, String, Bool, true, false, not, ◌&&◌, ◌||◌, ◌==◌, Option, none, some,
  List, [], ◌∷◌, ltb, leb, nat_beq, is_some, if◌then◌else◌,
}
use agent_handshake_protocol.Prelude.Int.{ℤ}
use agent_handshake_protocol.Prelude.Dict.{Dict, lookup, insert, erase}
use agent_handshake_protocol.Prelude.Lists.{contains, filter}
use agent_handshake_protocol.Prelude.Lists.Sorting.{sort_by}
use agent_handshake_protocol.Prelude.Text.{text_take, is_empty}
use agent_handshake_protocol.Prelude.Text.Order.{text_lt}

pub data SurveyKind : Type 0 where
  post_settlement drill_down periodic : SurveyKind

pub record SurveyRequest : Type 0 where
  pub survey_id : String
  pub kind : SurveyKind
  pub target_server : String
  pub surveyed_actor : String
  pub recipe : String
  pub settlement_id : String
  pub reward : ℤ
  pub dispatch_at : ℕ
  pub expires_at : ℕ
  pub consent_csat_routing_at_queue : Bool
  pub consent_training_export_at_queue : Bool

-- `SurveyRequest.new`, with the default delay of 300 seconds and the default ttl of a day
unfoldable pub new_request :
    (now : ℕ) (survey_id : String) (kind : SurveyKind)
    (target_server surveyed_actor recipe settlement_id : String) (reward : ℤ)
    → SurveyRequest
new_request now survey_id kind target_server surveyed_actor recipe settlement_id reward = record {
  survey_id = survey_id;
  kind = kind;
  target_server = target_server;
  surveyed_actor = surveyed_actor;
  recipe = recipe;
  settlement_id = settlement_id;
  reward = reward;
  dispatch_at = now + 300;
  expires_at = now + 86_400;
  consent_csat_routing_at_queue = true;
  consent_training_export_at_queue = false;
}

pub record SurveyResponse : Type 0 where
  pub survey_id : String
  pub surveyed_actor : String
  pub target_server : String
  pub recipe : String
  pub settlement_id : String
  pub score : ℤ
  pub free_text : String
  pub collected_at : ℕ
  pub consent_csat_routing : Bool
  pub consent_training_export : Bool

-- the keys of `SurveyQueue`; the sorted set holds the ids with their scores
pub record Surveys : Type 0 where
  pub queue : Dict ℕ
  pub requests : Dict SurveyRequest
  pub responses : Dict SurveyResponse
  pub responded : List String
  pub fired : List String

-- SADD and SREM
unfoldable pub add_id : String → List String → List String
unfolding contains
add_id a ids = if contains a ids then ids else List.◌++◌ ids (a ∷ [])

unfoldable pub remove_id : String → List String → List String
unfolding filter
remove_id a ids = filter (λ b. not (a == b)) ids

-- `enqueue`: the first request of an id wins
unfoldable pub enqueue : SurveyRequest → Surveys → Bool × Surveys
unfolding lookup insert
enqueue request s = elim (lookup request.survey_id s.requests) [
  | some _ ↦ (false, s)
  | none ↦ (
    true,
    record s {
      requests = insert request.survey_id request s.requests;
      queue = insert request.survey_id request.dispatch_at s.queue;
    },
  )
]

-- `get_request`
unfoldable pub get_request : String → Surveys → Option SurveyRequest
unfolding lookup
get_request survey_id s = lookup survey_id s.requests

-- `_abandon`
unfoldable pub abandon : String → Surveys → Surveys
unfolding erase remove_id
abandon survey_id s = record s {
  queue = erase survey_id s.queue;
  fired = remove_id survey_id s.fired;
  requests = erase survey_id s.requests;
}

-- `zrem` of a stale entry
abbrev pub unqueue : String → Surveys → Surveys
unqueue survey_id s = record s { queue = erase survey_id s.queue }

-- the order of a sorted set: by score, then by member
abbrev pub sooner : String × ℕ → String × ℕ → Bool
sooner (i, a) (j, b) = ltb a b || (nat_beq a b && text_lt i j)

-- `[...][:num]`
unfoldable pub take_ids : ℕ → Dict ℕ → List String
take_ids zero entries = []
take_ids (suc n) [] = []
take_ids (suc n) ((i, _) ∷ entries) = i ∷ take_ids n entries

-- `zrangebyscore(-inf, max, start=0, num=limit)`; `none` is +inf
unfoldable pub by_score : (max : Option ℕ) (limit : ℕ) → Dict ℕ → List String
unfolding sort_by take_ids text_lt filter
by_score max limit queue = take_ids limit (
    filter (λ entry. elim max [ none ↦ true | some most ↦ leb entry.1 most ])
      (sort_by sooner queue))

-- what the loops do with one id that was queued
pub data Visit : Type 0 where
  stale expired : Visit
  live : SurveyRequest → Visit

unfoldable pub visit : (cutoff : ℕ) → String → Surveys → Visit
unfolding get_request
visit cutoff survey_id s = elim (get_request survey_id s) [
  | none ↦ stale
  | some req ↦ if leb req.expires_at cutoff then expired else live req
]

-- `if surveyed_actor and req.surveyed_actor != surveyed_actor: continue`
abbrev pub is_for : Option String → SurveyRequest → Bool
is_for none req = true
is_for (some actor) req = is_empty actor || req.surveyed_actor == actor

-- the loop of `list_pending`
unfoldable pub pending_loop :
    (cutoff : ℕ) (surveyed_actor : Option String)
    → List String
    → Surveys
    → List SurveyRequest × Surveys
unfolding visit abandon is_empty
pending_loop cutoff actor [] s = ([], s)
pending_loop cutoff actor (i ∷ ids) s = elim (visit cutoff i s) [
  | stale ↦ pending_loop cutoff actor ids (unqueue i s)
  | expired ↦ pending_loop cutoff actor ids (abandon i s)
  | live req ↦
      let (out, s') = pending_loop cutoff actor ids s in
      (if is_for actor req then req ∷ out else out, s')
]

-- `list_pending`, at the cutoff that is given or else at the clock
unfoldable pub list_pending :
    (cutoff : ℕ) (include_future : Bool) (surveyed_actor : Option String) (limit : ℕ)
    → Surveys
    → List SurveyRequest × Surveys
unfolding by_score pending_loop
list_pending cutoff include_future surveyed_actor limit s =
    let max : Option ℕ = if include_future then none else some cutoff in
    pending_loop cutoff surveyed_actor (by_score max limit s.queue) s

-- the first loop of `fire_due`; `room` is what `max_dispatch` leaves
unfoldable pub ready_loop : (cutoff room : ℕ) → List String → Surveys → List SurveyRequest × Surveys
unfolding visit abandon contains
ready_loop cutoff room [] s = ([], s)
ready_loop cutoff room (i ∷ ids) s = elim (visit cutoff i s) [
  | stale ↦ ready_loop cutoff room ids (unqueue i s)
  | expired ↦ ready_loop cutoff room ids (abandon i s)
  | live req ↦ elim (contains i s.fired) [
    | true ↦ ready_loop cutoff room ids s
    | false ↦ elim (leb room 1) [
      | true ↦ (req ∷ [], s)
      | false ↦ let (out, s') = ready_loop cutoff (room - 1) ids s in (req ∷ out, s')
    ]
  ]
]

-- `fire_due` as a dry run: what it would dispatch
unfoldable pub due : (cutoff max_dispatch : ℕ) → Surveys → List SurveyRequest × Surveys
unfolding by_score ready_loop
due cutoff max_dispatch s =
    ready_loop cutoff max_dispatch (by_score (some cutoff) (max_dispatch * 2) s.queue) s

-- the writes of `submit_response`
unfoldable pub record_response : SurveyResponse → Surveys → Surveys
unfolding insert erase add_id remove_id
record_response response s = record s {
  responses = insert response.survey_id response s.responses;
  responded = add_id response.survey_id s.responded;
  queue = erase response.survey_id s.queue;
  fired = remove_id response.survey_id s.fired;
}
