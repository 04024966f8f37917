-- ===== src/Tests/Surveys.antt =====
-- Surveys at concrete inputs.
use agent_handshake_protocol.Prelude.{String, true, false, some, [], ◌∷◌}
use agent_handshake_protocol.Prelude.Int.{pos}
use agent_handshake_protocol.Prelude.Lists.{All}
use agent_handshake_protocol.Prelude.Dict.{lookup}
use agent_handshake_protocol.Broker.Surveys.{
  SurveyRequest, SurveyResponse, Surveys, post_settlement, list_pending,
}
use agent_handshake_protocol.Broker.Surveys.Pending.{IsPending, list_pending-IsPending}

-- a survey of alice, about acme, from 10 to 100
abbrev pub request : SurveyRequest
request = record {
  survey_id = "sv1";
  kind = post_settlement;
  target_server = "acme";
  surveyed_actor = "alice";
  recipe = "post_settlement:csat";
  settlement_id = "h1";
  reward = pos 30;
  dispatch_at = 10;
  expires_at = 100;
  consent_csat_routing_at_queue = true;
  consent_training_export_at_queue = false;
}

abbrev pub answer : SurveyResponse
answer = record {
  survey_id = "sv1";
  surveyed_actor = "alice";
  target_server = "acme";
  recipe = "post_settlement:csat";
  settlement_id = "h1";
  score = pos 800_000;
  free_text = "";
  collected_at = 20;
  consent_csat_routing = true;
  consent_training_export = true;
}

abbrev pub queued : Surveys
queued = record {
  queue = ("sv1", 10) ∷ [];
  requests = ("sv1", request) ∷ [];
  responses = [];
  responded = [];
  fired = [];
}

abbrev pub collected : Surveys
collected = record queued { queue = []; responses = ("sv1", answer) ∷ []; responded = "sv1" ∷ [] }

list_pending-IsPending_example :
    All (IsPending 15 (some "alice")) (list_pending 15 false (some "alice") 100 queued).0
unfolding lookup
list_pending-IsPending_example =
    list_pending-IsPending 15 (some "alice") 100 queued ((λ r found. cc found), tt)

-- any digest
abbrev pub digest : String → String
digest s = s
