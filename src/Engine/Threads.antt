-- ===== src/Engine/Threads.antt =====
-- ahp/engine/thread_manager.py: `ThreadManager`, over the hashes of the threads' metadata, the sets of
-- their participants and the streams of their messages. A member of a set stands under its text, with
-- the address that the text parses to. Stream ids are not modelled: a history is read from its start.
pub mod History
use Prim.Native.Char.{Char, code}
use Prim.Native.String.{◌++◌ as join}
use agent_handshake_protocol.Prelude.{
  ℕ, zero, suc, String, Bool, true, false, ◌&&◌, ◌||◌, Option, none, some, List, [], ◌∷◌, ◌++◌, leb,
  nat_beq, is_some, if◌then◌else◌,
}
use agent_handshake_protocol.Prelude.Dict.{Dict, lookup, insert, erase}
use agent_handshake_protocol.Prelude.Exec.{Result, ok, err}
use agent_handshake_protocol.Prelude.Lists.{filter}
use agent_handshake_protocol.Prelude.Text.{is_empty, text_take, intersects}
use agent_handshake_protocol.Core.Address.{AgentAddress}
use agent_handshake_protocol.Core.Address.Text.{str}
use agent_handshake_protocol.Core.Compatibility.{required_tiers}
use agent_handshake_protocol.Engine.Message.{Message}

pub record ThreadMeta : Type 0 where
  pub topic : String
  pub initiator : AgentAddress
  pub created_at : ℕ
  pub closed_at : Option ℕ

pub record Thread : Type 0 where
  pub thread_id : String
  pub topic : String
  pub initiator : AgentAddress
  pub created_at : ℕ
  pub closed_at : Option ℕ

pub record Threads : Type 0 where
  pub metas : Dict ThreadMeta
  pub participants : Dict (Dict AgentAddress)
  pub streams : Dict (List Message)

pub data ThreadError : Type 0 where
  empty_topic : ThreadError

-- `[a-z0-9]`
abbrev pub is_slug : ℕ → Bool
is_slug n = (leb b'a' n && leb n b'z') || (leb b'0' n && leb n b'9')

-- `_SLUG_RE.sub("-", s)`: a dash for each run of other characters
unfoldable pub dashed : (in_run : Bool) → String → String
dashed in_run String.[] = ""
dashed in_run (String.◌∷◌ c s) =
    if is_slug (code c)
    then String.◌∷◌ c (dashed false s)
    else if in_run
    then dashed true s
    else String.◌∷◌ "-" (dashed true s)

-- `strip("-")`
unfoldable pub lstrip_dash : String → String
lstrip_dash String.[] = ""
lstrip_dash (String.◌∷◌ c s) =
    let rest = lstrip_dash s in if nat_beq (code c) b'-' then rest else String.◌∷◌ c s

unfoldable pub rstrip_dash : String → String
unfolding is_empty
rstrip_dash String.[] = ""
rstrip_dash (String.◌∷◌ c s) =
    let rest = rstrip_dash s in
    if nat_beq (code c) b'-' && is_empty rest then "" else String.◌∷◌ c rest

-- `_slugify`, of a text in lower case
unfoldable pub slugify : String → String
unfolding dashed lstrip_dash rstrip_dash text_take is_empty
slugify lowered =
    let slug = text_take 40 (rstrip_dash (lstrip_dash (dashed false lowered))) in
    if is_empty slug then "thread" else slug

-- what is stored under a key, or the empty collection
abbrev pub members : String → Dict (Dict AgentAddress) → Dict AgentAddress
members thread_id sets = elim (lookup thread_id sets) [ none ↦ [] | some set ↦ set ]

abbrev pub messages : String → Dict (List Message) → List Message
messages thread_id streams = elim (lookup thread_id streams) [ none ↦ [] | some log ↦ log ]

-- `join`
unfoldable pub join_thread : (thread_id : String) → AgentAddress → Threads → Threads
unfolding lookup insert str
join_thread thread_id agent s = record s {
  participants =
      insert thread_id (insert (str agent) agent (members thread_id s.participants)) s.participants;
}

-- `leave`
unfoldable pub leave : (thread_id : String) → AgentAddress → Threads → Threads
unfolding lookup insert erase str
leave thread_id agent s = record s {
  participants =
      insert thread_id (erase (str agent) (members thread_id s.participants)) s.participants;
}

-- `participants`
unfoldable pub participants : (thread_id : String) → Threads → Dict AgentAddress
unfolding lookup
participants thread_id s = members thread_id s.participants

-- `is_participant`
unfoldable pub is_participant : (thread_id : String) → AgentAddress → Threads → Bool
unfolding lookup str
is_participant thread_id agent s = is_some (lookup (str agent) (members thread_id s.participants))

-- the fields that `hset` writes; those that it does not name stay
unfoldable pub with_meta :
    (topic : String) → AgentAddress → (now : ℕ) → Option ThreadMeta → ThreadMeta
with_meta topic initiator now known = record {
  topic = topic;
  initiator = initiator;
  created_at = now;
  closed_at = elim known [ none ↦ none | some meta ↦ meta.closed_at ];
}

-- `thread_id or f"thread::{_slugify(topic)}::{...}"`; `lowered` is `topic.lower()`, `hex` the first
-- eight digits of the new UUID
unfoldable pub id_for : (thread_id : Option String) (lowered hex : String) → String
unfolding slugify is_empty
id_for none lowered hex = join "thread::" (join (slugify lowered) (join "::" hex))
id_for (some thread_id) lowered hex =
    if is_empty thread_id
    then join "thread::" (join (slugify lowered) (join "::" hex))
    else thread_id

-- `create`
unfoldable pub create :
    (now : ℕ) (lowered hex topic : String)
    → AgentAddress
    → (thread_id : Option String) → Threads
    → Result ThreadError Thread × Threads
unfolding with_meta id_for lookup insert join_thread is_empty
create now lowered hex topic initiator thread_id s =
    let id = id_for thread_id lowered hex in
    let meta = with_meta topic initiator now (lookup id s.metas) in
    if is_empty topic then (err empty_topic, s) else (
      ok (record {
        thread_id = id;
        topic = topic;
        initiator = initiator;
        created_at = now;
        closed_at = none;
      }),
      join_thread id initiator (record s { metas = insert id meta s.metas }),
    )

-- `get`
unfoldable pub get : (thread_id : String) → Threads → Option Thread
unfolding lookup
get thread_id s = elim (lookup thread_id s.metas) [
  | none ↦ none
  | some meta ↦ some (record {
    thread_id = thread_id;
    topic = meta.topic;
    initiator = meta.initiator;
    created_at = meta.created_at;
    closed_at = meta.closed_at;
  })
]

-- `close`
unfoldable pub close : (now : ℕ) (thread_id : String) → Threads → Bool × Threads
unfolding lookup insert
close now thread_id s = elim (lookup thread_id s.metas) [
  | none ↦ (false, s)
  | some meta ↦
      (true, record s { metas = insert thread_id (record meta { closed_at = some now }) s.metas })
]

-- `is_closed`
unfoldable pub is_closed : (thread_id : String) → Threads → Bool
unfolding get
is_closed thread_id s = elim (get thread_id s) [
  | none ↦ false
  | some thread ↦ is_some thread.closed_at
]

-- `append`: the source joins the thread that is given, and the message goes to its own
unfoldable pub append : (thread_id : String) → Message → Threads → Threads
unfolding join_thread lookup insert
append thread_id m s =
    let joined = join_thread thread_id m.source s in
    record joined { streams = insert m.thread (messages m.thread s.streams ++ (m ∷ [])) s.streams }

-- whether a message is shown under a filter of tiers
abbrev pub is_shown : Option String → Message → Bool
is_shown none m = true
is_shown (some tiers) m = is_empty tiers || intersects (required_tiers m.code) tiers

-- `get_history`
unfoldable pub get_history :
    (thread_id : String) (tier_filter : Option String) → Threads → List Message
unfolding filter lookup
get_history thread_id tier_filter s = filter (is_shown tier_filter) (messages thread_id s.streams)
