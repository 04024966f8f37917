-- ===== src/Broker/Servers.antt =====
-- ahp/broker/server_registry.py: the directory of servers and their liveness markers, which expire.
-- The store holds the values that the JSON texts stand for.
use agent_handshake_protocol.Prelude.{
  ℕ, ◌+◌, String, Bool, true, false, not, ◌&&◌, ◌||◌, Option, none, some, List, [], ◌∷◌, ltb,
  ◌==◌ as text_eq, is_some, if◌then◌else◌,
}
use agent_handshake_protocol.Prelude.Int.{ℤ, pos, ltb_ℤ}
use agent_handshake_protocol.Prelude.Dict.{Dict, lookup, insert, erase}
use agent_handshake_protocol.Prelude.Lists.{contains, length, any, filter}
use agent_handshake_protocol.Prelude.Text.{is_empty}
use agent_handshake_protocol.Economy.Tiers.{Tier, tier_name, parse_tier}

pub record ServerMeta : Type 0 where
  pub server_id : String
  pub org : String
  pub operator : String
  pub public_key : String
  pub specialties : List String
  pub integrations : List String
  pub supported_codes : List String
  pub supported_tiers : List Tier
  pub base_rate : ℕ
  pub compute_binding : String
  pub compute_ranking : String
  pub survey_opt_in : Bool
  pub csat_routing_opt_in : Bool
  pub training_data_opt_in : Bool
  pub registered_at : ℕ
  pub extra : Dict String

pub data ServerError : Type 0 where
  empty_id negative_rate unknown_tier : ServerError

-- `ServerMeta.__post_init__`, of the values that it is given
unfoldable pub post_init :
    (server_id : String) (base_rate : ℤ) (supported_tiers : List String) → Option ServerError
unfolding is_empty any parse_tier
post_init server_id base_rate supported_tiers =
    if is_empty server_id
    then some empty_id
    else if ltb_ℤ base_rate (pos 0)
    then some negative_rate
    else if any (λ t. not (is_some (parse_tier t))) supported_tiers
    then some unknown_tier
    else none

-- the hash of the servers, and the markers with the times at which they expire
pub record Directory : Type 0 where
  pub servers : Dict ServerMeta
  pub markers : Dict ℕ

-- DEFAULT_HEARTBEAT_TTL
abbrev pub default_heartbeat_ttl : ℕ
default_heartbeat_ttl = 30

-- `ServerRegistry.__init__` asks for a positive ttl.
unfoldable pub valid_ttl : ℤ → Bool
valid_ttl heartbeat_ttl = ltb_ℤ (pos 0) heartbeat_ttl

-- `exists` of a marker, at a time
abbrev pub fresh : (now : ℕ) → Option ℕ → Bool
fresh now none = false
fresh now (some expiry) = ltb now expiry

-- `get`
unfoldable pub get : String → Directory → Option ServerMeta
unfolding lookup
get server_id d = lookup server_id d.servers

-- `deregister`
unfoldable pub deregister : String → Directory → Directory
unfolding erase
deregister server_id d = record d {
  servers = erase server_id d.servers;
  markers = erase server_id d.markers;
}

-- `if specialty and specialty not in meta.specialties: continue`
unfoldable pub offers : Option String → List String → Bool
unfolding contains is_empty
offers none offered = true
offers (some wanted) offered = is_empty wanted || contains wanted offered

abbrev pub no_items {ℓ} : {A : Type ℓ} → List A → Bool
no_items [] = true
no_items (_ ∷ _) = false

-- `if code and meta.supported_codes and code not in meta.supported_codes: continue`
unfoldable pub supports_code : Option String → List String → Bool
unfolding offers
supports_code code supported = no_items supported || offers code supported

-- the same for a tier
unfoldable pub supports_tier : Option Tier → List Tier → Bool
unfolding any
supports_tier none supported = true
supports_tier (some t) supported =
    no_items supported || any (λ u. text_eq (tier_name u) (tier_name t)) supported

abbrev pub qualifies :
    (specialty integration code : Option String) (tier : Option Tier) → ServerMeta → Bool
qualifies specialty integration code tier meta =
    offers specialty meta.specialties
    && offers integration meta.integrations
    && supports_code code meta.supported_codes
    && supports_tier tier meta.supported_tiers

module _ (now : ℕ) where
  -- `is_alive`
  unfoldable pub is_alive : String → Directory → Bool
  unfolding lookup
  is_alive server_id d = fresh now (lookup server_id d.markers)

  -- `_scan`
  unfoldable pub scan : (alive_only : Bool) → Dict ServerMeta → Directory → List ServerMeta
  unfolding is_alive
  scan alive_only [] d = []
  scan alive_only ((server_id, meta) ∷ entries) d =
      let rest = scan alive_only entries d in
      if alive_only && not (is_alive server_id d) then rest else meta ∷ rest

  -- `list_all`
  unfoldable pub list_all : (alive_only : Bool) → Directory → List ServerMeta
  unfolding scan
  list_all alive_only d = scan alive_only d.servers d

  -- `count`
  unfoldable pub count : (alive_only : Bool) → Directory → ℕ
  unfolding list_all
  count alive_only d = if alive_only then length (list_all true d) else length d.servers

  -- `discover`
  unfoldable pub discover :
      (specialty integration code : Option String) (tier : Option Tier) (alive_only : Bool)
      → Directory
      → List ServerMeta
  unfolding filter list_all offers supports_code supports_tier
  discover specialty integration code tier alive_only d =
      filter (qualifies specialty integration code tier) (list_all alive_only d)

  module _ (ttl : ℕ) where
    -- `_mark_alive`
    unfoldable pub mark_alive : String → Directory → Directory
    unfolding insert
    mark_alive server_id d = record d { markers = insert server_id (now + ttl) d.markers }

    -- `register`
    unfoldable pub register : ServerMeta → Directory → Directory
    unfolding mark_alive
    register meta d =
        mark_alive meta.server_id (record d { servers = insert meta.server_id meta d.servers })

    -- `heartbeat`
    unfoldable pub heartbeat : String → Directory → Bool × Directory
    unfolding mark_alive lookup
    heartbeat server_id d = elim (lookup server_id d.servers) [
      | none ↦ (false, d)
      | some _ ↦ (true, mark_alive server_id d)
    ]
