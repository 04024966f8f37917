-- ===== src/Broker/Compute.antt =====
-- ahp/broker/compute_registry.py: the directory of compute providers and of their menu leaves. The
-- store holds the values that the JSON texts stand for; a marker holds the time at which it expires.
-- The members of a set are listed in the order in which they were added.
pub mod Cascade
use agent_handshake_protocol.Prelude.{
  ℕ, ◌+◌, String, Bool, true, false, not, ◌&&◌, ◌||◌, Option, none, some, List, [], ◌∷◌, ◌++◌, ◌==◌,
  is_some, if◌then◌else◌,
}
use agent_handshake_protocol.Prelude.Dict.{Dict, lookup, insert, erase}
use agent_handshake_protocol.Prelude.Lists.{contains, filter}
use agent_handshake_protocol.Economy.ComputeProvider.{
  ComputeProvider, new_provider, MenuLeaf, address,
}
use agent_handshake_protocol.Broker.Servers.{fresh}

pub record Menu : Type 0 where
  pub providers : Dict ComputeProvider
  pub alive : Dict ℕ
  pub last_seen : Dict ℕ
  pub leaves : Dict MenuLeaf
  pub index : List String

-- SADD and SREM on the index
unfoldable pub add_member : String → List String → List String
unfolding contains
add_member a index = if contains a index then index else index ++ (a ∷ [])

unfoldable pub remove_member : String → List String → List String
unfolding filter
remove_member a index = filter (λ b. not (a == b)) index

-- `get_provider`
unfoldable pub get_provider : String → Menu → Option ComputeProvider
unfolding lookup
get_provider provider_id m = lookup provider_id m.providers

-- `list_providers`
unfoldable pub list_providers : Dict ComputeProvider → List ComputeProvider
list_providers [] = []
list_providers ((_, p) ∷ entries) = p ∷ list_providers entries

-- `get_leaf`
unfoldable pub get_leaf : String → Menu → Option MenuLeaf
unfolding lookup
get_leaf a m = lookup a m.leaves

-- `deregister_leaf`
unfoldable pub deregister_leaf : String → Menu → Menu
unfolding erase remove_member
deregister_leaf a m = record m { leaves = erase a m.leaves; index = remove_member a m.index }

-- the leaves that the index finds
unfoldable pub present : List String → Dict MenuLeaf → List MenuLeaf
unfolding lookup
present [] leaves = []
present (a ∷ index) leaves =
    let rest = present index leaves in elim (lookup a leaves) [ none ↦ rest | some l ↦ l ∷ rest ]

-- the index without its stale entries
unfoldable pub tidy : Menu → Menu
unfolding filter lookup
tidy m = record m { index = filter (λ a. is_some (lookup a m.leaves)) m.index }

-- `menu_for_provider`, which lists the leaves of all providers, dead or alive
unfoldable pub menu_for_provider : String → Menu → List MenuLeaf
unfolding present filter
menu_for_provider provider_id m =
    filter (λ l. l.provider_id == provider_id) (present m.index m.leaves)

-- the loop of `deregister_provider`
unfoldable pub deregister_leaves : List MenuLeaf → Menu → Menu
unfolding deregister_leaf address
deregister_leaves [] m = m
deregister_leaves (l ∷ ls) m = deregister_leaves ls (deregister_leaf (address l) m)

-- `deregister_provider`
unfoldable pub deregister_provider : (provider_id : String) (graceful : Bool) → Menu → Menu
unfolding deregister_leaves menu_for_provider tidy erase
deregister_provider provider_id graceful m =
    let dropped = deregister_leaves (menu_for_provider provider_id m) (tidy m) in
    record dropped {
      providers = erase provider_id dropped.providers;
      alive = erase provider_id dropped.alive;
      last_seen = if graceful then erase provider_id dropped.last_seen else dropped.last_seen;
    }

module _ (now : ℕ) where
  -- `is_provider_alive`
  unfoldable pub is_provider_alive : String → Menu → Bool
  unfolding lookup
  is_provider_alive provider_id m = fresh now (lookup provider_id m.alive)

  -- `list_leaves`
  unfoldable pub list_leaves : (only_alive_providers : Bool) → Menu → List MenuLeaf × Menu
  unfolding present tidy filter is_provider_alive
  list_leaves only_alive_providers m = (
    filter (λ l. not only_alive_providers || is_provider_alive l.provider_id m)
        (present m.index m.leaves),
    tidy m,
  )

  -- `detect_outage`
  unfoldable pub detect_outage : String → Menu → Bool × Menu
  unfolding lookup erase is_provider_alive
  detect_outage provider_id m =
      if is_some (lookup provider_id m.last_seen) && not (is_provider_alive provider_id m)
      then (true, record m { last_seen = erase provider_id m.last_seen })
      else (false, m)

  module _ (ttl : ℕ) where
    -- `_mark_alive`
    unfoldable pub mark_alive : String → Menu → Menu
    unfolding insert
    mark_alive provider_id m = record m {
      alive = insert provider_id (now + ttl) m.alive;
      last_seen = insert provider_id now m.last_seen;
    }

    -- `register_provider`
    unfoldable pub register_provider : ComputeProvider → (prove_alive : Bool) → Menu → Menu
    unfolding mark_alive
    register_provider p prove_alive m =
        let stored = record m { providers = insert p.provider_id p m.providers } in
        if prove_alive then mark_alive p.provider_id stored else stored

    -- `heartbeat_provider`
    unfoldable pub heartbeat_provider : String → Menu → Bool × Menu
    unfolding lookup mark_alive
    heartbeat_provider provider_id m = elim (lookup provider_id m.providers) [
      | none ↦ (false, m)
      | some _ ↦ (true, mark_alive provider_id m)
    ]

    -- the placeholder provider of `register_leaf`
    abbrev pub with_provider : String → Menu → Menu
    with_provider provider_id m = elim (lookup provider_id m.providers) [
      | some _ ↦ m
      | none ↦ register_provider (new_provider provider_id) true m
    ]

    -- `register_leaf`
    unfoldable pub register_leaf : MenuLeaf → Menu → Menu
    unfolding register_provider add_member address insert lookup
    register_leaf l m =
        let parented = with_provider l.provider_id m in
        record parented {
          leaves = insert (address l) l parented.leaves;
          index = add_member (address l) parented.index;
        }
