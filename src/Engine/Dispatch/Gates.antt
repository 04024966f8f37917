-- ===== src/Engine/Dispatch/Gates.antt =====
-- Which messages pass the gates of the engine, and which targets they reach.
pub mod Guarded
pub mod Handled
pub mod Refusals
use Prim.Native.Char.{Char, code}
use Prim.Native.String
use mathlib.Core.Option.{some-injective}
use agent_handshake_protocol.Prelude.{
  ℕ, String, ◌≡◌, refl, ap, sym, ◌∙◌, subst, nat_beq, ◌↔◌, ◌⊎◌, inl, inr, Bool, true, false, not,
  ◌&&◌, Option, none, some, List, [], ◌∷◌, arith, Bool-cases, Option-cases, if◌then◌else◌,
}
use agent_handshake_protocol.Prelude.Exec.{Exec, Result, ok, err, ◌>>=◌, ◌>>◌}
use agent_handshake_protocol.Prelude.Lists.{filter, contains}
use agent_handshake_protocol.Prelude.Text.{has, intersects}
use agent_handshake_protocol.Core.Address.{AgentAddress}
use agent_handshake_protocol.Core.Compatibility.{can_route, required_tiers}
use agent_handshake_protocol.Core.Compatibility
use agent_handshake_protocol.Core.Pattern.{AddressPattern}
use agent_handshake_protocol.Formats.{get_format}
use agent_handshake_protocol.Formats.Sound.{get_format-IsSound}
use agent_handshake_protocol.Formats.Shape.{
  Format, RecipeKind, is_turn_in_format, is_turn_legal, is_nil, legacy_session, turn_sequence,
}
use agent_handshake_protocol.Engine.Services.{
  EngineError, format_violation, incompatible_target, unauthorized, ProtocolEngine, Trace,
}
use agent_handshake_protocol.Engine.Message.{Message, Target, address, pattern}
use agent_handshake_protocol.Engine.Scope.{is_allowed}
use agent_handshake_protocol.Engine.Scope
use agent_handshake_protocol.Engine.Dispatch.{
  check_turn, check_format, in_scope, resolve_for_broadcast, handle_send, handle_send_get,
  handle_cast, fetch,
}

-- what a declared format asks of a message
abbrev pub Permits : Format → Message → Type 0
Permits f m =
    (f.recipe_kind ≡ legacy_session)
    ⊎ ((contains m.code f.turn_primitives ≡ true) × (is_turn_legal f m.source.role m.code ≡ true))

kind-cases : (k : RecipeKind) → (k ≡ legacy_session) ⊎ (k ≡ turn_sequence)
kind-cases legacy_session = inl refl
kind-cases turn_sequence = inr refl

turn_gate :
    (inside free legal : Bool)
    → (free ≡ true → legal ≡ true)
    → ((if not inside
          then some format_violation
          else if not free && not legal
          then some format_violation
          else none)
        ≡ none)
      ↔ ((turn_sequence ≡ legacy_session) ⊎ ((inside ≡ true) × (legal ≡ true)))
turn_gate inside free legal h = ground arith

free_legal :
    (f : Format) (role turn : String)
    → is_nil f.role_turn_permissions ≡ true
    → is_turn_legal f role turn ≡ true
unfolding is_turn_legal
free_legal f role turn h = rw h refl

check_turn_iff : (f : Format) (m : Message) → (check_turn f m ≡ none) ↔ Permits f m
unfolding check_turn is_turn_in_format
check_turn_iff f m = elim (kind-cases f.recipe_kind) [
  | inl k ↦ rw k (λ _. inl refl, λ _. refl)
  | inr k ↦ rw k (
      turn_gate (contains m.code f.turn_primitives) (is_nil f.role_turn_permissions)
        (is_turn_legal (record f { recipe_kind = turn_sequence }) m.source.role m.code)
        (free_legal (record f { recipe_kind = turn_sequence }) m.source.role m.code))
]

-- A message that declares a format passes its gate exactly if the format is registered, and is a
-- session or has the message's code among its turns and lets the sender's role make it.
pub check_format_iff :
    (name : String) (m : Message)
    → (check_format name m ≡ none) ↔ ((f : Format) × (get_format name ≡ some f) × Permits f m)
unfolding check_format
check_format_iff name m = elim (Option-cases (get_format name)) [
  | inl unknown ↦ (λ h. cc (rw (check_format, unknown) at h), λ (f, known, _). cc (unknown, known))
  | inr (f, known) ↦
      rw (check_format, known)
        (
          λ h. (f, refl, (check_turn_iff f m).0 h),
          λ (g, same, permits).
              (check_turn_iff f m).1
                (subst (λ x. Permits x m) (sym (some-injective f g same)) permits),
        )
]

same_has :
    (c : Char) (n : ℕ) (tiers : String)
    → nat_beq (code c) n ≡ true
    → has n tiers ≡ true
    → has (code c) tiers ≡ true
same_has c n tiers e h =
    let same : code c ≡ n = ground arith in subst (λ k. has k tiers ≡ true) (sym same) h

share_tier :
    (a tiers : String) (n : ℕ) → has n a ≡ true → has n tiers ≡ true → intersects a tiers ≡ true
unfolding has intersects
share_tier String.[] tiers n h g = h
share_tier (String.◌∷◌ c a) tiers n h g = elim (Bool-cases (nat_beq (code c) n)) [
  | inl same ↦ ground (arith, same_has c n tiers same g)
  | inr other ↦ ground (arith, share_tier a tiers n (rw other at h) g)
]

-- A message that passes the gate of a turn format can be routed to any agent that accepts JSON.
pub format_routable :
    (name : String) (f : Format) (m : Message) (target : AgentAddress)
    → get_format name ≡ some f
    → f.recipe_kind ≡ turn_sequence
    → check_format name m ≡ none
    → has b'j' target.accept ≡ true
    → can_route m.source target m.code ≡ true
unfolding can_route
format_routable name f m target known turns passes json =
    let (g, found, permits) = (check_format_iff name m).0 passes in
    let turn : contains m.code f.turn_primitives ≡ true = elim permits [
      | inl session ↦ cc (session, turns, found, known)
      | inr (inside, _) ↦
          subst (λ x. contains m.code x.turn_primitives ≡ true)
            (some-injective g f (sym found ∙ known)) inside
    ] in
    share_tier target.accept (required_tiers m.code) b'j' json
      ((get_format-IsSound name f known).routable m.code turn).1

-- to split on the target of a message
pub Target-cases :
    (g : Target) → ((a : AgentAddress) × (g ≡ address a)) ⊎ ((p : AddressPattern) × (g ≡ pattern p))
Target-cases (address a) = inl (a, refl)
Target-cases (pattern p) = inr (p, refl)

-- may the message reach the target?
abbrev pub reachable : ProtocolEngine → Message → AgentAddress → Bool
reachable e m a = can_route m.source a m.code && in_scope e.scope m.source a m.code

-- the live agents that a target names
abbrev pub named_by : ProtocolEngine → Target → Trace → List AgentAddress
named_by e (address a) t = if e.services.is_alive t a then a ∷ [] else []
named_by e (pattern p) t = e.services.resolve t p

abbrev pub named : ProtocolEngine → Message → Trace → List AgentAddress
named e m t = named_by e m.target t

pub filter-filter :
    {A : Type 0} (p q : A → Bool) (xs : List A)
    → filter q (filter p xs) ≡ filter (λ x. p x && q x) xs
unfolding filter
filter-filter p q [] = refl
filter-filter p q (x ∷ xs) = elim (Bool-cases (p x)) [
  | inl e ↦ rw (e, ← filter-filter p q xs) refl
  | inr e ↦ rw e (filter-filter p q xs)
]

filter_single :
    (r : AgentAddress → Bool) (a : AgentAddress) (alive routed scoped : Bool)
    → r a ≡ (routed && scoped)
    → (if not alive then [] else if not routed then [] else if not scoped then [] else a ∷ [])
      ≡ filter r (if alive then a ∷ [] else [])
unfolding filter
filter_single r a false routed scoped h = refl
filter_single r a true true true h = rw h refl
filter_single r a true true false h = rw h refl
filter_single r a true false scoped h = rw h refl

filter_open : {A : Type 0} (p : A → Bool) (xs : List A) → filter p xs ≡ filter (λ x. p x && true) xs
unfolding filter
filter_open p [] = refl
filter_open p (x ∷ xs) = elim (Bool-cases (p x)) [
  | inl e ↦ rw (e, ← filter_open p xs) refl
  | inr e ↦ rw e (filter_open p xs)
]

-- A broadcast goes to the live agents that its target names and that the code and the policy let
-- it reach, in the order of the registry; an agent that is named alone is no exception.
pub resolve_for_broadcast_lem :
    (e : ProtocolEngine) (m : Message) (t : Trace)
    → resolve_for_broadcast e m t ≡ filter (reachable e m) (named e m t)
unfolding resolve_for_broadcast
resolve_for_broadcast_lem e m t = elim (Target-cases m.target) [
  | inl (a, one) ↦ rw one (
      filter_single (reachable e m) a (e.services.is_alive t a) (can_route m.source a m.code)
        (in_scope e.scope m.source a m.code) refl)
  | inr (p, many) ↦ rw many (elim (Option-cases e.scope) [
    | inl open_to_all ↦
        rw open_to_all (filter_open (λ a. can_route m.source a m.code) (e.services.resolve t p))
    | inr (rules, ruled) ↦ rw ruled (
        filter-filter (λ a. can_route m.source a m.code) (λ a. is_allowed rules m.source a m.code)
          (e.services.resolve t p))
  ])
]
