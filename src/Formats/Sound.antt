-- ===== src/Formats/Sound.antt =====
-- What holds of every registered format.
use agent_handshake_protocol.Prelude.{
  String, ◌≡◌, refl, sym, eq_iff, Bool, true, false, ◌==◌, ◌&&◌, none, some, List, [], ◌∷◌, arith,
}
use agent_handshake_protocol.Prelude.Dict.{Dict, AllEntries, AllEntries-lookup}
use agent_handshake_protocol.Prelude.Lists.{contains, all, any}
use agent_handshake_protocol.Prelude.Lists.Membership.{all-contains, any-witness}
use agent_handshake_protocol.Prelude.Text.{has}
use agent_handshake_protocol.Core.Compatibility.{is_known, required_tiers}
use agent_handshake_protocol.Formats.Shape.{
  Format, legacy_session, turn_sequence, post_init, is_turn_legal,
}
use agent_handshake_protocol.Formats.{formats, get_format}

is_turns : Format → Bool
is_turns f = elim f.recipe_kind [ legacy_session ↦ false | turn_sequence ↦ true ]

valid : Format → Bool
valid f = elim (post_init f) [ none ↦ true | some _ ↦ false ]

-- every turn is a code that the compatibility matrix knows, and can be received as JSON
turns_routable : Format → Bool
turns_routable f = all (λ t. is_known t && has b'j' (required_tiers t)) f.turn_primitives

-- some role of the format may make each of its turns
turns_live : Format → Bool
turns_live f = all (λ t. any (λ r. is_turn_legal f r t) f.role_set) f.turn_primitives

-- the turns that end the conversation, and those of the graph, are turns of the format
turns_closed : Format → Bool
turns_closed f =
    all (λ t. contains t f.turn_primitives) f.termination_rule.signal_codes
    && elim f.graph_builder [
      | none ↦ true
      | some rhythm ↦ all (λ t. contains t f.turn_primitives) rhythm
    ]

named : String → Format → Bool
named k f = k == f.name

sound : String → Format → Bool
sound k f = named k f && valid f && turns_routable f && turns_live f && turns_closed f

check : (String → Format → Bool) → Dict Format → Bool
check test [] = true
check test ((k, f) ∷ d) = test k f && check test d

table : check sound formats ≡ true
unfolding check sound named valid turns_routable turns_live turns_closed formats post_init
    is_turn_legal is_known required_tiers has all any contains
table = refl

check-AllEntries :
    (test : String → Format → Bool) (d : Dict Format)
    → check test d ≡ true
    → AllEntries (λ k f. test k f ≡ true) d
unfolding check
check-AllEntries test [] h = tt
check-AllEntries test ((k, f) ∷ d) h = ground (arith, check-AllEntries test d)

-- a registered format passes the tests of the table
get_format-sound : (name : String) (f : Format) → get_format name ≡ some f → sound name f ≡ true
unfolding get_format
get_format-sound name f h =
    AllEntries-lookup (λ k g. sound k g ≡ true) name f formats
      (check-AllEntries sound formats table) h

parts :
    (k : String) (f : Format)
    → sound k f ≡ true
    → ((k == f.name) ≡ true)
      × (valid f ≡ true)
      × (turns_routable f ≡ true)
      × (turns_live f ≡ true)
      × (turns_closed f ≡ true)
unfolding sound named
parts k f h = ground arith

valid_lem : (f : Format) → valid f ≡ true → post_init f ≡ none
unfolding valid
valid_lem f h = ground arith

routable_lem :
    (f : Format) (t : String)
    → turns_routable f ≡ true
    → contains t f.turn_primitives ≡ true
    → (is_known t ≡ true) × (has b'j' (required_tiers t) ≡ true)
unfolding turns_routable
routable_lem f t h m =
    ground
      (arith, all-contains (λ u. is_known u && has b'j' (required_tiers u)) f.turn_primitives t h m)

live_lem :
    (f : Format) (t : String)
    → turns_live f ≡ true
    → contains t f.turn_primitives ≡ true
    → (role : String) × (contains role f.role_set ≡ true) × (is_turn_legal f role t ≡ true)
unfolding turns_live
live_lem f t h m =
    any-witness (λ role. is_turn_legal f role t) f.role_set
      (all-contains (λ u. any (λ role. is_turn_legal f role u) f.role_set) f.turn_primitives t h m)

ends_lem :
    (f : Format) (t : String)
    → turns_closed f ≡ true
    → contains t f.termination_rule.signal_codes ≡ true
    → contains t f.turn_primitives ≡ true
unfolding turns_closed
ends_lem f t h m =
    all-contains (λ u. contains u f.turn_primitives) f.termination_rule.signal_codes t
      (ground arith) m

rhythm_lem :
    (f : Format) (turns : List String) (t : String)
    → turns_closed f ≡ true
    → f.graph_builder ≡ some turns
    → contains t turns ≡ true
    → contains t f.turn_primitives ≡ true
unfolding turns_closed
rhythm_lem f turns t h e m =
    all-contains (λ u. contains u f.turn_primitives) turns t (ground arith) m

-- What a registered format promises.
pub record IsSound (name : String) (f : Format) : Type 0 where
  pub named_so : f.name ≡ name
  pub accepted : post_init f ≡ none
  pub routable :
      (t : String)
      → contains t f.turn_primitives ≡ true
      → (is_known t ≡ true) × (has b'j' (required_tiers t) ≡ true)
  pub live :
      (t : String)
      → contains t f.turn_primitives ≡ true
      → (role : String) × (contains role f.role_set ≡ true) × (is_turn_legal f role t ≡ true)
  pub ends :
      (t : String)
      → contains t f.termination_rule.signal_codes ≡ true
      → contains t f.turn_primitives ≡ true
  pub rhythm :
      (turns : List String) (t : String)
      → f.graph_builder ≡ some turns
      → contains t turns ≡ true
      → contains t f.turn_primitives ≡ true

-- Every format of the registry stands under its own name and passes its own validation; its turns
-- are codes of the compatibility matrix that can travel as JSON, each may be made by some role of the
-- format, and the turns that end it or that its graph goes through are among them.
pub get_format-IsSound : (name : String) (f : Format) → get_format name ≡ some f → IsSound name f
get_format-IsSound name f h =
    let s = get_format-sound name f h in
    let (n, v, r, l, c) = parts name f s in
    record {
      named_so = sym ((eq_iff name f.name).0 n);
      accepted = valid_lem f v;
      routable = λ t m. routable_lem f t r m;
      live = λ t m. live_lem f t l m;
      ends = λ t m. ends_lem f t c m;
      rhythm = λ turns t e m. rhythm_lem f turns t c e m;
    }
