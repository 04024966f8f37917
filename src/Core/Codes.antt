-- ===== src/Core/Codes.antt =====
-- ahp/core/codes.py: the interaction codes and how selectors match them.
pub mod Families
pub mod Turns
pub mod Matching
use Prim.Native.Char.{code as char_code}
use Prim.Native.String.{String, ◌++◌ as join}
use text.Mathlib.Text.{starts_with}
use agent_handshake_protocol.Prelude.{
  Bool, true, false, ◌||◌, ◌==◌, Option, none, some, List, ◌++◌, nat_beq, if◌then◌else◌,
}
use agent_handshake_protocol.Prelude.Text.{is_empty}
use Families.{family_codes}
use Turns.{turn_codes}

-- `Code.all`
abbrev pub all_codes : List String
all_codes = family_codes ++ turn_codes

-- `code.split(".", 1)[0]`
unfoldable pub before_dot : String → String
before_dot String.[] = String.[]
before_dot (String.◌∷◌ c s) =
    let rest = before_dot s in if nat_beq (char_code c) b'.' then String.[] else String.◌∷◌ c rest

-- `Code.family`; `none` is the ValueError
unfoldable pub family : String → Option String
unfolding before_dot is_empty
family code = if is_empty code then none else some (before_dot code)

-- `Code.is_error`
unfoldable pub is_error : String → Option Bool
unfolding family
is_error code = elim (family code) [ none ↦ none | some f ↦ some (f == "error") ]

abbrev pub push? : Prim.Native.Char.Char → Option String → Option String
push? c none = none
push? c (some s) = some (String.◌∷◌ c s)

-- `selector[:-2]`, if the selector ends with ".*"
unfoldable pub glob_prefix : String → Option String
glob_prefix String.[] = none
glob_prefix (String.◌∷◌ c s) =
    let rest = push? c (glob_prefix s) in if String.◌∷◌ c s == ".*" then some String.[] else rest

-- `Code.matches`
unfoldable pub matches : (code selector : String) → Bool
unfolding glob_prefix
matches code selector = if selector == "*" then true else elim (glob_prefix selector) [
  | some prefix ↦ code == prefix || starts_with code (join prefix ".")
  | none ↦ code == selector
]
