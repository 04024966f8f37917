-- ===== src/Adapters/Groups.antt =====
-- ahp/adapters/groups.py: `GroupRegistry`, names for patterns.
use agent_handshake_protocol.Prelude.{String, Bool, none, some, is_some, if◌then◌else◌}
use agent_handshake_protocol.Prelude.Dict.{Dict, lookup, insert, erase}
use agent_handshake_protocol.Prelude.Exec.{Result, ok, err}
use agent_handshake_protocol.Prelude.Text.{has, is_empty}
use agent_handshake_protocol.Core.Pattern.{AddressPattern, PatternError, parse}

pub record Group : Type 0 where
  pub name : String
  pub pattern : AddressPattern
  pub description : String

pub data GroupError : Type 0 where
  empty_name dotted_name already_registered missing_name : GroupError
  bad_pattern : PatternError → GroupError

-- a pattern, or a text
pub data PatternArgument : Type 0 where
  given : AddressPattern → PatternArgument
  text : String → PatternArgument

abbrev pub lift_pattern : Result PatternError AddressPattern → Result GroupError AddressPattern
lift_pattern (ok p) = ok p
lift_pattern (err e) = err (bad_pattern e)

abbrev pub pattern_of : PatternArgument → Result GroupError AddressPattern
pattern_of (given p) = ok p
pattern_of (text s) = lift_pattern (parse s)

-- `register`
unfoldable pub register :
    (name : String)
    → PatternArgument
    → (description : String) → Dict Group
    → Result GroupError Group × Dict Group
unfolding is_empty has lookup insert parse
register name pattern description groups =
    if is_empty name
    then (err empty_name, groups)
    else if has b'.' name
    then (err dotted_name, groups)
    else if is_some (lookup name groups)
    then (err already_registered, groups)
    else elim (pattern_of pattern) [
      | err e ↦ (err e, groups)
      | ok p ↦
          let group : Group = record { name = name; pattern = p; description = description } in
          (ok group, insert name group groups)
    ]

-- `unregister`
unfoldable pub unregister : (name : String) → Dict Group → Bool × Dict Group
unfolding lookup erase
unregister name groups = (is_some (lookup name groups), erase name groups)

-- `get`
unfoldable pub get : (name : String) → Dict Group → Result GroupError Group
unfolding lookup
get name groups = elim (lookup name groups) [ none ↦ err missing_name | some g ↦ ok g ]

-- `resolve`
unfoldable pub resolve : PatternArgument → Dict Group → Result GroupError AddressPattern
unfolding lookup parse
resolve (given p) groups = ok p
resolve (text s) groups = elim (lookup s groups) [
  | some g ↦ ok g.pattern
  | none ↦ lift_pattern (parse s)
]
