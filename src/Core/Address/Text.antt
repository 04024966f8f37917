-- ===== src/Core/Address/Text.antt =====
-- ahp/core/address.py: the text of an address, `AgentAddress.__str__`, with `urllib.parse.quote`.
use Prim.Native.Char.{code}
use Prim.Native.String.{String, ◌++◌, compare}
use Prim.Native.Nat.{Ordering}
use agent_handshake_protocol.Prelude.{
  ℕ, zero, suc, true, false, ◌+◌, ◌/◌, ◌%◌, Bool, ◌&&◌, ◌||◌, List, [], ◌∷◌, ltb, leb, nat_beq,
  if◌then◌else◌,
}
use agent_handshake_protocol.Prelude.Dict.{Dict}
use agent_handshake_protocol.Prelude.Text.{join, one}
use agent_handshake_protocol.Core.Address.{AgentAddress, fields}

-- the UTF-8 bytes of a code point
unfoldable pub utf8 : ℕ → List ℕ
utf8 n =
    if ltb n 128
    then n ∷ []
    else if ltb n 2048
    then (192 + n / 64) ∷ (128 + n % 64) ∷ []
    else if ltb n 65_536
    then (224 + n / 4096) ∷ (128 + n / 64 % 64) ∷ (128 + n % 64) ∷ []
    else (240 + n / 262_144) ∷ (128 + n / 4096 % 64) ∷ (128 + n / 64 % 64) ∷ (128 + n % 64) ∷ []

-- `s[n]`, as a text
abbrev pub char_at : ℕ → String → String
char_at n String.[] = ""
char_at zero (String.◌∷◌ c s) = one c
char_at (suc n) (String.◌∷◌ c s) = char_at n s

abbrev pub hex_digit : ℕ → String
hex_digit n = char_at n "0123456789ABCDEF"

-- `%XX` for each byte
abbrev pub percent : List ℕ → String
percent [] = ""
percent (b ∷ bs) = "%" ++ (hex_digit (b / 16) ++ (hex_digit (b % 16) ++ percent bs))

-- `quote` leaves letters, digits and "_.-~" as they are
abbrev pub unreserved : ℕ → Bool
unreserved n =
    (leb b'0' n && leb n b'9')
    || (leb b'A' n && leb n b'Z')
    || (leb b'a' n && leb n b'z')
    || nat_beq n b'_'
    || nat_beq n b'.'
    || nat_beq n b'-'
    || nat_beq n b'~'

-- `quote(s, safe='')`
unfoldable pub quote : String → String
unfolding utf8
quote String.[] = ""
quote (String.◌∷◌ c s) = (if unreserved (code c) then one c else percent (utf8 (code c))) ++ quote s

-- `k < j` on texts, by code points
abbrev pub before : String → String → Bool
before k j = elim (compare k j) [ Ordering.lt ↦ true | _ ↦ false ]

unfoldable pub insert_sorted : String → String → Dict String → Dict String
insert_sorted k v [] = (k, v) ∷ []
insert_sorted k v ((j, w) ∷ d) =
    let rest = (j, w) ∷ insert_sorted k v d in if before j k then rest else (k, v) ∷ (j, w) ∷ d

-- `sorted(self.params.items())`, whose keys are distinct
unfoldable pub sorted_items : Dict String → Dict String
unfolding insert_sorted
sorted_items [] = []
sorted_items ((k, v) ∷ d) = insert_sorted k v (sorted_items d)

-- `f"{quote(k)}={quote(v)}"` of each item
unfoldable pub assignments : Dict String → List String
unfolding quote
assignments [] = []
assignments ((k, v) ∷ d) = (quote k ++ ("=" ++ quote v)) ∷ assignments d

-- `__str__`
unfoldable pub str : AgentAddress → String
unfolding join assignments sorted_items
str a = elim a.params [
  | [] ↦ join "." (fields a)
  | _ ∷ _ ↦ join "." (fields a) ++ ("?" ++ join "&" (assignments (sorted_items a.params)))
]
