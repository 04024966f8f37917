-- ===== src/Prelude/Text.antt =====
-- Python's `str` as a text of characters: the methods that the program calls.
pub mod Split
pub mod Order
use Prim.Native.Char.{Char, code}
use Prim.Native.String
use Prim.Native.String.{String, ◌++◌}
use mathlib.Core.List.{List, [], ◌∷◌}
use agent_handshake_protocol.Prelude.{
  ℕ, zero, suc, Bool, true, false, not, ◌&&◌, ◌||◌, nat_beq, leb, if◌then◌else◌,
}

-- the text of one character
abbrev pub one : Char → String
one c = String.◌∷◌ c String.[]

-- `chr(n) in s`
unfoldable pub has : ℕ → String → Bool
has n String.[] = false
has n (String.◌∷◌ c s) = nat_beq (code c) n || has n s

-- `not s`
unfoldable pub is_empty : String → Bool
is_empty String.[] = true
is_empty (String.◌∷◌ c s) = false

-- puts a character before the first of some texts
unfoldable pub push : Char → List String → List String
push c [] = one c ∷ []
push c (s ∷ rest) = String.◌∷◌ c s ∷ rest

-- `s.split(chr(n))`
unfoldable pub split : ℕ → String → List String
unfolding push
split n String.[] = String.[] ∷ []
split n (String.◌∷◌ c s) =
    let rest = split n s in if nat_beq (code c) n then String.[] ∷ rest else push c rest

-- `s[:n]`
unfoldable pub text_take : ℕ → String → String
text_take zero s = ""
text_take (suc n) String.[] = ""
text_take (suc n) (String.◌∷◌ c s) = String.◌∷◌ c (text_take n s)

-- `sep.join(xs)`
unfoldable pub join : String → List String → String
join sep [] = String.[]
join sep (x ∷ []) = x
join sep (x ∷ rest) = x ++ (sep ++ join sep rest)

-- `str.isspace` of one character
unfoldable pub is_space : ℕ → Bool
is_space n =
    (leb 9 n && leb n 13)
    || (leb 28 n && leb n 32)
    || nat_beq n 0x85
    || nat_beq n 0xa0
    || nat_beq n 0x1680
    || (leb 0x2000 n && leb n 0x200a)
    || nat_beq n 0x2028
    || nat_beq n 0x2029
    || nat_beq n 0x202f
    || nat_beq n 0x205f
    || nat_beq n 0x3000

unfoldable pub has_space : String → Bool
has_space String.[] = false
has_space (String.◌∷◌ c s) = is_space (code c) || has_space s

unfoldable pub lstrip : String → String
lstrip String.[] = String.[]
lstrip (String.◌∷◌ c s) = let rest = lstrip s in if is_space (code c) then rest else String.◌∷◌ c s

unfoldable pub rstrip : String → String
rstrip String.[] = String.[]
rstrip (String.◌∷◌ c s) =
    let rest = rstrip s in
    if is_empty rest && is_space (code c) then String.[] else String.◌∷◌ c rest

-- `s.strip()`
unfoldable pub strip : String → String
unfolding lstrip rstrip is_space is_empty
strip s = rstrip (lstrip s)

-- `set(s) <= set(t)`
unfoldable pub subset : String → String → Bool
unfolding has
subset String.[] t = true
subset (String.◌∷◌ c s) t = has (code c) t && subset s t

-- `bool(set(s) & set(t))`
unfoldable pub intersects : String → String → Bool
unfolding has
intersects String.[] t = false
intersects (String.◌∷◌ c s) t = has (code c) t || intersects s t
