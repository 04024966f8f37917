-- ===== src/Prelude/Text/Split.antt =====
-- The laws of `split`, `join` and `strip`.
use Prim.Native.Char.{Char, code}
use Prim.Native.String.{String, ◌++◌}
use mathlib.Core.List.{List, [], ◌∷◌}
use text.Mathlib.TextLemmas.{nil-append, cons-append}
use native.Mathlib.Omega.{arith}
use agent_handshake_protocol.Prelude.{ℕ, ◌≡◌, refl, ap, ◌∙◌, false}
use agent_handshake_protocol.Prelude.Lists.{All}
use agent_handshake_protocol.Prelude.Text.{
  one, has, push, split, join, has_space, lstrip, rstrip, strip,
}

-- A text without the separator is one part.
pub split-none : (n : ℕ) (s : String) → has n s ≡ false → split n s ≡ s ∷ []
unfolding split has push
split-none n String.[] h = refl
split-none n (String.◌∷◌ c s) h = ground (arith, split-none n s)

-- A separator ends the first part.
pub split-append :
    (n : ℕ) (s : String) (c : Char) (t : String)
    → has n s ≡ false
    → code c ≡ n
    → split n (s ++ String.◌∷◌ c t) ≡ s ∷ split n t
unfolding split has push
split-append n String.[] c t h e = rw nil-append (ground arith)
split-append n (String.◌∷◌ d s) c t h e = rw cons-append (ground (arith, split-append n s c t))

-- Splitting undoes joining, for parts that do not hold the separator.
pub split-join :
    (c : Char) (x : String) (xs : List String)
    → has (code c) x ≡ false
    → All (λ s. has (code c) s ≡ false) xs
    → split (code c) (join (one c) (x ∷ xs)) ≡ x ∷ xs
unfolding join
split-join c x [] h k = split-none (code c) x h
split-join c x (y ∷ ys) h k =
    rw (cons-append, nil-append)
      (split-append (code c) x c (join (one c) (y ∷ ys)) h refl
        ∙ ap (λ l. x ∷ l) (split-join c y ys k.0 k.1))

has_space-append :
    (s t : String) → has_space s ≡ false → has_space t ≡ false → has_space (s ++ t) ≡ false
unfolding has_space
has_space-append String.[] t h k = rw nil-append k
has_space-append (String.◌∷◌ c s) t h k = rw cons-append (ground (arith, has_space-append s t))

pub has_space-join :
    (sep : String) (xs : List String)
    → has_space sep ≡ false
    → All (λ s. has_space s ≡ false) xs
    → has_space (join sep xs) ≡ false
unfolding join
has_space-join sep [] h k = unfold has_space in refl
has_space-join sep (x ∷ []) h k = k.0
has_space-join sep (x ∷ y ∷ ys) h k =
    has_space-append x (sep ++ join sep (y ∷ ys)) k.0
      (has_space-append sep (join sep (y ∷ ys)) h (has_space-join sep (y ∷ ys) h k.1))

lstrip-no_space : (s : String) → has_space s ≡ false → lstrip s ≡ s
unfolding has_space lstrip
lstrip-no_space String.[] h = refl
lstrip-no_space (String.◌∷◌ c s) h = ground arith

rstrip-no_space : (s : String) → has_space s ≡ false → rstrip s ≡ s
unfolding has_space rstrip
rstrip-no_space String.[] h = refl
rstrip-no_space (String.◌∷◌ c s) h = ground (arith, rstrip-no_space s)

-- A text without white space is left alone.
pub strip-no_space : (s : String) → has_space s ≡ false → strip s ≡ s
unfolding strip
strip-no_space s h = ap rstrip (lstrip-no_space s h) ∙ rstrip-no_space s h

has-append : (n : ℕ) (s t : String) → has n s ≡ false → has n t ≡ false → has n (s ++ t) ≡ false
unfolding has
has-append n String.[] t h k = rw nil-append k
has-append n (String.◌∷◌ c s) t h k = rw cons-append (ground (arith, has-append n s t))

-- A character that is in no part and not in the separator is not in what is joined.
pub has-join :
    (n : ℕ) (sep : String) (xs : List String)
    → has n sep ≡ false
    → All (λ s. has n s ≡ false) xs
    → has n (join sep xs) ≡ false
unfolding join
has-join n sep [] h k = unfold has in refl
has-join n sep (x ∷ []) h k = k.0
has-join n sep (x ∷ y ∷ ys) h k =
    has-append n x (sep ++ join sep (y ∷ ys)) k.0
      (has-append n sep (join sep (y ∷ ys)) h (has-join n sep (y ∷ ys) h k.1))
