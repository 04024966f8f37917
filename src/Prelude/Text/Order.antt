-- ===== src/Prelude/Text/Order.antt =====
-- The order of Python's texts, by code points.
use Prim.Native.Char.{code}
use Prim.Native.String.{String}
use mathlib.Core.Path.{◌≡◌, refl}
use mathlib.Core.Bool.{Bool, true, false, ◌&&◌, ◌||◌}
use native.Mathlib.Omega.{arith}
use agent_handshake_protocol.Prelude.{ltb, nat_beq}

-- `s < t`
unfoldable pub text_lt : String → String → Bool
text_lt String.[] String.[] = false
text_lt String.[] (String.◌∷◌ d t) = true
text_lt (String.◌∷◌ c s) String.[] = false
text_lt (String.◌∷◌ c s) (String.◌∷◌ d t) =
    ltb (code c) (code d) || (nat_beq (code c) (code d) && text_lt s t)

pub text_lt_asymm : (s t : String) → text_lt s t ≡ true → text_lt t s ≡ false
unfolding text_lt
text_lt_asymm String.[] String.[] h = refl
text_lt_asymm String.[] (String.◌∷◌ d t) h = refl
text_lt_asymm (String.◌∷◌ c s) String.[] h = cc
text_lt_asymm (String.◌∷◌ c s) (String.◌∷◌ d t) h = ground (arith, text_lt_asymm s t)

pub not-text_lt_trans :
    (r s t : String) → text_lt s r ≡ false → text_lt t s ≡ false → text_lt t r ≡ false
unfolding text_lt
not-text_lt_trans String.[] String.[] t h k = k
not-text_lt_trans String.[] (String.◌∷◌ d s) String.[] h k = cc
not-text_lt_trans String.[] (String.◌∷◌ d s) (String.◌∷◌ e t) h k = refl
not-text_lt_trans (String.◌∷◌ c r) String.[] t h k = cc
not-text_lt_trans (String.◌∷◌ c r) (String.◌∷◌ d s) String.[] h k = cc
not-text_lt_trans (String.◌∷◌ c r) (String.◌∷◌ d s) (String.◌∷◌ e t) h k =
    ground (arith, not-text_lt_trans r s t)
