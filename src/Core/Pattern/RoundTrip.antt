-- ===== src/Core/Pattern/RoundTrip.antt =====
-- Printing a pattern and parsing it again.
use Prim.Native.String.{String}
use agent_handshake_protocol.Prelude.{◌≡◌, refl, false, List, [], ◌∷◌, arith}
use agent_handshake_protocol.Prelude.Exec.{ok}
use agent_handshake_protocol.Prelude.Lists.{All}
use agent_handshake_protocol.Prelude.Text.{has, has_space, is_space}
use agent_handshake_protocol.Prelude.Text.Split.{
  split-join, has_space-join, strip-no_space, has-join,
}
use agent_handshake_protocol.Core.Pattern.{
  AddressPattern, fields, validate, check_fields, of_parts, parse, str,
}

-- What `check_fields` has seen of every field, if it did not raise.
Clean : String → Type 0
Clean s = (has b'.' s ≡ false) × (has b'?' s ≡ false)

check_fields-Clean : (p : AddressPattern) (l : List String) → check_fields p l ≡ ok p → All Clean l
unfolding check_fields Clean
check_fields-Clean p [] h = tt
check_fields-Clean p (v ∷ rest) h = ground (arith, check_fields-Clean p rest)

no_dot : (l : List String) → All Clean l → All (λ s. has b'.' s ≡ false) l
unfolding Clean
no_dot [] c = tt
no_dot (s ∷ l) c = (c.0.0, no_dot l c.1)

no_params : (l : List String) → All Clean l → All (λ s. has b'?' s ≡ false) l
unfolding Clean
no_params [] c = tt
no_params (s ∷ l) c = (c.0.1, no_params l c.1)

dot_no_space : has_space "." ≡ false
unfolding has_space is_space
dot_no_space = refl

dot_no_param : has b'?' "." ≡ false
unfolding has
dot_no_param = refl

-- A valid pattern whose fields hold no white space is what its text parses to.
pub parse-str :
    (p : AddressPattern)
    → validate p ≡ ok p
    → All (λ s. has_space s ≡ false) (fields p)
    → parse (str p) ≡ ok p
unfolding parse str validate of_parts
parse-str p v h =
    let clean = check_fields-Clean p (fields p) v in
    let dots = no_dot (fields p) clean in
    let bare = strip-no_space (str p) (has_space-join "." (fields p) dot_no_space h) in
    let text = has-join b'?' "." (fields p) dot_no_param (no_params (fields p) clean) in
    rw
      (
        bare,
        text,
        split-join "." p.org
            (p.role ∷ p.domain ∷ p.subdomain ∷ p.accept ∷ p.lifecycle ∷ p.instance_name ∷ []) dots.0
            dots.1,
      )
      v
