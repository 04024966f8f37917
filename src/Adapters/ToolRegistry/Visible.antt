-- ===== src/Adapters/ToolRegistry/Visible.antt =====
-- Which tools an agent sees after a registration.
use agent_handshake_protocol.Prelude.{
  String, ◌≡◌, ap, ◌∙◌, inl, inr, Bool, ◌&&◌, ◌==◌, Option, none, List, [], ◌∷◌, ◌++◌, arith,
  Bool-cases, if◌then◌else◌,
}
use agent_handshake_protocol.Prelude.Dict.{Dict, lookup, insert}
use agent_handshake_protocol.Prelude.Exec.{ok}
use agent_handshake_protocol.Core.Address.{AgentAddress}
use agent_handshake_protocol.Core.Pattern.{AddressPattern, field_matches}
use agent_handshake_protocol.Core.Pattern
use agent_handshake_protocol.Adapters.ToolAddress.{ToolAddress, str, validate, derived_allowed_for}
use agent_handshake_protocol.Adapters.ToolRegistry.{
  Tool, ToolBinding, allowed, has_tag, register_at, bindings_for_address,
}
use agent_handshake_protocol.Adapters.Access.{derived_allowed_for-matches}

module _ (A : Type 0) where
  -- whether an agent sees a tool
  abbrev pub is_visible : AgentAddress → Option (List String) → ToolBinding A → Bool
  is_visible a tags b = Pattern.matches b.allowed_for a && has_tag tags b.tags

  bindings-insert :
      (k : String) (b : ToolBinding A) (a : AgentAddress) (tags : Option (List String))
      (d : Dict (ToolBinding A))
      → lookup k d ≡ none
      → bindings_for_address A a tags (insert k b d)
        ≡ bindings_for_address A a tags d ++ (if is_visible a tags b then b ∷ [] else [])
  unfolding bindings_for_address insert lookup
  bindings-insert k b a tags [] h = ground arith
  bindings-insert k b a tags ((j, c) ∷ d) h = elim (Bool-cases (j == k)) [
    | inl e ↦ absurd (ground arith)
    | inr e ↦
        let rest = bindings-insert k b a tags d (rw e at h) in
        elim (Bool-cases (Pattern.matches c.allowed_for a)) [
          | inr barred ↦ rw (e, bindings_for_address, barred) rest
          | inl let_in ↦ elim (Bool-cases (has_tag tags c.tags)) [
            | inr untagged ↦ rw (e, bindings_for_address, let_in, untagged) rest
            | inl tagged ↦ rw (e, bindings_for_address, let_in, tagged) (ap (λ l. c ∷ l) rest)
          ]
        ]
  ]

  -- A tool that is registered at a free valid address, with nothing said of who may use it, is seen
  -- after the others by the agents of its scope and role, where a wildcard stands for any, that ask
  -- for no tags at all or for a list with at least one of its tags, and by no other; what else an
  -- agent sees is as before.
  pub register-visible :
      (t : ToolAddress) (tool : Tool A) (tags : List String) (d : Dict (ToolBinding A))
      (a : AgentAddress) (asked : Option (List String))
      → validate t ≡ ok t
      → lookup (str t) d ≡ none
      → bindings_for_address A a asked (register_at A t tool none tags d).1
        ≡ bindings_for_address A a asked d
          ++ (if (field_matches t.scope a.org && field_matches t.role a.role) && has_tag asked tags
              then (record {
                address = t;
                tool = tool;
                allowed_for = derived_allowed_for t;
                tags = tags;
              })
                ∷ []
              else [])
  unfolding register_at allowed
  register-visible t tool tags d a asked valid free =
      let b : ToolBinding A = record {
        address = t;
        tool = tool;
        allowed_for = derived_allowed_for t;
        tags = tags;
      } in
      rw (register_at, valid, free)
        (bindings-insert (str t) b a asked d free
          ∙ ap
              (λ v.
                bindings_for_address A a asked d
                ++ (if v && has_tag asked tags then b ∷ [] else []))
              (derived_allowed_for-matches t
                (record { scope = ""; kind = ""; domain = ""; subdomain = ""; name = "" }) a).0)
