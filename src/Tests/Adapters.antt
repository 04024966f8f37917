-- ===== src/Tests/Adapters.antt =====
-- The registry of tools at a concrete input.
use agent_handshake_protocol.Prelude.{ℕ, ◌≡◌, refl, ◌&&◌, none, some, [], ◌∷◌, ◌++◌, if◌then◌else◌}
use agent_handshake_protocol.Prelude.Lists.{any}
use agent_handshake_protocol.Prelude.Dict.{lookup}
use agent_handshake_protocol.Prelude.Text.{has, is_empty}
use agent_handshake_protocol.Core.Pattern.{field_matches}
use agent_handshake_protocol.Adapters.ToolAddress.{
  ToolAddress, validate_field, first_error, derived_allowed_for,
}
use agent_handshake_protocol.Adapters.ToolRegistry.{
  Tool, register_at, bindings_for_address, has_tag,
}
use agent_handshake_protocol.Adapters.ToolRegistry.Visible.{register-visible}
use agent_handshake_protocol.Tests.Core.{analyst}

-- a search for the analysts of everybody
abbrev pub search_filings : ToolAddress
search_filings = record {
  scope = "*";
  kind = "api";
  role = "analyst";
  category = "search";
  operation = "filings";
}

abbrev pub filings : Tool ℕ
filings = record { name = "filings"; description = "searches filings"; handler = 7 }

register-visible_example :
    bindings_for_address ℕ analyst
      (some ("risk" ∷ []))
      (register_at ℕ search_filings filings none ("risk" ∷ []) []).1
    ≡ bindings_for_address ℕ analyst (some ("risk" ∷ [])) []
      ++ (if (field_matches search_filings.scope analyst.org
              && field_matches search_filings.role analyst.role)
            && has_tag (some ("risk" ∷ [])) ("risk" ∷ [])
          then (record {
            address = search_filings;
            tool = filings;
            allowed_for = derived_allowed_for search_filings;
            tags = "risk" ∷ [];
          })
            ∷ []
          else [])
unfolding first_error validate_field any has is_empty lookup
register-visible_example =
    register-visible ℕ search_filings filings ("risk" ∷ []) [] analyst (some ("risk" ∷ [])) refl
      refl
