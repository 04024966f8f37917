-- ===== src/Adapters/ToolRegistry.antt =====
-- ahp/adapters/tool_registry.py: `ToolRegistry`. A tool's handler is of any type, its schema is left
-- out, and `own_name` and `own_text` are what the function has for a name and for a description.
pub mod Visible
use agent_handshake_protocol.Prelude.{
  String, Bool, true, false, not, ◌&&◌, Option, none, some, List, [], ◌∷◌, is_some, if◌then◌else◌,
}
use agent_handshake_protocol.Prelude.Dict.{Dict, lookup, insert, erase}
use agent_handshake_protocol.Prelude.Exec.{Result, ok, err}
use agent_handshake_protocol.Prelude.Lists.{any, contains}
use agent_handshake_protocol.Prelude.Text.{is_empty}
use agent_handshake_protocol.Core.Address.{AgentAddress}
use agent_handshake_protocol.Core.Pattern.{AddressPattern, PatternError, parse}
use agent_handshake_protocol.Core.Pattern
use agent_handshake_protocol.Adapters.Groups.{PatternArgument, given, text}
use agent_handshake_protocol.Adapters.ToolAddress.{
  ToolAddress, FieldError, first_error, fields, str, validate, derived_allowed_for,
}

pub data ToolError : Type 0 where
  bad_address : FieldError → ToolError
  bad_pattern : PatternError → ToolError
  already_registered : ToolError

-- `name or default`
abbrev pub or_else : Option String → String → String
or_else none default = default
or_else (some s) default = if is_empty s then default else s

abbrev pub lift_pattern : Result PatternError AddressPattern → Result ToolError AddressPattern
lift_pattern (ok p) = ok p
lift_pattern (err e) = err (bad_pattern e)

-- the pattern of the agents that are allowed
unfoldable pub allowed : ToolAddress → Option PatternArgument → Result ToolError AddressPattern
unfolding parse
allowed address none = ok (derived_allowed_for address)
allowed address (some (given p)) = ok p
allowed address (some (text s)) = lift_pattern (parse s)

-- `tag_set & binding.tags`, if tags are asked for
unfoldable pub has_tag : Option (List String) → List String → Bool
unfolding any contains
has_tag none tags = true
has_tag (some asked) tags = any (λ tag. contains tag tags) asked

module _ (A : Type 0) where
  pub record Tool : Type 0 where
    pub name : String
    pub description : String
    pub handler : A

  pub record ToolBinding : Type 0 where
    pub address : ToolAddress
    pub tool : Tool
    pub allowed_for : AddressPattern
    pub tags : List String

  -- `register`, at an address that has its operation
  unfoldable pub register_at :
      ToolAddress
      → Tool
      → (allowed_for : Option PatternArgument) (tags : List String) → Dict ToolBinding
      → Result ToolError ToolBinding × Dict ToolBinding
  unfolding first_error str lookup insert allowed
  register_at address tool allowed_for tags bindings = elim (validate address) [
    | err e ↦ (err (bad_address e), bindings)
    | ok _ ↦
        if is_some (lookup (str address) bindings)
        then (err already_registered, bindings)
        else elim (allowed address allowed_for) [
          | err e ↦ (err e, bindings)
          | ok p ↦
              let binding : ToolBinding = record {
                address = address;
                tool = tool;
                allowed_for = p;
                tags = tags;
              } in
              (ok binding, insert (str address) binding bindings)
        ]
  ]

  -- `unregister`
  unfoldable pub unregister : (address : String) → Dict ToolBinding → Bool × Dict ToolBinding
  unfolding lookup erase
  unregister address bindings = (is_some (lookup address bindings), erase address bindings)

  -- `binding_at`; `none` is the KeyError
  unfoldable pub binding_at : (address : String) → Dict ToolBinding → Option ToolBinding
  unfolding lookup
  binding_at address bindings = lookup address bindings

  -- `bindings_for_address`
  unfoldable pub bindings_for_address :
      AgentAddress → (tags : Option (List String)) → Dict ToolBinding → List ToolBinding
  unfolding Pattern.matches has_tag
  bindings_for_address a tags [] = []
  bindings_for_address a tags ((_, b) ∷ bindings) =
      let rest = bindings_for_address a tags bindings in
      if not (Pattern.matches b.allowed_for a)
      then rest
      else if not (has_tag tags b.tags)
      then rest
      else b ∷ rest

  -- `for_address`
  unfoldable pub for_address :
      AgentAddress → (tags : Option (List String)) → Dict ToolBinding → List Tool
  unfolding Pattern.matches has_tag
  for_address a tags [] = []
  for_address a tags ((_, b) ∷ bindings) =
      let rest = for_address a tags bindings in
      if not (Pattern.matches b.allowed_for a)
      then rest
      else if not (has_tag tags b.tags)
      then rest
      else b.tool ∷ rest

-- `register`, of a function with its name and the first line of its text, if it has one
unfoldable pub register :
    {A : Type 0}
    → (handler : A) (own_name : String) (own_text : Option String)
    → (scope kind role category : String) (operation description : Option String)
    → (allowed_for : Option PatternArgument) (tags : List String) → Dict (ToolBinding A)
    → Result ToolError (ToolBinding A) × Dict (ToolBinding A)
unfolding register_at is_empty
register {A} handler own_name own_text scope kind role category operation description allowed_for
      tags bindings =
    let op = or_else operation own_name in
    let address : ToolAddress = record {
      scope = scope;
      kind = kind;
      role = role;
      category = category;
      operation = op;
    } in
    let tool : Tool A = record {
      name = op;
      description = or_else description (or_else own_text op);
      handler = handler;
    } in
    register_at A address tool allowed_for tags bindings
