-- ===== src/Formats/Shape.antt =====
-- ahp/adapters/formats.py: `TerminationRule`, `Format`, its validation and its turn tests. A graph
-- builder is given by the turns that its linear graph goes through.
use agent_handshake_protocol.Prelude.{
  ℕ, String, Bool, true, false, ◌&&◌, not, Option, none, some, List, [], ◌∷◌, if◌then◌else◌,
}
use agent_handshake_protocol.Prelude.Dict.{Dict, lookup}
use agent_handshake_protocol.Prelude.Lists.{contains, all}

pub data CountStrategy : Type 0 where
  as_requested force_one : CountStrategy

pub data RoundKind : Type 0 where
  broadcast sequential_probes skip : RoundKind

pub data RecipeKind : Type 0 where
  legacy_session turn_sequence : RecipeKind

pub data TerminationKind : Type 0 where
  counter signal never convergence : TerminationKind

pub record TerminationRule : Type 0 where
  pub kind : TerminationKind
  pub max_turns : ℕ
  pub signal_codes : List String
  pub description : String

pub record Format : Type 0 where
  pub name : String
  pub description : String
  pub code : Option String
  pub role : String
  pub round1_recipe : Option String
  pub round2_recipe : Option String
  pub closing_recipe : Option String
  pub count_strategy : CountStrategy
  pub round2_kind : RoundKind
  pub closing_kind : RoundKind
  pub probe_count : ℕ
  pub mode_hint : String
  pub recipe_kind : RecipeKind
  pub turn_primitives : List String
  pub role_set : List String
  pub role_turn_permissions : Dict (List String)
  pub termination_rule : TerminationRule
  pub invariants_prompt : String
  pub graph_builder : Option (List String)

-- the defaults of the fields
abbrev pub new_format : String → String → Format
new_format name description = record {
  name = name;
  description = description;
  code = none;
  role = "*";
  round1_recipe = none;
  round2_recipe = none;
  closing_recipe = none;
  count_strategy = as_requested;
  round2_kind = broadcast;
  closing_kind = broadcast;
  probe_count = 3;
  mode_hint = "";
  recipe_kind = legacy_session;
  turn_primitives = [];
  role_set = [];
  role_turn_permissions = [];
  termination_rule = record { kind = counter; max_turns = 16; signal_codes = []; description = "" };
  invariants_prompt = "";
  graph_builder = none;
}

pub data FormatError : Type 0 where
  no_code no_round1_recipe no_turn_primitives no_role_set unknown_role extra_turns : FormatError

abbrev pub is_nil {ℓ} : {A : Type ℓ} → List A → Bool
is_nil [] = true
is_nil (_ ∷ _) = false

-- the first loop over `role_turn_permissions`
unfoldable pub roles_known : List String → Dict (List String) → Bool
unfolding contains
roles_known role_set [] = true
roles_known role_set ((role, _) ∷ rest) = contains role role_set && roles_known role_set rest

-- the second loop: no permitted turn is outside `turn_primitives`
unfoldable pub turns_known : List String → Dict (List String) → Bool
unfolding contains all
turns_known turn_primitives [] = true
turns_known turn_primitives ((_, turns) ∷ rest) =
    all (λ t. contains t turn_primitives) turns && turns_known turn_primitives rest

-- `Format.__post_init__`; `none` is a format that is accepted
unfoldable pub post_init : Format → Option FormatError
unfolding roles_known turns_known
post_init f = elim f.recipe_kind [
  | legacy_session ↦ elim f.code [
    | none ↦ some no_code
    | some _ ↦ elim f.round1_recipe [ none ↦ some no_round1_recipe | some _ ↦ none ]
  ]
  | turn_sequence ↦
      if is_nil f.turn_primitives
      then some no_turn_primitives
      else if is_nil f.role_set
      then some no_role_set
      else if not (roles_known f.role_set f.role_turn_permissions)
      then some unknown_role
      else if not (turns_known f.turn_primitives f.role_turn_permissions)
      then some extra_turns
      else none
]

unfoldable pub is_turn_legal : Format → (role turn_code : String) → Bool
unfolding lookup contains
is_turn_legal f role turn_code =
    if is_nil f.role_turn_permissions then true else elim (lookup role f.role_turn_permissions) [
      | none ↦ false
      | some permitted ↦ contains turn_code permitted
    ]

unfoldable pub is_turn_in_format : Format → (turn_code : String) → Bool
unfolding contains
is_turn_in_format f turn_code = elim f.recipe_kind [
  | legacy_session ↦ true
  | turn_sequence ↦ contains turn_code f.turn_primitives
]
