-- ===== src/Formats/Philosophical.antt =====
-- ahp/adapters/game_modes.py: the philosophical game modes, up to coordinative.
use agent_handshake_protocol.Prelude.{some, [], ◌∷◌}
use agent_handshake_protocol.Core.Codes.Turns.{
  turn_assert, turn_carnivalize, turn_connect, turn_couple, turn_disclose, turn_fuse,
  turn_identify_binary, turn_interpret, turn_interrogate, turn_invert, turn_layer, turn_move,
  turn_negate, turn_recalibrate, turn_recurse, turn_reterritorialize, turn_revise, turn_revoice,
  turn_rupture, turn_show_aporia, turn_surface_mismatch, turn_synthesize, turn_voice,
}
use agent_handshake_protocol.Formats.Shape.{
  Format, new_format, convergence, counter, never, signal, turn_sequence,
}

unfoldable pub dialectical : Format
dialectical =
    record (new_format "dialectical" "Resolve disagreement through opposition + synthesis.") {
      recipe_kind = turn_sequence;
      turn_primitives = turn_assert ∷ turn_negate ∷ turn_synthesize ∷ turn_recurse ∷ [];
      role_set = "thesis" ∷ "antithesis" ∷ [];
      role_turn_permissions =
          ("thesis", turn_assert ∷ turn_synthesize ∷ turn_recurse ∷ [])
          ∷ ("antithesis", turn_negate ∷ turn_synthesize ∷ turn_recurse ∷ [])
          ∷ [];
      termination_rule = record {
        kind = convergence;
        max_turns = 8;
        signal_codes = [];
        description = "Synthesis fails to add info gain over previous round.";
      };
      invariants_prompt =
          "Hegelian dialectic. Antithesis must share thesis's ontological commitments but invert the key predicate. Synthesis preserves determinate content from both. Recursive — synthesis becomes new thesis. Convergence is structurally guaranteed.";
      graph_builder = some (turn_assert ∷ turn_negate ∷ turn_synthesize ∷ turn_recurse ∷ []);
    }

unfoldable pub hermeneutic : Format
hermeneutic =
    record (new_format "hermeneutic" "Resolve mutual incomprehension via horizon fusion.") {
      recipe_kind = turn_sequence;
      turn_primitives = turn_disclose ∷ turn_interrogate ∷ turn_revise ∷ turn_fuse ∷ [];
      role_set = "party-a" ∷ "party-b" ∷ [];
      role_turn_permissions =
          ("party-a", turn_disclose ∷ turn_interrogate ∷ turn_revise ∷ turn_fuse ∷ [])
          ∷ ("party-b", turn_disclose ∷ turn_interrogate ∷ turn_revise ∷ turn_fuse ∷ [])
          ∷ [];
      termination_rule = record {
        kind = convergence;
        max_turns = 10;
        signal_codes = [];
        description = "Diminishing marginal understanding.";
      };
      invariants_prompt =
          "Gadamerian hermeneutics. Each party maintains a private horizon. Interrogation targets horizon boundaries, not propositional content. Revision EXPANDS the horizon — never contracts. Fusion produces a new horizon encompassing both without collapsing distinctness. No winner; success = both parties see what the other sees.";
      graph_builder = some (turn_disclose ∷ turn_interrogate ∷ turn_revise ∷ turn_fuse ∷ []);
    }

unfoldable pub deconstructive : Format
deconstructive =
    record (new_format "deconstructive"
      "Surface hidden assumptions; destabilize stable structures.") {
        recipe_kind = turn_sequence;
        turn_primitives = turn_assert ∷ turn_identify_binary ∷ turn_invert ∷ turn_show_aporia ∷ [];
        role_set = "asserter" ∷ "deconstructor" ∷ [];
        role_turn_permissions =
            ("asserter", turn_assert ∷ [])
            ∷ ("deconstructor", turn_identify_binary ∷ turn_invert ∷ turn_show_aporia ∷ [])
            ∷ [];
        termination_rule = record {
          kind = signal;
          max_turns = 16;
          signal_codes = turn_show_aporia ∷ [];
          description = "Trace graph reaches connectivity threshold.";
        };
        invariants_prompt =
            "Derridean deconstruction. Target is the structure underneath the claim, not the claim itself. Identify the dominant/subordinate binary opposition. Show the subordinate term is necessary to the dominant. Demonstrate hierarchy is undecidable. ANTI-convergence: any turn that produces closure is penalized.";
        graph_builder =
            some (turn_assert ∷ turn_identify_binary ∷ turn_invert ∷ turn_show_aporia ∷ []);
      }

unfoldable pub rhizomatic : Format
rhizomatic = record (new_format "rhizomatic" "Generative exploration via lateral connection.") {
  recipe_kind = turn_sequence;
  turn_primitives = turn_connect ∷ turn_couple ∷ turn_rupture ∷ turn_reterritorialize ∷ [];
  role_set = "explorer" ∷ [];
  role_turn_permissions =
      ("explorer", turn_connect ∷ turn_couple ∷ turn_rupture ∷ turn_reterritorialize ∷ []) ∷ [];
  termination_rule = record {
    kind = counter;
    max_turns = 12;
    signal_codes = [];
    description = "Reach a new plateau (sustained entropy band).";
  };
  invariants_prompt =
      "Deleuze & Guattari rhizomatic exploration. No hierarchy among connections. Heterogeneous coupling across registers (code ↔ metaphor ↔ politics ↔ music). Rupture is productive — deliberately break connections to force reterritorialization elsewhere. Penalize stratification; reward productive novelty.";
  graph_builder = some (turn_connect ∷ turn_couple ∷ turn_rupture ∷ turn_reterritorialize ∷ []);
}

unfoldable pub polyphonic : Format
polyphonic = record (new_format "polyphonic" "Hold multiple perspectives without collapsing.") {
  recipe_kind = turn_sequence;
  turn_primitives = turn_voice ∷ turn_revoice ∷ turn_carnivalize ∷ turn_layer ∷ [];
  role_set = "voice" ∷ [];
  role_turn_permissions =
      ("voice", turn_voice ∷ turn_revoice ∷ turn_carnivalize ∷ turn_layer ∷ []) ∷ [];
  termination_rule = record {
    kind = never;
    max_turns = 16;
    signal_codes = [];
    description = "Extract at any point as a chronotope.";
  };
  invariants_prompt =
      "Bakhtinian polyphony. Each agent speaks in a distinct speech genre/register. Voicing includes anticipated response (double-voiced). Carnivalization restates content in a different register to expose embedded assumptions. Penalize monologization. Maximize heteroglossia.";
  graph_builder = some (turn_voice ∷ turn_revoice ∷ turn_carnivalize ∷ turn_layer ∷ []);
}

unfoldable pub coordinative : Format
coordinative = record (new_format "coordinative" "Diagnose what game agents are even playing.") {
  recipe_kind = turn_sequence;
  turn_primitives = turn_move ∷ turn_interpret ∷ turn_surface_mismatch ∷ turn_recalibrate ∷ [];
  role_set = "party-a" ∷ "party-b" ∷ [];
  role_turn_permissions =
      ("party-a", turn_move ∷ turn_interpret ∷ turn_surface_mismatch ∷ turn_recalibrate ∷ [])
      ∷ ("party-b", turn_move ∷ turn_interpret ∷ turn_surface_mismatch ∷ turn_recalibrate ∷ [])
      ∷ [];
  termination_rule = record {
    kind = signal;
    max_turns = 16;
    signal_codes = turn_recalibrate ∷ [];
    description = "Game boundary detected via distributional shift.";
  };
  invariants_prompt =
      "Wittgensteinian coordination diagnosis. Each agent maintains a private game specification. Agent B interprets A's move under B's rules. Success is behavioral coordination despite potential semantic incommensurability.";
  graph_builder = some (turn_move ∷ turn_interpret ∷ turn_surface_mismatch ∷ turn_recalibrate ∷ []);
}
