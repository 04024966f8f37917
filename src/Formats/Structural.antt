-- ===== src/Formats/Structural.antt =====
-- ahp/adapters/game_modes.py: the structural game modes.
use agent_handshake_protocol.Prelude.{some, [], ◌∷◌}
use agent_handshake_protocol.Core.Codes.Turns.{
  turn_ack, turn_advance, turn_bridge, turn_check, turn_execute, turn_extend, turn_hear_a,
  turn_hear_b, turn_instruct, turn_integrate, turn_present, turn_propose, turn_reframe, turn_report,
  turn_riff, turn_scaffold,
}
use agent_handshake_protocol.Formats.Shape.{Format, new_format, counter, signal, turn_sequence}

unfoldable pub directive : Format
directive = record (new_format "directive" "Hierarchical instruction; no debate.") {
  recipe_kind = turn_sequence;
  turn_primitives = turn_instruct ∷ turn_ack ∷ turn_execute ∷ turn_report ∷ [];
  role_set = "commander" ∷ "executor" ∷ [];
  role_turn_permissions =
      ("commander", turn_instruct ∷ [])
      ∷ ("executor", turn_ack ∷ turn_execute ∷ turn_report ∷ [])
      ∷ [];
  termination_rule = record {
    kind = signal;
    max_turns = 16;
    signal_codes = turn_report ∷ [];
    description = "Report accepted.";
  };
  invariants_prompt =
      "Directive / command. The executor may request clarification but does not debate. Execution is expected unless the executor signals inability (not unwillingness). Report closes the loop.";
  graph_builder = some (turn_instruct ∷ turn_ack ∷ turn_execute ∷ turn_report ∷ []);
}

unfoldable pub co_creative : Format
co_creative = record (new_format "co-creative" "Build a shared artifact together.") {
  recipe_kind = turn_sequence;
  turn_primitives = turn_propose ∷ turn_extend ∷ turn_riff ∷ turn_integrate ∷ [];
  role_set = "creator" ∷ [];
  role_turn_permissions =
      ("creator", turn_propose ∷ turn_extend ∷ turn_riff ∷ turn_integrate ∷ []) ∷ [];
  termination_rule = record {
    kind = counter;
    max_turns = 16;
    signal_codes = [];
    description = "Artifact reaches completeness or participants stop.";
  };
  invariants_prompt =
      "Co-creation. The shared artifact is the first-class object, not the dialogue. Contributions build on each other — no erasure without consent. Riffing (unexpected directions) is encouraged. No ownership of individual contributions once integrated.";
  graph_builder = some (turn_propose ∷ turn_extend ∷ turn_riff ∷ turn_integrate ∷ []);
}

unfoldable pub pedagogical : Format
pedagogical =
    record (new_format "pedagogical" "Instructor structures knowledge transfer to learner.") {
      recipe_kind = turn_sequence;
      turn_primitives = turn_present ∷ turn_check ∷ turn_scaffold ∷ turn_advance ∷ [];
      role_set = "instructor" ∷ "learner" ∷ [];
      role_turn_permissions =
          ("instructor", turn_present ∷ turn_check ∷ turn_scaffold ∷ turn_advance ∷ [])
          ∷ ("learner", turn_check ∷ [])
          ∷ [];
      termination_rule = record {
        kind = counter;
        max_turns = 12;
        signal_codes = [];
        description = "Learner demonstrates competence at target level.";
      };
      invariants_prompt =
          "Pedagogical / instructional. The instructor has a model of the learner's current understanding (zone of proximal development). Scaffolding adjusts difficulty based on comprehension checks. Instructor asserts knowledge (distinguishes from Socratic).";
      graph_builder = some (turn_present ∷ turn_check ∷ turn_scaffold ∷ turn_advance ∷ []);
    }

unfoldable pub mediation : Format
mediation =
    record (new_format "mediation" "Third party facilitates resolution between two parties.") {
      recipe_kind = turn_sequence;
      turn_primitives = turn_hear_a ∷ turn_hear_b ∷ turn_reframe ∷ turn_bridge ∷ [];
      role_set = "mediator" ∷ "party-a" ∷ "party-b" ∷ [];
      role_turn_permissions =
          ("mediator", turn_hear_a ∷ turn_hear_b ∷ turn_reframe ∷ turn_bridge ∷ [])
          ∷ ("party-a", [])
          ∷ ("party-b", [])
          ∷ [];
      termination_rule = record {
        kind = signal;
        max_turns = 16;
        signal_codes = turn_bridge ∷ [];
        description = "Mediator establishes a bridge between positions.";
      };
      invariants_prompt =
          "Mediation. Triadic structure. The mediator hears each party in turn, reframes positions in language acceptable to both, and builds a bridge across the gap. The mediator does not take a side.";
      graph_builder = some (turn_hear_a ∷ turn_hear_b ∷ turn_reframe ∷ turn_bridge ∷ []);
    }
