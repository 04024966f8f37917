-- ===== src/Formats/Inquiry.antt =====
-- ahp/adapters/game_modes.py: the philosophical game modes, from socratic on.
use agent_handshake_protocol.Prelude.{some, [], ◌∷◌}
use agent_handshake_protocol.Core.Codes.Turns.{
  turn_aporia, turn_back_or_qualify, turn_challenge_warrant, turn_claim, turn_contest, turn_elicit,
  turn_encounter, turn_expose_contradiction, turn_hypothesize, turn_interrupt, turn_position,
  turn_probe, turn_problematize, turn_rebut, turn_recognize, turn_reconstruct, turn_respond,
  turn_responsibility, turn_sustain_tension, turn_test,
}
use agent_handshake_protocol.Formats.Shape.{
  Format, new_format, counter, never, signal, turn_sequence,
}

unfoldable pub socratic : Format
socratic = record (new_format "socratic" "Discover contradictions via pure questioning.") {
  recipe_kind = turn_sequence;
  turn_primitives = turn_elicit ∷ turn_probe ∷ turn_expose_contradiction ∷ turn_aporia ∷ [];
  role_set = "questioner" ∷ "respondent" ∷ [];
  role_turn_permissions =
      ("questioner", turn_elicit ∷ turn_probe ∷ turn_expose_contradiction ∷ [])
      ∷ ("respondent", turn_aporia ∷ [])
      ∷ [];
  termination_rule = record {
    kind = signal;
    max_turns = 16;
    signal_codes = turn_aporia ∷ [];
    description = "Respondent recognizes contradiction or restructures.";
  };
  invariants_prompt =
      "Socratic elenchus. The questioner does NOT assert — only asks. Questions target logical dependencies within the respondent's own stated position. Goal is productive aporia. Questioner must not lead toward a predetermined conclusion (that would be pedagogical, not Socratic).";
  graph_builder = some (turn_elicit ∷ turn_probe ∷ turn_expose_contradiction ∷ turn_aporia ∷ []);
}

unfoldable pub pragmatist : Format
pragmatist =
    record (new_format "pragmatist" "Collaborative hypothesis + test against consequences.") {
      recipe_kind = turn_sequence;
      turn_primitives = turn_problematize ∷ turn_hypothesize ∷ turn_test ∷ turn_reconstruct ∷ [];
      role_set = "inquirer" ∷ [];
      role_turn_permissions =
          ("inquirer", turn_problematize ∷ turn_hypothesize ∷ turn_test ∷ turn_reconstruct ∷ [])
          ∷ [];
      termination_rule = record {
        kind = signal;
        max_turns = 16;
        signal_codes = turn_reconstruct ∷ [];
        description = "Problematic situation reconstructed into determinate.";
      };
      invariants_prompt =
          "Peirce / Dewey pragmatist inquiry. Organized around a SITUATION, not propositions. Hypotheses are abductive. Testing is against consequences, not axioms. Reconstruction transforms the situation, not just beliefs about it. No one wins.";
      graph_builder =
          some (turn_problematize ∷ turn_hypothesize ∷ turn_test ∷ turn_reconstruct ∷ []);
    }

unfoldable pub agonistic : Format
agonistic =
    record (new_format "agonistic" "Legitimate contestation; sustain irreducible value conflict.") {
      recipe_kind = turn_sequence;
      turn_primitives = turn_position ∷ turn_contest ∷ turn_recognize ∷ turn_sustain_tension ∷ [];
      role_set = "adversary" ∷ [];
      role_turn_permissions =
          ("adversary", turn_position ∷ turn_contest ∷ turn_recognize ∷ turn_sustain_tension ∷ [])
          ∷ [];
      termination_rule = record {
        kind = never;
        max_turns = 16;
        signal_codes = [];
        description = "Terminates when tension is adequately articulated.";
      };
      invariants_prompt =
          "Mouffe agonistic dialogue. NO synthesis. Adversaries, not enemies — mutual legitimacy is required. Each party recognizes the other's position as a legitimate stance even while opposing it. Premature consensus is a failure mode (violence through forced agreement). The productive output IS the tension.";
      graph_builder =
          some (turn_position ∷ turn_contest ∷ turn_recognize ∷ turn_sustain_tension ∷ []);
    }

unfoldable pub levinasian : Format
levinasian = record (new_format "levinasian" "Asymmetric responsibility; preserve alterity.") {
  recipe_kind = turn_sequence;
  turn_primitives = turn_encounter ∷ turn_interrupt ∷ turn_respond ∷ turn_responsibility ∷ [];
  role_set = "face" ∷ "respondent" ∷ [];
  role_turn_permissions =
      ("face", turn_encounter ∷ turn_interrupt ∷ [])
      ∷ ("respondent", turn_respond ∷ turn_responsibility ∷ [])
      ∷ [];
  termination_rule = record {
    kind = never;
    max_turns = 16;
    signal_codes = [];
    description = "Responsibility is ongoing. No closure.";
  };
  invariants_prompt =
      "Levinasian ethics. The Face makes a demand by existing; the Respondent cannot assimilate the Face into their framework. The Face's utterance is an interruption of the Respondent's totality, not a contribution to it. Response is ethical obligation, not strategic choice. Treat the human's alterity as irreducible.";
  graph_builder = some (turn_encounter ∷ turn_interrupt ∷ turn_respond ∷ turn_responsibility ∷ []);
}

unfoldable pub toulmin : Format
toulmin = record (new_format "toulmin" "Decompose claims into data, warrant, backing, rebuttal.") {
  recipe_kind = turn_sequence;
  turn_primitives = turn_claim ∷ turn_challenge_warrant ∷ turn_back_or_qualify ∷ turn_rebut ∷ [];
  role_set = "claimant" ∷ "challenger" ∷ [];
  role_turn_permissions =
      ("claimant", turn_claim ∷ turn_back_or_qualify ∷ [])
      ∷ ("challenger", turn_challenge_warrant ∷ turn_rebut ∷ [])
      ∷ [];
  termination_rule = record {
    kind = counter;
    max_turns = 8;
    signal_codes = [];
    description = "All components accepted or rebutted.";
  };
  invariants_prompt =
      "Toulmin argumentation. Every claim decomposes: data (evidence), warrant (inference rule), backing (support for warrant), qualifier (strength/certainty), rebuttal (exceptions). Challenges target specific structural components. Qualification is mandatory — no unqualified claims.";
  graph_builder =
      some (turn_claim ∷ turn_challenge_warrant ∷ turn_back_or_qualify ∷ turn_rebut ∷ []);
}
