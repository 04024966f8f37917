-- ===== src/Formats/Foundational.antt =====
-- ahp/adapters/game_modes.py: the foundational game modes.
use agent_handshake_protocol.Prelude.{some, [], ◌∷◌}
use agent_handshake_protocol.Core.Codes.Turns.{
  turn_ack, turn_amplify, turn_answer, turn_appeal, turn_ask, turn_claim, turn_clarify, turn_commit,
  turn_confirm, turn_consolidate, turn_decide, turn_discuss, turn_elicit, turn_explore_options,
  turn_leave_open, turn_listen, turn_mirror, turn_offer, turn_open, turn_propose, turn_receive,
  turn_reciprocate, turn_reflect, turn_respond, turn_retell, turn_state_interest, turn_support,
  turn_sustain, turn_tell, turn_trade, turn_validate, turn_weave, turn_weigh, turn_witness,
}
use agent_handshake_protocol.Formats.Shape.{Format, new_format, counter, signal, turn_sequence}

unfoldable pub information_exchange : Format
information_exchange =
    record (new_format "information-exchange" "One party has knowledge; the other needs it.") {
      recipe_kind = turn_sequence;
      turn_primitives = turn_ask ∷ turn_answer ∷ turn_clarify ∷ turn_confirm ∷ [];
      role_set = "questioner" ∷ "responder" ∷ [];
      role_turn_permissions =
          ("questioner", turn_ask ∷ turn_clarify ∷ turn_confirm ∷ [])
          ∷ ("responder", turn_answer ∷ [])
          ∷ [];
      termination_rule = record {
        kind = signal;
        max_turns = 16;
        signal_codes = turn_confirm ∷ [];
        description = "Questioner confirms satisfaction or exhausts responder.";
      };
      invariants_prompt =
          "You are in an Information Exchange. The responder is expected to be truthful and relevant (Gricean maxims). No stance-taking required. Success = the questioner's information need is satisfied.";
      graph_builder = some (turn_ask ∷ turn_answer ∷ turn_clarify ∷ turn_confirm ∷ []);
    }

unfoldable pub persuasion : Format
persuasion = record (new_format "persuasion" "Rhetor moves an audience to a position or action.") {
  recipe_kind = turn_sequence;
  turn_primitives = turn_claim ∷ turn_support ∷ turn_appeal ∷ turn_respond ∷ [];
  role_set = "rhetor" ∷ "audience" ∷ [];
  role_turn_permissions =
      ("rhetor", turn_claim ∷ turn_support ∷ turn_appeal ∷ [])
      ∷ ("audience", turn_respond ∷ [])
      ∷ [];
  termination_rule = record {
    kind = signal;
    max_turns = 16;
    signal_codes = turn_respond ∷ [];
    description = "Audience accepts, rejects, or asks to switch modes.";
  };
  invariants_prompt =
      "You are in classical Persuasion. Three concurrent channels: logos (logical argument), ethos (credibility), pathos (emotional resonance). Audience retains right to reject; no expectation of synthesis. One side is trying to win.";
  graph_builder = some (turn_claim ∷ turn_support ∷ turn_appeal ∷ turn_respond ∷ []);
}

unfoldable pub negotiation : Format
negotiation =
    record (new_format "negotiation" "Interest-based agreement on resource allocation or terms.") {
      recipe_kind = turn_sequence;
      turn_primitives = turn_state_interest ∷ turn_explore_options ∷ turn_trade ∷ turn_commit ∷ [];
      role_set = "party-a" ∷ "party-b" ∷ [];
      role_turn_permissions =
          ("party-a", turn_state_interest ∷ turn_explore_options ∷ turn_trade ∷ turn_commit ∷ [])
          ∷ ("party-b", turn_state_interest ∷ turn_explore_options ∷ turn_trade ∷ turn_commit ∷ [])
          ∷ [];
      termination_rule = record {
        kind = signal;
        max_turns = 16;
        signal_codes = turn_commit ∷ [];
        description = "Commitment reached or ZOPA empty.";
      };
      invariants_prompt =
          "Fisher/Ury negotiation. Distinguish positions from underlying interests. BATNA is private; ZOPA is discovered, not declared. Mutual gain, not winner/loser.";
      graph_builder =
          some (turn_state_interest ∷ turn_explore_options ∷ turn_trade ∷ turn_commit ∷ []);
    }

unfoldable pub rogerian : Format
rogerian = record (new_format "rogerian" "Proof-of-listening before earning the right to assert.") {
  recipe_kind = turn_sequence;
  turn_primitives = turn_listen ∷ turn_reflect ∷ turn_validate ∷ turn_respond ∷ [];
  role_set = "speaker" ∷ "respondent" ∷ [];
  role_turn_permissions =
      ("speaker", turn_listen ∷ turn_reflect ∷ [])
      ∷ ("respondent", turn_listen ∷ turn_reflect ∷ turn_validate ∷ turn_respond ∷ [])
      ∷ [];
  termination_rule = record {
    kind = counter;
    max_turns = 8;
    signal_codes = [];
    description = "Both parties feel heard; may transition for resolution.";
  };
  invariants_prompt =
      "Rogerian empathic dialogue. Before responding substantively, restate the other's position to their satisfaction. Validation ≠ agreement — it means \"I understand what you mean and why.\" De-escalation priority. No rebuttal until reflection accepted.";
  graph_builder = some (turn_listen ∷ turn_reflect ∷ turn_validate ∷ turn_respond ∷ []);
}

unfoldable pub deliberative : Format
deliberative =
    record (new_format "deliberative" "Group decision via discussion + declared aggregation.") {
      recipe_kind = turn_sequence;
      turn_primitives = turn_propose ∷ turn_discuss ∷ turn_weigh ∷ turn_decide ∷ [];
      role_set = "participant" ∷ [];
      role_turn_permissions =
          ("participant", turn_propose ∷ turn_discuss ∷ turn_weigh ∷ turn_decide ∷ []) ∷ [];
      termination_rule = record {
        kind = signal;
        max_turns = 16;
        signal_codes = turn_decide ∷ [];
        description = "Decision reached via declared mechanism.";
      };
      invariants_prompt =
          "Group deliberation. Equal speaking rights. All proposals heard before decision. Decision mechanism (majority, consensus, ranked choice) declared upfront. Dissent recorded even after decision.";
      graph_builder = some (turn_propose ∷ turn_discuss ∷ turn_weigh ∷ turn_decide ∷ []);
    }

unfoldable pub narrative : Format
narrative = record (new_format "narrative" "Understanding through story exchange, not argument.") {
  recipe_kind = turn_sequence;
  turn_primitives = turn_tell ∷ turn_witness ∷ turn_retell ∷ turn_weave ∷ [];
  role_set = "teller" ∷ "witness" ∷ [];
  role_turn_permissions =
      ("teller", turn_tell ∷ turn_weave ∷ [])
      ∷ ("witness", turn_witness ∷ turn_retell ∷ turn_weave ∷ [])
      ∷ [];
  termination_rule = record {
    kind = counter;
    max_turns = 8;
    signal_codes = [];
    description = "Shared narrative emerges or felt sense of completion.";
  };
  invariants_prompt =
      "Narrative exchange. Stories are first-class epistemic objects, not illustrations of arguments. Witnessing is active — hold the story without judging. Retelling transforms meaning. Weaving connects stories without reducing them.";
  graph_builder = some (turn_tell ∷ turn_witness ∷ turn_retell ∷ turn_weave ∷ []);
}

unfoldable pub phatic : Format
phatic = record (new_format "phatic" "Maintaining social connection, not exchanging content.") {
  recipe_kind = turn_sequence;
  turn_primitives = turn_open ∷ turn_ack ∷ turn_reciprocate ∷ turn_sustain ∷ [];
  role_set = "party-a" ∷ "party-b" ∷ [];
  role_turn_permissions =
      ("party-a", turn_open ∷ turn_ack ∷ turn_reciprocate ∷ turn_sustain ∷ [])
      ∷ ("party-b", turn_open ∷ turn_ack ∷ turn_reciprocate ∷ turn_sustain ∷ [])
      ∷ [];
  termination_rule = record {
    kind = counter;
    max_turns = 4;
    signal_codes = [];
    description = "Natural close or transition to substantive mode.";
  };
  invariants_prompt =
      "Phatic communion. Content is secondary to relational signal. Brevity is appropriate. Ritual structure (greetings, farewells). Builds trust and rapport over time.";
  graph_builder = some (turn_open ∷ turn_ack ∷ turn_reciprocate ∷ turn_sustain ∷ []);
}

unfoldable pub motivational : Format
motivational =
    record (new_format "motivational" "Help articulate own thinking without directing it.") {
      recipe_kind = turn_sequence;
      turn_primitives = turn_elicit ∷ turn_mirror ∷ turn_amplify ∷ turn_consolidate ∷ [];
      role_set = "guide" ∷ "speaker" ∷ [];
      role_turn_permissions =
          ("guide", turn_elicit ∷ turn_mirror ∷ turn_amplify ∷ [])
          ∷ ("speaker", turn_consolidate ∷ [])
          ∷ [];
      termination_rule = record {
        kind = signal;
        max_turns = 16;
        signal_codes = turn_consolidate ∷ [];
        description = "Speaker reaches self-generated clarity.";
      };
      invariants_prompt =
          "Motivational / reflective. Do not assert, direct, or challenge. Mirror faithfully (what was said, not what should have been said). Amplify implicit reasoning. No exposure of contradiction (distinguishes from Socratic). Speaker retains full ownership.";
      graph_builder = some (turn_elicit ∷ turn_mirror ∷ turn_amplify ∷ turn_consolidate ∷ []);
    }

unfoldable pub invitational : Format
invitational =
    record (new_format "invitational" "Perspective as a gift under safety, value, freedom.") {
      recipe_kind = turn_sequence;
      turn_primitives = turn_offer ∷ turn_receive ∷ turn_ack ∷ turn_leave_open ∷ [];
      role_set = "offerer" ∷ "receiver" ∷ [];
      role_turn_permissions =
          ("offerer", turn_offer ∷ turn_leave_open ∷ [])
          ∷ ("receiver", turn_receive ∷ turn_ack ∷ [])
          ∷ [];
      termination_rule = record {
        kind = signal;
        max_turns = 16;
        signal_codes = turn_leave_open ∷ [];
        description = "Offer acknowledged. No closure required.";
      };
      invariants_prompt =
          "Foss & Griffin invitational rhetoric. No intent to change the other's mind. Three conditions: safety (no penalty for rejection), value (perspective treated as legitimate), freedom (genuine choice). No attachment to uptake; no follow-up pressure.";
      graph_builder = some (turn_offer ∷ turn_receive ∷ turn_ack ∷ turn_leave_open ∷ []);
    }
