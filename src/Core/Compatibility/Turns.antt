-- ===== src/Core/Compatibility/Turns.antt =====
-- ahp/core/compatibility.py, `CODE_REQUIREMENTS` of the turn primitives.
use agent_handshake_protocol.Prelude.{String, [], ◌∷◌}
use agent_handshake_protocol.Prelude.Dict.{Dict}
use agent_handshake_protocol.Core.Codes.Turns.{
  turn_ack, turn_advance, turn_amplify, turn_answer, turn_aporia, turn_appeal, turn_ask,
  turn_assert, turn_back_or_qualify, turn_bridge, turn_carnivalize, turn_challenge_warrant,
  turn_check, turn_claim, turn_clarify, turn_commit, turn_confirm, turn_connect, turn_consolidate,
  turn_contest, turn_couple, turn_decide, turn_disclose, turn_discuss, turn_elicit, turn_encounter,
  turn_execute, turn_explore_options, turn_expose_contradiction, turn_extend, turn_fuse,
  turn_hear_a, turn_hear_b, turn_hypothesize, turn_identify_binary, turn_instruct, turn_integrate,
  turn_interpret, turn_interrogate, turn_interrupt, turn_invert, turn_layer, turn_leave_open,
  turn_listen, turn_mirror, turn_move, turn_negate, turn_offer, turn_open, turn_position,
  turn_present, turn_probe, turn_problematize, turn_propose, turn_rebut, turn_recalibrate,
  turn_receive, turn_reciprocate, turn_recognize, turn_reconstruct, turn_recurse, turn_reflect,
  turn_reframe, turn_report, turn_respond, turn_responsibility, turn_retell, turn_reterritorialize,
  turn_revise, turn_revoice, turn_riff, turn_rupture, turn_scaffold, turn_show_aporia,
  turn_state_interest, turn_support, turn_surface_mismatch, turn_sustain, turn_sustain_tension,
  turn_synthesize, turn_tell, turn_test, turn_trade, turn_validate, turn_voice, turn_weave,
  turn_weigh, turn_witness,
}

unfoldable pub turn_requirements : Dict String
turn_requirements =
    (turn_ack, "sj")
    ∷ (turn_advance, "sj")
    ∷ (turn_amplify, "sj")
    ∷ (turn_answer, "sj")
    ∷ (turn_aporia, "sj")
    ∷ (turn_appeal, "sj")
    ∷ (turn_ask, "sj")
    ∷ (turn_assert, "sj")
    ∷ (turn_back_or_qualify, "sj")
    ∷ (turn_bridge, "sj")
    ∷ (turn_carnivalize, "sj")
    ∷ (turn_challenge_warrant, "sj")
    ∷ (turn_check, "sj")
    ∷ (turn_claim, "sj")
    ∷ (turn_clarify, "sj")
    ∷ (turn_commit, "j")
    ∷ (turn_confirm, "sj")
    ∷ (turn_connect, "sj")
    ∷ (turn_consolidate, "sj")
    ∷ (turn_contest, "sj")
    ∷ (turn_couple, "sj")
    ∷ (turn_decide, "j")
    ∷ (turn_disclose, "sj")
    ∷ (turn_discuss, "sj")
    ∷ (turn_elicit, "sj")
    ∷ (turn_encounter, "sj")
    ∷ (turn_execute, "j")
    ∷ (turn_explore_options, "sj")
    ∷ (turn_expose_contradiction, "sj")
    ∷ (turn_extend, "sj")
    ∷ (turn_fuse, "sj")
    ∷ (turn_hear_a, "sj")
    ∷ (turn_hear_b, "sj")
    ∷ (turn_hypothesize, "sj")
    ∷ (turn_identify_binary, "sj")
    ∷ (turn_instruct, "sj")
    ∷ (turn_integrate, "sj")
    ∷ (turn_interpret, "sj")
    ∷ (turn_interrogate, "sj")
    ∷ (turn_interrupt, "sj")
    ∷ (turn_invert, "sj")
    ∷ (turn_layer, "sj")
    ∷ (turn_leave_open, "sj")
    ∷ (turn_listen, "sj")
    ∷ (turn_mirror, "sj")
    ∷ (turn_move, "sj")
    ∷ (turn_negate, "sj")
    ∷ (turn_offer, "sj")
    ∷ (turn_open, "sj")
    ∷ (turn_position, "sj")
    ∷ (turn_present, "sj")
    ∷ (turn_probe, "sj")
    ∷ (turn_problematize, "sj")
    ∷ (turn_propose, "sj")
    ∷ (turn_rebut, "sj")
    ∷ (turn_recalibrate, "sj")
    ∷ (turn_receive, "sj")
    ∷ (turn_reciprocate, "sj")
    ∷ (turn_recognize, "sj")
    ∷ (turn_reconstruct, "sj")
    ∷ (turn_recurse, "sj")
    ∷ (turn_reflect, "sj")
    ∷ (turn_reframe, "sj")
    ∷ (turn_report, "j")
    ∷ (turn_respond, "sj")
    ∷ (turn_responsibility, "sj")
    ∷ (turn_retell, "sj")
    ∷ (turn_reterritorialize, "sj")
    ∷ (turn_revise, "sj")
    ∷ (turn_revoice, "sj")
    ∷ (turn_riff, "sj")
    ∷ (turn_rupture, "sj")
    ∷ (turn_scaffold, "sj")
    ∷ (turn_show_aporia, "sj")
    ∷ (turn_state_interest, "sj")
    ∷ (turn_support, "sj")
    ∷ (turn_surface_mismatch, "sj")
    ∷ (turn_sustain, "sj")
    ∷ (turn_sustain_tension, "sj")
    ∷ (turn_synthesize, "sj")
    ∷ (turn_tell, "sj")
    ∷ (turn_test, "sj")
    ∷ (turn_trade, "j")
    ∷ (turn_validate, "sj")
    ∷ (turn_voice, "sj")
    ∷ (turn_weave, "sj")
    ∷ (turn_weigh, "sj")
    ∷ (turn_witness, "sj")
    ∷ []
