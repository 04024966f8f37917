-- ===== src/Core/Codes/Turns.antt =====
-- ahp/core/codes.py, class `Code`: the turn primitives.
use agent_handshake_protocol.Prelude.{String, List, [], ◌∷◌}

abbrev pub turn_ack : String
turn_ack = "turn.acknowledge"

abbrev pub turn_advance : String
turn_advance = "turn.advance"

abbrev pub turn_amplify : String
turn_amplify = "turn.amplify"

abbrev pub turn_answer : String
turn_answer = "turn.answer"

abbrev pub turn_aporia : String
turn_aporia = "turn.aporia"

abbrev pub turn_appeal : String
turn_appeal = "turn.appeal"

abbrev pub turn_ask : String
turn_ask = "turn.ask"

abbrev pub turn_assert : String
turn_assert = "turn.assert"

abbrev pub turn_back_or_qualify : String
turn_back_or_qualify = "turn.back-or-qualify"

abbrev pub turn_bridge : String
turn_bridge = "turn.bridge"

abbrev pub turn_carnivalize : String
turn_carnivalize = "turn.carnivalize"

abbrev pub turn_challenge_warrant : String
turn_challenge_warrant = "turn.challenge-warrant"

abbrev pub turn_check : String
turn_check = "turn.check"

abbrev pub turn_claim : String
turn_claim = "turn.claim"

abbrev pub turn_clarify : String
turn_clarify = "turn.clarify"

abbrev pub turn_commit : String
turn_commit = "turn.commit"

abbrev pub turn_confirm : String
turn_confirm = "turn.confirm"

abbrev pub turn_connect : String
turn_connect = "turn.connect"

abbrev pub turn_consolidate : String
turn_consolidate = "turn.consolidate"

abbrev pub turn_contest : String
turn_contest = "turn.contest"

abbrev pub turn_couple : String
turn_couple = "turn.couple"

abbrev pub turn_decide : String
turn_decide = "turn.decide"

abbrev pub turn_disclose : String
turn_disclose = "turn.disclose"

abbrev pub turn_discuss : String
turn_discuss = "turn.discuss"

abbrev pub turn_elicit : String
turn_elicit = "turn.elicit"

abbrev pub turn_encounter : String
turn_encounter = "turn.encounter"

abbrev pub turn_execute : String
turn_execute = "turn.execute"

abbrev pub turn_explore_options : String
turn_explore_options = "turn.explore-options"

abbrev pub turn_expose_contradiction : String
turn_expose_contradiction = "turn.expose-contradiction"

abbrev pub turn_extend : String
turn_extend = "turn.extend"

abbrev pub turn_fuse : String
turn_fuse = "turn.fuse"

abbrev pub turn_hear_a : String
turn_hear_a = "turn.hear-a"

abbrev pub turn_hear_b : String
turn_hear_b = "turn.hear-b"

abbrev pub turn_hypothesize : String
turn_hypothesize = "turn.hypothesize"

abbrev pub turn_identify_binary : String
turn_identify_binary = "turn.identify-binary"

abbrev pub turn_instruct : String
turn_instruct = "turn.instruct"

abbrev pub turn_integrate : String
turn_integrate = "turn.integrate"

abbrev pub turn_interpret : String
turn_interpret = "turn.interpret"

abbrev pub turn_interrogate : String
turn_interrogate = "turn.interrogate"

abbrev pub turn_interrupt : String
turn_interrupt = "turn.interrupt"

abbrev pub turn_invert : String
turn_invert = "turn.invert"

abbrev pub turn_layer : String
turn_layer = "turn.layer"

abbrev pub turn_leave_open : String
turn_leave_open = "turn.leave-open"

abbrev pub turn_listen : String
turn_listen = "turn.listen"

abbrev pub turn_mirror : String
turn_mirror = "turn.mirror"

abbrev pub turn_move : String
turn_move = "turn.move"

abbrev pub turn_negate : String
turn_negate = "turn.negate"

abbrev pub turn_offer : String
turn_offer = "turn.offer"

abbrev pub turn_open : String
turn_open = "turn.open"

abbrev pub turn_position : String
turn_position = "turn.position"

abbrev pub turn_present : String
turn_present = "turn.present"

abbrev pub turn_probe : String
turn_probe = "turn.probe"

abbrev pub turn_problematize : String
turn_problematize = "turn.problematize"

abbrev pub turn_propose : String
turn_propose = "turn.propose"

abbrev pub turn_rebut : String
turn_rebut = "turn.rebut"

abbrev pub turn_recalibrate : String
turn_recalibrate = "turn.recalibrate"

abbrev pub turn_receive : String
turn_receive = "turn.receive"

abbrev pub turn_reciprocate : String
turn_reciprocate = "turn.reciprocate"

abbrev pub turn_recognize : String
turn_recognize = "turn.recognize"

abbrev pub turn_reconstruct : String
turn_reconstruct = "turn.reconstruct"

abbrev pub turn_recurse : String
turn_recurse = "turn.recurse"

abbrev pub turn_reflect : String
turn_reflect = "turn.reflect"

abbrev pub turn_reframe : String
turn_reframe = "turn.reframe"

abbrev pub turn_report : String
turn_report = "turn.report"

abbrev pub turn_respond : String
turn_respond = "turn.respond"

abbrev pub turn_responsibility : String
turn_responsibility = "turn.responsibility"

abbrev pub turn_retell : String
turn_retell = "turn.retell"

abbrev pub turn_reterritorialize : String
turn_reterritorialize = "turn.reterritorialize"

abbrev pub turn_revise : String
turn_revise = "turn.revise"

abbrev pub turn_revoice : String
turn_revoice = "turn.revoice"

abbrev pub turn_riff : String
turn_riff = "turn.riff"

abbrev pub turn_rupture : String
turn_rupture = "turn.rupture"

abbrev pub turn_scaffold : String
turn_scaffold = "turn.scaffold"

abbrev pub turn_show_aporia : String
turn_show_aporia = "turn.show-aporia"

abbrev pub turn_state_interest : String
turn_state_interest = "turn.state-interest"

abbrev pub turn_support : String
turn_support = "turn.support"

abbrev pub turn_surface_mismatch : String
turn_surface_mismatch = "turn.surface-mismatch"

abbrev pub turn_sustain : String
turn_sustain = "turn.sustain"

abbrev pub turn_sustain_tension : String
turn_sustain_tension = "turn.sustain-tension"

abbrev pub turn_synthesize : String
turn_synthesize = "turn.synthesize"

abbrev pub turn_tell : String
turn_tell = "turn.tell"

abbrev pub turn_test : String
turn_test = "turn.test"

abbrev pub turn_trade : String
turn_trade = "turn.trade"

abbrev pub turn_validate : String
turn_validate = "turn.validate"

abbrev pub turn_voice : String
turn_voice = "turn.voice"

abbrev pub turn_weave : String
turn_weave = "turn.weave"

abbrev pub turn_weigh : String
turn_weigh = "turn.weigh"

abbrev pub turn_witness : String
turn_witness = "turn.witness"

-- those constants, in the order of the class
abbrev pub turn_codes : List String
turn_codes =
    turn_ack ∷ turn_advance ∷ turn_amplify ∷ turn_answer ∷ turn_aporia ∷ turn_appeal ∷ turn_ask
    ∷ turn_assert ∷ turn_back_or_qualify ∷ turn_bridge ∷ turn_carnivalize ∷ turn_challenge_warrant
    ∷ turn_check ∷ turn_claim ∷ turn_clarify ∷ turn_commit ∷ turn_confirm ∷ turn_connect
    ∷ turn_consolidate ∷ turn_contest ∷ turn_couple ∷ turn_decide ∷ turn_disclose ∷ turn_discuss
    ∷ turn_elicit ∷ turn_encounter ∷ turn_execute ∷ turn_explore_options ∷ turn_expose_contradiction
    ∷ turn_extend ∷ turn_fuse ∷ turn_hear_a ∷ turn_hear_b ∷ turn_hypothesize ∷ turn_identify_binary
    ∷ turn_instruct ∷ turn_integrate ∷ turn_interpret ∷ turn_interrogate ∷ turn_interrupt
    ∷ turn_invert ∷ turn_layer ∷ turn_leave_open ∷ turn_listen ∷ turn_mirror ∷ turn_move
    ∷ turn_negate ∷ turn_offer ∷ turn_open ∷ turn_position ∷ turn_present ∷ turn_probe
    ∷ turn_problematize ∷ turn_propose ∷ turn_rebut ∷ turn_recalibrate ∷ turn_receive
    ∷ turn_reciprocate ∷ turn_recognize ∷ turn_reconstruct ∷ turn_recurse ∷ turn_reflect
    ∷ turn_reframe ∷ turn_report ∷ turn_respond ∷ turn_responsibility ∷ turn_retell
    ∷ turn_reterritorialize ∷ turn_revise ∷ turn_revoice ∷ turn_riff ∷ turn_rupture ∷ turn_scaffold
    ∷ turn_show_aporia ∷ turn_state_interest ∷ turn_support ∷ turn_surface_mismatch ∷ turn_sustain
    ∷ turn_sustain_tension ∷ turn_synthesize ∷ turn_tell ∷ turn_test ∷ turn_trade ∷ turn_validate
    ∷ turn_voice ∷ turn_weave ∷ turn_weigh ∷ turn_witness ∷ []
