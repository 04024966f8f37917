-- ===== src/Formats/Sessions.antt =====
-- ahp/adapters/formats.py: the session formats of FORMATS.
use agent_handshake_protocol.Prelude.{some, none}
use agent_handshake_protocol.Core.Codes.Families.{
  adversarial_challenge, adversarial_debate, collab_consensus, collab_reason, human_explain,
  human_query,
}
use agent_handshake_protocol.Formats.Shape.{Format, new_format, force_one, sequential_probes, skip}

unfoldable pub debate : Format
debate = record (new_format "debate" "Adversarial: stake, attack, rebut, close.") {
  code = some adversarial_debate;
  role = "adversarial";
  round1_recipe = some "adversarial:debate-me";
  round2_recipe = some "adversarial:debate-others";
  closing_recipe = some "adversarial:closing";
  mode_hint = "adversarial debate with critique and closing rounds";
}

unfoldable pub interview_me : Format
interview_me = record (new_format "interview-me" "Solo long-form: one expert, moderator probes.") {
  code = some human_query;
  role = "interview";
  round1_recipe = some "interview:me";
  round2_recipe = some "interview:me-probe";
  closing_recipe = some "interview:me-summary";
  count_strategy = force_one;
  round2_kind = sequential_probes;
  closing_kind = sequential_probes;
  probe_count = 3;
  mode_hint = "long-form one-on-one expert interview";
}

unfoldable pub interview_yall : Format
interview_yall = record (new_format "interview-yall" "Panel openings + a synthesis closing.") {
  code = some human_query;
  role = "interview";
  round1_recipe = some "interview:yall";
  round2_recipe = none;
  closing_recipe = some "interview:yall-synthesize";
  round2_kind = skip;
  mode_hint = "panel of expert perspectives, parallel openings";
}

unfoldable pub interview_eachother : Format
interview_eachother =
    record (new_format "interview-eachother" "Panel openings; peers probe each other.") {
      code = some human_query;
      role = "interview";
      round1_recipe = some "interview:yall";
      round2_recipe = some "interview:eachother";
      closing_recipe = some "interview:eachother-answer";
      mode_hint = "panel of experts who will ask each other follow-ups";
    }

unfoldable pub collaborate_joint : Format
collaborate_joint =
    record (new_format "collaborate-joint" "Joint problem-solving: propose, build, synthesize.") {
      code = some collab_reason;
      role = "collaborate";
      round1_recipe = some "collaborate:joint-propose";
      round2_recipe = some "collaborate:joint-build-on";
      closing_recipe = some "collaborate:joint-synthesize";
      mode_hint = "team of collaborators solving a shared problem together";
    }

unfoldable pub collaborate_role : Format
collaborate_role =
    record (new_format "collaborate-role" "Role-divided planning: plan, conflict, consolidate.") {
      code = some collab_reason;
      role = "collaborate";
      round1_recipe = some "collaborate:role-plan";
      round2_recipe = some "collaborate:role-conflicts";
      closing_recipe = some "collaborate:role-consolidate";
      mode_hint = "team where each member owns a distinct role in one plan";
    }

unfoldable pub collaborate_brainstorm : Format
collaborate_brainstorm =
    record (new_format "collaborate-brainstorm" "Divergence + clustering + top-3 commitment.") {
      code = some collab_reason;
      role = "collaborate";
      round1_recipe = some "collaborate:brainstorm-diverge";
      round2_recipe = some "collaborate:brainstorm-cluster";
      closing_recipe = some "collaborate:brainstorm-top3";
      mode_hint = "brainstorming session with diverse idea generators";
    }

unfoldable pub converse_free : Format
converse_free = record (new_format "converse-free" "Free-flowing chat: open, respond, reflect.") {
  code = some collab_reason;
  role = "converse";
  round1_recipe = some "converse:free-open";
  round2_recipe = some "converse:free-respond";
  closing_recipe = some "converse:free-reflect";
  mode_hint = "open-ended conversation, no goal, just exchange";
}

unfoldable pub converse_socratic : Format
converse_socratic =
    record (new_format "converse-socratic" "Pose-and-answer: question, answer, unanswered.") {
      code = some collab_reason;
      role = "converse";
      round1_recipe = some "converse:socratic-question";
      round2_recipe = some "converse:socratic-answer";
      closing_recipe = some "converse:socratic-unanswered";
      mode_hint = "socratic dialogue where participants pose pointed questions";
    }

unfoldable pub converse_devils : Format
converse_devils = record (new_format "converse-devils" "Devil's advocate: position, flip, final.") {
  code = some collab_reason;
  role = "converse";
  round1_recipe = some "converse:devils-position";
  round2_recipe = some "converse:devils-flip";
  closing_recipe = some "converse:devils-final";
  mode_hint = "participants prepared to argue both sides; opinionated but honest";
}

unfoldable pub fiction_theatre : Format
fiction_theatre =
    record (new_format "fiction-theatre" "Character-driven scene: enter, respond, final beat.") {
      code = some collab_reason;
      role = "fiction";
      round1_recipe = some "fiction:theatre-enter";
      round2_recipe = some "fiction:theatre-respond";
      closing_recipe = some "fiction:theatre-final";
      mode_hint = "cast of characters for a short dramatic scene";
    }

unfoldable pub fiction_authors : Format
fiction_authors =
    record (new_format "fiction-authors"
      "Co-authors writing one narration: setup, complication, resolution.") {
        code = some collab_reason;
        role = "fiction";
        round1_recipe = some "fiction:authors-setup";
        round2_recipe = some "fiction:authors-complication";
        closing_recipe = some "fiction:authors-resolution";
        mode_hint = "co-authors in a writers' room building one short story together";
      }

unfoldable pub deliberate : Format
deliberate = record (new_format "deliberate" "Decision panel: position, negotiate, vote.") {
  code = some collab_consensus;
  role = "deliberate";
  round1_recipe = some "deliberate:position";
  round2_recipe = some "deliberate:negotiate";
  closing_recipe = some "deliberate:vote";
  mode_hint = "stakeholders deliberating to reach a decision";
}

unfoldable pub teach : Format
teach = record (new_format "teach" "Single teacher + 3 misconception questions.") {
  code = some human_explain;
  role = "teach";
  round1_recipe = some "teach:explain";
  round2_recipe = some "teach:misconception";
  closing_recipe = some "teach:remember";
  count_strategy = force_one;
  round2_kind = sequential_probes;
  closing_kind = sequential_probes;
  probe_count = 3;
  mode_hint = "domain expert chosen specifically for clear teaching ability";
}

unfoldable pub estimate : Format
estimate = record (new_format "estimate" "Forecasting panel: propose, update, commit.") {
  code = some collab_consensus;
  role = "estimate";
  round1_recipe = some "estimate:propose";
  round2_recipe = some "estimate:update";
  closing_recipe = some "estimate:commit";
  mode_hint = "diverse forecasters with different priors on this question";
}

unfoldable pub interrogate : Format
interrogate = record (new_format "interrogate" "Hostile cross-examination of one witness.") {
  code = some adversarial_challenge;
  role = "interrogate";
  round1_recipe = some "interrogate:open";
  round2_recipe = some "interrogate:cross";
  closing_recipe = some "interrogate:hold";
  count_strategy = force_one;
  round2_kind = sequential_probes;
  closing_kind = sequential_probes;
  probe_count = 3;
  mode_hint = "single witness with a defensible position to cross-examine";
}
