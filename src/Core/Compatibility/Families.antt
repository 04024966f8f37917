-- ===== src/Core/Compatibility/Families.antt =====
-- ahp/core/compatibility.py, `CODE_REQUIREMENTS` of every code but the turn primitives: the accept tiers
-- of which a target has to have one.
use agent_handshake_protocol.Prelude.{String, [], ◌∷◌}
use agent_handshake_protocol.Prelude.Dict.{Dict}
use agent_handshake_protocol.Core.Codes.Families.{
  interview_text, interview_schema, interview_data, interview_embeddings, interview_sufficiency,
  adversarial_challenge, adversarial_debate, adversarial_audit, adversarial_redteam, collab_reason,
  collab_delegate, collab_merge, collab_consensus, human_query, human_observe, human_intervene,
  human_approve, human_explain, human_halt, teacher_judge, teacher_survey, teacher_observe,
  teacher_rubric, kg_write, kg_read, kg_query, info_query, info_query_embedding, info_list,
  info_write, error_malformed, error_unauthorized, error_out_of_scope, error_timeout,
  error_conflict, error_internal, error_low_confidence, error_bad_upstream, error_overloaded,
}

unfoldable pub family_requirements : Dict String
family_requirements =
    (interview_text, "s")
    ∷ (interview_schema, "j")
    ∷ (interview_data, "j")
    ∷ (interview_embeddings, "be")
    ∷ (interview_sufficiency, "sj")
    ∷ (adversarial_challenge, "s")
    ∷ (adversarial_debate, "s")
    ∷ (adversarial_audit, "j")
    ∷ (adversarial_redteam, "s")
    ∷ (collab_reason, "s")
    ∷ (collab_delegate, "sj")
    ∷ (collab_merge, "be")
    ∷ (collab_consensus, "j")
    ∷ (human_query, "s")
    ∷ (human_observe, "s")
    ∷ (human_intervene, "s")
    ∷ (human_approve, "s")
    ∷ (human_explain, "s")
    ∷ (human_halt, "s")
    ∷ (teacher_judge, "sj")
    ∷ (teacher_survey, "sj")
    ∷ (teacher_observe, "sj")
    ∷ (teacher_rubric, "sj")
    ∷ (kg_write, "j")
    ∷ (kg_read, "j")
    ∷ (kg_query, "je")
    ∷ (info_query, "sj")
    ∷ (info_query_embedding, "be")
    ∷ (info_list, "j")
    ∷ (info_write, "j")
    ∷ (error_malformed, "s")
    ∷ (error_unauthorized, "s")
    ∷ (error_out_of_scope, "s")
    ∷ (error_timeout, "s")
    ∷ (error_conflict, "s")
    ∷ (error_internal, "s")
    ∷ (error_low_confidence, "s")
    ∷ (error_bad_upstream, "s")
    ∷ (error_overloaded, "s")
    ∷ []
