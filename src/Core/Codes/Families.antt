-- ===== src/Core/Codes/Families.antt =====
-- ahp/core/codes.py, class `Code`: every constant but the turn primitives.
use agent_handshake_protocol.Prelude.{String, List, [], ◌∷◌}

abbrev pub interview_text : String
interview_text = "interview.text"

abbrev pub interview_schema : String
interview_schema = "interview.schema"

abbrev pub interview_data : String
interview_data = "interview.data"

abbrev pub interview_embeddings : String
interview_embeddings = "interview.embeddings"

abbrev pub interview_sufficiency : String
interview_sufficiency = "interview.sufficiency"

abbrev pub adversarial_challenge : String
adversarial_challenge = "adversarial.challenge"

abbrev pub adversarial_debate : String
adversarial_debate = "adversarial.debate"

abbrev pub adversarial_audit : String
adversarial_audit = "adversarial.audit"

abbrev pub adversarial_redteam : String
adversarial_redteam = "adversarial.redteam"

abbrev pub collab_reason : String
collab_reason = "collaborative.reason"

abbrev pub collab_delegate : String
collab_delegate = "collaborative.delegate"

abbrev pub collab_merge : String
collab_merge = "collaborative.merge"

abbrev pub collab_consensus : String
collab_consensus = "collaborative.consensus"

abbrev pub human_query : String
human_query = "human.query"

abbrev pub human_observe : String
human_observe = "human.observe"

abbrev pub human_intervene : String
human_intervene = "human.intervene"

abbrev pub human_approve : String
human_approve = "human.approve"

abbrev pub human_explain : String
human_explain = "human.explain"

abbrev pub human_halt : String
human_halt = "human.halt"

abbrev pub teacher_judge : String
teacher_judge = "teacher.judge"

abbrev pub teacher_survey : String
teacher_survey = "teacher.survey"

abbrev pub teacher_observe : String
teacher_observe = "teacher.observe"

abbrev pub teacher_rubric : String
teacher_rubric = "teacher.rubric"

abbrev pub kg_write : String
kg_write = "kg.write"

abbrev pub kg_read : String
kg_read = "kg.read"

abbrev pub kg_query : String
kg_query = "kg.query"

abbrev pub info_query : String
info_query = "info.query"

abbrev pub info_query_embedding : String
info_query_embedding = "info.query.embedding"

abbrev pub info_list : String
info_list = "info.list"

abbrev pub info_write : String
info_write = "info.write"

abbrev pub error_malformed : String
error_malformed = "error.malformed"

abbrev pub error_unauthorized : String
error_unauthorized = "error.unauthorized"

abbrev pub error_out_of_scope : String
error_out_of_scope = "error.scope"

abbrev pub error_timeout : String
error_timeout = "error.timeout"

abbrev pub error_conflict : String
error_conflict = "error.conflict"

abbrev pub error_internal : String
error_internal = "error.internal"

abbrev pub error_low_confidence : String
error_low_confidence = "error.confidence"

abbrev pub error_bad_upstream : String
error_bad_upstream = "error.upstream"

abbrev pub error_overloaded : String
error_overloaded = "error.overloaded"

-- those constants, in the order of the class
abbrev pub family_codes : List String
family_codes =
    interview_text ∷ interview_schema ∷ interview_data ∷ interview_embeddings
    ∷ interview_sufficiency ∷ adversarial_challenge ∷ adversarial_debate ∷ adversarial_audit
    ∷ adversarial_redteam ∷ collab_reason ∷ collab_delegate ∷ collab_merge ∷ collab_consensus
    ∷ human_query ∷ human_observe ∷ human_intervene ∷ human_approve ∷ human_explain ∷ human_halt
    ∷ teacher_judge ∷ teacher_survey ∷ teacher_observe ∷ teacher_rubric ∷ kg_write ∷ kg_read
    ∷ kg_query ∷ info_query ∷ info_query_embedding ∷ info_list ∷ info_write ∷ error_malformed
    ∷ error_unauthorized ∷ error_out_of_scope ∷ error_timeout ∷ error_conflict ∷ error_internal
    ∷ error_low_confidence ∷ error_bad_upstream ∷ error_overloaded ∷ []
