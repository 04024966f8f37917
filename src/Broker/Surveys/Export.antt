-- ===== src/Broker/Surveys/Export.antt =====
-- What leaves the store of answers by the export.
use agent_handshake_protocol.Prelude.{ℕ, ◌≤◌, String, ◌≡◌, Bool, true, some, if◌then◌else◌}
use agent_handshake_protocol.Prelude.Dict.{Dict, lookup}
use agent_handshake_protocol.Broker.Surveys.{SurveyResponse, Surveys}
use agent_handshake_protocol.Broker.Surveys.Corpus.{TrainingDataRow, anonymize_actor}

module _ (sha256 : String → String) (since : ℕ) (anonymize : Bool) where
  -- The row is that of a stored answer whose actor consented to the export when it was collected,
  -- collected in time, and names the actor by the digest if that is asked for.
  pub record IsConsented (responses : Dict SurveyResponse) (row : TrainingDataRow) : Type 0 where
    pub id : String
    pub response : SurveyResponse
    pub stored : lookup id responses ≡ some response
    pub consent : response.consent_training_export ≡ true
    pub recent : since ≤ response.collected_at
    pub same_id : row.row_id ≡ response.survey_id
    pub same_score : row.score ≡ response.score
    pub same_server : row.target_server ≡ response.target_server
    pub same_recipe : row.recipe ≡ response.recipe
    pub same_text : row.free_text ≡ response.free_text
    pub same_time : row.collected_at ≡ response.collected_at
    pub handle : row.actor_handle ≡ (
        if anonymize
        then anonymize_actor sha256 response.surveyed_actor
        else response.surveyed_actor)
