-- ===== src/Broker/Surveys/Corpus.antt =====
-- ahp/broker/surveys.py: the rows of the training corpus and `export_corpus`.
use Prim.Native.String.{◌++◌}
use agent_handshake_protocol.Prelude.{
  ℕ, String, Bool, ◌&&◌, Option, none, some, List, [], ◌∷◌, ltb, leb, is_some, if◌then◌else◌,
}
use agent_handshake_protocol.Prelude.Int.{ℤ}
use agent_handshake_protocol.Prelude.Dict.{Dict, lookup}
use agent_handshake_protocol.Prelude.Lists.{filter}
use agent_handshake_protocol.Prelude.Lists.Sorting.{sort_by}
use agent_handshake_protocol.Prelude.Text.{text_take}
use agent_handshake_protocol.Broker.Surveys.{SurveyResponse, Surveys}

pub record TrainingDataRow : Type 0 where
  pub row_id : String
  pub target_server : String
  pub recipe : String
  pub score : ℤ
  pub free_text : String
  pub collected_at : ℕ
  pub actor_handle : String

-- `sha256` is the hex digest of the library.
module _ (sha256 : String → String) where
  -- `_anonymize_actor`
  unfoldable pub anonymize_actor : String → String
  unfolding text_take
  anonymize_actor actor_address = "act-" ++ text_take 16 (sha256 actor_address)

  -- `TrainingDataRow.from_response`; `none` is the ValueError
  unfoldable pub from_response : SurveyResponse → (anonymize : Bool) → Option TrainingDataRow
  unfolding anonymize_actor
  from_response response anonymize =
      if response.consent_training_export
      then some (record {
        row_id = response.survey_id;
        target_server = response.target_server;
        recipe = response.recipe;
        score = response.score;
        free_text = response.free_text;
        collected_at = response.collected_at;
        actor_handle =
            if anonymize then anonymize_actor response.surveyed_actor else response.surveyed_actor;
      })
      else none

  -- `if not response.consent_training_export`, `if response.collected_at < since`
  abbrev pub exportable : (since : ℕ) → SurveyResponse → Bool
  exportable since response = response.consent_training_export && leb since response.collected_at

  -- the loop of `export_corpus`, over the members of the index
  unfoldable pub export_rows :
      (since : ℕ) (anonymize : Bool) → List String → Dict SurveyResponse → List TrainingDataRow
  unfolding from_response lookup
  export_rows since anonymize [] responses = []
  export_rows since anonymize (i ∷ ids) responses =
      let rest = export_rows since anonymize ids responses in
      elim (lookup i responses) [
        | none ↦ rest
        | some response ↦
            if exportable since response
            then elim (from_response response anonymize) [ none ↦ rest | some row ↦ row ∷ rest ]
            else rest
      ]

  abbrev pub collected_sooner : TrainingDataRow → TrainingDataRow → Bool
  collected_sooner a b = ltb a.collected_at b.collected_at

  -- `export_corpus`, and the index without its stale entries
  unfoldable pub export_corpus :
      (since : ℕ) (anonymize : Bool) → Surveys → List TrainingDataRow × Surveys
  unfolding export_rows sort_by filter lookup
  export_corpus since anonymize s = (
    sort_by collected_sooner (export_rows since anonymize s.responded s.responses),
    record s { responded = filter (λ i. is_some (lookup i s.responses)) s.responded },
  )
