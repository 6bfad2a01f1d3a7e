-- ===== src/Models/Envelope.antt =====
-- `ResultEnvelope` of models.py, and `result_to_dict` of wire.py.
use general_execution.Prelude.{
  ℕ, ℕ_discrete, String, String-discrete, Bool, true, false, not, List, [], ◌∷◌, Result, ok,
  raise_if, value_error, ◌>>◌, Eq, ltb,
}
use general_execution.Canonical.{Value, str, num, arr, list_of, obj, Hash, sha256_digest}
use general_execution.Models.Checks.{nonempty_all}
use general_execution.Models.Spec.{ArtifactRef, artifact_value}

-- `other` is any text that is no status of the protocol.
pub data ResultStatus : Type 0 where
  completed failed : ResultStatus
  other : String → ResultStatus

unfoldable pub status_text : ResultStatus → String
status_text completed = "completed"
status_text failed = "failed"
status_text (other s) = s

-- `status in VALID_RESULT_STATUSES`
unfoldable pub is_valid_status : ResultStatus → Bool
is_valid_status completed = true
is_valid_status failed = true
is_valid_status (other s) = false

unfoldable pub ResultStatus-discrete : Discrete ResultStatus
unfolding String-discrete
ResultStatus-discrete = hlevel String-discrete

instance abbrev pub status_eq : Eq ResultStatus
status_eq = record { dec = ResultStatus-discrete }

pub record ResultEnvelope : Type 0 where
  pub session_id : String
  pub spec_id : String
  pub spec_digest : String
  pub runner_id : String
  pub attempt : ℕ
  pub status : ResultStatus
  pub output_artifacts : List ArtifactRef
  pub evidence : List ArtifactRef
  pub summary : String

unfoldable pub check_result : ResultEnvelope → Result ResultEnvelope
unfolding nonempty_all is_valid_status
check_result r = do
  nonempty_all (
      ("session_id", r.session_id)
      ∷ ("spec_id", r.spec_id)
      ∷ ("spec_digest", r.spec_digest)
      ∷ ("runner_id", r.runner_id)
      ∷ [])
  raise_if (ltb r.attempt 1) (value_error "attempt must be >= 1")
  raise_if (not (is_valid_status r.status)) (value_error "status must be completed or failed")
  ok r

unfoldable pub result_value : ResultEnvelope → Value
unfolding status_text
result_value r = obj (
    ("schema_version", str "ge.result-envelope.v1")
    ∷ ("session_id", str r.session_id)
    ∷ ("spec_id", str r.spec_id)
    ∷ ("spec_digest", str r.spec_digest)
    ∷ ("runner_id", str r.runner_id)
    ∷ ("attempt", num r.attempt)
    ∷ ("status", str (status_text r.status))
    ∷ ("output_artifacts", arr artifact_value r.output_artifacts)
    ∷ ("evidence", arr artifact_value r.evidence)
    ∷ ("summary", str r.summary)
    ∷ [])

-- `result_to_dict` of wire.py: the tuples have become lists.
unfoldable pub result_to_dict : ResultEnvelope → Value
unfolding status_text
result_to_dict r = obj (
    ("schema_version", str "ge.result-envelope.v1")
    ∷ ("session_id", str r.session_id)
    ∷ ("spec_id", str r.spec_id)
    ∷ ("spec_digest", str r.spec_digest)
    ∷ ("runner_id", str r.runner_id)
    ∷ ("attempt", num r.attempt)
    ∷ ("status", str (status_text r.status))
    ∷ ("output_artifacts", list_of artifact_value r.output_artifacts)
    ∷ ("evidence", list_of artifact_value r.evidence)
    ∷ ("summary", str r.summary)
    ∷ [])

unfoldable pub ResultEnvelope-discrete : Discrete ResultEnvelope
unfolding String-discrete ℕ_discrete
ResultEnvelope-discrete = hlevel (String-discrete, ℕ_discrete)

instance abbrev pub result_eq : Eq ResultEnvelope
result_eq = record { dec = ResultEnvelope-discrete }

module _ ⦃h : Hash⦄ where
  unfoldable pub result_digest : ResultEnvelope → String
  result_digest r = sha256_digest (result_value r)
