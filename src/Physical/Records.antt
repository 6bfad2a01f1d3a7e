-- ===== src/Physical/Records.antt =====
-- The records of physical.py with their checks.
use general_execution.Prelude.{
  ℕ, String, String-discrete, Bool, true, false, ◌&&◌, ◌||◌, not, [], ◌∷◌, Option, none, some,
  Result, ok, value_error, raise_if, ◌>>◌, ◌==◌, ◌!=◌, Eq, string_eq, nat_eq, ltb, is_some, is_none,
}
use general_execution.Prelude.Text.{is_blank}
use general_execution.Canonical.{Value, str, num, opt, obj, Hash, sha256_digest, stable_id}
use general_execution.Models.{ResultEnvelope, result_value, has_digest_shape, has_digest_digits}
use general_execution.Adapter.{AdapterDispatchRequest, request_value}

-- `other` is any text that is no status of the protocol.
pub data TransportStatus : Type 0 where
  completed rejected timed_out cancelled transport_failed : TransportStatus
  other : String → TransportStatus

unfoldable pub transport_text : TransportStatus → String
transport_text completed = "completed"
transport_text rejected = "rejected"
transport_text timed_out = "timed_out"
transport_text cancelled = "cancelled"
transport_text transport_failed = "transport_failed"
transport_text (other s) = s

-- `status in FAILURE_TRANSPORT_STATUSES`
unfoldable pub is_failure : TransportStatus → Bool
is_failure completed = false
is_failure rejected = true
is_failure timed_out = true
is_failure cancelled = true
is_failure transport_failed = true
is_failure (other s) = false

-- `status in VALID_TRANSPORT_STATUSES`
unfoldable pub is_transport : TransportStatus → Bool
is_transport completed = true
is_transport rejected = true
is_transport timed_out = true
is_transport cancelled = true
is_transport transport_failed = true
is_transport (other s) = false

unfoldable pub TransportStatus-discrete : Discrete TransportStatus
unfolding String-discrete
TransportStatus-discrete = hlevel String-discrete

instance abbrev pub transport_eq : Eq TransportStatus
transport_eq = record { dec = TransportStatus-discrete }

-- `not s`, and `not s or not s.strip()`, of a text that may be `None`.
abbrev pub is_falsy : Option String → Bool
is_falsy none = true
is_falsy (some s) = s == ""

abbrev pub is_vacant : Option String → Bool
is_vacant none = true
is_vacant (some s) = is_blank s

pub record PhysicalAttemptAuthorization : Type 0 where
  pub request : AdapterDispatchRequest
  pub physical_attempt : ℕ
  pub previous_invocation_id : Option String
  pub previous_receipt_digest : Option String

abbrev fails_shape : Option String → Bool
fails_shape none = false
fails_shape (some d) = not (has_digest_shape d)

abbrev fails_digits : Option String → Bool
fails_digits none = false
fails_digits (some d) = not (has_digest_digits d)

unfoldable pub check_authorization :
    PhysicalAttemptAuthorization → Result PhysicalAttemptAuthorization
check_authorization a = do
  raise_if (ltb a.physical_attempt 1) (value_error "physical_attempt must be >= 1")
  raise_if
      (a.physical_attempt == 1
        && (is_some a.previous_invocation_id || is_some a.previous_receipt_digest))
      (value_error "first physical attempt cannot have a predecessor")
  raise_if
      (a.physical_attempt != 1
        && (is_none a.previous_invocation_id || is_none a.previous_receipt_digest))
      (value_error "retry physical attempt requires predecessor bindings")
  raise_if (fails_shape a.previous_receipt_digest)
      (value_error "previous_receipt_digest must be sha256:<64-hex>")
  raise_if (fails_digits a.previous_receipt_digest)
      (value_error "previous_receipt_digest must contain 64 hexadecimal characters")
  ok a

unfoldable pub authorization_value : PhysicalAttemptAuthorization → Value
authorization_value a = obj (
    ("request", request_value a.request)
    ∷ ("physical_attempt", num a.physical_attempt)
    ∷ ("previous_invocation_id", opt str a.previous_invocation_id)
    ∷ ("previous_receipt_digest", opt str a.previous_receipt_digest)
    ∷ ("schema_version", str "ge.physical-authorization.v1")
    ∷ [])

pub record PhysicalObservation : Type 0 where
  pub authorization_id : String
  pub invocation_id : String
  pub request_digest : String
  pub provider_invocation_id : Option String
  pub transport_status : TransportStatus
  pub result : Option ResultEnvelope
  pub failure_code : Option String
  pub detail_digest : Option String
  pub response_digest : String

unfoldable pub check_observation : PhysicalObservation → Result PhysicalObservation
unfolding is_transport
check_observation o = do
  raise_if (not (is_transport o.transport_status)) (value_error "unsupported transport_status")
  raise_if (o.transport_status == completed && is_none o.result)
      (value_error "completed observation requires a result")
  raise_if (o.transport_status == completed && is_some o.failure_code)
      (value_error "completed observation cannot carry failure_code")
  raise_if (o.transport_status == completed && is_vacant o.provider_invocation_id)
      (value_error "completed observation requires provider_invocation_id")
  raise_if (o.transport_status != completed && is_some o.result)
      (value_error "failed transport observation cannot carry a result")
  raise_if (o.transport_status != completed && is_vacant o.failure_code)
      (value_error "failed transport observation requires failure_code")
  ok o

unfoldable pub observation_value : PhysicalObservation → Value
observation_value o = obj (
    ("authorization_id", str o.authorization_id)
    ∷ ("invocation_id", str o.invocation_id)
    ∷ ("request_digest", str o.request_digest)
    ∷ ("provider_invocation_id", opt str o.provider_invocation_id)
    ∷ ("transport_status", str (transport_text o.transport_status))
    ∷ ("result", opt result_value o.result)
    ∷ ("failure_code", opt str o.failure_code)
    ∷ ("detail_digest", opt str o.detail_digest)
    ∷ ("response_digest", str o.response_digest)
    ∷ ("schema_version", str "ge.physical-observation.v1")
    ∷ [])

pub record PhysicalReceipt : Type 0 where
  pub authorization_id : String
  pub authorization_digest : String
  pub invocation_id : String
  pub request_digest : String
  pub physical_attempt : ℕ
  pub previous_invocation_id : Option String
  pub previous_receipt_digest : Option String
  pub session_id : String
  pub runner_id : String
  pub provider : String
  pub adapter : String
  pub adapter_version : String
  pub provider_invocation_id : Option String
  pub transport_status : TransportStatus
  pub response_digest : String
  pub observation_digest : String
  pub result_digest : Option String
  pub failure_code : Option String

unfoldable pub check_receipt : PhysicalReceipt → Result PhysicalReceipt
unfolding is_transport
check_receipt r = do
  raise_if (ltb r.physical_attempt 1) (value_error "physical_attempt must be >= 1")
  raise_if (not (is_transport r.transport_status)) (value_error "unsupported transport_status")
  raise_if (r.transport_status == completed && (is_none r.result_digest || is_some r.failure_code))
      (value_error "completed receipt requires result_digest and no failure_code")
  raise_if (r.transport_status != completed && (is_some r.result_digest || is_falsy r.failure_code))
      (value_error "failure receipt requires failure_code and no result_digest")
  ok r

unfoldable pub receipt_value : PhysicalReceipt → Value
receipt_value r = obj (
    ("authorization_id", str r.authorization_id)
    ∷ ("authorization_digest", str r.authorization_digest)
    ∷ ("invocation_id", str r.invocation_id)
    ∷ ("request_digest", str r.request_digest)
    ∷ ("physical_attempt", num r.physical_attempt)
    ∷ ("previous_invocation_id", opt str r.previous_invocation_id)
    ∷ ("previous_receipt_digest", opt str r.previous_receipt_digest)
    ∷ ("session_id", str r.session_id)
    ∷ ("runner_id", str r.runner_id)
    ∷ ("provider", str r.provider)
    ∷ ("adapter", str r.adapter)
    ∷ ("adapter_version", str r.adapter_version)
    ∷ ("provider_invocation_id", opt str r.provider_invocation_id)
    ∷ ("transport_status", str (transport_text r.transport_status))
    ∷ ("response_digest", str r.response_digest)
    ∷ ("observation_digest", str r.observation_digest)
    ∷ ("result_digest", opt str r.result_digest)
    ∷ ("failure_code", opt str r.failure_code)
    ∷ ("schema_version", str "ge.physical-receipt.v1")
    ∷ [])

pub record PhysicalOutcomeBundle : Type 0 where
  pub authorization : PhysicalAttemptAuthorization
  pub observation : PhysicalObservation
  pub receipt : PhysicalReceipt
  pub result : Option ResultEnvelope

unfoldable pub outcome_value : PhysicalOutcomeBundle → Value
unfolding authorization_value observation_value receipt_value
outcome_value b = obj (
    ("authorization", authorization_value b.authorization)
    ∷ ("observation", observation_value b.observation)
    ∷ ("receipt", receipt_value b.receipt)
    ∷ ("result", opt result_value b.result)
    ∷ ("schema_version", str "ge.physical-outcome.v1")
    ∷ [])

module _ ⦃h : Hash⦄ where
  unfoldable pub authorization_digest : PhysicalAttemptAuthorization → String
  authorization_digest a = sha256_digest (authorization_value a)

  unfoldable pub authorization_id : PhysicalAttemptAuthorization → String
  authorization_id a = stable_id "gea" (authorization_value a)

  unfoldable pub observation_digest : PhysicalObservation → String
  observation_digest o = sha256_digest (observation_value o)

  unfoldable pub receipt_digest : PhysicalReceipt → String
  receipt_digest r = sha256_digest (receipt_value r)

  unfoldable pub outcome_digest : PhysicalOutcomeBundle → String
  outcome_digest b = sha256_digest (outcome_value b)
