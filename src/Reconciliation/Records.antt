-- ===== src/Reconciliation/Records.antt =====
-- The records of reconciliation.py with their checks.
use Prim.Native.String.{◌++◌ as join}
use general_execution.Prelude.{
  ℕ, ℕ_discrete, String, String-discrete, Bool, ◌&&◌, ◌||◌, not, List, [], ◌∷◌, Option, none, some,
  Result, ok, err, value_error, raise_if, ◌>>◌, ◌==◌, ◌!=◌, Eq, string_eq, nat_eq, ltb, contains,
  is_some,
}
use general_execution.Prelude.Text.{is_blank}
use general_execution.Canonical.{Value, str, num, bool, opt, obj}
use general_execution.Models.{has_digest_shape, has_digest_digits}
use general_execution.Physical.{is_falsy}

-- `_nonempty` of every field, in order: the first that is blank raises.
unfoldable pub check_nonempty : List (String × String) → Result (Unit {0})
check_nonempty [] = ok tt
check_nonempty ((name, s) ∷ rest) = do
  raise_if (is_blank s) (value_error (join name " must be non-empty"))
  check_nonempty rest

-- `_sha256`
unfoldable pub check_sha256 : String → String → Result (Unit {0})
check_sha256 name d = do
  raise_if (not (has_digest_shape d)) (value_error (join name " must be sha256:<64-hex>"))
  raise_if (not (has_digest_digits d))
      (value_error (join name " must contain 64 hexadecimal characters"))

pub record ProviderReconciliationContract : Type 0 where
  pub provider : String
  pub adapter : String
  pub adapter_version : String
  pub idempotency_key : String
  pub lookup_by_invocation : Bool
  pub request_digest_bound : Bool
  pub same_key_same_request : String
  pub same_key_different_request : String
  pub terminal_evidence_lookup : Bool

unfoldable pub check_contract :
    ProviderReconciliationContract → Result ProviderReconciliationContract
unfolding check_nonempty
check_contract c = do
  check_nonempty (
      ("provider", c.provider)
      ∷ ("adapter", c.adapter)
      ∷ ("adapter_version", c.adapter_version)
      ∷ [])
  raise_if (c.idempotency_key != "invocation_id")
      (value_error "v0.0.7 reconciliation requires invocation_id as idempotency key")
  raise_if
      (not (
        contains c.same_key_same_request
          ("same_operation" ∷ "duplicate_rejected" ∷ "may_duplicate" ∷ [])))
      (value_error "unsupported same-key/same-request semantics")
  raise_if (c.same_key_different_request != "reject")
      (value_error "same idempotency key with a different request must be rejected")
  ok c

unfoldable pub contract_value : ProviderReconciliationContract → Value
contract_value c = obj (
    ("provider", str c.provider)
    ∷ ("adapter", str c.adapter)
    ∷ ("adapter_version", str c.adapter_version)
    ∷ ("idempotency_key", str c.idempotency_key)
    ∷ ("lookup_by_invocation", bool c.lookup_by_invocation)
    ∷ ("request_digest_bound", bool c.request_digest_bound)
    ∷ ("same_key_same_request", str c.same_key_same_request)
    ∷ ("same_key_different_request", str c.same_key_different_request)
    ∷ ("terminal_evidence_lookup", bool c.terminal_evidence_lookup)
    ∷ ("schema_version", str "ge.provider-reconciliation-contract.v1")
    ∷ [])

unfoldable pub reconciliation_capable : ProviderReconciliationContract → Bool
reconciliation_capable c = c.lookup_by_invocation && c.request_digest_bound

unfoldable pub safe_idempotent_resubmission : ProviderReconciliationContract → Bool
unfolding reconciliation_capable
safe_idempotent_resubmission c =
    reconciliation_capable c
    && contains c.same_key_same_request ("same_operation" ∷ "duplicate_rejected" ∷ [])
    && c.same_key_different_request == "reject"

pub record ProviderReconciliationQuery : Type 0 where
  pub intent_id : String
  pub dispatch_state_digest : String
  pub dispatch_permit_digest : String
  pub authorization_id : String
  pub authorization_digest : String
  pub invocation_id : String
  pub request_digest : String
  pub physical_attempt : ℕ
  pub runner_id : String
  pub provider : String
  pub adapter : String
  pub adapter_version : String
  pub contract_digest : String

unfoldable pub query_texts : ProviderReconciliationQuery → List (String × String)
query_texts q =
    ("intent_id", q.intent_id)
    ∷ ("dispatch_state_digest", q.dispatch_state_digest)
    ∷ ("dispatch_permit_digest", q.dispatch_permit_digest)
    ∷ ("authorization_id", q.authorization_id)
    ∷ ("authorization_digest", q.authorization_digest)
    ∷ ("invocation_id", q.invocation_id)
    ∷ ("request_digest", q.request_digest)
    ∷ ("runner_id", q.runner_id)
    ∷ ("provider", q.provider)
    ∷ ("adapter", q.adapter)
    ∷ ("adapter_version", q.adapter_version)
    ∷ ("contract_digest", q.contract_digest)
    ∷ []

unfoldable pub check_query : ProviderReconciliationQuery → Result ProviderReconciliationQuery
unfolding check_nonempty query_texts
check_query q = do
  raise_if (ltb q.physical_attempt 1) (value_error "physical_attempt must be >= 1")
  check_nonempty (query_texts q)
  ok q

unfoldable pub query_value : ProviderReconciliationQuery → Value
query_value q = obj (
    ("intent_id", str q.intent_id)
    ∷ ("dispatch_state_digest", str q.dispatch_state_digest)
    ∷ ("dispatch_permit_digest", str q.dispatch_permit_digest)
    ∷ ("authorization_id", str q.authorization_id)
    ∷ ("authorization_digest", str q.authorization_digest)
    ∷ ("invocation_id", str q.invocation_id)
    ∷ ("request_digest", str q.request_digest)
    ∷ ("physical_attempt", num q.physical_attempt)
    ∷ ("runner_id", str q.runner_id)
    ∷ ("provider", str q.provider)
    ∷ ("adapter", str q.adapter)
    ∷ ("adapter_version", str q.adapter_version)
    ∷ ("contract_digest", str q.contract_digest)
    ∷ ("schema_version", str "ge.provider-reconciliation-query.v1")
    ∷ [])

-- `other` is any text that is no status of the protocol.
pub data ReconciliationStatus : Type 0 where
  absent accepted terminal unknown : ReconciliationStatus
  other : String → ReconciliationStatus

unfoldable pub reconciliation_text : ReconciliationStatus → String
reconciliation_text absent = "absent"
reconciliation_text accepted = "accepted"
reconciliation_text terminal = "terminal"
reconciliation_text unknown = "unknown"
reconciliation_text (other s) = s

pub record ProviderReconciliationObservation : Type 0 where
  pub query_digest : String
  pub invocation_id : String
  pub request_digest : String
  pub provider : String
  pub adapter : String
  pub adapter_version : String
  pub status : ReconciliationStatus
  pub evidence_digest : String
  pub provider_invocation_id : Option String
  pub terminal_evidence_digest : Option String

abbrev pub check_optional_sha256 : String → Option String → Result (Unit {0})
check_optional_sha256 name none = ok tt
check_optional_sha256 name (some d) = check_sha256 name d

-- The checks of each status.
unfoldable pub check_claims :
    ReconciliationStatus → ProviderReconciliationObservation → Result (Unit {0})
check_claims absent o =
    raise_if (is_some o.provider_invocation_id || is_some o.terminal_evidence_digest)
      (value_error "absent observation cannot claim provider invocation or terminal evidence")
check_claims accepted o =
    raise_if (is_falsy o.provider_invocation_id || is_some o.terminal_evidence_digest)
      (value_error "accepted observation requires provider invocation and no terminal evidence")
check_claims terminal o =
    raise_if (is_falsy o.provider_invocation_id)
      (value_error "terminal observation requires provider invocation identity")
check_claims unknown o =
    raise_if (is_some o.terminal_evidence_digest)
      (value_error "unknown observation cannot claim terminal evidence")
check_claims (other s) o = err (value_error "unsupported reconciliation status")

unfoldable pub check_reconciliation_observation :
    ProviderReconciliationObservation → Result ProviderReconciliationObservation
unfolding check_nonempty check_sha256 check_claims
check_reconciliation_observation o = do
  check_nonempty (
      ("query_digest", o.query_digest)
      ∷ ("invocation_id", o.invocation_id)
      ∷ ("request_digest", o.request_digest)
      ∷ ("provider", o.provider)
      ∷ ("adapter", o.adapter)
      ∷ ("adapter_version", o.adapter_version)
      ∷ ("evidence_digest", o.evidence_digest)
      ∷ [])
  check_sha256 "evidence_digest" o.evidence_digest
  check_optional_sha256 "terminal_evidence_digest" o.terminal_evidence_digest
  check_claims o.status o
  ok o

unfoldable pub reconciliation_observation_value : ProviderReconciliationObservation → Value
unfolding reconciliation_text
reconciliation_observation_value o = obj (
    ("query_digest", str o.query_digest)
    ∷ ("invocation_id", str o.invocation_id)
    ∷ ("request_digest", str o.request_digest)
    ∷ ("provider", str o.provider)
    ∷ ("adapter", str o.adapter)
    ∷ ("adapter_version", str o.adapter_version)
    ∷ ("status", str (reconciliation_text o.status))
    ∷ ("evidence_digest", str o.evidence_digest)
    ∷ ("provider_invocation_id", opt str o.provider_invocation_id)
    ∷ ("terminal_evidence_digest", opt str o.terminal_evidence_digest)
    ∷ ("schema_version", str "ge.provider-reconciliation-observation.v1")
    ∷ [])

pub record ProviderReconciliationEvidence : Type 0 where
  pub query : ProviderReconciliationQuery
  pub observation : ProviderReconciliationObservation
  pub contract_digest : String

unfoldable pub ProviderReconciliationEvidence-discrete : Discrete ProviderReconciliationEvidence
unfolding String-discrete ℕ_discrete
ProviderReconciliationEvidence-discrete = hlevel (String-discrete, ℕ_discrete)

instance abbrev pub evidence_eq : Eq ProviderReconciliationEvidence
evidence_eq = record { dec = ProviderReconciliationEvidence-discrete }

unfoldable pub evidence_value : ProviderReconciliationEvidence → Value
unfolding query_value reconciliation_observation_value
evidence_value e = obj (
    ("query", query_value e.query)
    ∷ ("observation", reconciliation_observation_value e.observation)
    ∷ ("contract_digest", str e.contract_digest)
    ∷ ("schema_version", str "ge.provider-reconciliation-evidence.v1")
    ∷ [])
