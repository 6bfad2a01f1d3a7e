-- ===== src/Reconciliation/Decide.antt =====
-- The query, the admission of an observation and the decision of reconciliation.py.
use general_execution.Prelude.{
  String, Bool, true, false, ◌&&◌, ◌||◌, not, List, [], ◌∷◌, Option, none, some, Result, ok, err,
  value_error, reconciliation_error, raise_if, ◌>>=◌, ◌>>◌, ◌==◌, ◌!=◌, string_eq, nat_eq, is_none,
  is_some, if◌then◌else◌,
}
use general_execution.Prelude.Text.{is_blank}
use general_execution.Canonical.{Hash, sha256_digest}
use general_execution.Models.{RunnerCapabilities}
use general_execution.Adapter.{request_digest}
use general_execution.Physical.{
  PhysicalAttemptAuthorization, authorization_id, authorization_digest, is_falsy,
}
use general_execution.Durable.{Json, HeadRow}
use general_execution.Dispatch.{
  DispatchIntentState, DispatchPermit, submission_unknown, status_eq, intent_id,
  dispatch_state_digest, permit_digest, verify_dispatch_permit,
}
use general_execution.Guard.{LiveDispatchPermit, live_permit_digest, verify_live_dispatch_permit}
use general_execution.Reconciliation.Records.{
  check_nonempty, ProviderReconciliationContract, contract_value, reconciliation_capable,
  safe_idempotent_resubmission, ProviderReconciliationQuery, check_query, query_value,
  ReconciliationStatus, absent, accepted, terminal, unknown, other,
  ProviderReconciliationObservation, ProviderReconciliationEvidence, evidence_eq, evidence_value,
}

pub record ReconciliationDecision : Type 0 where
  pub intent_id : String
  pub dispatch_state_digest : String
  pub invocation_id : String
  pub request_digest : String
  pub evidence_digest : String
  pub contract_digest : String
  pub status : ReconciliationStatus
  pub action : String
  pub resubmit_authorized : Bool
  pub requires_fresh_live_permit : Bool
  pub live_permit_digest : Option String
  pub reason : String

unfoldable pub decision_texts : ReconciliationDecision → List (String × String)
decision_texts d =
    ("intent_id", d.intent_id)
    ∷ ("dispatch_state_digest", d.dispatch_state_digest)
    ∷ ("invocation_id", d.invocation_id)
    ∷ ("request_digest", d.request_digest)
    ∷ ("evidence_digest", d.evidence_digest)
    ∷ ("contract_digest", d.contract_digest)
    ∷ []

-- The checks of a decision for its action.
unfoldable pub check_action : ReconciliationDecision → Result (Unit {0})
check_action d =
    if d.action == "resubmit_same_invocation"
    then raise_if
        (not d.resubmit_authorized
          || not d.requires_fresh_live_permit
          || is_falsy d.live_permit_digest)
        (value_error "resubmit decision requires explicit authorization and fresh live permit")
    else raise_if (d.resubmit_authorized || is_some d.live_permit_digest)
        (value_error "non-resubmit decision cannot authorize transport")

unfoldable pub check_decision : ReconciliationDecision → Result ReconciliationDecision
unfolding check_nonempty decision_texts check_action
check_decision d = do
  check_nonempty (decision_texts d)
  check_action d
  raise_if (is_blank d.reason) (value_error "reconciliation decision reason must be non-empty")
  ok d

module _ ⦃h : Hash⦄ where
  unfoldable pub contract_digest : ProviderReconciliationContract → String
  contract_digest c = sha256_digest (contract_value c)

  unfoldable pub query_digest : ProviderReconciliationQuery → String
  query_digest q = sha256_digest (query_value q)

  unfoldable pub evidence_digest : ProviderReconciliationEvidence → String
  evidence_digest e = sha256_digest (evidence_value e)

  unfoldable pub verify_authorization_binding :
      DispatchIntentState → PhysicalAttemptAuthorization → Bool
  verify_authorization_binding s a =
      authorization_id a == s.intent.authorization_id
      && authorization_digest a == s.intent.authorization_digest
      && a.request.invocation_id == s.intent.invocation_id
      && request_digest a.request == s.intent.request_digest
      && a.request.runner_id == s.intent.runner_id
      && a.request.runner_capability_digest == s.intent.runner_capability_digest
      && a.request.session_id == s.intent.session_id
      && a.request.attempt == s.intent.logical_attempt
      && a.physical_attempt == s.intent.physical_attempt

  unfoldable pub query_for :
      DispatchIntentState
      → DispatchPermit
      → PhysicalAttemptAuthorization
      → ProviderReconciliationContract
      → ProviderReconciliationQuery
  query_for s p a c = record {
    intent_id = intent_id s.intent;
    dispatch_state_digest = dispatch_state_digest s;
    dispatch_permit_digest = permit_digest p;
    authorization_id = authorization_id a;
    authorization_digest = authorization_digest a;
    invocation_id = a.request.invocation_id;
    request_digest = request_digest a.request;
    physical_attempt = a.physical_attempt;
    runner_id = a.request.runner_id;
    provider = a.request.provider;
    adapter = a.request.adapter;
    adapter_version = a.request.adapter_version;
    contract_digest = contract_digest c;
  }

  unfoldable pub create_reconciliation_query :
      DispatchIntentState
      → DispatchPermit
      → PhysicalAttemptAuthorization
      → ProviderReconciliationContract
      → Result ProviderReconciliationQuery
  unfolding verify_authorization_binding query_for check_query
  create_reconciliation_query s p a c = do
    raise_if (s.status != submission_unknown)
        (reconciliation_error "reconciliation requires submission_unknown durable state")
    verified ← verify_dispatch_permit s p
    raise_if (not verified) (reconciliation_error "durable dispatch permit does not reproduce")
    raise_if (not (verify_authorization_binding s a))
        (reconciliation_error "physical authorization does not reproduce dispatch intent")
    raise_if
        (c.provider != a.request.provider
          || c.adapter != a.request.adapter
          || c.adapter_version != a.request.adapter_version)
        (reconciliation_error
          "provider reconciliation contract does not match physical authorization")
    raise_if (not (reconciliation_capable c))
        (reconciliation_error "provider contract cannot reconcile by invocation identity")
    check_query (query_for s p a c)

  -- What a contract asks of a terminal observation.
  unfoldable pub check_terminal :
      ProviderReconciliationContract → ProviderReconciliationObservation → Result (Unit {0})
  check_terminal c o = elim o.status [
    | terminal ↦ (do
      raise_if (c.terminal_evidence_lookup && is_none o.terminal_evidence_digest)
          (reconciliation_error "provider contract requires retrievable terminal evidence")
      raise_if (not c.terminal_evidence_lookup && is_some o.terminal_evidence_digest)
          (reconciliation_error "provider contract does not support terminal evidence lookup"))
    | _ ↦ ok tt
  ]

  unfoldable pub admit_reconciliation_observation :
      ProviderReconciliationQuery
      → ProviderReconciliationContract
      → ProviderReconciliationObservation
      → Result ProviderReconciliationEvidence
  unfolding check_terminal
  admit_reconciliation_observation q c o = do
    raise_if (q.contract_digest != contract_digest c)
        (reconciliation_error "reconciliation query contract binding mismatch")
    raise_if (o.query_digest != query_digest q)
        (reconciliation_error "provider reconciliation observation query binding mismatch")
    raise_if
        (o.invocation_id != q.invocation_id
          || o.request_digest != q.request_digest
          || o.provider != q.provider
          || o.adapter != q.adapter
          || o.adapter_version != q.adapter_version)
        (reconciliation_error "provider reconciliation observation identity mismatch")
    check_terminal c o
    ok (record { query = q; observation = o; contract_digest = contract_digest c })

  -- `_decision`
  unfoldable pub decision_for :
      DispatchIntentState
      → ProviderReconciliationEvidence
      → ProviderReconciliationContract
      → ReconciliationStatus
      → String
      → Bool
      → Bool
      → Option String
      → String
      → Result ReconciliationDecision
  decision_for s e c status action authorized fresh live reason = check_decision (record {
    intent_id = intent_id s.intent;
    dispatch_state_digest = dispatch_state_digest s;
    invocation_id = s.intent.invocation_id;
    request_digest = s.intent.request_digest;
    evidence_digest = evidence_digest e;
    contract_digest = contract_digest c;
    status = status;
    action = action;
    resubmit_authorized = authorized;
    requires_fresh_live_permit = fresh;
    live_permit_digest = live;
    reason = reason;
  })

  module _ ⦃j : Json⦄ where
    -- A resubmission, with the three arguments that may be missing.
    unfoldable pub decide_resubmission :
        DispatchIntentState
        → DispatchPermit
        → ProviderReconciliationContract
        → ProviderReconciliationEvidence
        → Option LiveDispatchPermit
        → Option (List HeadRow)
        → Option RunnerCapabilities
        → Result ReconciliationDecision
    unfolding decision_for
    decide_resubmission s p c e (some live) (some heads) (some runner) = do
      raise_if (not (verify_live_dispatch_permit s p live heads runner))
          (reconciliation_error "live dispatch permit is stale or invalid")
      decision_for s e c absent "resubmit_same_invocation" true true
          (some (live_permit_digest live))
          "provider proved absence and same invocation is protected by strong idempotency"
    decide_resubmission s p c e _ _ _ =
        err (reconciliation_error "safe resubmission requires a fresh live dispatch permit")

    -- The decision for the status that the provider reports.
    unfoldable pub decide_status :
        ReconciliationStatus
        → DispatchIntentState
        → DispatchPermit
        → ProviderReconciliationContract
        → ProviderReconciliationEvidence
        → Option LiveDispatchPermit
        → Option (List HeadRow)
        → Option RunnerCapabilities
        → Result ReconciliationDecision
    unfolding safe_idempotent_resubmission decision_for decide_resubmission
    decide_status absent s p c e live heads runner =
        if safe_idempotent_resubmission c
        then decide_resubmission s p c e live heads runner
        else decision_for s e c absent "hold" false true none
            "provider absence is insufficient without strong idempotent resubmission semantics"
    decide_status accepted s p c e live heads runner =
        decision_for s e c accepted "poll_existing" false false none
          "provider already recognizes the invocation; poll the existing operation"
    decide_status terminal s p c e live heads runner =
        if c.terminal_evidence_lookup
        then decision_for s e c terminal "admit_terminal_evidence" false false none
            "provider returned terminal evidence for admission"
        else decision_for s e c terminal "hold" false false none
            "provider reports terminal state but contract cannot retrieve admissible terminal evidence"
    decide_status unknown s p c e live heads runner =
        decision_for s e c unknown "hold" false false none
          "provider state remains unknown; preserve ambiguity and do not resubmit blindly"
    decide_status (other t) s p c e live heads runner =
        decision_for s e c unknown "hold" false false none
          "provider state remains unknown; preserve ambiguity and do not resubmit blindly"

    unfoldable pub decide_reconciliation :
        DispatchIntentState
        → DispatchPermit
        → PhysicalAttemptAuthorization
        → ProviderReconciliationContract
        → ProviderReconciliationEvidence
        → Option LiveDispatchPermit
        → Option (List HeadRow)
        → Option RunnerCapabilities
        → Result ReconciliationDecision
    unfolding create_reconciliation_query admit_reconciliation_observation decide_status
    decide_reconciliation s p a c e live heads runner = do
      query ← create_reconciliation_query s p a c
      expected ← admit_reconciliation_observation query c e.observation
      raise_if (e != expected) (
          reconciliation_error
            "reconciliation evidence does not belong to current query and contract")
      decide_status e.observation.status s p c e live heads runner
