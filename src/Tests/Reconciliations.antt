-- ===== src/Tests/Reconciliations.antt =====
-- The theorem on resubmission at an attempt that its provider does not know.
use general_execution.Prelude.{
  true, ◌≡◌, refl, ok, none, some, String-discrete, ℕ_discrete, Option-discrete,
}
use general_execution.Prelude.Text.{is_blank}
use general_execution.Canonical.{sha256_digest, stable_id}
use general_execution.Models.{session_id, runner_digest}
use general_execution.Adapter.{request_digest, request_for}
use general_execution.Physical.{authorization_id, authorization_digest}
use general_execution.Dispatch.{
  submission_unknown, DispatchStatus-discrete, DispatchPermit-discrete, verify_dispatch_permit,
  permit_for, permit_digest, intent_id, intent_digest, dispatch_state_digest,
}
use general_execution.Guard.{live_permit_digest}
use general_execution.Reconciliation.{
  check_nonempty, ProviderReconciliationContract, safe_idempotent_resubmission,
  reconciliation_capable, check_query, query_texts, ProviderReconciliationEvidence,
  ProviderReconciliationEvidence-discrete, ProviderReconciliationObservation, ReconciliationStatus,
  ReconciliationDecision, decision_texts, check_action, check_decision, decision_for,
  decide_resubmission, decide_status, verify_authorization_binding, query_for, contract_digest,
  query_digest, evidence_digest, check_terminal, create_reconciliation_query,
  admit_reconciliation_observation, decide_reconciliation,
}
use general_execution.Reconciliation.Resubmission.{IsLive, decide_reconciliation-IsLive}
use general_execution.Tests.Data.{toy, runner}
use general_execution.Tests.Heads.{attempt_digest}
use general_execution.Tests.Outboxes.{parser, sent, permit, heads}
use general_execution.Tests.Attempts.{first}
use general_execution.Tests.Lives.{live, live_verifies}

abbrev contract : ProviderReconciliationContract
contract = record {
  provider = "reference";
  adapter = "a";
  adapter_version = "1";
  idempotency_key = "invocation_id";
  lookup_by_invocation = true;
  request_digest_bound = true;
  same_key_same_request = "same_operation";
  same_key_different_request = "reject";
  terminal_evidence_lookup = true;
}

abbrev missing : ProviderReconciliationObservation
missing = record {
  query_digest = attempt_digest;
  invocation_id = "gei-1";
  request_digest = attempt_digest;
  provider = "reference";
  adapter = "a";
  adapter_version = "1";
  status = ReconciliationStatus.absent;
  evidence_digest = attempt_digest;
  provider_invocation_id = none;
  terminal_evidence_digest = none;
}

abbrev evidence : ProviderReconciliationEvidence
evidence = record {
  query = query_for sent permit first contract;
  observation = missing;
  contract_digest = contract_digest contract;
}

abbrev decision : ReconciliationDecision
decision = record {
  intent_id = "gedi-00112233445566778899aabb";
  dispatch_state_digest = attempt_digest;
  invocation_id = "gei-1";
  request_digest = attempt_digest;
  evidence_digest = attempt_digest;
  contract_digest = attempt_digest;
  status = ReconciliationStatus.absent;
  action = "resubmit_same_invocation";
  resubmit_authorized = true;
  requires_fresh_live_permit = true;
  live_permit_digest = some attempt_digest;
  reason = "provider proved absence and same invocation is protected by strong idempotency";
}

decided :
    decide_reconciliation sent permit first contract evidence (some live) (some heads) (some runner)
    ≡ ok decision
unfolding decide_reconciliation create_reconciliation_query verify_dispatch_permit permit_for
    permit_digest DispatchPermit-discrete DispatchStatus-discrete intent_id intent_digest
    dispatch_state_digest verify_authorization_binding authorization_id authorization_digest
    request_digest request_for session_id runner_digest reconciliation_capable query_for check_query
    query_texts check_nonempty is_blank admit_reconciliation_observation query_digest
    contract_digest check_terminal ProviderReconciliationEvidence-discrete decide_status
    safe_idempotent_resubmission decide_resubmission decision_for check_decision decision_texts
    check_action evidence_digest live_permit_digest sha256_digest stable_id String-discrete
    ℕ_discrete Option-discrete
decided = rw live_verifies refl

decide_reconciliation-IsLive_example :
    (sent.status ≡ submission_unknown)
    × (verify_dispatch_permit sent permit ≡ ok true)
    × (evidence.observation.status ≡ ReconciliationStatus.absent)
    × (safe_idempotent_resubmission contract ≡ true)
    × IsLive sent permit (some live) (some heads) (some runner) decision
decide_reconciliation-IsLive_example =
    decide_reconciliation-IsLive sent permit first contract evidence (some live) (some heads)
      (some runner) decision decided refl
