-- ===== src/Reconciliation/Resubmission.antt =====
-- When a decision lets an invocation be sent again.
use general_execution.Prelude.{
  String, ◌≡◌, ◌≢◌, refl, ap, ◌∙◌, Bool, true, false, not, List, Option, some, none, ok, arith,
  ◌!=◌, string_eq, >>=-eq-ok, raise_if-eq-ok, not-eq-false, Bool-cases, if◌then◌else◌, inl, inr,
}
use general_execution.Canonical.{Hash}
use general_execution.Models.{RunnerCapabilities}
use general_execution.Physical.{PhysicalAttemptAuthorization}
use general_execution.Durable.{Json, HeadRow}
use general_execution.Dispatch.{
  DispatchIntentState, DispatchPermit, submission_unknown, status_eq, verify_dispatch_permit,
}
use general_execution.Guard.{LiveDispatchPermit, live_permit_digest, verify_live_dispatch_permit}
use general_execution.Reconciliation.{
  check_nonempty, ProviderReconciliationContract, safe_idempotent_resubmission,
  ReconciliationStatus, absent, accepted, terminal, unknown, other, ProviderReconciliationEvidence,
  evidence_eq, ReconciliationDecision, decision_texts, check_action, check_decision, decision_for,
  decide_resubmission, decide_status, create_reconciliation_query, admit_reconciliation_observation,
  decide_reconciliation,
}

module _ ⦃h : Hash⦄ ⦃j : Json⦄ where
  check_decision-same : (d u : ReconciliationDecision) → check_decision d ≡ ok u → u ≡ d
  unfolding check_decision
  check_decision-same d u e =
      let (t, present, e) = >>=-eq-ok (check_nonempty (decision_texts d)) _ e in
      let (t, fitting, e) = >>=-eq-ok (check_action d) _ e in ground (arith, e)

  -- A decision that is made has the action and the authorization that it was made with.
  decision_for-parts :
      (s : DispatchIntentState) (e : ProviderReconciliationEvidence)
      (c : ProviderReconciliationContract) (status : ReconciliationStatus) (action : String)
      (authorized fresh : Bool) (live : Option String) (reason : String)
      (d : ReconciliationDecision)
      → decision_for s e c status action authorized fresh live reason ≡ ok d
      → (d.action ≡ action)
        × (d.resubmit_authorized ≡ authorized)
        × (d.live_permit_digest ≡ live)
        × (d.invocation_id ≡ s.intent.invocation_id)
  unfolding decision_for
  decision_for-parts s e c status action authorized fresh live reason d made =
      let same = check_decision-same _ d made in ground (arith, same)

  -- The live permit and where it verifies.
  abbrev pub IsLive :
      DispatchIntentState
      → DispatchPermit
      → Option LiveDispatchPermit
      → Option (List HeadRow)
      → Option RunnerCapabilities
      → ReconciliationDecision
      → Type 0
  IsLive s p live heads runner d =
      (x : LiveDispatchPermit) × (t : List HeadRow) × (r : RunnerCapabilities) × (live ≡ some x)
      × (heads ≡ some t)
      × (runner ≡ some r)
      × (verify_live_dispatch_permit s p x t r ≡ true)
      × (d.live_permit_digest ≡ some (live_permit_digest x))
      × (d.action ≡ "resubmit_same_invocation")
      × (d.invocation_id ≡ s.intent.invocation_id)

  decide_resubmission-IsLive :
      (s : DispatchIntentState) (p : DispatchPermit) (c : ProviderReconciliationContract)
      (e : ProviderReconciliationEvidence) (live : Option LiveDispatchPermit)
      (heads : Option (List HeadRow)) (runner : Option RunnerCapabilities)
      (d : ReconciliationDecision)
      → decide_resubmission s p c e live heads runner ≡ ok d
      → IsLive s p live heads runner d
  unfolding decide_resubmission
  decide_resubmission-IsLive s p c e (some x) (some t) (some r) d made =
      let (valid, made) = raise_if-eq-ok (not (verify_live_dispatch_permit s p x t r)) _ _ made in
      let (action, authorized, digest, invocation) =
        decision_for-parts s e c absent "resubmit_same_invocation" true true
          (some (live_permit_digest x)) _ d made in
      (x, t, r, refl, refl, refl, not-eq-false _ valid, digest, action, invocation)
  decide_resubmission-IsLive s p c e none heads runner d made = cc
  decide_resubmission-IsLive s p c e (some x) none runner d made = cc
  decide_resubmission-IsLive s p c e (some x) (some t) none d made = cc

  held_back :
      (s : DispatchIntentState) (e : ProviderReconciliationEvidence)
      (c : ProviderReconciliationContract) (status : ReconciliationStatus) (action : String)
      (fresh : Bool) (reason : String) (d : ReconciliationDecision)
      → decision_for s e c status action false fresh none reason ≡ ok d
      → d.resubmit_authorized ≢ true
  held_back s e c status action fresh reason d made resubmits =
      let authorized = (decision_for-parts s e c status action false fresh none reason d made).1 in
      cc

  terminal_held :
      (s : DispatchIntentState) (e : ProviderReconciliationEvidence)
      (c : ProviderReconciliationContract) (found : Bool) (reason reason' : String)
      (d : ReconciliationDecision)
      → (if found
          then decision_for s e c terminal "admit_terminal_evidence" false false none reason
          else decision_for s e c terminal "hold" false false none reason')
        ≡ ok d
      → d.resubmit_authorized ≢ true
  terminal_held s e c true reason reason' d made =
      held_back s e c terminal "admit_terminal_evidence" false reason d made
  terminal_held s e c false reason reason' d made =
      held_back s e c terminal "hold" false reason' d made

  decide_status-IsLive :
      (status : ReconciliationStatus) (s : DispatchIntentState) (p : DispatchPermit)
      (c : ProviderReconciliationContract) (e : ProviderReconciliationEvidence)
      (live : Option LiveDispatchPermit) (heads : Option (List HeadRow))
      (runner : Option RunnerCapabilities) (d : ReconciliationDecision)
      → decide_status status s p c e live heads runner ≡ ok d
      → d.resubmit_authorized ≡ true
      → (status ≡ absent) × (safe_idempotent_resubmission c ≡ true) × IsLive s p live heads runner d
  unfolding decide_status
  decide_status-IsLive absent s p c e live heads runner d made resubmits =
      elim (Bool-cases (safe_idempotent_resubmission c)) [
        | inl safe ↦
            (refl, safe, decide_resubmission-IsLive s p c e live heads runner d (rw safe at made))
        | inr unsafe ↦
            elim (held_back s e c absent "hold" true _ d (rw unsafe at made) resubmits) [ ]
      ]
  decide_status-IsLive accepted s p c e live heads runner d made resubmits =
      elim (held_back s e c accepted "poll_existing" false _ d made resubmits) [ ]
  decide_status-IsLive terminal s p c e live heads runner d made resubmits =
      elim (terminal_held s e c c.terminal_evidence_lookup _ _ d made resubmits) [ ]
  decide_status-IsLive unknown s p c e live heads runner d made resubmits =
      elim (held_back s e c unknown "hold" false _ d made resubmits) [ ]
  decide_status-IsLive (other t) s p c e live heads runner d made resubmits =
      elim (held_back s e c unknown "hold" false _ d made resubmits) [ ]

  -- A decision that authorizes a resubmission is for a state that is submission_unknown and its
  -- permit; the provider reported the invocation absent, the contract protects it by strong
  -- idempotency, and a live permit verifies now, whose digest the decision carries. What is sent
  -- again is the same invocation.
  pub decide_reconciliation-IsLive :
      (s : DispatchIntentState) (p : DispatchPermit) (a : PhysicalAttemptAuthorization)
      (c : ProviderReconciliationContract) (e : ProviderReconciliationEvidence)
      (live : Option LiveDispatchPermit) (heads : Option (List HeadRow))
      (runner : Option RunnerCapabilities) (d : ReconciliationDecision)
      → decide_reconciliation s p a c e live heads runner ≡ ok d
      → d.resubmit_authorized ≡ true
      → (s.status ≡ submission_unknown)
        × (verify_dispatch_permit s p ≡ ok true)
        × (e.observation.status ≡ absent)
        × (safe_idempotent_resubmission c ≡ true)
        × IsLive s p live heads runner d
  unfolding decide_reconciliation create_reconciliation_query
  decide_reconciliation-IsLive s p a c e live heads runner d made resubmits =
      let (query, created, made) = >>=-eq-ok (create_reconciliation_query s p a c) _ made in
      let (evidence, admitted, made) =
        >>=-eq-ok (admit_reconciliation_observation query c e.observation) _ made in
      let (same, made) = raise_if-eq-ok (e != evidence) _ _ made in
      let (unknown_state, created) = raise_if-eq-ok (s.status != submission_unknown) _ _ created in
      let (v, verified, created) = >>=-eq-ok (verify_dispatch_permit s p) _ created in
      let (passed, created) = raise_if-eq-ok (not v) _ _ created in
      let (status, safe, fresh) =
        decide_status-IsLive e.observation.status s p c e live heads runner d made resubmits in
      (ground (arith, unknown_state), verified ∙ ap ok (not-eq-false v passed), status, safe, fresh)
