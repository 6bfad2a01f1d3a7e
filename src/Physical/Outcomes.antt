-- ===== src/Physical/Outcomes.antt =====
-- What the admission of an observation promises, and what a retry requires.
use general_execution.Prelude.{
  ◌+◌, ◌<◌, String, ◌≡◌, ◌≢◌, ◌⊎◌, ◌↔◌, inl, inr, refl, ap, ◌∙◌, Bool, true, false, not, none, some,
  Result, ok, err, arith, >>=-eq-ok, raise_if-eq-ok, not-eq-false, ◌==◌, Bool-cases, Option-cases,
  string_eq, option_eq,
}
use general_execution.Prelude.Text.{is_blank}
use general_execution.Canonical.{Hash}
use general_execution.Models.{ResultEnvelope, result_eq}
use general_execution.Adapter.{Context, verify_dispatch_request, build_dispatch_request}
use general_execution.Physical.{
  TransportStatus, completed, is_failure, is_transport, TransportStatus-discrete, transport_eq,
  PhysicalAttemptAuthorization, check_authorization, PhysicalObservation, check_observation,
  check_receipt, PhysicalOutcomeBundle, receipt_digest, verify_observation, receipt_repeats,
  result_matches, verify_intrinsic, verify_physical_outcome, receipt_for,
  admit_physical_observation, binds_any_result, authorize_retry,
}

is_blank_empty : (s : String) → s ≡ "" → is_blank s ≡ true
unfolding is_blank
is_blank_empty s e = rw e

-- The shape of an observation that passes its checks.
abbrev pub IsChecked : PhysicalObservation → Type 0
IsChecked o =
    ((o.transport_status ≡ completed)
      × ((r : ResultEnvelope) × (o.result ≡ some r))
      × (o.failure_code ≡ none))
    ⊎ ((is_failure o.transport_status ≡ true)
        × (o.result ≡ none)
        × ((s : String) × (o.failure_code ≡ some s) × (s ≢ "")))

failure_of_transport :
    (t : TransportStatus) → is_transport t ≡ true → t ≢ completed → is_failure t ≡ true
unfolding is_transport is_failure
failure_of_transport t v ne = ground arith

check_observation-IsChecked :
    (o p : PhysicalObservation) → check_observation o ≡ ok p → (p ≡ o) × IsChecked o
unfolding check_observation
check_observation-IsChecked o p e = elim (TransportStatus-discrete o.transport_status completed) [
  | yes done ↦ elim (Option-cases o.result) [
    | inl missing ↦ ground arith
    | inr (r, found) ↦ (ground arith, inl (done, (r, found), ground arith))
  ]
  | no failed ↦ elim (Option-cases o.failure_code) [
    | inl missing ↦ ground arith
    | inr (s, found) ↦ (
      ground arith,
      inr (
        ground (arith, failure_of_transport o.transport_status),
        ground arith,
        (s, found, λ empty. ground (arith, is_blank_empty s empty)),
      ),
    )
  ]
]

is_failure_cases :
    (t : TransportStatus) → is_failure t ≡ true → (is_transport t ≡ true) × (t ≢ completed)
unfolding is_transport is_failure
is_failure_cases t e = ground arith

module _ ⦃h : Hash⦄ where
  -- The receipt of an admission repeats what it should.
  receipt_repeats-receipt_for :
      (a : PhysicalAttemptAuthorization) (o : PhysicalObservation)
      → receipt_repeats a o (receipt_for a o) ≡ true
  unfolding receipt_repeats receipt_for
  receipt_repeats-receipt_for a o = ground arith

  abbrev pub bundle_for : PhysicalAttemptAuthorization → PhysicalObservation → PhysicalOutcomeBundle
  bundle_for a o = record {
    authorization = a;
    observation = o;
    receipt = receipt_for a o;
    result = o.result;
  }

  check_receipt-receipt_for :
      (a : PhysicalAttemptAuthorization) (o : PhysicalObservation)
      → 0 < a.physical_attempt
      → IsChecked o
      → check_receipt (receipt_for a o) ≡ ok (receipt_for a o)
  unfolding check_receipt receipt_for
  check_receipt-receipt_for a o n (inl (done, (r, found), code)) = ground arith
  check_receipt-receipt_for a o n (inr (failed, none_found, (s, code, ne))) =
      ground (arith, is_failure_cases o.transport_status)

  result_matches-receipt_for :
      (a : PhysicalAttemptAuthorization) (o : PhysicalObservation)
      → IsChecked o
      → verify_observation a o ≡ true
      → result_matches a.request o.transport_status (receipt_for a o) o.result ≡ true
  unfolding result_matches receipt_for verify_observation binds_any_result
  result_matches-receipt_for a o (inl (done, (r, found), code)) v = ground arith
  result_matches-receipt_for a o (inr (failed, none_found, code)) v =
      ground (arith, is_failure_cases o.transport_status)

  verify_intrinsic-bundle_for :
      (a : PhysicalAttemptAuthorization) (o : PhysicalObservation)
      → IsChecked o
      → verify_observation a o ≡ true
      → verify_intrinsic (bundle_for a o) ≡ true
  unfolding verify_intrinsic
  verify_intrinsic-bundle_for a o k v =
      ground (arith, v, receipt_repeats-receipt_for a o, result_matches-receipt_for a o k v)

  -- An observation that passed its checks is admitted exactly if its authorization holds a request
  -- of the context and it answers that authorization. The outcome holds both, the receipt that
  -- repeats them and the observed result, and it verifies.
  pub admit_physical_observation_iff :
      (c : Context) (a : PhysicalAttemptAuthorization) (o : PhysicalObservation)
      (b : PhysicalOutcomeBundle)
      → 0 < a.physical_attempt
      → IsChecked o
      → ((admit_physical_observation c a o ≡ ok b) ↔ (
          (verify_dispatch_request c a.request ≡ ok true)
          × (verify_observation a o ≡ true)
          × (b ≡ bundle_for a o)))
        × (admit_physical_observation c a o ≡ ok b → verify_physical_outcome c b ≡ ok true)
  unfolding admit_physical_observation verify_physical_outcome
  admit_physical_observation_iff c a o b n k = go (verify_dispatch_request c a.request) refl
    where
      verified-bundle_for :
          (b : PhysicalOutcomeBundle)
          → b ≡ bundle_for a o
          → verify_dispatch_request c a.request ≡ ok true
          → verify_intrinsic (bundle_for a o) ≡ true
          → verify_physical_outcome c b ≡ ok true
      verified-bundle_for b same e admitted =
          rw same (rw (e, verify_physical_outcome) (ap ok admitted))

      go :
          (r : Result Bool)
          → verify_dispatch_request c a.request ≡ r
          → ((admit_physical_observation c a o ≡ ok b)
              ↔ ((r ≡ ok true) × (verify_observation a o ≡ true) × (b ≡ bundle_for a o)))
            × (admit_physical_observation c a o ≡ ok b → verify_physical_outcome c b ≡ ok true)
      go (err x) e = rw (e, admit_physical_observation) ((λ k. cc, λ k. cc), λ k. cc)
      go (ok false) e = rw (e, admit_physical_observation) ((λ k. cc, λ k. cc), λ k. cc)
      go (ok true) e =
          rw (e, admit_physical_observation)
            (elim (Bool-cases (verify_observation a o)) [
              | inr bad ↦ rw bad ((λ k. cc, λ k. cc), λ k. cc)
              | inl good ↦
                  let admitted = verify_intrinsic-bundle_for a o k good in
                  rw (good, check_receipt-receipt_for a o n k, admitted)
                    (
                      (λ made. (refl, refl, cc), λ bound. cc),
                      λ made. verified-bundle_for b (cc) e admitted,
                    )
            ])

  check_authorization-same :
      (a b : PhysicalAttemptAuthorization)
      → check_authorization a ≡ ok b
      → (b ≡ a) × (0 < a.physical_attempt)
  unfolding check_authorization
  check_authorization-same a b e = ground arith

  -- A retry is authorized only after an outcome that verifies in the same context and did not
  -- complete. It is the next physical attempt, names the invocation and the receipt of the outcome
  -- before it, and its request is one that the context builds for the new invocation id.
  pub authorize_retry_bindings :
      (c : Context) (prior : PhysicalOutcomeBundle) (i : String) (a : PhysicalAttemptAuthorization)
      → authorize_retry c prior i ≡ ok a
      → (verify_physical_outcome c prior ≡ ok true)
        × (prior.receipt.transport_status ≢ completed)
        × (build_dispatch_request c i ≡ ok a.request)
        × (a.physical_attempt ≡ prior.authorization.physical_attempt + 1)
        × (a.previous_invocation_id ≡ some prior.authorization.request.invocation_id)
        × (a.previous_receipt_digest ≡ some (receipt_digest prior.receipt))
  unfolding authorize_retry
  authorize_retry_bindings c prior i a e =
      let (v, eq, rest) = >>=-eq-ok (verify_physical_outcome c prior) _ e in
      let (verified, rest2) = raise_if-eq-ok (not v) _ _ rest in
      let (failed, rest3) =
        raise_if-eq-ok (prior.receipt.transport_status == completed) _ _ rest2 in
      let (q, built, rest4) = >>=-eq-ok (build_dispatch_request c i) _ rest3 in
      let same = (check_authorization-same _ a rest4).0 in
      (
        eq ∙ ap ok (not-eq-false v verified),
        ground (arith, failed),
        ground (arith, built, same),
        ground (arith, same),
        ground (arith, same),
        ground (arith, same),
      )
