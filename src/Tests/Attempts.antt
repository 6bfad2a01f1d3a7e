-- ===== src/Tests/Attempts.antt =====
-- The theorems on physical attempts at two attempts, of which the first timed out.
use general_execution.Prelude.{
  ◌+◌, ◌≡◌, ◌≢◌, ◌↔◌, ◌⊎◌, inr, arith, refl, ok, err, physical_error, type_error, true, false,
  String, String-discrete, ℕ_discrete, Option-discrete, string_eq, List, [], ◌∷◌, ◌++◌, none, some,
  contains, map,
}
use general_execution.Prelude.Text.{starts_with, is_hex, is_int_base16, hex_digits, drop_prefix}
use general_execution.Canonical.{
  is_hashable, comparable, comparable_items, Value-discrete, num, tuple, list, nil, obj, get,
  get_field, sha256_digest, stable_id, canonical_json,
}
use general_execution.Models.{
  has_digest_shape, has_digest_digits, ArtifactRef-discrete, ExecutionSpec-discrete, sort,
  insert_sorted, check_plan, is_valid_mode, ExecutionMode-discrete, DispatchPlan-discrete,
  RunnerCapabilities-discrete, SessionState-discrete, spec_id, spec_digest, plan_id, plan_digest,
  runner_digest, registry_digest, session_id,
}
use general_execution.Planner.{
  verify_plan, plan_execution, compatible_runners, compatible, plan_for,
}
use general_execution.Adapter.{
  AdapterDispatchRequest-discrete, request_digest, request_id, request_for, build_dispatch_request,
  verify_dispatch_request, verify_static_binding, exactly_bound, check_request, catch_adapter_error,
}
use general_execution.Ledger.{
  LedgerEvent, ExecutionLedger, ledger_of, next_event, event_hash, head, head_from, verify_ledger,
  verify_from,
}
use general_execution.Physical.{
  completed, timed_out, is_transport, is_failure, TransportStatus-discrete,
  PhysicalAttemptAuthorization, check_authorization, PhysicalObservation, PhysicalOutcomeBundle,
  PhysicalAttemptRecord, check_receipt, authorization_id, authorization_digest, receipt_digest,
  observation_digest, verify_observation, response_digest, expected_response, receipt_repeats,
  result_matches, verify_intrinsic, verify_physical_outcome, receipt_for, binds_result,
  binds_any_result, admit_physical_observation, authorize_retry, RetryBase-discrete, invocation_of,
  follows, verify_chain_from, verify_retry_chain, dispatch_recorded, recorded_digests, get_or_null,
  hashed, same_payloads, physical_payloads, record_physical_attempt, verify_physical_attempt_record,
}
use general_execution.Physical.Outcomes.{
  IsChecked, bundle_for, admit_physical_observation_iff, authorize_retry_bindings,
}
use general_execution.Physical.Chain.{IsRetryChain, verify_retry_chain_iff, authorize_retry-extends}
use general_execution.Physical.RecordedDigests.{contents}
use general_execution.Physical.Journaling.{record_physical_attempt-verifies}
use general_execution.Tests.Data.{toy, context, texts_differ}

abbrev pub first : PhysicalAttemptAuthorization
first = record {
  request = request_for context "gei-1";
  physical_attempt = 1;
  previous_invocation_id = none;
  previous_receipt_digest = none;
}

-- The attempt timed out.
abbrev timeout : PhysicalAttemptAuthorization → PhysicalObservation
timeout a = record {
  authorization_id = authorization_id a;
  invocation_id = a.request.invocation_id;
  request_digest = request_digest a.request;
  provider_invocation_id = none;
  transport_status = timed_out;
  result = none;
  failure_code = some "late";
  detail_digest = none;
  response_digest = response_digest a none timed_out none (some "late") none;
}

abbrev pub outcome : PhysicalOutcomeBundle
outcome = bundle_for first (timeout first)

abbrev second : PhysicalAttemptAuthorization
second = record {
  request = request_for context "gei-2";
  physical_attempt = 2;
  previous_invocation_id = some "gei-1";
  previous_receipt_digest = some (receipt_digest outcome.receipt);
}

abbrev retried : PhysicalOutcomeBundle
retried = bundle_for second (timeout second)

failed_code : ◌≢◌ {A = String} "late" ""
unfolding String-discrete
failed_code = texts_differ "late" "" refl

checked : IsChecked (timeout first)
unfolding is_failure
checked = inr (refl, refl, ("late", refl, failed_code))

admit_physical_observation_iff_example :
    ((admit_physical_observation context first (timeout first) ≡ ok outcome) ↔ (
      (verify_dispatch_request context first.request ≡ ok true)
      × (verify_observation first (timeout first) ≡ true)
      × (outcome ≡ bundle_for first (timeout first))))
    × (admit_physical_observation context first (timeout first) ≡ ok outcome
        → verify_physical_outcome context outcome ≡ ok true)
admit_physical_observation_iff_example =
    admit_physical_observation_iff context first (timeout first) outcome (omega arith) checked

authorized : authorize_retry context outcome "gei-2" ≡ ok second
unfolding authorize_retry check_authorization has_digest_shape has_digest_digits is_int_base16
    hex_digits is_hex drop_prefix verify_dispatch_request catch_adapter_error
    AdapterDispatchRequest-discrete ExecutionSpec-discrete ArtifactRef-discrete request_id
    request_digest authorization_id authorization_digest receipt_digest observation_digest
    verify_observation response_digest expected_response receipt_repeats result_matches
    verify_intrinsic verify_physical_outcome receipt_for check_receipt binds_result binds_any_result
    TransportStatus-discrete is_transport is_failure build_dispatch_request request_for
    verify_static_binding verify_plan plan_execution compatible_runners compatible sort
    insert_sorted plan_for check_plan is_valid_mode exactly_bound check_request String-discrete
    ℕ_discrete ExecutionMode-discrete DispatchPlan-discrete RunnerCapabilities-discrete
    SessionState-discrete sha256_digest stable_id canonical_json spec_id spec_digest plan_id
    plan_digest runner_digest registry_digest session_id starts_with Option-discrete
authorized = refl

pub outcome_verifies : verify_physical_outcome context outcome ≡ ok true
outcome_verifies = (authorize_retry_bindings context outcome "gei-2" second authorized).0

authorize_retry_bindings_example :
    (verify_physical_outcome context outcome ≡ ok true)
    × (outcome.receipt.transport_status ≢ completed)
    × (build_dispatch_request context "gei-2" ≡ ok second.request)
    × (second.physical_attempt ≡ outcome.authorization.physical_attempt + 1)
    × (second.previous_invocation_id ≡ some outcome.authorization.request.invocation_id)
    × (second.previous_receipt_digest ≡ some (receipt_digest outcome.receipt))
authorize_retry_bindings_example =
    authorize_retry_bindings context outcome "gei-2" second authorized

verify_retry_chain_iff_example :
    (verify_retry_chain [] ≡ false)
    × ((b : PhysicalOutcomeBundle) (bs : List PhysicalOutcomeBundle)
        → (verify_retry_chain (b ∷ bs) ≡ true) ↔ IsRetryChain b bs)
verify_retry_chain_iff_example = verify_retry_chain_iff

single_chain : verify_retry_chain ([] ++ outcome ∷ []) ≡ true
unfolding verify_retry_chain verify_chain_from follows RetryBase-discrete verify_dispatch_request
    catch_adapter_error AdapterDispatchRequest-discrete ExecutionSpec-discrete ArtifactRef-discrete
    request_id request_digest authorization_id authorization_digest receipt_digest
    observation_digest verify_observation response_digest expected_response receipt_repeats
    result_matches verify_intrinsic verify_physical_outcome receipt_for check_receipt binds_result
    binds_any_result TransportStatus-discrete is_transport is_failure build_dispatch_request
    request_for verify_static_binding verify_plan plan_execution compatible_runners compatible sort
    insert_sorted plan_for check_plan is_valid_mode exactly_bound check_request String-discrete
    ℕ_discrete ExecutionMode-discrete DispatchPlan-discrete RunnerCapabilities-discrete
    SessionState-discrete sha256_digest stable_id canonical_json spec_id spec_digest plan_id
    plan_digest runner_digest registry_digest session_id starts_with Option-discrete
single_chain = refl

retried_intrinsic : verify_intrinsic retried ≡ true
unfolding verify_dispatch_request catch_adapter_error AdapterDispatchRequest-discrete
    ExecutionSpec-discrete ArtifactRef-discrete request_id request_digest authorization_id
    authorization_digest receipt_digest observation_digest verify_observation response_digest
    expected_response receipt_repeats result_matches verify_intrinsic verify_physical_outcome
    receipt_for check_receipt binds_result binds_any_result TransportStatus-discrete is_transport
    is_failure build_dispatch_request request_for verify_static_binding verify_plan plan_execution
    compatible_runners compatible sort insert_sorted plan_for check_plan is_valid_mode exactly_bound
    check_request String-discrete ℕ_discrete ExecutionMode-discrete DispatchPlan-discrete
    RunnerCapabilities-discrete SessionState-discrete sha256_digest stable_id canonical_json spec_id
    spec_digest plan_id plan_digest runner_digest registry_digest session_id starts_with
    Option-discrete
retried_intrinsic = refl

retried_fresh : contains (invocation_of retried) (map invocation_of ([] ++ outcome ∷ [])) ≡ false
unfolding request_for String-discrete
retried_fresh = refl

authorize_retry-extends_example : verify_retry_chain ([] ++ outcome ∷ retried ∷ []) ≡ true
authorize_retry-extends_example =
    authorize_retry-extends context [] outcome retried "gei-2" single_chain authorized
      retried_intrinsic retried_fresh

-- A ledger with one event, whose payload is no mapping.
abbrev started : ExecutionLedger
started = ledger_of (next_event (ledger_of []) "started" (num 7) ∷ [])

started-verifies : verify_ledger started ≡ true
unfolding verify_ledger verify_from next_event event_hash head head_from sha256_digest
    canonical_json String-discrete ℕ_discrete
started-verifies = refl

record_physical_attempt-verifies_example :
    ((dispatch_recorded (authorization_digest first) started.events
        ≡ err (type_error "unhashable type"))
      × (record_physical_attempt started outcome ≡ err (type_error "unhashable type")))
    ⊎ ((dispatch_recorded (authorization_digest first) started.events ≡ ok true)
        × (record_physical_attempt started outcome
            ≡ err (physical_error "physical authorization is already recorded")))
    ⊎ ((dispatch_recorded (authorization_digest first) started.events ≡ ok false)
        × (m : ExecutionLedger) × (r : PhysicalAttemptRecord) × (es : List LedgerEvent)
        × (record_physical_attempt started outcome ≡ ok (m, r))
        × (m.events ≡ started.events ++ es)
        × (contents es ≡ physical_payloads outcome)
        × (verify_ledger m ≡ true)
        × (verify_physical_attempt_record m outcome r ≡ true)
        × (record_physical_attempt m outcome
            ≡ err (physical_error "physical authorization is already recorded")))
record_physical_attempt-verifies_example =
    record_physical_attempt-verifies started outcome started-verifies

-- A dispatch whose digest is a list ends the search with a `TypeError`.
unhashable :
    recorded_digests
      (next_event started "PHYSICAL_DISPATCH" (obj (("authorization_digest", list nil) ∷ [])) ∷ [])
    ≡ err (type_error "unhashable type")
unfolding recorded_digests next_event get_or_null get get_field hashed is_hashable String-discrete
unhashable = refl

-- Python's `==` tells tuples and lists apart, which have one canonical form.
tuples_are_no_lists :
    same_payloads (next_event started "a" (tuple nil) ∷ []) (("a", list nil) ∷ []) ≡ false
unfolding same_payloads next_event comparable comparable_items String-discrete Value-discrete
tuples_are_no_lists = refl
