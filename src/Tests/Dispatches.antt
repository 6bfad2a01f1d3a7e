-- ===== src/Tests/Dispatches.antt =====
-- The theorems on dispatch requests at a concrete context.
use general_execution.Prelude.{◌<◌, ◌≡◌, ◌↔◌, refl, ok, true, String-discrete, ℕ_discrete}
use general_execution.Prelude.Text.{
  codes, starts_with, is_blank, is_hex, is_int_base16, hex_digits, drop_prefix,
}
use general_execution.Canonical.{sha256_digest, stable_id, canonical_json}
use general_execution.Models.{
  check_artifact, nonempty, nonempty_all, has_digest_shape, has_digest_digits, check_result,
  is_valid_status, sort, insert_sorted, check_plan, is_valid_mode, ExecutionMode-discrete,
  DispatchPlan-discrete, RunnerCapabilities-discrete, SessionState-discrete, spec_id, spec_digest,
  plan_id, plan_digest, runner_digest, registry_digest, session_id,
}
use general_execution.Planner.{
  verify_plan, plan_execution, compatible_runners, compatible, plan_for,
}
use general_execution.Adapter.{
  AdapterDispatchRequest, request_for, build_dispatch_request, verify_dispatch_request,
  verify_static_binding, exactly_bound, check_request, ProviderObservation, InvocationBundle,
  make_reference_observation, check_provider_observation, probe_artifact, probe_result,
  probe_observation, evidence_uri, reference_evidence_digest, admit_observation,
  verify_invocation_bundle,
}
use general_execution.Adapter.Exactness.{verify_dispatch_request_complete}
use general_execution.Adapter.Binding.{IsBound, admit_observation-reference}
use general_execution.Tests.Data.{toy, context}

abbrev request : AdapterDispatchRequest
request = request_for context "gei-1"

built : build_dispatch_request context "gei-1" ≡ ok request
unfolding build_dispatch_request request_for verify_static_binding verify_plan plan_execution
    compatible_runners compatible sort insert_sorted plan_for check_plan is_valid_mode exactly_bound
    check_request String-discrete ℕ_discrete ExecutionMode-discrete DispatchPlan-discrete
    RunnerCapabilities-discrete SessionState-discrete sha256_digest stable_id canonical_json spec_id
    spec_digest plan_id plan_digest runner_digest registry_digest session_id starts_with
built = refl

verify_dispatch_request_complete_example : (verify_dispatch_request context request ≡ ok true) ↔ (
    IsBound context
    × (request ≡ request_for context request.invocation_id)
    × (starts_with (codes request.invocation_id) (codes "gei-") ≡ true)
    × (0 < request.attempt))
verify_dispatch_request_complete_example = verify_dispatch_request_complete context request

abbrev observation : ProviderObservation
observation = probe_observation request "gp-1" (probe_result request (probe_artifact request))

observed : make_reference_observation request "gp-1" ≡ ok observation
unfolding make_reference_observation probe_artifact probe_result check_provider_observation
    check_artifact check_result nonempty nonempty_all is_blank is_valid_status has_digest_shape
    has_digest_digits is_int_base16 hex_digits is_hex drop_prefix evidence_uri
    reference_evidence_digest probe_observation build_dispatch_request request_for
    verify_static_binding verify_plan plan_execution compatible_runners compatible sort
    insert_sorted plan_for check_plan is_valid_mode exactly_bound check_request String-discrete
    ℕ_discrete ExecutionMode-discrete DispatchPlan-discrete RunnerCapabilities-discrete
    SessionState-discrete sha256_digest stable_id canonical_json spec_id spec_digest plan_id
    plan_digest runner_digest registry_digest session_id starts_with
observed = refl

admit_observation-reference_example :
    (b : InvocationBundle) × (admit_observation context request observation ≡ ok b)
    × (verify_invocation_bundle context b ≡ ok true)
    × (b.request ≡ request)
    × (b.observation ≡ observation)
    × (b.result ≡ observation.result)
admit_observation-reference_example =
    admit_observation-reference context "gei-1" "gp-1" request observation built observed
