-- ===== src/Adapter/Binding.antt =====
-- What the adapter's checks bind together.
use general_execution.Prelude.{
  ◌<◌, String, ◌≡◌, ◌≢◌, ◌↔◌, refl, ap, ◌∙◌, Bool, true, not, Result, ok, err, arith, contains,
  >>=-eq-ok, raise_if-eq-ok, not-eq-false, ◌==◌, ◌!=◌, string_eq, nat_eq, all, Exn, adapter_error,
}
use general_execution.Canonical.{Hash}
use general_execution.Models.{
  spec_id, spec_digest, runner_digest, runner_eq, registry_digest, plan_id, plan_digest, running,
  ResultEnvelope, ResultStatus, ExecutionMode, mode_eq, ArtifactRef, check_artifact, check_result,
}
use general_execution.Planner.{plan_execution, verify_plan}
use general_execution.Planner.Choice.{verify_plan_iff}
use general_execution.Adapter.{
  AdapterDispatchRequest, check_request, check_provider_observation, reference_evidence,
  reference_task_kind, reference_capability, probe_artifact, probe_result, probe_observation,
  request_eq, Context, catch_adapter_error, request_digest, exactly_bound, verify_static_binding,
  request_for, build_dispatch_request, verify_dispatch_request, ProviderObservation,
  InvocationBundle, expected_response, make_reference_observation, result_in_context,
  bundle_is_bound, verify_invocation_bundle, receipt_for, admit_observation, is_probe_evidence,
}

-- The context of a request that may be dispatched.
pub record IsBound ⦃h : Hash⦄ (c : Context) : Type 0 where
  pub planned : plan_execution c.spec c.registry c.plan.mode ≡ ok c.plan
  pub registered : contains c.runner c.registry.runners ≡ true
  pub active : c.session.state ≡ running
  pub same_spec : c.session.spec_id ≡ spec_id c.spec
  pub same_spec_digest : c.session.spec_digest ≡ spec_digest c.spec
  pub same_plan : c.session.plan_id ≡ plan_id c.plan
  pub same_plan_digest : c.session.plan_digest ≡ plan_digest c.plan
  pub same_registry : c.plan.registry_digest ≡ registry_digest c.registry
  pub same_runner : c.session.runner_id ≡ c.runner.runner_id
  pub same_capability : c.session.runner_capability_digest ≡ runner_digest c.runner
  pub same_mode : c.session.mode ≡ c.plan.mode

module _ ⦃h : Hash⦄ where
  exactly_bound_facts :
      (c : Context)
      → exactly_bound c ≡ true
      → (c.session.spec_id ≡ spec_id c.spec)
        × (c.session.spec_digest ≡ spec_digest c.spec)
        × (c.session.plan_id ≡ plan_id c.plan)
        × (c.session.plan_digest ≡ plan_digest c.plan)
        × (c.plan.registry_digest ≡ registry_digest c.registry)
        × (c.session.runner_id ≡ c.runner.runner_id)
        × (c.session.runner_capability_digest ≡ runner_digest c.runner)
        × (c.session.mode ≡ c.plan.mode)
  unfolding exactly_bound
  exactly_bound_facts c e = ground arith

  verify_static_binding-IsBound : (c : Context) → verify_static_binding c ≡ ok tt → IsBound c
  unfolding verify_static_binding
  verify_static_binding-IsBound c e =
      let (v, eq, rest) = >>=-eq-ok (verify_plan c.spec c.registry c.plan) _ e in
      let (verified, rest2) = raise_if-eq-ok (not v) _ _ rest in
      ground (
        arith,
        (verify_plan_iff c.spec c.registry c.plan).0 (eq ∙ ap ok (not-eq-false v verified)),
        exactly_bound_facts c,
      )

  catch-ne-true :
      {A : Type 0} (x : Exn) (f : A → Result Bool) → catch_adapter_error (err x) f ≢ ok true
  unfolding catch_adapter_error
  catch-ne-true (adapter_error m) f e = cc
  catch-ne-true _ f e = cc

  check_request-same :
      (q r : AdapterDispatchRequest) → check_request q ≡ ok r → (r ≡ q) × (0 < r.attempt)
  unfolding check_request
  check_request-same q r e = ground arith

  -- Everything is tied together when a request can be built.
  pub build_dispatch_request-IsBound :
      (c : Context) (i : String) (q : AdapterDispatchRequest)
      → build_dispatch_request c i ≡ ok q
      → IsBound c × (q ≡ request_for c i) × (0 < q.attempt)
  unfolding build_dispatch_request
  build_dispatch_request-IsBound c i q e =
      let (u, bound, rest) = >>=-eq-ok (verify_static_binding c) _ e in
      let made = check_request-same _ q rest in
      (verify_static_binding-IsBound c bound, made.0, made.1)

  -- `verify_dispatch_request` accepts a request exactly if the context builds that request for the
  -- request's own invocation id.
  pub verify_dispatch_request_iff :
      (c : Context) (q : AdapterDispatchRequest)
      → (verify_dispatch_request c q ≡ ok true) ↔ (build_dispatch_request c q.invocation_id ≡ ok q)
  unfolding verify_dispatch_request
  verify_dispatch_request_iff c q = go (build_dispatch_request c q.invocation_id) refl
    where
      go :
          (r : Result AdapterDispatchRequest)
          → build_dispatch_request c q.invocation_id ≡ r
          → (verify_dispatch_request c q ≡ ok true) ↔ (r ≡ ok q)
      go (ok x) e = rw (e, verify_dispatch_request) (ground arith)
      go (err x) e = rw (e, verify_dispatch_request) (λ k. absurd (catch-ne-true x _ k), λ k. cc)

  pub verify_dispatch_request-IsBound :
      (c : Context) (q : AdapterDispatchRequest)
      → verify_dispatch_request c q ≡ ok true
      → IsBound c × (q ≡ request_for c q.invocation_id) × (0 < q.attempt)
  verify_dispatch_request-IsBound c q e =
      build_dispatch_request-IsBound c q.invocation_id q ((verify_dispatch_request_iff c q).0 e)

  check_artifact-same : (a b : ArtifactRef) → check_artifact a ≡ ok b → b ≡ a
  unfolding check_artifact
  check_artifact-same a b e = ground arith

  check_result-same : (r q : ResultEnvelope) → check_result r ≡ ok q → q ≡ r
  unfolding check_result
  check_result-same r q e = ground arith

  check_provider_observation-same :
      (o p : ProviderObservation)
      → check_provider_observation o ≡ ok p
      → (p ≡ o) × (o.transport_status ≡ "completed")
  unfolding check_provider_observation
  check_provider_observation-same o p e = ground arith

  -- The parts of a result that the reference provider makes.
  reference_facts :
      (q : AdapterDispatchRequest) (i : String) (o : ProviderObservation)
      → make_reference_observation q i ≡ ok o
      → (o.invocation_id ≡ q.invocation_id)
        × (o.request_digest ≡ request_digest q)
        × (o.provider_invocation_id ≡ i)
        × (o.transport_status ≡ "completed")
        × (o.response_digest ≡ expected_response q i o.result)
        × (o.result.session_id ≡ q.session_id)
        × (o.result.spec_id ≡ q.spec_id)
        × (o.result.spec_digest ≡ q.spec_digest)
        × (o.result.runner_id ≡ q.runner_id)
        × (o.result.attempt ≡ q.attempt)
        × (o.result.status ≡ ResultStatus.completed)
        × (is_probe_evidence q o.result.evidence ≡ true)
  unfolding make_reference_observation is_probe_evidence
  reference_facts q i o e =
      let (_, rest1) = raise_if-eq-ok (q.mode != ExecutionMode.read_only) _ _ e in
      let (_, rest2) = raise_if-eq-ok (q.spec.task_kind != reference_task_kind) _ _ rest1 in
      let (_, rest3) =
        raise_if-eq-ok (not (contains reference_capability q.spec.required_capabilities)) _ _
          rest2 in
      let (_, rest4) =
        raise_if-eq-ok (not (all (λ r. r == reference_evidence) q.spec.evidence_requirements)) _ _
          rest3 in
      let (a, made_a, rest5) = >>=-eq-ok (check_artifact (probe_artifact q)) _ rest4 in
      let (r, made_r, rest6) = >>=-eq-ok (check_result (probe_result q a)) _ rest5 in
      ground (
        arith,
        check_artifact-same (probe_artifact q) a made_a,
        check_result-same (probe_result q a) r made_r,
        check_provider_observation-same (probe_observation q i r) o rest6,
      )

  pub verify-build :
      (c : Context) (i : String) (q : AdapterDispatchRequest)
      → build_dispatch_request c i ≡ ok q
      → verify_dispatch_request c q ≡ ok true
  unfolding request_for
  verify-build c i q e = (verify_dispatch_request_iff c q).1 (
      ap (build_dispatch_request c) (
        ap (λ (r : AdapterDispatchRequest). r.invocation_id)
          (build_dispatch_request-IsBound c i q e).1)
      ∙ e)

  abbrev bundle_for : Context → AdapterDispatchRequest → ProviderObservation → InvocationBundle
  bundle_for c q o = record {
    request = q;
    observation = o;
    receipt = receipt_for c q o;
    result = o.result;
  }

  result_in_context-reference :
      (c : Context) (i p : String) (q : AdapterDispatchRequest) (o : ProviderObservation)
      → q ≡ request_for c i
      → make_reference_observation q p ≡ ok o
      → result_in_context c o.result ≡ true
  unfolding result_in_context request_for
  result_in_context-reference c i p q o made answered =
      ground (arith, reference_facts q p o answered)

  bundle_is_bound-reference :
      (c : Context) (p : String) (q : AdapterDispatchRequest) (o : ProviderObservation)
      → make_reference_observation q p ≡ ok o
      → result_in_context c o.result ≡ true
      → bundle_is_bound c (bundle_for c q o) ≡ true
  unfolding bundle_is_bound receipt_for
  bundle_is_bound-reference c p q o answered within = ground (arith, reference_facts q p o answered)

  -- A request that a context builds, answered by the reference provider, is always admitted: the
  -- bundle holds the request, the observation and its result, and verifies.
  pub admit_observation-reference :
      (c : Context) (i p : String) (q : AdapterDispatchRequest) (o : ProviderObservation)
      → build_dispatch_request c i ≡ ok q
      → make_reference_observation q p ≡ ok o
      → (b : InvocationBundle) × (admit_observation c q o ≡ ok b)
        × (verify_invocation_bundle c b ≡ ok true)
        × (b.request ≡ q)
        × (b.observation ≡ o)
        × (b.result ≡ o.result)
  unfolding admit_observation verify_invocation_bundle
  admit_observation-reference c i p q o built made = (
    bundle_for c q o,
    rw (verified, admit_observation) (ground (arith, within, bundled, reference_facts q p o made)),
    rw (verified, verify_invocation_bundle) (ap ok bundled),
    refl,
    refl,
    refl,
  )
    where
      verified : verify_dispatch_request c q ≡ ok true
      verified = verify-build c i q built

      within : result_in_context c o.result ≡ true
      within =
          result_in_context-reference c i p q o (build_dispatch_request-IsBound c i q built).1 made

      bundled : bundle_is_bound c (bundle_for c q o) ≡ true
      bundled = bundle_is_bound-reference c p q o made within
