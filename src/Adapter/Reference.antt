-- ===== src/Adapter/Reference.antt =====
-- The reference provider of adapter.py: its observation, the admission of one, and the bundle.
use Prim.Native.String.{◌++◌}
use general_execution.Prelude.{
  String, Bool, false, ◌&&◌, ◌||◌, not, List, [], ◌∷◌, all, Result, ok, adapter_error, value_error,
  raise_if, ◌>>=◌, ◌>>◌, ◌==◌, ◌!=◌, string_eq, nat_eq, contains,
}
use general_execution.Canonical.{str, arr, obj, Hash, sha256_digest}
use general_execution.Models.{
  ArtifactRef, artifact_eq, artifact_value, check_artifact, spec_id, spec_digest, ExecutionMode,
  mode_eq, ResultEnvelope, ResultStatus, status_eq, result_eq, check_result, result_to_dict,
  result_digest, session_id,
}
use general_execution.Adapter.Request.{
  AdapterDispatchRequest, request_digest, request_id, Context, verify_dispatch_request,
}

pub record ProviderObservation : Type 0 where
  pub invocation_id : String
  pub request_digest : String
  pub provider_invocation_id : String
  pub transport_status : String
  pub result : ResultEnvelope
  pub response_digest : String

unfoldable pub check_provider_observation : ProviderObservation → Result ProviderObservation
check_provider_observation o = do
  raise_if (o.transport_status != "completed")
      (value_error "v0.0.2 observations support only completed transport status")
  ok o

pub record AdapterReceipt : Type 0 where
  pub invocation_id : String
  pub request_id : String
  pub request_digest : String
  pub session_id : String
  pub runner_id : String
  pub provider : String
  pub adapter : String
  pub adapter_version : String
  pub provider_invocation_id : String
  pub transport_status : String
  pub response_digest : String
  pub result_digest : String

pub record InvocationBundle : Type 0 where
  pub request : AdapterDispatchRequest
  pub observation : ProviderObservation
  pub receipt : AdapterReceipt
  pub result : ResultEnvelope

abbrev pub reference_capability : String
reference_capability = "reference.probe"

abbrev pub reference_task_kind : String
reference_task_kind = "reference-probe"

abbrev pub reference_evidence : String
reference_evidence = "reference-probe-digest"

unfoldable pub evidence_uri : AdapterDispatchRequest → String
evidence_uri q = "ge+reference://evidence/" ++ q.invocation_id

module _ ⦃h : Hash⦄ where
  unfoldable pub reference_evidence_digest : AdapterDispatchRequest → String
  reference_evidence_digest q = sha256_digest (
      obj (
        ("protocol", str "ge.reference-probe.v1")
        ∷ ("invocation_id", str q.invocation_id)
        ∷ ("session_id", str q.session_id)
        ∷ ("spec_digest", str q.spec_digest)
        ∷ ("source_revision", str q.spec.source_revision)
        ∷ ("objective", str q.spec.objective)
        ∷ ("inputs", arr artifact_value q.spec.inputs)
        ∷ []))

  -- The digest that binds a provider's answer to the request.
  unfoldable pub expected_response : AdapterDispatchRequest → String → ResultEnvelope → String
  expected_response q provider_invocation_id result = sha256_digest (
      obj (
        ("invocation_id", str q.invocation_id)
        ∷ ("request_digest", str (request_digest q))
        ∷ ("provider_invocation_id", str provider_invocation_id)
        ∷ ("result", result_to_dict result)
        ∷ []))

  -- The three records that the reference provider builds.
  unfoldable pub probe_artifact : AdapterDispatchRequest → ArtifactRef
  unfolding evidence_uri
  probe_artifact q = record {
    name = reference_evidence;
    uri = evidence_uri q;
    digest = reference_evidence_digest q;
  }

  unfoldable pub probe_result : AdapterDispatchRequest → ArtifactRef → ResultEnvelope
  probe_result q evidence = record {
    session_id = q.session_id;
    spec_id = q.spec_id;
    spec_digest = q.spec_digest;
    runner_id = q.runner_id;
    attempt = q.attempt;
    status = ResultStatus.completed;
    output_artifacts = [];
    evidence = evidence ∷ [];
    summary = "Reference provider completed the bounded conformance probe.";
  }

  unfoldable pub probe_observation :
      AdapterDispatchRequest → String → ResultEnvelope → ProviderObservation
  probe_observation q provider_invocation_id result = record {
    invocation_id = q.invocation_id;
    request_digest = request_digest q;
    provider_invocation_id = provider_invocation_id;
    transport_status = "completed";
    result = result;
    response_digest = expected_response q provider_invocation_id result;
  }

  unfoldable pub make_reference_observation :
      AdapterDispatchRequest → String → Result ProviderObservation
  unfolding probe_artifact probe_result probe_observation check_provider_observation
  make_reference_observation q provider_invocation_id = do
    raise_if (q.mode != ExecutionMode.read_only) (adapter_error "reference adapter is read-only")
    raise_if (q.spec.task_kind != reference_task_kind)
        (adapter_error "reference adapter accepts only reference-probe")
    raise_if (not (contains reference_capability q.spec.required_capabilities))
        (adapter_error "reference capability must be requested")
    raise_if (not (all (λ r. r == reference_evidence) q.spec.evidence_requirements))
        (adapter_error "unsupported evidence requirement")
    evidence ← check_artifact (probe_artifact q)
    result ← check_result (probe_result q evidence)
    check_provider_observation (probe_observation q provider_invocation_id result)

  -- The result belongs to the context's session, specification and runner.
  unfoldable pub result_in_context : Context → ResultEnvelope → Bool
  result_in_context c r =
      r.session_id == session_id c.session
      && r.spec_id == spec_id c.spec
      && r.spec_digest == spec_digest c.spec
      && r.runner_id == c.runner.runner_id
      && r.attempt == c.session.attempt

  -- The one piece of evidence is the probe's, for this request.
  unfoldable pub is_probe_evidence : AdapterDispatchRequest → List ArtifactRef → Bool
  unfolding evidence_uri
  is_probe_evidence q [] = false
  is_probe_evidence q (a ∷ []) =
      a.name == reference_evidence
      && a.uri == evidence_uri q
      && a.digest == reference_evidence_digest q
  is_probe_evidence q (a ∷ b ∷ r) = false

  -- What `verify_invocation_bundle` tests after the request.
  unfoldable pub bundle_is_bound : Context → InvocationBundle → Bool
  unfolding result_in_context is_probe_evidence
  bundle_is_bound c b =
      b.observation.result == b.result
      && b.receipt.result_digest == result_digest b.result
      && b.observation.invocation_id == b.request.invocation_id
      && b.observation.request_digest == request_digest b.request
      && b.receipt.invocation_id == b.request.invocation_id
      && b.receipt.request_id == request_id b.request
      && b.receipt.request_digest == request_digest b.request
      && b.receipt.provider_invocation_id == b.observation.provider_invocation_id
      && b.receipt.response_digest == b.observation.response_digest
      && b.receipt.transport_status == "completed"
      && b.observation.response_digest
        == expected_response b.request b.observation.provider_invocation_id b.result
      && b.result.status == ResultStatus.completed
      && result_in_context c b.result
      && is_probe_evidence b.request b.result.evidence

  unfoldable pub verify_invocation_bundle : Context → InvocationBundle → Result Bool
  unfolding bundle_is_bound
  verify_invocation_bundle c b = do
    verified ← verify_dispatch_request c b.request
    ok (verified && bundle_is_bound c b)

  -- The receipt for an observation.
  unfoldable pub receipt_for :
      Context → AdapterDispatchRequest → ProviderObservation → AdapterReceipt
  receipt_for c q o = record {
    invocation_id = q.invocation_id;
    request_id = request_id q;
    request_digest = request_digest q;
    session_id = session_id c.session;
    runner_id = c.runner.runner_id;
    provider = c.runner.provider;
    adapter = c.runner.adapter;
    adapter_version = c.runner.adapter_version;
    provider_invocation_id = o.provider_invocation_id;
    transport_status = o.transport_status;
    response_digest = o.response_digest;
    result_digest = result_digest o.result;
  }

  unfoldable pub admit_observation :
      Context → AdapterDispatchRequest → ProviderObservation → Result InvocationBundle
  unfolding result_in_context receipt_for
  admit_observation c q o = do
    verified ← verify_dispatch_request c q
    raise_if (not verified) (adapter_error "dispatch request is not admissible")
    raise_if
        (o.invocation_id != q.invocation_id
          || o.request_digest != request_digest q
          || o.response_digest != expected_response q o.provider_invocation_id o.result
          || not (result_in_context c o.result))
        (adapter_error "provider observation is not bound to the exact request")
    let bundle : InvocationBundle = record {
      request = q;
      observation = o;
      receipt = receipt_for c q o;
      result = o.result;
    }
    bound ← verify_invocation_bundle c bundle
    raise_if (not bound) (adapter_error "invocation bundle verification failed")
    ok bundle
