-- ===== src/Physical/Verify.antt =====
-- The verification of observations, outcomes and duplicates in physical.py.
use general_execution.Prelude.{
  ℕ, String, Bool, true, false, ◌&&◌, ◌||◌, not, [], ◌∷◌, Option, none, some, Result, ok, err,
  physical_error, raise_if, ◌>>=◌, ◌>>◌, ◌==◌, string_eq, nat_eq, option_eq, is_none,
}
use general_execution.Canonical.{str, num, opt, obj, Hash, sha256_digest}
use general_execution.Models.{ResultEnvelope, result_to_dict, result_digest, result_eq}
use general_execution.Adapter.{
  AdapterDispatchRequest, request_digest, Context, verify_dispatch_request,
}
use general_execution.Physical.Records.{
  TransportStatus, completed, transport_text, is_failure, transport_eq,
  PhysicalAttemptAuthorization, PhysicalObservation, PhysicalReceipt, check_receipt,
  PhysicalOutcomeBundle, authorization_digest, authorization_id, observation_digest,
}

-- `_verify_result_binding`
unfoldable pub binds_result : AdapterDispatchRequest → ResultEnvelope → Bool
binds_result q r =
    r.session_id == q.session_id
    && r.spec_id == q.spec_id
    && r.spec_digest == q.spec_digest
    && r.runner_id == q.runner_id
    && r.attempt == q.attempt

-- A result that is missing passes.
unfoldable pub binds_any_result : AdapterDispatchRequest → Option ResultEnvelope → Bool
unfolding binds_result
binds_any_result q none = true
binds_any_result q (some r) = binds_result q r

-- Evidence that a provider ran one invocation twice.
pub record DuplicatePhysicalAttempt : Type 0 where
  pub authorization_id : String
  pub invocation_id : String
  pub request_digest : String
  pub physical_attempt : ℕ
  pub canonical_observation_digest : String
  pub duplicate_observation_digest : String
  pub canonical_provider_invocation_id : String
  pub duplicate_provider_invocation_id : String

module _ ⦃h : Hash⦄ where
  unfoldable pub response_digest :
      PhysicalAttemptAuthorization
      → Option String
      → TransportStatus
      → Option ResultEnvelope
      → Option String
      → Option String
      → String
  response_digest a provider_invocation_id transport_status result failure_code detail_digest =
      sha256_digest (
        obj (
          ("protocol", str "ge.physical-outcome.v1")
          ∷ ("authorization_id", str (authorization_id a))
          ∷ ("authorization_digest", str (authorization_digest a))
          ∷ ("invocation_id", str a.request.invocation_id)
          ∷ ("request_digest", str (request_digest a.request))
          ∷ ("physical_attempt", num a.physical_attempt)
          ∷ ("provider_invocation_id", opt str provider_invocation_id)
          ∷ ("transport_status", str (transport_text transport_status))
          ∷ ("result", opt result_to_dict result)
          ∷ ("failure_code", opt str failure_code)
          ∷ ("detail_digest", opt str detail_digest)
          ∷ []))

  -- The response digest that the observation's own fields give.
  unfoldable pub expected_response : PhysicalAttemptAuthorization → PhysicalObservation → String
  expected_response a o =
      response_digest a o.provider_invocation_id o.transport_status o.result o.failure_code
        o.detail_digest

  -- `_verify_observation_against_authorization`
  unfoldable pub verify_observation : PhysicalAttemptAuthorization → PhysicalObservation → Bool
  verify_observation a o =
      o.authorization_id == authorization_id a
      && o.invocation_id == a.request.invocation_id
      && o.request_digest == request_digest a.request
      && o.response_digest == expected_response a o
      && binds_any_result a.request o.result

  -- The receipt repeats the authorization, its request and the observation.
  unfoldable pub receipt_repeats :
      PhysicalAttemptAuthorization → PhysicalObservation → PhysicalReceipt → Bool
  receipt_repeats a o r =
      r.authorization_id == authorization_id a
      && r.authorization_digest == authorization_digest a
      && r.invocation_id == a.request.invocation_id
      && r.request_digest == request_digest a.request
      && r.physical_attempt == a.physical_attempt
      && r.previous_invocation_id == a.previous_invocation_id
      && r.previous_receipt_digest == a.previous_receipt_digest
      && r.session_id == a.request.session_id
      && r.runner_id == a.request.runner_id
      && r.provider == a.request.provider
      && r.adapter == a.request.adapter
      && r.adapter_version == a.request.adapter_version
      && r.provider_invocation_id == o.provider_invocation_id
      && r.transport_status == o.transport_status
      && r.response_digest == o.response_digest
      && r.observation_digest == observation_digest o
      && r.failure_code == o.failure_code

  -- The receipt's result digest for the outcome's result.
  unfoldable pub result_matches :
      AdapterDispatchRequest → TransportStatus → PhysicalReceipt → Option ResultEnvelope → Bool
  unfolding binds_result is_failure
  result_matches q completed r none = false
  result_matches q completed r (some e) =
      r.result_digest == some (result_digest e) && binds_result q e
  result_matches q status r none = is_none r.result_digest && is_failure status
  result_matches q status r (some e) = false

  -- `_verify_intrinsic_outcome`
  unfoldable pub verify_intrinsic : PhysicalOutcomeBundle → Bool
  verify_intrinsic b =
      b.observation.result == b.result
      && verify_observation b.authorization b.observation
      && receipt_repeats b.authorization b.observation b.receipt
      && result_matches b.authorization.request b.observation.transport_status b.receipt b.result

  unfoldable pub verify_physical_outcome : Context → PhysicalOutcomeBundle → Result Bool
  verify_physical_outcome c b = do
    verified ← verify_dispatch_request c b.authorization.request
    ok (verified && verify_intrinsic b)

  -- The receipt that an admission writes.
  unfoldable pub receipt_for : PhysicalAttemptAuthorization → PhysicalObservation → PhysicalReceipt
  receipt_for a o = record {
    authorization_id = authorization_id a;
    authorization_digest = authorization_digest a;
    invocation_id = a.request.invocation_id;
    request_digest = request_digest a.request;
    physical_attempt = a.physical_attempt;
    previous_invocation_id = a.previous_invocation_id;
    previous_receipt_digest = a.previous_receipt_digest;
    session_id = a.request.session_id;
    runner_id = a.request.runner_id;
    provider = a.request.provider;
    adapter = a.request.adapter;
    adapter_version = a.request.adapter_version;
    provider_invocation_id = o.provider_invocation_id;
    transport_status = o.transport_status;
    response_digest = o.response_digest;
    observation_digest = observation_digest o;
    result_digest = elim o.result [ none ↦ none | some r ↦ some (result_digest r) ];
    failure_code = o.failure_code;
  }

  unfoldable pub admit_physical_observation :
      Context → PhysicalAttemptAuthorization → PhysicalObservation → Result PhysicalOutcomeBundle
  unfolding receipt_for
  admit_physical_observation c a o = do
    verified ← verify_dispatch_request c a.request
    raise_if (not verified)
        (physical_error "physical authorization contains an inadmissible request")
    raise_if (not (verify_observation a o))
        (physical_error "physical observation is not bound to the exact authorization")
    receipt ← check_receipt (receipt_for a o)
    let bundle : PhysicalOutcomeBundle = record {
      authorization = a;
      observation = o;
      receipt = receipt;
      result = o.result;
    }
    admitted ← verify_physical_outcome c bundle
    raise_if (not admitted) (physical_error "physical outcome verification failed")
    ok bundle

  -- Two provider invocations of one authorization, from what was observed of each.
  unfoldable pub duplicate_of :
      PhysicalAttemptAuthorization
      → PhysicalObservation
      → PhysicalObservation
      → Option String
      → Option String
      → Result DuplicatePhysicalAttempt
  duplicate_of a o p (some x) (some y) = do
    raise_if (x == "" || y == "" || x == y)
        (physical_error "duplicate evidence requires two distinct provider invocation ids")
    raise_if (observation_digest o == observation_digest p)
        (physical_error "duplicate evidence must identify distinct observations")
    ok (record {
      authorization_id = authorization_id a;
      invocation_id = a.request.invocation_id;
      request_digest = request_digest a.request;
      physical_attempt = a.physical_attempt;
      canonical_observation_digest = observation_digest o;
      duplicate_observation_digest = observation_digest p;
      canonical_provider_invocation_id = x;
      duplicate_provider_invocation_id = y;
    })
  duplicate_of a o p _ _ =
      err (physical_error "duplicate evidence requires two distinct provider invocation ids")

  unfoldable pub identify_duplicate_physical_attempt :
      PhysicalAttemptAuthorization
      → PhysicalObservation
      → PhysicalObservation
      → Result DuplicatePhysicalAttempt
  unfolding duplicate_of
  identify_duplicate_physical_attempt a o p = do
    raise_if (not (verify_observation a o))
        (physical_error "observation is not bound to the physical authorization")
    raise_if (not (verify_observation a p))
        (physical_error "observation is not bound to the physical authorization")
    duplicate_of a o p o.provider_invocation_id p.provider_invocation_id
