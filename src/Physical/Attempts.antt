-- ===== src/Physical/Attempts.antt =====
-- Authorizing a first attempt and a retry, and observing an attempt, in physical.py.
use general_execution.Prelude.{
  ◌+◌, String, not, Option, none, some, Result, physical_error, raise_if, ◌>>=◌, ◌>>◌, ◌==◌,
}
use general_execution.Canonical.{Hash}
use general_execution.Models.{ResultEnvelope}
use general_execution.Adapter.{request_digest, Context, build_dispatch_request}
use general_execution.Physical.Records.{
  TransportStatus, completed, is_failure, transport_eq, PhysicalAttemptAuthorization,
  check_authorization, PhysicalObservation, check_observation, PhysicalOutcomeBundle,
  authorization_id, receipt_digest,
}
use general_execution.Physical.Verify.{response_digest, verify_physical_outcome}

module _ ⦃h : Hash⦄ where
  unfoldable pub authorize_physical_attempt : Context → String → Result PhysicalAttemptAuthorization
  authorize_physical_attempt c invocation_id = do
    request ← build_dispatch_request c invocation_id
    check_authorization (record {
      request = request;
      physical_attempt = 1;
      previous_invocation_id = none;
      previous_receipt_digest = none;
    })

  unfoldable pub authorize_retry :
      Context → PhysicalOutcomeBundle → String → Result PhysicalAttemptAuthorization
  authorize_retry c prior invocation_id = do
    verified ← verify_physical_outcome c prior
    raise_if (not verified) (physical_error "prior physical outcome is not admissible")
    raise_if (prior.receipt.transport_status == completed)
        (physical_error "cannot retry after a completed physical attempt")
    request ← build_dispatch_request c invocation_id
    check_authorization (record {
      request = request;
      physical_attempt = prior.authorization.physical_attempt + 1;
      previous_invocation_id = some prior.authorization.request.invocation_id;
      previous_receipt_digest = some (receipt_digest prior.receipt);
    })

  unfoldable pub observe_completed :
      PhysicalAttemptAuthorization
      → ResultEnvelope
      → String
      → Option String
      → Result PhysicalObservation
  observe_completed a result provider_invocation_id detail_digest = check_observation (record {
    authorization_id = authorization_id a;
    invocation_id = a.request.invocation_id;
    request_digest = request_digest a.request;
    provider_invocation_id = some provider_invocation_id;
    transport_status = completed;
    result = some result;
    failure_code = none;
    detail_digest = detail_digest;
    response_digest =
        response_digest a (some provider_invocation_id) completed (some result) none detail_digest;
  })

  unfoldable pub observe_failure :
      PhysicalAttemptAuthorization
      → TransportStatus
      → String
      → Option String
      → Option String
      → Result PhysicalObservation
  unfolding is_failure
  observe_failure a transport_status failure_code provider_invocation_id detail_digest = do
    raise_if (not (is_failure transport_status))
        (physical_error "failure observation requires a failure transport status")
    check_observation (record {
      authorization_id = authorization_id a;
      invocation_id = a.request.invocation_id;
      request_digest = request_digest a.request;
      provider_invocation_id = provider_invocation_id;
      transport_status = transport_status;
      result = none;
      failure_code = some failure_code;
      detail_digest = detail_digest;
      response_digest =
          response_digest a provider_invocation_id transport_status none (some failure_code)
            detail_digest;
    })
