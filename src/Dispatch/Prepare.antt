-- ===== src/Dispatch/Prepare.antt =====
-- Preparing an intent for an active lease, its first state, and the permit of dispatch.py.
use general_execution.Prelude.{
  String, Bool, false, ◌&&◌, ◌||◌, not, List, [], ◌∷◌, none, Result, ok, err, dispatch_error,
  raise_if, ◌>>=◌, ◌>>◌, ◌==◌, ◌!=◌, string_eq, nat_eq, if◌then◌else◌,
}
use general_execution.Canonical.{Value, bool, str, obj, Hash, sha256_digest}
use general_execution.Models.{RunnerCapabilities, runner_digest}
use general_execution.Adapter.{request_digest}
use general_execution.Physical.{
  PhysicalAttemptAuthorization, authorization_id, authorization_digest,
}
use general_execution.Capacity.{
  CapacityLease, lease_eq, lease_id, lease_digest, RunnerCapacityState, state_digest, matching,
  verify_capacity_state,
}
use general_execution.Dispatch.Records.{
  DispatchIntent, check_intent, prepared, submission_unknown, status_eq, DispatchIntentState,
  check_dispatch_state, dispatch_state_digest, DispatchPermit, check_permit, permit_eq, intent_id,
  intent_digest,
}

abbrev pub only_lease : List CapacityLease → Result CapacityLease
only_lease (l ∷ []) = ok l
only_lease _ = err (dispatch_error "dispatch intent does not reference one active capacity lease")

module _ ⦃h : Hash⦄ where
  unfoldable pub find_active_lease : RunnerCapacityState → String → String → Result CapacityLease
  unfolding matching
  find_active_lease s id digest = only_lease (matching s id digest)

  -- The lease and the request are those of the authorization and the runner.
  unfoldable pub lease_authorized :
      RunnerCapabilities → CapacityLease → PhysicalAttemptAuthorization → Bool
  lease_authorized runner l a =
      l.runner_id == runner.runner_id
      && l.runner_capability_digest == runner_digest runner
      && l.authorization_id == authorization_id a
      && l.authorization_digest == authorization_digest a
      && l.invocation_id == a.request.invocation_id
      && l.physical_attempt == a.physical_attempt
      && l.session_id == a.request.session_id
      && l.logical_attempt == a.request.attempt
      && a.request.runner_id == runner.runner_id
      && a.request.runner_capability_digest == runner_digest runner

  unfoldable pub intent_for :
      RunnerCapacityState
      → RunnerCapabilities
      → CapacityLease
      → PhysicalAttemptAuthorization
      → DispatchIntent
  intent_for s runner l a = record {
    runner_id = runner.runner_id;
    runner_capability_digest = runner_digest runner;
    lease_id = lease_id l;
    lease_digest = lease_digest l;
    slot = l.slot;
    session_id = l.session_id;
    logical_attempt = l.logical_attempt;
    authorization_id = authorization_id a;
    authorization_digest = authorization_digest a;
    invocation_id = a.request.invocation_id;
    request_digest = request_digest a.request;
    physical_attempt = a.physical_attempt;
    capacity_state_digest = state_digest s;
  }

  unfoldable pub prepare_dispatch_intent :
      RunnerCapacityState
      → RunnerCapabilities
      → CapacityLease
      → PhysicalAttemptAuthorization
      → Result DispatchIntent
  unfolding find_active_lease lease_authorized intent_for
  prepare_dispatch_intent s runner l a = do
    verified ← verify_capacity_state s runner
    raise_if (not verified) (dispatch_error "capacity state does not replay for runner")
    active ← find_active_lease s (lease_id l) (lease_digest l)
    raise_if (active != l) (dispatch_error "capacity lease is not the exact active lease")
    raise_if (not (lease_authorized runner l a))
        (dispatch_error "authorization does not reproduce the active capacity lease")
    check_intent (intent_for s runner l a)

  unfoldable pub initial_dispatch_state : DispatchIntent → Result DispatchIntentState
  initial_dispatch_state i = check_dispatch_state (record {
    intent = i;
    status = prepared;
    revision = 0;
    previous_state_digest = none;
    provider_invocation_id = none;
    observation_digest = none;
    receipt_digest = none;
    outcome_digest = none;
    transport_status = none;
  })

  -- The active lease is the one that the intent was prepared for.
  unfoldable pub lease_intended : CapacityLease → DispatchIntent → Bool
  lease_intended l i =
      l.authorization_id == i.authorization_id
      && l.authorization_digest == i.authorization_digest
      && l.invocation_id == i.invocation_id
      && l.physical_attempt == i.physical_attempt
      && l.session_id == i.session_id
      && l.logical_attempt == i.logical_attempt

  -- `_validate_intent_against_capacity`
  unfoldable pub validate_intent :
      DispatchIntent → RunnerCapacityState → RunnerCapabilities → Result CapacityLease
  unfolding find_active_lease lease_intended
  validate_intent i s runner = do
    verified ← verify_capacity_state s runner
    raise_if (not verified) (dispatch_error "capacity state does not replay for runner")
    raise_if (i.runner_id != runner.runner_id || i.runner_capability_digest != runner_digest runner)
        (dispatch_error "dispatch intent runner capabilities changed")
    lease ← find_active_lease s i.lease_id i.lease_digest
    raise_if (not (lease_intended lease i))
        (dispatch_error "active lease no longer matches dispatch intent")
    ok lease

  -- `_permit`
  unfoldable pub permit_for : DispatchIntentState → Result DispatchPermit
  unfolding check_permit
  permit_for s = do
    raise_if (s.status != submission_unknown)
        (dispatch_error "dispatch permit requires submission_unknown durable state")
    check_permit (record {
      intent_id = intent_id s.intent;
      intent_digest = intent_digest s.intent;
      state_digest = dispatch_state_digest s;
      invocation_id = s.intent.invocation_id;
      request_digest = s.intent.request_digest;
      authorization_id = s.intent.authorization_id;
      authorization_digest = s.intent.authorization_digest;
      transport_authority = false;
    })

  unfoldable pub verify_dispatch_permit : DispatchIntentState → DispatchPermit → Result Bool
  unfolding permit_for
  verify_dispatch_permit s p =
      if s.status != submission_unknown || p.transport_authority
      then ok false
      else (permit_for s >>= λ expected. ok (p == expected))

-- `asdict` of a permit.
unfoldable pub permit_value : DispatchPermit → Value
permit_value p = obj (
    ("intent_id", str p.intent_id)
    ∷ ("intent_digest", str p.intent_digest)
    ∷ ("state_digest", str p.state_digest)
    ∷ ("invocation_id", str p.invocation_id)
    ∷ ("request_digest", str p.request_digest)
    ∷ ("authorization_id", str p.authorization_id)
    ∷ ("authorization_digest", str p.authorization_digest)
    ∷ ("transport_authority", bool p.transport_authority)
    ∷ ("schema_version", str "ge.dispatch-permit.v1")
    ∷ [])

unfoldable pub permit_digest : ⦃h : Hash⦄ → DispatchPermit → String
permit_digest p = sha256_digest (permit_value p)
