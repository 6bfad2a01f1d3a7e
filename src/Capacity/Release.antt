-- ===== src/Capacity/Release.antt =====
-- Proposing, committing and verifying reservations and releases in capacity.py.
use general_execution.Prelude.{
  ℕ, zero, suc, String, Bool, true, false, ◌&&◌, ◌||◌, not, List, map, length, any, contains,
  Option, none, some, Result, ok, err, capacity_error, raise_if, ◌>>=◌, ◌>>◌, ◌==◌, ◌!=◌, string_eq,
  nat_eq, option_eq, leb,
}
use general_execution.Canonical.{Hash, sha256_digest}
use general_execution.Models.{
  RunnerCapabilities, runner_digest, ExecutionSession, revoked, state_eq, session_id, session_value,
}
use general_execution.Adapter.{Context, verify_dispatch_request}
use general_execution.Physical.{
  PhysicalAttemptAuthorization, authorization_id, authorization_digest, PhysicalOutcomeBundle,
  outcome_digest, receipt_digest, verify_physical_outcome,
}
use general_execution.Capacity.Records.{
  CapacityLease, check_lease, CapacityRelease, check_release, CapacityTransition, Change, reserve,
  release, RunnerCapacityState, lease_eq, release_eq, transition_eq, capacity_eq, lease_id,
  lease_digest, transition_digest, state_digest, terminal_outcome, session_revoked,
}
use general_execution.Capacity.State.{
  leases, releases, active_leases, has_active, predecessor_released, the_one, matching,
  apply_transition, bound_to, verify_capacity_state,
}

pub record CapacityLeaseGrant : Type 0 where
  pub lease : CapacityLease
  pub reservation_transition_digest : String
  pub committed_state_digest : String
  pub committed_generation : ℕ

pub record CapacityReleaseGrant : Type 0 where
  pub release : CapacityRelease
  pub release_transition_digest : String
  pub committed_state_digest : String
  pub committed_generation : ℕ

-- `next((i for i in range(…) if i not in occupied), None)`, from a slot and for a number of slots.
unfoldable pub first_free : ℕ → ℕ → List ℕ → Option ℕ
first_free i zero occupied = none
first_free i (suc n) occupied = elim (contains i occupied) [
  | true ↦ first_free (suc i) n occupied
  | false ↦ some i
]

unfoldable pub or_raise : {A : Type 0} → Option A → String → Result A
or_raise none m = err (capacity_error m)
or_raise (some a) m = ok a

module _ ⦃h : Hash⦄ where
  -- `_validate_state_runner`
  unfoldable pub validate_state_runner :
      RunnerCapacityState → RunnerCapabilities → Result (Unit {0})
  validate_state_runner s r = do
    raise_if (not (bound_to s r))
        (capacity_error "capacity state is not bound to the exact runner capabilities")
    verified ← verify_capacity_state s r
    raise_if (not verified) (capacity_error "capacity state does not replay")

  -- The lease that a reservation proposes.
  unfoldable pub lease_for :
      RunnerCapacityState → RunnerCapabilities → PhysicalAttemptAuthorization → ℕ → CapacityLease
  lease_for s r a slot = record {
    runner_id = r.runner_id;
    runner_capability_digest = runner_digest r;
    slot = slot;
    session_id = a.request.session_id;
    logical_attempt = a.request.attempt;
    authorization_id = authorization_id a;
    authorization_digest = authorization_digest a;
    invocation_id = a.request.invocation_id;
    physical_attempt = a.physical_attempt;
    previous_invocation_id = a.previous_invocation_id;
    previous_receipt_digest = a.previous_receipt_digest;
    expected_state_digest = state_digest s;
  }

  -- The guards of a reservation that look at the leases.
  unfoldable pub check_available :
      RunnerCapacityState → PhysicalAttemptAuthorization → Result (Unit {0})
  check_available s a = do
    raise_if (leb s.max_parallelism (length (active_leases s)))
        (capacity_error "runner capacity exhausted")
    raise_if (any (λ l. l.authorization_digest == authorization_digest a) (leases s))
        (capacity_error "physical authorization already has a canonical capacity lease")
    raise_if (has_active a.request.session_id a.request.attempt (active_leases s))
        (capacity_error "logical Session already has an active canonical physical lease")
    raise_if
        (not (
          predecessor_released (releases s) a.request.session_id a.request.attempt
            a.physical_attempt a.previous_invocation_id a.previous_receipt_digest))
        (capacity_error "retry predecessor has not been canonically released")

  unfoldable pub free_slot : RunnerCapacityState → Option ℕ
  unfolding first_free
  free_slot s = first_free 0 s.max_parallelism (map (λ l. l.slot) (active_leases s))

  unfoldable pub propose_capacity_reservation :
      RunnerCapacityState → Context → PhysicalAttemptAuthorization → Result CapacityTransition
  propose_capacity_reservation s c a = do
    validate_state_runner s c.runner
    verified ← verify_dispatch_request c a.request
    raise_if (not verified)
        (capacity_error "physical authorization request does not reproduce from execution context")
    raise_if
        (a.request.runner_id != c.runner.runner_id
          || a.request.runner_capability_digest != runner_digest c.runner)
        (capacity_error "physical authorization is not bound to this runner")
    check_available s a
    slot ← or_raise (free_slot s) "runner capacity exhausted"
    lease ← check_lease (lease_for s c.runner a slot)
    ok (record { expected_state_digest = state_digest s; change = reserve lease })

  -- The grant for the lease of a committed transition.
  unfoldable pub lease_grant :
      RunnerCapacityState → CapacityTransition → Change → Result CapacityLeaseGrant
  lease_grant s t (reserve l) = ok (record {
    lease = l;
    reservation_transition_digest = transition_digest t;
    committed_state_digest = state_digest s;
    committed_generation = s.generation;
  })
  lease_grant s t (release r) =
      err (capacity_error "reservation transition does not reproduce from current state")

  unfoldable pub commit_capacity_reservation :
      RunnerCapacityState
      → Context
      → PhysicalAttemptAuthorization
      → CapacityTransition
      → Result (RunnerCapacityState × CapacityLeaseGrant)
  commit_capacity_reservation s c a t = do
    expected ← propose_capacity_reservation s c a
    raise_if (t != expected)
        (capacity_error "reservation transition does not reproduce from current state")
    new_state ← apply_transition s t
    grant ← lease_grant new_state t t.change
    ok (new_state, grant)

  unfoldable pub reserve_capacity :
      RunnerCapacityState
      → Context
      → PhysicalAttemptAuthorization
      → Result (RunnerCapacityState × CapacityLeaseGrant × CapacityTransition)
  reserve_capacity s c a = do
    t ← propose_capacity_reservation s c a
    committed ← commit_capacity_reservation s c a t
    ok (committed.0, committed.1, t)

  -- `_find_active_lease`
  unfoldable pub find_active_lease : RunnerCapacityState → CapacityLease → Result CapacityLease
  find_active_lease s l =
      the_one (matching s (lease_id l) (lease_digest l)) "capacity lease is not active"

  -- The authorization is the one that the lease was granted for.
  unfoldable pub belongs_to : PhysicalAttemptAuthorization → CapacityLease → Bool
  belongs_to a l =
      authorization_id a == l.authorization_id
      && authorization_digest a == l.authorization_digest
      && a.request.invocation_id == l.invocation_id
      && a.physical_attempt == l.physical_attempt

  unfoldable pub same_session : PhysicalAttemptAuthorization → CapacityLease → Bool
  same_session a l =
      a.request.session_id == l.session_id
      && a.request.attempt == l.logical_attempt
      && a.request.runner_id == l.runner_id

  -- The release of a lease by an outcome.
  unfoldable pub outcome_release :
      RunnerCapacityState → CapacityLease → PhysicalOutcomeBundle → CapacityRelease
  outcome_release s l o = record {
    lease_id = lease_id l;
    lease_digest = lease_digest l;
    runner_id = l.runner_id;
    session_id = l.session_id;
    logical_attempt = l.logical_attempt;
    authorization_id = l.authorization_id;
    authorization_digest = l.authorization_digest;
    invocation_id = l.invocation_id;
    physical_attempt = l.physical_attempt;
    release_kind = terminal_outcome;
    expected_state_digest = state_digest s;
    outcome_digest = some (outcome_digest o);
    receipt_digest = some (receipt_digest o.receipt);
    transport_status = some o.receipt.transport_status;
    revoked_session_digest = none;
  }

  unfoldable pub propose_outcome_release :
      RunnerCapacityState
      → Context
      → CapacityLease
      → PhysicalOutcomeBundle
      → Result CapacityTransition
  propose_outcome_release s c l o = do
    validate_state_runner s c.runner
    verified ← verify_physical_outcome c o
    raise_if (not verified)
        (capacity_error "physical outcome does not reproduce from execution context")
    lease ← find_active_lease s l
    raise_if (not (belongs_to o.authorization lease))
        (capacity_error "physical outcome does not belong to active lease")
    raise_if (not (same_session o.authorization lease))
        (capacity_error "physical outcome Session binding mismatch")
    r ← check_release (outcome_release s lease o)
    ok (record { expected_state_digest = state_digest s; change = release r })

  unfoldable pub release_grant :
      RunnerCapacityState → CapacityTransition → Change → Result CapacityReleaseGrant
  release_grant s t (release r) = ok (record {
    release = r;
    release_transition_digest = transition_digest t;
    committed_state_digest = state_digest s;
    committed_generation = s.generation;
  })
  release_grant s t (reserve l) =
      err (capacity_error "outcome release transition does not reproduce")

  unfoldable pub commit_outcome_release :
      RunnerCapacityState
      → Context
      → CapacityLease
      → PhysicalOutcomeBundle
      → CapacityTransition
      → Result (RunnerCapacityState × CapacityReleaseGrant)
  commit_outcome_release s c l o t = do
    expected ← propose_outcome_release s c l o
    raise_if (t != expected) (capacity_error "outcome release transition does not reproduce")
    new_state ← apply_transition s t
    grant ← release_grant new_state t t.change
    ok (new_state, grant)

  unfoldable pub release_capacity_for_outcome :
      RunnerCapacityState
      → Context
      → CapacityLease
      → PhysicalOutcomeBundle
      → Result (RunnerCapacityState × CapacityReleaseGrant × CapacityTransition)
  release_capacity_for_outcome s c l o = do
    t ← propose_outcome_release s c l o
    committed ← commit_outcome_release s c l o t
    ok (committed.0, committed.1, t)

  -- The session holds the lease.
  unfoldable pub owns_lease : ExecutionSession → CapacityLease → Bool
  owns_lease s l =
      session_id s == l.session_id
      && s.attempt == l.logical_attempt
      && s.runner_id == l.runner_id
      && s.runner_capability_digest == l.runner_capability_digest

  unfoldable pub revocation_release :
      RunnerCapacityState → CapacityLease → ExecutionSession → CapacityRelease
  revocation_release s l x = record {
    lease_id = lease_id l;
    lease_digest = lease_digest l;
    runner_id = l.runner_id;
    session_id = l.session_id;
    logical_attempt = l.logical_attempt;
    authorization_id = l.authorization_id;
    authorization_digest = l.authorization_digest;
    invocation_id = l.invocation_id;
    physical_attempt = l.physical_attempt;
    release_kind = session_revoked;
    expected_state_digest = state_digest s;
    outcome_digest = none;
    receipt_digest = none;
    transport_status = none;
    revoked_session_digest = some (sha256_digest (session_value x));
  }

  unfoldable pub propose_revocation_release :
      RunnerCapacityState
      → RunnerCapabilities
      → CapacityLease
      → ExecutionSession
      → Result CapacityTransition
  propose_revocation_release s runner l x = do
    validate_state_runner s runner
    lease ← find_active_lease s l
    raise_if (x.state != revoked) (capacity_error "Session must be revoked before capacity release")
    raise_if (not (owns_lease x lease))
        (capacity_error "revoked Session does not own this capacity lease")
    r ← check_release (revocation_release s lease x)
    ok (record { expected_state_digest = state_digest s; change = release r })

  unfoldable pub commit_revocation_release :
      RunnerCapacityState
      → RunnerCapabilities
      → CapacityLease
      → ExecutionSession
      → CapacityTransition
      → Result (RunnerCapacityState × CapacityReleaseGrant)
  commit_revocation_release s runner l x t = do
    expected ← propose_revocation_release s runner l x
    raise_if (t != expected) (capacity_error "revocation release transition does not reproduce")
    new_state ← apply_transition s t
    grant ← release_grant new_state t t.change
    ok (new_state, grant)

  unfoldable pub release_capacity_for_revocation :
      RunnerCapacityState
      → RunnerCapabilities
      → CapacityLease
      → ExecutionSession
      → Result (RunnerCapacityState × CapacityReleaseGrant × CapacityTransition)
  release_capacity_for_revocation s runner l x = do
    t ← propose_revocation_release s runner l x
    committed ← commit_revocation_release s runner l x t
    ok (committed.0, committed.1, t)
