-- ===== src/Capacity/State.antt =====
-- The state of capacity.py: what is leased, what a transition does to it, and its verification.
use general_execution.Prelude.{
  ℕ, ◌+◌, String, Bool, true, false, ◌&&◌, ◌||◌, not, List, [], ◌∷◌, ◌++◌, map, length, any, select,
  contains, Option, none, some, Result, ok, err, capacity_error, raise_if, ◌>>=◌, ◌>>◌, ◌==◌, ◌!=◌,
  string_eq, nat_eq, option_eq, leb, if◌then◌else◌,
}
use general_execution.Canonical.{Hash}
use general_execution.Models.{RunnerCapabilities, runner_digest}
use general_execution.Physical.{TransportStatus, transport_eq}
use general_execution.Capacity.Records.{
  CapacityLease, CapacityRelease, ReleaseKind, CapacityTransition, Change, reserve, release,
  RunnerCapacityState, check_state, lease_eq, release_eq, transition_eq, capacity_eq, lease_id,
  lease_digest, state_digest, terminal_outcome, session_revoked, other_kind,
}

-- `state.leases` and `state.releases`, oldest first.
unfoldable pub leases_in : List CapacityTransition → List CapacityLease
leases_in [] = []
leases_in (t ∷ ts) = elim t.change [ reserve l ↦ l ∷ leases_in ts | release r ↦ leases_in ts ]

unfoldable pub releases_in : List CapacityTransition → List CapacityRelease
releases_in [] = []
releases_in (t ∷ ts) = elim t.change [ reserve l ↦ releases_in ts | release r ↦ r ∷ releases_in ts ]

-- `release.release_kind == 'terminal_outcome'`
abbrev pub is_terminal : ReleaseKind → Bool
is_terminal terminal_outcome = true
is_terminal session_revoked = false
is_terminal (other_kind s) = s == "terminal_outcome"

-- The release ended the physical attempt before this one, by an outcome that did not complete.
unfoldable pub releases_predecessor :
    String → ℕ → ℕ → Option String → Option String → CapacityRelease → Bool
releases_predecessor session attempt physical previous receipt r =
    is_terminal r.release_kind
    && r.session_id == session
    && r.logical_attempt == attempt
    && r.physical_attempt + 1 == physical
    && some r.invocation_id == previous
    && r.receipt_digest == receipt
    && r.transport_status != some TransportStatus.completed

unfoldable pub predecessor_released :
    List CapacityRelease → String → ℕ → ℕ → Option String → Option String → Bool
unfolding releases_predecessor
predecessor_released rs session attempt physical previous receipt =
    if physical == 1
    then previous == none && receipt == none
    else any (releases_predecessor session attempt physical previous receipt) rs

-- Some active lease is for this session and attempt.
unfoldable pub has_active : String → ℕ → List CapacityLease → Bool
has_active session attempt = any (λ l. l.session_id == session && l.logical_attempt == attempt)

-- The one element of a list of one.
unfoldable pub the_one : {A : Type 0} → List A → String → Result A
the_one [] m = err (capacity_error m)
the_one (a ∷ []) m = ok a
the_one (a ∷ b ∷ r) m = err (capacity_error m)

-- The release repeats the identity of the lease.
unfoldable pub same_identity : CapacityRelease → CapacityLease → Bool
same_identity r l =
    r.runner_id == l.runner_id
    && r.session_id == l.session_id
    && r.logical_attempt == l.logical_attempt
    && r.authorization_id == l.authorization_id
    && r.authorization_digest == l.authorization_digest
    && r.invocation_id == l.invocation_id
    && r.physical_attempt == l.physical_attempt

abbrev pub leases : RunnerCapacityState → List CapacityLease
leases s = leases_in s.transitions

abbrev pub releases : RunnerCapacityState → List CapacityRelease
releases s = releases_in s.transitions

module _ ⦃h : Hash⦄ where
  unfoldable pub active_in : List CapacityTransition → List CapacityLease
  active_in ts =
      let released = map (λ r. r.lease_id) (releases_in ts) in
      select (λ l. not (contains (lease_id l) released)) (leases_in ts)

  abbrev pub active_leases : RunnerCapacityState → List CapacityLease
  active_leases s = active_in s.transitions

  unfoldable pub initialize_capacity_state : RunnerCapabilities → Result RunnerCapacityState
  initialize_capacity_state runner = check_state (record {
    runner_id = runner.runner_id;
    runner_capability_digest = runner_digest runner;
    max_parallelism = runner.max_parallelism;
    generation = 0;
    previous_state_digest = none;
    transitions = [];
  })

  -- The guards of a reservation.
  unfoldable pub check_reserve : RunnerCapacityState → CapacityLease → Result (Unit {0})
  check_reserve s l = do
    raise_if (l.expected_state_digest != state_digest s)
        (capacity_error "lease snapshot binding mismatch")
    raise_if
        (l.runner_id != s.runner_id || l.runner_capability_digest != s.runner_capability_digest)
        (capacity_error "lease runner binding mismatch")
    raise_if (leb s.max_parallelism l.slot) (capacity_error "lease slot is outside runner capacity")
    raise_if
        (leb s.max_parallelism (length (active_leases s))
          || contains l.slot (map (λ x. x.slot) (active_leases s)))
        (capacity_error "capacity slot is already occupied")
    raise_if
        (any (λ x. lease_id x == lease_id l || x.authorization_digest == l.authorization_digest)
          (leases s))
        (capacity_error "duplicate canonical lease")
    raise_if (has_active l.session_id l.logical_attempt (active_leases s))
        (capacity_error "logical Session already has an active lease")
    raise_if
        (not (
          predecessor_released (releases s) l.session_id l.logical_attempt l.physical_attempt
            l.previous_invocation_id l.previous_receipt_digest))
        (capacity_error "lease retry predecessor is not canonically released")

  -- The active leases with this id and digest.
  unfoldable pub matching : RunnerCapacityState → String → String → List CapacityLease
  matching s id digest =
      select (λ x. lease_id x == id && lease_digest x == digest) (active_leases s)

  -- The guards of a release.
  unfoldable pub check_released : RunnerCapacityState → CapacityRelease → Result (Unit {0})
  check_released s r = do
    raise_if (r.expected_state_digest != state_digest s)
        (capacity_error "release snapshot binding mismatch")
    lease ←
        the_one (matching s r.lease_id r.lease_digest) "release does not reference one active lease"
    raise_if (not (same_identity r lease))
        (capacity_error "release identity does not match active lease")

  unfoldable pub check_change : RunnerCapacityState → Change → Result (Unit {0})
  check_change s (reserve l) = check_reserve s l
  check_change s (release r) = check_released s r

  -- The state after a transition.
  unfoldable pub next_state : RunnerCapacityState → CapacityTransition → RunnerCapacityState
  next_state s t = record {
    runner_id = s.runner_id;
    runner_capability_digest = s.runner_capability_digest;
    max_parallelism = s.max_parallelism;
    generation = s.generation + 1;
    previous_state_digest = some (state_digest s);
    transitions = s.transitions ++ t ∷ [];
  }

  -- `_apply_transition_unchecked`
  unfoldable pub apply_transition :
      RunnerCapacityState → CapacityTransition → Result RunnerCapacityState
  apply_transition s t = do
    raise_if (t.expected_state_digest != state_digest s)
        (capacity_error "stale capacity transition")
    check_change s t.change
    check_state (next_state s t)

  -- The transitions applied in order.
  unfoldable pub replay : RunnerCapacityState → List CapacityTransition → Result RunnerCapacityState
  replay s [] = ok s
  replay s (t ∷ ts) = apply_transition s t >>= λ s'. replay s' ts

  abbrev pub replays_to : RunnerCapacityState → Result RunnerCapacityState → Bool
  replays_to s (ok current) = current == s
  replays_to s (err _) = false

  -- The state names the runner and its capabilities.
  unfoldable pub bound_to : RunnerCapacityState → RunnerCapabilities → Bool
  bound_to s r =
      s.runner_id == r.runner_id
      && s.runner_capability_digest == runner_digest r
      && s.max_parallelism == r.max_parallelism

  unfoldable pub replay_verifies : RunnerCapacityState → RunnerCapabilities → Result Bool
  replay_verifies s r = do
    start ← initialize_capacity_state r
    ok (replays_to s (replay start s.transitions))

  unfoldable pub verify_capacity_state : RunnerCapacityState → RunnerCapabilities → Result Bool
  unfolding replay_verifies
  verify_capacity_state s r = if bound_to s r then replay_verifies s r else ok false
