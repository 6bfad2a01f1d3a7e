-- ===== src/Durable/Recovery.antt =====
-- The report of a restart in durable.py: every active lease stays unresolved.
use general_execution.Prelude.{
  ℕ, ℕ_discrete, String, String-discrete, Bool, false, ◌||◌, not, List, [], ◌∷◌, length, Result, ok,
  value_error, durable_error, raise_if, ◌>>=◌, ◌>>◌, ◌==◌, ◌!=◌, Eq, string_eq, nat_eq,
  if◌then◌else◌,
}
use general_execution.Canonical.{Hash}
use general_execution.Models.{RunnerCapabilities}
use general_execution.Capacity.{
  CapacityLease, RunnerCapacityState, active_leases, lease_id, lease_digest, state_digest,
}
use general_execution.Durable.Snapshot.{Json, HeadRow, DurableCapacityHead}
use general_execution.Durable.Store.{load}

pub record RecoveredLease : Type 0 where
  pub lease_id : String
  pub lease_digest : String
  pub runner_id : String
  pub slot : ℕ
  pub session_id : String
  pub logical_attempt : ℕ
  pub authorization_id : String
  pub authorization_digest : String
  pub invocation_id : String
  pub physical_attempt : ℕ
  pub status : String
  pub physical_outcome_fabricated : Bool
  pub capacity_released : Bool

unfoldable pub check_recovered : RecoveredLease → Result RecoveredLease
check_recovered x = do
  raise_if (x.status != "in_flight_unresolved")
      (value_error "recovered lease status must remain in_flight_unresolved")
  raise_if x.physical_outcome_fabricated
      (value_error "restart recovery cannot fabricate a physical outcome")
  raise_if x.capacity_released (value_error "restart recovery cannot release unresolved capacity")
  ok x

pub record RestartRecoveryReport : Type 0 where
  pub runner_id : String
  pub runner_capability_digest : String
  pub state_digest : String
  pub snapshot_digest : String
  pub generation : ℕ
  pub active_lease_count : ℕ
  pub unresolved_leases : List RecoveredLease
  pub physical_outcomes_fabricated : ℕ
  pub capacity_releases_fabricated : ℕ

unfoldable pub check_report : RestartRecoveryReport → Result RestartRecoveryReport
check_report x = do
  raise_if (x.active_lease_count != length x.unresolved_leases)
      (value_error "active lease count must equal unresolved lease count")
  raise_if (x.physical_outcomes_fabricated != 0)
      (value_error "restart recovery cannot fabricate physical outcomes")
  raise_if (x.capacity_releases_fabricated != 0)
      (value_error "restart recovery cannot fabricate capacity releases")
  ok x

unfoldable pub RestartRecoveryReport-discrete : Discrete RestartRecoveryReport
unfolding String-discrete ℕ_discrete
RestartRecoveryReport-discrete = hlevel (String-discrete, ℕ_discrete)

instance abbrev pub report_eq : Eq RestartRecoveryReport
report_eq = record { dec = RestartRecoveryReport-discrete }

module _ ⦃h : Hash⦄ where
  unfoldable pub recovered_lease : CapacityLease → Result RecoveredLease
  unfolding check_recovered
  recovered_lease l = check_recovered (record {
    lease_id = lease_id l;
    lease_digest = lease_digest l;
    runner_id = l.runner_id;
    slot = l.slot;
    session_id = l.session_id;
    logical_attempt = l.logical_attempt;
    authorization_id = l.authorization_id;
    authorization_digest = l.authorization_digest;
    invocation_id = l.invocation_id;
    physical_attempt = l.physical_attempt;
    status = "in_flight_unresolved";
    physical_outcome_fabricated = false;
    capacity_released = false;
  })

  unfoldable pub recovered_leases : List CapacityLease → Result (List RecoveredLease)
  unfolding recovered_lease
  recovered_leases [] = ok []
  recovered_leases (l ∷ ls) = do x ← recovered_lease l; xs ← recovered_leases ls; ok (x ∷ xs)

  -- `_recovery_report`
  unfoldable pub recovery_report :
      RunnerCapacityState → DurableCapacityHead → Result RestartRecoveryReport
  unfolding check_report recovered_leases
  recovery_report s head = do
    unresolved ← recovered_leases (active_leases s)
    check_report (record {
      runner_id = s.runner_id;
      runner_capability_digest = s.runner_capability_digest;
      state_digest = state_digest s;
      snapshot_digest = head.snapshot_digest;
      generation = s.generation;
      active_lease_count = length unresolved;
      unresolved_leases = unresolved;
      physical_outcomes_fabricated = 0;
      capacity_releases_fabricated = 0;
    })

  -- The head is the one of the state.
  unfoldable pub head_matches : RunnerCapacityState → DurableCapacityHead → Bool
  head_matches s head = not (
      state_digest s != head.state_digest
      || s.generation != head.generation
      || s.runner_id != head.runner_id
      || s.runner_capability_digest != head.runner_capability_digest)

  unfoldable pub verify_restart_recovery :
      RunnerCapacityState → DurableCapacityHead → RestartRecoveryReport → Result Bool
  unfolding head_matches
  verify_restart_recovery s head report =
      if head_matches s head
      then (recovery_report s head >>= λ expected. ok (report == expected))
      else ok false

  unfoldable pub recover_capacity_after_restart :
      ⦃j : Json⦄
      → List HeadRow
      → RunnerCapabilities
      → Result (RunnerCapacityState × RestartRecoveryReport)
  recover_capacity_after_restart table runner = do
    loaded ← load table runner
    report ← recovery_report loaded.0 loaded.1
    verified ← verify_restart_recovery loaded.0 loaded.1 report
    raise_if (not verified) (durable_error "restart recovery report does not reproduce")
    ok (loaded.0, report)
