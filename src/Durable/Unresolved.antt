-- ===== src/Durable/Unresolved.antt =====
-- A restart keeps every active lease as unresolved, and invents nothing.
use general_execution.Prelude.{
  ℕ_discrete, String, String-discrete, ◌≡◌, refl, sym, subst, true, false, List, [], ◌∷◌, length,
  ok, arith, >>=-eq-ok,
}
use general_execution.Canonical.{Hash}
use general_execution.Models.{RunnerCapabilities}
use general_execution.Capacity.{
  CapacityLease, RunnerCapacityState, active_leases, lease_id, lease_digest, state_digest,
}
use general_execution.Durable.{
  Json, HeadRow, DurableCapacityHead, head_of, row_or_raise, select_row, load, RecoveredLease,
  check_recovered, RestartRecoveryReport, check_report, report_eq, recovered_lease,
  recovered_leases, recovery_report, head_matches, verify_restart_recovery,
  recover_capacity_after_restart,
}
use general_execution.Durable.Commit.{decode-parts}

-- The recovered lease is the lease, unresolved.
abbrev pub IsUnresolved : ⦃h : Hash⦄ → RecoveredLease → CapacityLease → Type 0
IsUnresolved x l =
    (x.lease_id ≡ lease_id l)
    × (x.lease_digest ≡ lease_digest l)
    × (x.runner_id ≡ l.runner_id)
    × (x.slot ≡ l.slot)
    × (x.session_id ≡ l.session_id)
    × (x.logical_attempt ≡ l.logical_attempt)
    × (x.authorization_id ≡ l.authorization_id)
    × (x.authorization_digest ≡ l.authorization_digest)
    × (x.invocation_id ≡ l.invocation_id)
    × (x.physical_attempt ≡ l.physical_attempt)
    × (x.status ≡ "in_flight_unresolved")
    × (x.physical_outcome_fabricated ≡ false)
    × (x.capacity_released ≡ false)

abbrev pub AreUnresolved : ⦃h : Hash⦄ → List RecoveredLease → List CapacityLease → Type 0
AreUnresolved [] [] = Unit
AreUnresolved (x ∷ xs) (l ∷ ls) = IsUnresolved x l × AreUnresolved xs ls
AreUnresolved _ _ = ⊥

abbrev pub Reports :
    ⦃h : Hash⦄ → RestartRecoveryReport → RunnerCapacityState → DurableCapacityHead → Type 0
Reports report s head =
    AreUnresolved report.unresolved_leases (active_leases s)
    × (report.active_lease_count ≡ length (active_leases s))
    × (report.runner_id ≡ s.runner_id)
    × (report.runner_capability_digest ≡ s.runner_capability_digest)
    × (report.generation ≡ s.generation)
    × (report.state_digest ≡ state_digest s)
    × (report.snapshot_digest ≡ head.snapshot_digest)
    × (report.physical_outcomes_fabricated ≡ 0)
    × (report.capacity_releases_fabricated ≡ 0)

module _ ⦃h : Hash⦄ where
  one_recovered :
      (l : CapacityLease) → (x : RecoveredLease) × (recovered_lease l ≡ ok x) × IsUnresolved x l
  unfolding recovered_lease check_recovered String-discrete
  one_recovered l =
      (_, refl, (refl, refl, refl, refl, refl, refl, refl, refl, refl, refl, refl, refl, refl))

  all_recovered :
      (ls : List CapacityLease)
      → (xs : List RecoveredLease) × (recovered_leases ls ≡ ok xs)
        × AreUnresolved xs ls
        × (length xs ≡ length ls)
  unfolding recovered_leases
  all_recovered [] = ([], refl, tt, refl)
  all_recovered (l ∷ ls) =
      let (x, made, same) = one_recovered l in
      let (xs, rest, are, n) = all_recovered ls in
      (x ∷ xs, rw (made, rest) refl, (same, are), omega (arith, n))

  abbrev report_of :
      RunnerCapacityState → DurableCapacityHead → List RecoveredLease → RestartRecoveryReport
  report_of s head xs = record {
    runner_id = s.runner_id;
    runner_capability_digest = s.runner_capability_digest;
    state_digest = state_digest s;
    snapshot_digest = head.snapshot_digest;
    generation = s.generation;
    active_lease_count = length xs;
    unresolved_leases = xs;
    physical_outcomes_fabricated = 0;
    capacity_releases_fabricated = 0;
  }

  reported :
      (s : RunnerCapacityState) (head : DurableCapacityHead)
      → (report : RestartRecoveryReport) × (recovery_report s head ≡ ok report)
        × Reports report s head
  unfolding recovery_report check_report ℕ_discrete
  reported s head =
      let (xs, made, are, n) = all_recovered (active_leases s) in
      (
        report_of s head xs,
        rw made (ground arith),
        (are, n, refl, refl, refl, refl, refl, refl, refl),
      )

  verifies_own :
      (s : RunnerCapacityState) (digest : String) (report : RestartRecoveryReport)
      → recovery_report s (head_of s digest) ≡ ok report
      → verify_restart_recovery s (head_of s digest) report ≡ ok true
  unfolding verify_restart_recovery head_matches head_of
  verifies_own s digest report e = ground (arith, e)

  module _ ⦃j : Json⦄ where
    loaded_head :
        (table : List HeadRow) (runner : RunnerCapabilities) (s : RunnerCapacityState)
        (head : DurableCapacityHead)
        → load table runner ≡ ok (s, head)
        → (digest : String) × (head ≡ head_of s digest)
    unfolding load
    loaded_head table runner s head e =
        let (row, found, decoded) =
          >>=-eq-ok (row_or_raise (select_row runner.runner_id table)) _ e in
        (row.snapshot_digest, (decode-parts row runner s head decoded).3)

    -- Wherever the state of a runner loads, the recovery after a restart succeeds: its report lists
    -- exactly the active leases, in order, with every field of theirs and all unresolved, and no
    -- outcome and no release that did not happen; it names the runner, the generation and the digests
    -- of the state that was loaded.
    pub recover_capacity_lem :
        (table : List HeadRow) (runner : RunnerCapabilities) (s : RunnerCapacityState)
        (head : DurableCapacityHead)
        → load table runner ≡ ok (s, head)
        → (report : RestartRecoveryReport) × (recover_capacity_after_restart table runner
            ≡ ok (s, report))
          × Reports report s head
    unfolding recover_capacity_after_restart
    recover_capacity_lem table runner s head e =
        let (digest, same) = loaded_head table runner s head e in
        let (report, made, reports) = reported s head in
        let own =
          verifies_own s digest report (subst (λ x. recovery_report s x ≡ ok report) same made) in
        let passed = subst (λ x. verify_restart_recovery s x report ≡ ok true) (sym same) own in
        (report, rw (e, made, passed) refl, reports)
