-- ===== src/Tests/Leases.antt =====
-- The theorems on capacity at a runner with two slots, of which one is leased.
use general_execution.Prelude.{
  ℕ, ◌<◌, ◌≤◌, ◌≡◌, ◌↔◌, arith, refl, ok, true, false, String-discrete, ℕ_discrete, Option-discrete,
  nat_eq, [], ◌∷◌, none, some, contains,
}
use general_execution.Canonical.{sha256_digest, stable_id, canonical_json}
use general_execution.Models.{runner_digest}
use general_execution.Capacity.{
  CapacityLease, reserve, RunnerCapacityState, RunnerCapacityState-discrete,
  CapacityTransition-discrete, CapacityLease-discrete, CapacityRelease-discrete, check_state,
  state_digest, lease_id, initialize_capacity_state, leases_in, releases_in, active_in, has_active,
  check_reserve, check_change, predecessor_released, next_state, apply_transition, replay, bound_to,
  replay_verifies, verify_capacity_state, first_free,
}
use general_execution.Capacity.Replay.{Reachable, verify_capacity_state_iff}
use general_execution.Capacity.Slots.{first_free_found, first_free-some}
use general_execution.Capacity.Invariant.{Inv, verify_capacity_state-Inv}
use general_execution.Tests.Data.{toy, runner}

abbrev fresh : RunnerCapacityState
fresh = record {
  runner_id = "r";
  runner_capability_digest = runner_digest runner;
  max_parallelism = 2;
  generation = 0;
  previous_state_digest = none;
  transitions = [];
}

abbrev lease : CapacityLease
lease = record {
  runner_id = "r";
  runner_capability_digest = runner_digest runner;
  slot = 0;
  session_id = "gex-1";
  logical_attempt = 1;
  authorization_id = "gepa-1";
  authorization_digest = "sha256:1";
  invocation_id = "gei-1";
  physical_attempt = 1;
  previous_invocation_id = none;
  previous_receipt_digest = none;
  expected_state_digest = state_digest fresh;
}

abbrev leased : RunnerCapacityState
leased =
    next_state fresh (record { expected_state_digest = state_digest fresh; change = reserve lease })

leased-verifies : verify_capacity_state leased runner ≡ ok true
unfolding verify_capacity_state replay_verifies bound_to replay apply_transition next_state
    check_change check_reserve predecessor_released has_active active_in leases_in releases_in
    initialize_capacity_state check_state state_digest lease_id sha256_digest stable_id
    canonical_json runner_digest RunnerCapacityState-discrete CapacityTransition-discrete
    CapacityLease-discrete CapacityRelease-discrete String-discrete ℕ_discrete Option-discrete
leased-verifies = refl

verify_capacity_state_iff_example :
    (verify_capacity_state leased runner ≡ ok true) ↔ Reachable runner leased
verify_capacity_state_iff_example = verify_capacity_state_iff leased runner

verify_capacity_state-Inv_example : Inv leased
verify_capacity_state-Inv_example = verify_capacity_state-Inv leased runner leased-verifies

first_free_found_example : (k : ℕ) × (first_free 0 2 (0 ∷ []) ≡ some k)
first_free_found_example = first_free_found 2 (0 ∷ []) (omega arith)

second_free : first_free 0 3 (0 ∷ 2 ∷ []) ≡ some 1
unfolding first_free ℕ_discrete
second_free = refl

first_free-some_example :
    (0 ≤ 1)
    × (1 < 3)
    × (contains {A = ℕ} 1 (0 ∷ 2 ∷ []) ≡ false)
    × ((j : ℕ) → 0 ≤ j → j < 1 → contains j (0 ∷ 2 ∷ []) ≡ true)
first_free-some_example = first_free-some 0 3 (0 ∷ 2 ∷ []) 1 second_free
