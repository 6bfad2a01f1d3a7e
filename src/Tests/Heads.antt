-- ===== src/Tests/Heads.antt =====
-- The theorems on the durable heads at a table of one runner: its first state, then a lease, then
-- the revocation of the lease's session. The text of a snapshot names the
-- generation, and parses to the state of that generation.
use general_execution.Prelude.{
  String, true, ◌≡◌, ◌≢◌, refl, ok, some, none, [], ◌∷◌, List, All, List-discrete, String-discrete,
  ℕ_discrete, Option-discrete, List-discrete, ◌==◌, string_eq, nat_eq, if◌then◌else◌,
}
use general_execution.Canonical.{
  Value, Collision, get, get_field, normalize, insert_field, str_le, sha256_digest, stable_id,
  canonical_json,
}
use general_execution.Models.{runner_digest}
use general_execution.Capacity.{
  check_change, check_reserve, check_released, active_in, leases_in, releases_in, has_active,
  predecessor_released, check_state, matching, the_one, same_identity, replay_verifies, bound_to,
  initialize_capacity_state, replay, RunnerCapacityState-discrete, CapacityTransition-discrete,
  CapacityLease-discrete, state_value, check_kind, CapacityLease, CapacityRelease, reserve, release,
  session_revoked, CapacityTransition, RunnerCapacityState, state_digest, lease_id, lease_digest,
  next_state, verify_capacity_state, apply_transition, check_lease, check_release,
}
use general_execution.Capacity.Replay.{step, verify_capacity_state_iff}
use general_execution.Durable.{
  decode_head_row, check_successor, update_rows, matches_row, without_last, Json, HeadRow,
  DurableCapacityHead, capacity_snapshot, serialize_capacity_snapshot, snapshot_digest, head_of,
  row_for, load, commit, select_row, RestartRecoveryReport, recover_capacity_after_restart,
  deserialize_capacity_snapshot,
}
use general_execution.Durable.Rows.{HasKey}
use general_execution.Durable.RoundTrip.{IsChecked, ReadsBackText, deserialize-serialize}
use general_execution.Durable.Commit.{load-verifies, commit-step, commit-load}
use general_execution.Durable.Progress.{second_commit-Collision, commit-accepts}
use general_execution.Durable.Unresolved.{Reports, recover_capacity_lem}
use general_execution.Tests.Data.{toy, runner}

abbrev pub first : RunnerCapacityState
first = record {
  runner_id = "r";
  runner_capability_digest = runner_digest runner;
  max_parallelism = 2;
  generation = 0;
  previous_state_digest = none;
  transitions = [];
}

abbrev pub attempt_digest : String
attempt_digest = "sha256:00112233445566778899aabbccddeeff00112233445566778899aabbccddeeff"

abbrev pub held : CapacityLease
held = record {
  runner_id = "r";
  runner_capability_digest = runner_digest runner;
  slot = 0;
  session_id = "gex-00112233445566778899aabb";
  logical_attempt = 1;
  authorization_id = "gea-00112233445566778899aabb";
  authorization_digest = attempt_digest;
  invocation_id = "gei-1";
  physical_attempt = 1;
  previous_invocation_id = none;
  previous_receipt_digest = none;
  expected_state_digest = state_digest first;
}

abbrev taking : CapacityTransition
taking = record { expected_state_digest = state_digest first; change = reserve held }

abbrev pub second : RunnerCapacityState
second = next_state first taking

abbrev ended : CapacityRelease
ended = record {
  lease_id = lease_id held;
  lease_digest = lease_digest held;
  runner_id = "r";
  session_id = "gex-00112233445566778899aabb";
  logical_attempt = 1;
  authorization_id = "gea-00112233445566778899aabb";
  authorization_digest = attempt_digest;
  invocation_id = "gei-1";
  physical_attempt = 1;
  release_kind = session_revoked;
  expected_state_digest = state_digest second;
  outcome_digest = none;
  receipt_digest = none;
  transport_status = none;
  revoked_session_digest = some "sha256:2";
}

abbrev ending : CapacityTransition
ending = record { expected_state_digest = state_digest second; change = release ended }

abbrev third : RunnerCapacityState
third = next_state second ending

abbrev pub parse : String → Value
parse s =
    if s == "s0"
    then normalize (capacity_snapshot first)
    else if s == "s1"
    then normalize (capacity_snapshot second)
    else normalize (capacity_snapshot third)

instance abbrev parser : Json
parser = record { loads = λ s. some (parse s) }

abbrev pub row_of : RunnerCapacityState → HeadRow
row_of s = row_for s "r" (snapshot_digest s) (serialize_capacity_snapshot s)

abbrev pub head_for : RunnerCapacityState → DurableCapacityHead
head_for s = head_of s (snapshot_digest s)

first_step : apply_transition first taking ≡ ok second
unfolding apply_transition String-discrete state_digest sha256_digest check_change check_reserve
    runner_digest active_in leases_in has_active predecessor_released ℕ_discrete Option-discrete
    check_state next_state
first_step = refl

second_step : apply_transition second ending ≡ ok third
unfolding apply_transition String-discrete state_digest sha256_digest check_change check_released
    matching the_one same_identity lease_id lease_digest stable_id canonical_json get get_field
    runner_digest active_in leases_in releases_in ℕ_discrete Option-discrete check_state next_state
second_step = refl

first_verifies : verify_capacity_state first runner ≡ ok true
unfolding verify_capacity_state replay_verifies bound_to String-discrete runner_digest sha256_digest
    ℕ_discrete initialize_capacity_state check_state replay RunnerCapacityState-discrete
first_verifies = refl

after :
    (s t : RunnerCapacityState) (x : CapacityTransition)
    → verify_capacity_state s runner ≡ ok true
    → apply_transition s x ≡ ok t
    → verify_capacity_state t runner ≡ ok true
after s t x v e =
    (verify_capacity_state_iff t runner).1 (step s x ((verify_capacity_state_iff s runner).0 v) e)

pub second_verifies : verify_capacity_state second runner ≡ ok true
second_verifies = after first second taking first_verifies first_step

third_verifies : verify_capacity_state third runner ≡ ok true
third_verifies = after second third ending second_verifies second_step

first_parsed : ReadsBackText first
unfolding serialize_capacity_snapshot capacity_snapshot state_value normalize insert_field str_le
    canonical_json get get_field String-discrete ℕ_discrete next_state
first_parsed = refl

second_parsed : ReadsBackText second
unfolding serialize_capacity_snapshot capacity_snapshot state_value normalize insert_field str_le
    canonical_json get get_field String-discrete ℕ_discrete next_state
second_parsed = refl

third_parsed : ReadsBackText third
unfolding serialize_capacity_snapshot capacity_snapshot state_value normalize insert_field str_le
    canonical_json get get_field String-discrete ℕ_discrete next_state
third_parsed = refl

pub second-IsChecked : All IsChecked second.transitions
unfolding next_state check_lease ℕ_discrete
second-IsChecked = (refl, tt)

third-IsChecked : All IsChecked third.transitions
unfolding next_state check_lease check_release check_kind ℕ_discrete String-discrete
third-IsChecked = (refl, (refl, tt))

deserialize-serialize_example :
    deserialize_capacity_snapshot (serialize_capacity_snapshot second) runner
    ≡ ok (second, snapshot_digest second)
deserialize-serialize_example =
    deserialize-serialize second runner second-IsChecked second_verifies second_parsed

load-first : load (row_of first ∷ []) runner ≡ ok (first, head_for first)
unfolding load decode_head_row row_for head_of select_row String-discrete ℕ_discrete state_digest
    sha256_digest runner_digest snapshot_digest
load-first = rw (deserialize-serialize first runner tt first_verifies first_parsed) refl

one_row : HasKey (row_of first ∷ [])
unfolding select_row
one_row = (refl, tt)

commit-second :
    commit (row_of first ∷ []) runner (state_digest first) second
    ≡ ok (row_of second ∷ [], head_for second)
unfolding commit check_successor decode_head_row row_for head_of select_row update_rows matches_row
    String-discrete ℕ_discrete state_digest next_state without_last Option-discrete List-discrete
    CapacityTransition-discrete runner_digest snapshot_digest sha256_digest
commit-second =
    rw
      (
        second_verifies,
        deserialize-serialize first runner tt first_verifies first_parsed,
        deserialize-serialize second runner second-IsChecked second_verifies second_parsed,
      )
      refl

commit-third :
    commit (row_of second ∷ []) runner (state_digest first) third
    ≡ ok (row_of third ∷ [], head_for third)
unfolding commit check_successor decode_head_row row_for head_of select_row update_rows matches_row
    String-discrete ℕ_discrete state_digest next_state without_last Option-discrete List-discrete
    CapacityTransition-discrete CapacityLease-discrete runner_digest snapshot_digest sha256_digest
commit-third =
    rw
      (
        third_verifies,
        deserialize-serialize second runner second-IsChecked second_verifies second_parsed,
        deserialize-serialize third runner third-IsChecked third_verifies third_parsed,
      )
      refl

load-verifies_example : verify_capacity_state first runner ≡ ok true
load-verifies_example = load-verifies (row_of first ∷ []) runner first (head_for first) load-first

commit-step_example :
    (current : RunnerCapacityState) × (before : DurableCapacityHead) × (t : CapacityTransition)
    × (load (row_of first ∷ []) runner ≡ ok (current, before))
    × (state_digest current ≡ state_digest first)
    × (apply_transition current t ≡ ok second)
    × ((id : String)
        → id ≢ "r"
        → select_row id (row_of second ∷ []) ≡ select_row id (row_of first ∷ []))
commit-step_example =
    commit-step (row_of first ∷ []) runner (state_digest first) second (row_of second ∷ [])
      (head_for second) commit-second

commit-load_example : load (row_of second ∷ []) runner ≡ ok (second, head_for second)
commit-load_example =
    commit-load (row_of first ∷ []) runner (state_digest first) second (row_of second ∷ [])
      (head_for second) second-IsChecked second_parsed commit-second

commit-accepts_example :
    (table' : List HeadRow) × (commit (row_of first ∷ []) runner (state_digest first) second
      ≡ ok (table', head_of second (snapshot_digest second)))
commit-accepts_example =
    commit-accepts (row_of first ∷ []) runner first second (head_for first) taking one_row
      load-first first_step second-IsChecked second_parsed

second_commit-Collision_example : Collision
second_commit-Collision_example =
    second_commit-Collision (row_of first ∷ []) runner (state_digest first) second third
      (row_of second ∷ []) (row_of third ∷ []) (head_for second) (head_for third) second-IsChecked
      second_parsed commit-second commit-third

load-second : load (row_of second ∷ []) runner ≡ ok (second, head_for second)
load-second =
    commit-load (row_of first ∷ []) runner (state_digest first) second (row_of second ∷ [])
      (head_for second) second-IsChecked second_parsed commit-second

recover_capacity_lem_example :
    (report : RestartRecoveryReport) × (recover_capacity_after_restart (row_of second ∷ []) runner
      ≡ ok (second, report))
    × Reports report second (head_for second)
recover_capacity_lem_example =
    recover_capacity_lem (row_of second ∷ []) runner second (head_for second) load-second
