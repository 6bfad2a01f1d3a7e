-- ===== src/Tests/Lives.antt =====
-- The theorem on live permits at the submission of the intent whose lease is active.
use general_execution.Prelude.{
  true, ◌≡◌, refl, ok, String-discrete, ℕ_discrete, Option-discrete, contains,
}
use general_execution.Canonical.{sha256_digest, stable_id, canonical_json}
use general_execution.Models.{runner_digest}
use general_execution.Capacity.{
  CapacityLease, CapacityLease-discrete, RunnerCapacityState, lease_eq, active_leases, active_in,
  leases_in, releases_in, matching, lease_id, lease_digest, state_digest, next_state,
  verify_capacity_state,
}
use general_execution.Durable
use general_execution.Durable.{DurableCapacityHead, head_of, head_digest, snapshot_digest}
use general_execution.Dispatch.{
  DispatchPermit-discrete, DispatchStatus-discrete, submission_unknown, permit_for, permit_digest,
  verify_dispatch_permit, intent_id, intent_digest, dispatch_state_digest, available, check_present,
  lease_intended,
}
use general_execution.Guard.{
  LiveDispatchPermit, LiveDispatchPermit-discrete, live_permit_for, check_live_permit, live_texts,
  lease_reproduces, load_active_bound_lease, authorize_live_dispatch, verify_live_dispatch_permit,
}
use general_execution.Guard.Fresh.{verify_live_dispatch_permit_bindings}
use general_execution.Tests.Data.{toy, runner}
use general_execution.Tests.Heads.{held, second}
use general_execution.Tests.Outboxes.{parser, sent, permit, heads, load-heads}

abbrev pub live : LiveDispatchPermit
live = live_permit_for sent permit runner second (head_of second (snapshot_digest second)) held

pub live_verifies : verify_live_dispatch_permit sent permit live heads runner ≡ true
unfolding verify_live_dispatch_permit authorize_live_dispatch load_active_bound_lease
    verify_dispatch_permit permit_for permit_digest DispatchPermit-discrete DispatchStatus-discrete
    intent_id intent_digest dispatch_state_digest available matching active_in leases_in releases_in
    lease_id lease_digest lease_reproduces lease_intended check_live_permit live_texts check_present
    live_permit_for LiveDispatchPermit-discrete String-discrete ℕ_discrete sha256_digest stable_id
    canonical_json runner_digest state_digest snapshot_digest head_digest head_of next_state
    CapacityLease-discrete Option-discrete
live_verifies = rw load-heads refl

verify_live_dispatch_permit_bindings_example :
    (capacity : RunnerCapacityState) × (head : DurableCapacityHead) × (l : CapacityLease)
    × (sent.status ≡ submission_unknown)
    × (verify_dispatch_permit sent permit ≡ ok true)
    × (Durable.load heads runner ≡ ok (capacity, head))
    × (verify_capacity_state capacity runner ≡ ok true)
    × (contains l (active_leases capacity) ≡ true)
    × (lease_id l ≡ sent.intent.lease_id)
    × (lease_reproduces l sent.intent ≡ true)
    × (live ≡ live_permit_for sent permit runner capacity head l)
verify_live_dispatch_permit_bindings_example =
    verify_live_dispatch_permit_bindings sent permit live heads runner live_verifies
