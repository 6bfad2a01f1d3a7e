-- ===== src/Guard/Live.antt =====
-- `LiveDispatchPermit`, its authorization and its verification.
use general_execution.Prelude.{
  ℕ, ℕ_discrete, String, String-discrete, Bool, false, ◌&&◌, ◌||◌, not, [], ◌∷◌, Result, ok, err,
  value_error, dispatch_error, raise_if, ◌>>=◌, ◌>>◌, ◌==◌, ◌!=◌, Eq, string_eq, nat_eq, ltb, List,
}
use general_execution.Canonical.{Value, str, num, obj, Hash, sha256_digest}
use general_execution.Models.{RunnerCapabilities, runner_digest}
use general_execution.Capacity.{
  CapacityLease, RunnerCapacityState, state_digest, lease_id, lease_digest, matching,
}
use general_execution.Durable
use general_execution.Durable.{Json, HeadRow, DurableCapacityHead, head_digest}
use general_execution.Dispatch.{
  DispatchIntent, DispatchIntentState, DispatchPermit, submission_unknown, status_eq, intent_id,
  intent_digest, dispatch_state_digest, permit_digest, check_present, verify_dispatch_permit,
  available, lease_intended,
}

pub record LiveDispatchPermit : Type 0 where
  pub intent_id : String
  pub intent_digest : String
  pub dispatch_state_digest : String
  pub dispatch_permit_digest : String
  pub runner_id : String
  pub runner_capability_digest : String
  pub capacity_head_digest : String
  pub capacity_state_digest : String
  pub capacity_snapshot_digest : String
  pub capacity_generation : ℕ
  pub lease_id : String
  pub lease_digest : String
  pub authorization_id : String
  pub authorization_digest : String
  pub invocation_id : String
  pub request_digest : String
  pub physical_attempt : ℕ

-- The fields that must not be empty, with their names.
unfoldable pub live_texts : LiveDispatchPermit → List (String × String)
live_texts p =
    ("intent_id", p.intent_id)
    ∷ ("intent_digest", p.intent_digest)
    ∷ ("dispatch_state_digest", p.dispatch_state_digest)
    ∷ ("dispatch_permit_digest", p.dispatch_permit_digest)
    ∷ ("runner_id", p.runner_id)
    ∷ ("runner_capability_digest", p.runner_capability_digest)
    ∷ ("capacity_head_digest", p.capacity_head_digest)
    ∷ ("capacity_state_digest", p.capacity_state_digest)
    ∷ ("capacity_snapshot_digest", p.capacity_snapshot_digest)
    ∷ ("lease_id", p.lease_id)
    ∷ ("lease_digest", p.lease_digest)
    ∷ ("authorization_id", p.authorization_id)
    ∷ ("authorization_digest", p.authorization_digest)
    ∷ ("invocation_id", p.invocation_id)
    ∷ ("request_digest", p.request_digest)
    ∷ []

unfoldable pub check_live_permit : LiveDispatchPermit → Result LiveDispatchPermit
unfolding check_present live_texts
check_live_permit p = do
  raise_if (ltb p.capacity_generation 1)
      (value_error "live dispatch requires a committed capacity generation")
  raise_if (ltb p.physical_attempt 1) (value_error "physical_attempt must be >= 1")
  check_present (live_texts p)
  ok p

unfoldable pub live_permit_value : LiveDispatchPermit → Value
live_permit_value p = obj (
    ("intent_id", str p.intent_id)
    ∷ ("intent_digest", str p.intent_digest)
    ∷ ("dispatch_state_digest", str p.dispatch_state_digest)
    ∷ ("dispatch_permit_digest", str p.dispatch_permit_digest)
    ∷ ("runner_id", str p.runner_id)
    ∷ ("runner_capability_digest", str p.runner_capability_digest)
    ∷ ("capacity_head_digest", str p.capacity_head_digest)
    ∷ ("capacity_state_digest", str p.capacity_state_digest)
    ∷ ("capacity_snapshot_digest", str p.capacity_snapshot_digest)
    ∷ ("capacity_generation", num p.capacity_generation)
    ∷ ("lease_id", str p.lease_id)
    ∷ ("lease_digest", str p.lease_digest)
    ∷ ("authorization_id", str p.authorization_id)
    ∷ ("authorization_digest", str p.authorization_digest)
    ∷ ("invocation_id", str p.invocation_id)
    ∷ ("request_digest", str p.request_digest)
    ∷ ("physical_attempt", num p.physical_attempt)
    ∷ ("schema_version", str "ge.live-dispatch-permit.v1")
    ∷ [])

unfoldable pub LiveDispatchPermit-discrete : Discrete LiveDispatchPermit
unfolding String-discrete ℕ_discrete
LiveDispatchPermit-discrete = hlevel (String-discrete, ℕ_discrete)

instance abbrev pub live_permit_eq : Eq LiveDispatchPermit
live_permit_eq = record { dec = LiveDispatchPermit-discrete }

abbrev pub only_active : List CapacityLease → Result CapacityLease
only_active (l ∷ []) = ok l
only_active _ =
    err (dispatch_error "dispatch lease is no longer active in canonical durable capacity")

-- `try … except (DispatchIntentError, DurableCapacityError, ValueError)`: every exception is one.
abbrev pub succeeds : {A : Type 0} → Result A → (A → Bool) → Bool
succeeds (ok a) f = f a
succeeds (err x) f = false

module _ ⦃h : Hash⦄ where
  -- The lease reproduces the runner and the attempt of the intent.
  unfoldable pub lease_reproduces : CapacityLease → DispatchIntent → Bool
  unfolding lease_intended
  lease_reproduces l i =
      l.runner_id == i.runner_id
      && l.runner_capability_digest == i.runner_capability_digest
      && lease_intended l i

  unfoldable pub live_permit_digest : LiveDispatchPermit → String
  live_permit_digest p = sha256_digest (live_permit_value p)

  unfoldable pub live_permit_for :
      DispatchIntentState
      → DispatchPermit
      → RunnerCapabilities
      → RunnerCapacityState
      → DurableCapacityHead
      → CapacityLease
      → LiveDispatchPermit
  live_permit_for s p runner capacity head l = record {
    intent_id = intent_id s.intent;
    intent_digest = intent_digest s.intent;
    dispatch_state_digest = dispatch_state_digest s;
    dispatch_permit_digest = permit_digest p;
    runner_id = runner.runner_id;
    runner_capability_digest = runner_digest runner;
    capacity_head_digest = head_digest head;
    capacity_state_digest = state_digest capacity;
    capacity_snapshot_digest = head.snapshot_digest;
    capacity_generation = capacity.generation;
    lease_id = lease_id l;
    lease_digest = lease_digest l;
    authorization_id = s.intent.authorization_id;
    authorization_digest = s.intent.authorization_digest;
    invocation_id = s.intent.invocation_id;
    request_digest = s.intent.request_digest;
    physical_attempt = s.intent.physical_attempt;
  }

  module _ ⦃j : Json⦄ where
    -- `_load_active_bound_lease`
    unfoldable pub load_active_bound_lease :
        DispatchIntentState
        → DispatchPermit
        → List HeadRow
        → RunnerCapabilities
        → Result (RunnerCapacityState × DurableCapacityHead × CapacityLease)
    unfolding available matching lease_reproduces
    load_active_bound_lease s p heads runner = do
      raise_if (s.status != submission_unknown)
          (dispatch_error "live dispatch requires submission_unknown durable state")
      verified ← verify_dispatch_permit s p
      raise_if (not verified) (dispatch_error "durable dispatch permit does not reproduce")
      loaded ← available (Durable.load heads runner)
      raise_if
          (s.intent.runner_id != runner.runner_id
            || s.intent.runner_capability_digest != runner_digest runner)
          (dispatch_error "dispatch intent runner capabilities changed")
      lease ← only_active (matching loaded.0 s.intent.lease_id s.intent.lease_digest)
      raise_if (not (lease_reproduces lease s.intent))
          (dispatch_error "active durable capacity lease no longer reproduces dispatch intent")
      ok (loaded.0, loaded.1, lease)

    unfoldable pub authorize_live_dispatch :
        DispatchIntentState
        → DispatchPermit
        → List HeadRow
        → RunnerCapabilities
        → Result LiveDispatchPermit
    unfolding load_active_bound_lease live_permit_for check_live_permit
    authorize_live_dispatch s p heads runner = do
      bound ← load_active_bound_lease s p heads runner
      check_live_permit (live_permit_for s p runner bound.0 bound.1 bound.2)

    unfoldable pub verify_live_dispatch_permit :
        DispatchIntentState
        → DispatchPermit
        → LiveDispatchPermit
        → List HeadRow
        → RunnerCapabilities
        → Bool
    unfolding authorize_live_dispatch
    verify_live_dispatch_permit s p live heads runner =
        succeeds (authorize_live_dispatch s p heads runner) (λ expected. live == expected)
