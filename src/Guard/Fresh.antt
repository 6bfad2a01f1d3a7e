-- ===== src/Guard/Fresh.antt =====
-- What a live permit that verifies stands for.
use general_execution.Prelude.{
  ◌&&◌, ◌≡◌, sym, ap, ◌∙◌, subst, Bool, true, not, ◌||◌, List, [], ◌∷◌, Result, ok, err, arith,
  ◌==◌, ◌!=◌, string_eq, select, contains, >>=-eq-ok, raise_if-eq-ok, not-eq-false, ok_inj, refl,
  ltb,
}
use general_execution.Canonical.{Hash}
use general_execution.Models.{RunnerCapabilities, runner_digest}
use general_execution.Capacity.{
  CapacityLease, lease_eq, RunnerCapacityState, active_leases, lease_id, lease_digest, matching,
  verify_capacity_state,
}
use general_execution.Durable
use general_execution.Durable.{Json, HeadRow, DurableCapacityHead}
use general_execution.Durable.Commit.{load-verifies}
use general_execution.Dispatch.{
  DispatchIntentState, DispatchPermit, submission_unknown, status_eq, verify_dispatch_permit,
  available, only_lease, check_present,
}
use general_execution.Dispatch.Permits.{available-ok, only_lease-select}
use general_execution.Guard.{
  LiveDispatchPermit, live_permit_eq, check_live_permit, live_texts, only_active, lease_reproduces,
  succeeds, live_permit_for, load_active_bound_lease, authorize_live_dispatch,
  verify_live_dispatch_permit,
}

module _ ⦃h : Hash⦄ ⦃j : Json⦄ where
  active-select :
      (test : CapacityLease → Bool) (ls : List CapacityLease) (l : CapacityLease)
      → only_active (select test ls) ≡ ok l
      → (test l ≡ true) × (contains l ls ≡ true)
  active-select test ls l e = only_lease-select test ls l (same (select test ls) e)
    where
      same : (xs : List CapacityLease) → only_active xs ≡ ok l → only_lease xs ≡ ok l
      same [] e = cc
      same (x ∷ []) e = e
      same (x ∷ y ∷ xs) e = cc

  bound_lease-parts :
      (s : DispatchIntentState) (p : DispatchPermit) (heads : List HeadRow)
      (runner : RunnerCapabilities) (capacity : RunnerCapacityState) (head : DurableCapacityHead)
      (l : CapacityLease)
      → load_active_bound_lease s p heads runner ≡ ok (capacity, head, l)
      → (s.status ≡ submission_unknown)
        × (verify_dispatch_permit s p ≡ ok true)
        × (Durable.load heads runner ≡ ok (capacity, head))
        × (contains l (active_leases capacity) ≡ true)
        × (lease_id l ≡ s.intent.lease_id)
        × (lease_reproduces l s.intent ≡ true)
  unfolding load_active_bound_lease matching
  bound_lease-parts s p heads runner capacity head l e =
      let (status, e) = raise_if-eq-ok (s.status != submission_unknown) _ _ e in
      let (v, verified, e) = >>=-eq-ok (verify_dispatch_permit s p) _ e in
      let (passed, e) = raise_if-eq-ok (not v) _ _ e in
      let (loaded, held, e) = >>=-eq-ok (available (Durable.load heads runner)) _ e in
      let (same, e) =
        raise_if-eq-ok
          (s.intent.runner_id != runner.runner_id
            || s.intent.runner_capability_digest != runner_digest runner)
          _ _ e in
      let (lease, found, e) =
        >>=-eq-ok (only_active (matching loaded.0 s.intent.lease_id s.intent.lease_digest)) _ e in
      let (reproduced, e) = raise_if-eq-ok (not (lease_reproduces lease s.intent)) _ _ e in
      let (one, two, three) = parts loaded.0 capacity loaded.1 head lease l e in
      let (matched, among) =
        active-select
          (λ x. lease_id x == s.intent.lease_id && lease_digest x == s.intent.lease_digest)
          (active_leases loaded.0) lease found in
      (
        ground (arith, status),
        verified ∙ ap ok (not-eq-false v passed),
        available-ok _ held ∙ cc (one, two),
        subst (λ c. contains l (active_leases c) ≡ true) one
            (subst (λ x. contains x (active_leases loaded.0) ≡ true) three among),
        ground (arith, matched, three),
        subst (λ x. lease_reproduces x s.intent ≡ true) three (not-eq-false _ reproduced),
      )
    where
      parts :
          (a a' : RunnerCapacityState) (b b' : DurableCapacityHead) (c c' : CapacityLease)
          → ◌≡◌ {A = Result (RunnerCapacityState × DurableCapacityHead × CapacityLease)}
              (ok (a, b, c))
              (ok (a', b', c'))
          → (a ≡ a') × (b ≡ b') × (c ≡ c')
      parts a a' b b' c c' e = (cc, cc, cc)

  check_live_permit-same : (p q : LiveDispatchPermit) → check_live_permit p ≡ ok q → q ≡ p
  unfolding check_live_permit
  check_live_permit-same p q e =
      let (generation, e) = raise_if-eq-ok (ltb p.capacity_generation 1) _ _ e in
      let (attempt, e) = raise_if-eq-ok (ltb p.physical_attempt 1) _ _ e in
      let (u, present, e) = >>=-eq-ok (check_present (live_texts p)) _ e in sym (ok_inj p q e)

  -- A live permit that verifies is of a state that is submission_unknown and of its permit, and
  -- binds them to the capacity head as it loads now, in which the lease of the intent is active
  -- and the state verifies for the runner.
  pub verify_live_dispatch_permit_bindings :
      (s : DispatchIntentState) (p : DispatchPermit) (live : LiveDispatchPermit)
      (heads : List HeadRow) (runner : RunnerCapabilities)
      → verify_live_dispatch_permit s p live heads runner ≡ true
      → (capacity : RunnerCapacityState) × (head : DurableCapacityHead) × (l : CapacityLease)
        × (s.status ≡ submission_unknown)
        × (verify_dispatch_permit s p ≡ ok true)
        × (Durable.load heads runner ≡ ok (capacity, head))
        × (verify_capacity_state capacity runner ≡ ok true)
        × (contains l (active_leases capacity) ≡ true)
        × (lease_id l ≡ s.intent.lease_id)
        × (lease_reproduces l s.intent ≡ true)
        × (live ≡ live_permit_for s p runner capacity head l)
  unfolding verify_live_dispatch_permit authorize_live_dispatch
  verify_live_dispatch_permit_bindings s p live heads runner e =
      let (expected, made, same) = succeeded live (authorize_live_dispatch s p heads runner) e in
      let (bound, found, made) = >>=-eq-ok (load_active_bound_lease s p heads runner) _ made in
      let (status, verified, loaded, among, named, reproduced) =
        bound_lease-parts s p heads runner bound.0 bound.1 bound.2 found in
      (
        bound.0,
        bound.1,
        bound.2,
        status,
        verified,
        loaded,
        load-verifies heads runner bound.0 bound.1 loaded,
        among,
        named,
        reproduced,
        same ∙ check_live_permit-same _ expected made,
      )
    where
      succeeded :
          (live : LiveDispatchPermit) (m : Result LiveDispatchPermit)
          → succeeds m (λ expected. live == expected) ≡ true
          → (expected : LiveDispatchPermit) × (m ≡ ok expected) × (live ≡ expected)
      succeeded live (ok x) e = (x, refl, ground (arith, e))
      succeeded live (err y) e = cc
