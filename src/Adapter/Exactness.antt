-- ===== src/Adapter/Exactness.antt =====
-- The requests that `verify_dispatch_request` of adapter.py accepts are all those that are bound.
use general_execution.Prelude.{
  ◌<◌, String, ◌≡◌, ◌↔◌, subst, true, ok, arith, >>=-eq-ok, nat_eq, string_eq,
}
use general_execution.Prelude.Text.{codes, starts_with}
use general_execution.Canonical.{Hash}
use general_execution.Models.{runner_eq, mode_eq}
use general_execution.Planner.Choice.{verify_plan_iff}
use general_execution.Adapter.{
  AdapterDispatchRequest, Context, check_request, exactly_bound, verify_static_binding, request_for,
  build_dispatch_request, verify_dispatch_request,
}
use general_execution.Adapter.Binding.{
  IsBound, verify_dispatch_request_iff, build_dispatch_request-IsBound,
}

module _ ⦃h : Hash⦄ where
  exactly_bound-IsBound : (c : Context) → IsBound c → exactly_bound c ≡ true
  unfolding exactly_bound
  exactly_bound-IsBound c b = ground (
    arith, b.same_spec, b.same_spec_digest, b.same_plan, b.same_plan_digest, b.same_registry,
    b.same_runner, b.same_capability, b.same_mode,
  )

  IsBound-verifies : (c : Context) → IsBound c → verify_static_binding c ≡ ok tt
  unfolding verify_static_binding
  IsBound-verifies c b =
      rw ((verify_plan_iff c.spec c.registry c.plan).1 b.planned, exactly_bound-IsBound c b)
        (ground (arith, b.registered, b.active))

  -- What the checks of a request itself ask for.
  check_request-eq :
      (q r : AdapterDispatchRequest)
      → check_request q ≡ ok r
      → starts_with (codes q.invocation_id) (codes "gei-") ≡ true
  unfolding check_request
  check_request-eq q r e = ground arith

  check_request-accepts :
      (q : AdapterDispatchRequest)
      → starts_with (codes q.invocation_id) (codes "gei-") ≡ true
      → 0 < q.attempt
      → check_request q ≡ ok q
  unfolding check_request
  check_request-accepts q named positive = ground arith

  built-IsNamed :
      (c : Context) (i : String) (q : AdapterDispatchRequest)
      → build_dispatch_request c i ≡ ok q
      → starts_with (codes i) (codes "gei-") ≡ true
  unfolding build_dispatch_request request_for
  built-IsNamed c i q e =
      let (_, _, rest) = >>=-eq-ok (verify_static_binding c) _ e in
      check_request-eq (request_for c i) q rest

  IsBound-builds :
      (c : Context) (q : AdapterDispatchRequest)
      → IsBound c
      → q ≡ request_for c q.invocation_id
      → starts_with (codes q.invocation_id) (codes "gei-") ≡ true
      → 0 < q.attempt
      → build_dispatch_request c q.invocation_id ≡ ok q
  unfolding build_dispatch_request
  IsBound-builds c q b same named positive =
      rw (IsBound-verifies c b)
        (subst (λ r. check_request r ≡ ok q) same (check_request-accepts q named positive))

  -- A dispatch request verifies exactly if its context is bound (planning reproduces the plan, the
  -- runner is registered, and the session runs for exactly that specification, plan and runner), it
  -- is the request of that context for its invocation id, that id is in the `gei-` namespace and its
  -- attempt is above 0.
  pub verify_dispatch_request_complete :
      (c : Context) (q : AdapterDispatchRequest)
      → (verify_dispatch_request c q ≡ ok true) ↔ (
          IsBound c
          × (q ≡ request_for c q.invocation_id)
          × (starts_with (codes q.invocation_id) (codes "gei-") ≡ true)
          × (0 < q.attempt))
  verify_dispatch_request_complete c q = (
    λ verified.
        let built = (verify_dispatch_request_iff c q).0 verified in
        let facts = build_dispatch_request-IsBound c q.invocation_id q built in
        (facts.0, facts.1, built-IsNamed c q.invocation_id q built, facts.2),
    λ facts.
        (verify_dispatch_request_iff c q).1 (IsBound-builds c q facts.0 facts.1 facts.2 facts.3),
  )
