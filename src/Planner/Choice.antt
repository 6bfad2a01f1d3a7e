-- ===== src/Planner/Choice.antt =====
-- Which runner a plan names.
use general_execution.Prelude.{
  ◌≡◌, refl, sym, subst, Bool, true, false, List, [], ◌∷◌, none, some, Result, ok, err, select,
  contains, arith, ◌⊎◌, inl, inr, ◌↔◌, string_eq,
}
use general_execution.Canonical.{Hash}
use general_execution.Canonical.Order.{str_le_total, str_le_trans, str_le_refl, str_le_antisymm}
use general_execution.Models.{
  ExecutionSpec, spec_id, spec_digest, RunnerCapabilities, RunnerRegistry, runner_digest, runner_eq,
  registry_digest, ExecutionMode, is_valid_mode, sort, DispatchPlan, check_plan, plan_eq,
}
use general_execution.Planner.{
  compatible, key_le, compatible_runners, plan_for, plan_execution, verify_plan,
}
use general_execution.Planner.Sorting.{sort-IsLeast}

contains-select :
    (t : RunnerCapabilities → Bool) (a : RunnerCapabilities) (xs : List RunnerCapabilities)
    → (contains a (select t xs) ≡ true) ↔ ((contains a xs ≡ true) × (t a ≡ true))
contains-select t a [] = (λ m. cc, λ m. m.0)
contains-select t a (x ∷ xs) = ground (arith, contains-select t a xs)

module _ ⦃h : Hash⦄ where
  pub key_le_refl : (r : RunnerCapabilities) → key_le r r ≡ true
  unfolding key_le
  key_le_refl r = ground (arith, str_le_refl (runner_digest r))

  pub key_le_total : (r q : RunnerCapabilities) → key_le r q ≡ false → key_le q r ≡ true
  unfolding key_le
  key_le_total r q = ground (
    arith,
    str_le_total r.runner_id q.runner_id,
    str_le_total (runner_digest r) (runner_digest q),
  )

  pub key_le_trans :
      (r q s : RunnerCapabilities) → key_le r q ≡ true → key_le q s ≡ true → key_le r s ≡ true
  unfolding key_le
  key_le_trans r q s = ground (
    arith,
    str_le_trans r.runner_id q.runner_id s.runner_id,
    str_le_antisymm r.runner_id q.runner_id,
    str_le_antisymm r.runner_id s.runner_id,
    str_le_antisymm q.runner_id s.runner_id,
    str_le_trans (runner_digest r) (runner_digest q) (runner_digest s),
  )

  -- `check_plan` accepts every plan that `plan_for` makes for a valid mode.
  check_plan-plan_for :
      (spec : ExecutionSpec) (g : RunnerRegistry) (m : ExecutionMode) (rs : List RunnerCapabilities)
      → is_valid_mode m ≡ true
      → check_plan (plan_for spec g m rs) ≡ ok (plan_for spec g m rs)
  unfolding check_plan plan_for
  check_plan-plan_for spec g m [] v = ground arith
  check_plan-plan_for spec g m (r ∷ rs) v = ground arith

  -- The plan is deferred and no runner of the registry is compatible, or it names a compatible
  -- runner of the registry whose key is not above that of any other.
  abbrev pub Chosen : ExecutionSpec → RunnerRegistry → ExecutionMode → DispatchPlan → Type 0
  Chosen spec g m p =
      ((p.runner_id ≡ none)
        × (p.runner_capability_digest ≡ none)
        × ((q : RunnerCapabilities) → contains q g.runners ≡ true → compatible spec q m ≡ false))
      ⊎ ((r : RunnerCapabilities) × (p.runner_id ≡ some r.runner_id)
          × (p.runner_capability_digest ≡ some (runner_digest r))
          × (contains r g.runners ≡ true)
          × (compatible spec r m ≡ true)
          × ((q : RunnerCapabilities)
              → contains q g.runners ≡ true
              → compatible spec q m ≡ true
              → key_le r q ≡ true))

  Chosen-plan_for :
      (spec : ExecutionSpec) (g : RunnerRegistry) (m : ExecutionMode) (xs : List RunnerCapabilities)
      → select (λ r. compatible spec r m) g.runners ≡ xs
      → Chosen spec g m (plan_for spec g m (sort key_le xs))
  unfolding plan_for sort
  Chosen-plan_for spec g m [] e =
      inl (
        refl,
        refl,
        λ q here. ground (arith, contains-select (λ r. compatible spec r m) q g.runners),
      )
  Chosen-plan_for spec g m (x ∷ xs) e =
      let (c, zs, eq, least) = sort-IsLeast key_le key_le_refl key_le_total key_le_trans x xs in
      let found =
        (contains-select (λ r. compatible spec r m) c g.runners).0
          (subst (λ l. contains c l ≡ true) (sym e) least.0) in
      rw (eq, plan_for)
        (inr (
          c,
          refl,
          refl,
          found.0,
          found.1,
          λ q here fits. least.1 q (
              subst (λ l. contains q l ≡ true) e
                ((contains-select (λ r. compatible spec r m) q g.runners).1 (here, fits))),
        ))

  -- For a valid mode planning succeeds. The plan is for that mode and bound to the specification
  -- and the registry, and it names a least compatible runner, or none when none is compatible.
  pub plan_execution-Chosen :
      (spec : ExecutionSpec) (g : RunnerRegistry) (m : ExecutionMode)
      → is_valid_mode m ≡ true
      → (p : DispatchPlan) × (plan_execution spec g m ≡ ok p)
        × (p.mode ≡ m)
        × (p.spec_id ≡ spec_id spec)
        × (p.spec_digest ≡ spec_digest spec)
        × (p.registry_digest ≡ registry_digest g)
        × Chosen spec g m p
  unfolding plan_execution compatible_runners plan_for
  plan_execution-Chosen spec g m v = (
    plan_for spec g m rs,
    check_plan-plan_for spec g m rs v,
    (bindings rs).0,
    (bindings rs).1,
    (bindings rs).2,
    (bindings rs).3,
    Chosen-plan_for spec g m _ refl,
  )
    where
      bindings :
          (qs : List RunnerCapabilities)
          → ((plan_for spec g m qs).mode ≡ m)
            × ((plan_for spec g m qs).spec_id ≡ spec_id spec)
            × ((plan_for spec g m qs).spec_digest ≡ spec_digest spec)
            × ((plan_for spec g m qs).registry_digest ≡ registry_digest g)
      bindings [] = (refl, refl, refl, refl)
      bindings (q ∷ qs) = (refl, refl, refl, refl)

      rs : List RunnerCapabilities
      rs = compatible_runners spec g m

  -- `verify_plan` accepts a plan exactly if planning for the plan's mode gives that plan.
  pub verify_plan_iff :
      (spec : ExecutionSpec) (g : RunnerRegistry) (p : DispatchPlan)
      → (verify_plan spec g p ≡ ok true) ↔ (plan_execution spec g p.mode ≡ ok p)
  unfolding verify_plan
  verify_plan_iff spec g p = go (plan_execution spec g p.mode) refl
    where
      go :
          (r : Result DispatchPlan)
          → plan_execution spec g p.mode ≡ r
          → (verify_plan spec g p ≡ ok true) ↔ (r ≡ ok p)
      go (ok q) e = rw (e, verify_plan) (ground arith)
      go (err x) e = rw (e, verify_plan) (λ k. cc, λ k. cc)
