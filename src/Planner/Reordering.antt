-- ===== src/Planner/Reordering.antt =====
-- A plan does not depend on the order in which the registry lists its runners.
use general_execution.Prelude.{◌≡◌, ◌≢◌, ap, ◌∙◌, true, List, [], ◌∷◌, arith}
use general_execution.Canonical.{Hash, str_le}
use general_execution.Canonical.Order.{str_le_total, str_le_trans, str_le_antisymm}
use general_execution.Models.{
  ExecutionSpec, RunnerCapabilities, RunnerRegistry, registry_digest, ExecutionMode, check_plan,
}
use general_execution.Planner.{compatible, key_le, compatible_runners, plan_for, plan_execution}
use general_execution.Planner.Choice.{key_le_total, key_le_trans}
use general_execution.Planner.Sorting.{Reordered, select-Reordered, sort-Reordered}

-- The runners have different ids, as all runners of a registry do.
abbrev pub OtherId : RunnerCapabilities → RunnerCapabilities → Type 0
OtherId r q = r.runner_id ≢ q.runner_id

module _ ⦃h : Hash⦄ where
  key_le_anti : (r q : RunnerCapabilities) → OtherId r q → key_le r q ≡ true → key_le q r ≡ true → ⊥
  unfolding key_le
  key_le_anti r q ne a b = ground (arith, str_le_antisymm r.runner_id q.runner_id)

  registry_digest-Reordered :
      {g k : RunnerRegistry}
      → Reordered OtherId g.runners k.runners
      → registry_digest g ≡ registry_digest k
  unfolding registry_digest
  registry_digest-Reordered {g} {k} o = rw (
      sort-Reordered (λ r q. str_le r.runner_id q.runner_id)
        (λ r q. str_le_total r.runner_id q.runner_id)
        (λ r q s. str_le_trans r.runner_id q.runner_id s.runner_id) OtherId
        (λ r q ne a b. ne (str_le_antisymm r.runner_id q.runner_id a b)) o)

  plan_for-registry :
      (spec : ExecutionSpec) (g k : RunnerRegistry) (m : ExecutionMode)
      (rs : List RunnerCapabilities)
      → registry_digest g ≡ registry_digest k
      → plan_for spec g m rs ≡ plan_for spec k m rs
  unfolding plan_for
  plan_for-registry spec g k m [] e = rw e
  plan_for-registry spec g k m (r ∷ rs) e = rw e

  -- Two registries that list the same runners in another order give the same plan, digests
  -- included, for every specification and mode.
  pub plan_execution-Reordered :
      (spec : ExecutionSpec) (g k : RunnerRegistry) (m : ExecutionMode)
      → Reordered OtherId g.runners k.runners
      → plan_execution spec g m ≡ plan_execution spec k m
  unfolding plan_execution compatible_runners
  plan_execution-Reordered spec g k m o = ap check_plan (
      plan_for-registry spec g k m _ (registry_digest-Reordered {g = g} {k = k} o)
      ∙ ap (plan_for spec k m) (
          sort-Reordered key_le key_le_total key_le_trans OtherId key_le_anti
            (select-Reordered OtherId (λ r. compatible spec r m) o)))
