-- ===== src/Planner.antt =====
-- src/general_execution/planner.py: the choice of a runner for a specification.
pub mod Sorting
pub mod Choice
pub mod Verified
pub mod Reordering
use general_execution.Prelude.{
  String, Bool, true, false, ◌&&◌, List, [], ◌∷◌, Option, none, some, Result, ok, err, ◌>>=◌, ◌==◌,
  string_eq, all, contains, select, if◌then◌else◌,
}
use general_execution.Canonical.{Hash, str_le}
use general_execution.Models.{
  ExecutionSpec, spec_id, spec_digest, RunnerCapabilities, RunnerRegistry, runner_digest,
  registry_digest, ExecutionMode, mode_eq, sort, DispatchPlan, DeferralReason, check_plan, plan_eq,
}

unfoldable pub compatible : ExecutionSpec → RunnerCapabilities → ExecutionMode → Bool
compatible spec runner mode =
    contains mode runner.modes
    && all (λ c. contains c runner.capabilities) spec.required_capabilities

module _ ⦃h : Hash⦄ where
  -- The order of the keys `(runner_id, digest)`.
  unfoldable pub key_le : RunnerCapabilities → RunnerCapabilities → Bool
  key_le r q =
      if r.runner_id == q.runner_id
      then str_le (runner_digest r) (runner_digest q)
      else str_le r.runner_id q.runner_id

  unfoldable pub compatible_runners :
      ExecutionSpec → RunnerRegistry → ExecutionMode → List RunnerCapabilities
  compatible_runners spec registry mode =
      sort key_le (select (λ r. compatible spec r mode) registry.runners)

  -- The plan for the sorted list of compatible runners.
  unfoldable pub plan_for :
      ExecutionSpec → RunnerRegistry → ExecutionMode → List RunnerCapabilities → DispatchPlan
  plan_for spec registry mode [] = record {
    spec_id = spec_id spec;
    spec_digest = spec_digest spec;
    registry_digest = registry_digest registry;
    mode = mode;
    runner_id = none;
    runner_capability_digest = none;
    deferral_reason = some DeferralReason.no_compatible_runner;
  }
  plan_for spec registry mode (chosen ∷ _) = record {
    spec_id = spec_id spec;
    spec_digest = spec_digest spec;
    registry_digest = registry_digest registry;
    mode = mode;
    runner_id = some chosen.runner_id;
    runner_capability_digest = some (runner_digest chosen);
    deferral_reason = none;
  }

  unfoldable pub plan_execution :
      ExecutionSpec → RunnerRegistry → ExecutionMode → Result DispatchPlan
  unfolding plan_for
  plan_execution spec registry mode =
      check_plan (plan_for spec registry mode (compatible_runners spec registry mode))

  unfoldable pub verify_plan : ExecutionSpec → RunnerRegistry → DispatchPlan → Result Bool
  verify_plan spec registry plan = do
    expected ← plan_execution spec registry plan.mode
    ok (plan == expected)
