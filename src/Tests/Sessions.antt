-- ===== src/Tests/Sessions.antt =====
-- The theorems on planning and on sessions at concrete specifications and sessions.
use general_execution.Prelude.{
  String-discrete, ℕ_discrete, ◌≡◌, ◌≢◌, ◌↔◌, inl, inr, refl, arith, true, [], ◌∷◌, ok, some,
}
use general_execution.Canonical.{sha256_digest, stable_id, canonical_json, str_le, codes_le}
use general_execution.Models.{
  ExecutionMode, RunnerRegistry, DispatchPlan, SessionState, ResultEnvelope, ResultStatus, sort,
  insert_sorted, check_plan, is_valid_mode, ExecutionMode-discrete, DispatchPlan-discrete,
  RunnerCapabilities-discrete, SessionState-discrete, spec_id, spec_digest, plan_id, plan_digest,
  runner_digest, registry_digest, session_id, check_session, result_digest,
}
use general_execution.Planner.{
  verify_plan, plan_execution, compatible_runners, compatible, plan_for, key_le,
}
use general_execution.Planner.Choice.{Chosen, plan_execution-Chosen}
use general_execution.Planner.Verified.{reason_for, verify_plan-Chosen}
use general_execution.Planner.Sorting.{swap}
use general_execution.Planner.Reordering.{OtherId, plan_execution-Reordered}
use general_execution.Session.{submit_result, binds_session, bind_session, bind_assigned}
use general_execution.Session.Lifecycle.{
  start, revoke, submit, IsValid, step, Permitted, next, run, SameIdentity, ResultOf, step_iff,
  run-SameIdentity, run-Ended, run-ResultOf, bind_session_bindings,
}
use general_execution.Tests.Data.{toy, r-ne-w, spec, runner, writer, registry, plan, session_in}

read_only_valid : is_valid_mode ExecutionMode.read_only ≡ true
unfolding is_valid_mode
read_only_valid = refl

plan_execution-Chosen_example :
    (p : DispatchPlan) × (plan_execution spec registry ExecutionMode.read_only ≡ ok p)
    × (p.mode ≡ ExecutionMode.read_only)
    × (p.spec_id ≡ spec_id spec)
    × (p.spec_digest ≡ spec_digest spec)
    × (p.registry_digest ≡ registry_digest registry)
    × Chosen spec registry ExecutionMode.read_only p
plan_execution-Chosen_example =
    plan_execution-Chosen spec registry ExecutionMode.read_only read_only_valid

verify_plan-Chosen_example : (verify_plan spec registry plan ≡ ok true) ↔ (
    (is_valid_mode plan.mode ≡ true)
    × (plan.spec_id ≡ spec_id spec)
    × (plan.spec_digest ≡ spec_digest spec)
    × (plan.registry_digest ≡ registry_digest registry)
    × (plan.deferral_reason ≡ reason_for plan.runner_id)
    × Chosen spec registry plan.mode plan)
verify_plan-Chosen_example = verify_plan-Chosen spec registry plan

abbrev exchanged : RunnerRegistry
exchanged = record { runners = writer ∷ runner ∷ [] }

other_runner : OtherId runner writer
other_runner = r-ne-w

plan_execution-Reordered_example :
    plan_execution spec registry ExecutionMode.read_only
    ≡ plan_execution spec exchanged ExecutionMode.read_only
plan_execution-Reordered_example =
    plan_execution-Reordered spec registry exchanged ExecutionMode.read_only
      (swap runner writer [] other_runner)

IsValid-in :
    (state : SessionState) → state ≢ SessionState.result_submitted → IsValid (session_in state)
unfolding is_valid_mode
IsValid-in state ne = record {
  counted = omega arith;
  mode_valid = refl;
  result_state = inr (ne, refl);
}

bound-IsValid : IsValid (session_in SessionState.bound)
bound-IsValid = IsValid-in SessionState.bound (λ e. cc)

running_unfinished : SessionState.running ≢ SessionState.result_submitted
running_unfinished e = cc

running-IsValid : IsValid (session_in SessionState.running)
running-IsValid = IsValid-in SessionState.running running_unfinished

revoked-IsValid : IsValid (session_in SessionState.revoked)
revoked-IsValid = IsValid-in SessionState.revoked (λ e. cc)

step_iff_example :
    (step (session_in SessionState.bound) start ≡ ok (session_in SessionState.running)) ↔ (
      Permitted (session_in SessionState.bound) start
      × (session_in SessionState.running ≡ next (session_in SessionState.bound) start))
step_iff_example =
    step_iff (session_in SessionState.bound) (session_in SessionState.running) start bound-IsValid

run-SameIdentity_example :
    IsValid (run (session_in SessionState.bound) (start ∷ revoke ∷ []))
    × SameIdentity
        (session_in SessionState.bound)
        (run (session_in SessionState.bound) (start ∷ revoke ∷ []))
run-SameIdentity_example =
    run-SameIdentity (session_in SessionState.bound) (start ∷ revoke ∷ []) bound-IsValid

run-Ended_example :
    run (session_in SessionState.revoked) (start ∷ revoke ∷ []) ≡ session_in SessionState.revoked
run-Ended_example =
    run-Ended (session_in SessionState.revoked) (start ∷ revoke ∷ []) revoked-IsValid (inl refl)

abbrev answer : ResultEnvelope
answer = record {
  session_id = session_id (session_in SessionState.running);
  spec_id = spec_id spec;
  spec_digest = spec_digest spec;
  runner_id = "r";
  attempt = 1;
  status = ResultStatus.completed;
  output_artifacts = [];
  evidence = [];
  summary = "done";
}

answered :
    (run (session_in SessionState.running) (submit answer ∷ [])).state
    ≡ SessionState.result_submitted
unfolding run submit_result binds_session check_session is_valid_mode SessionState-discrete
    String-discrete ℕ_discrete session_id spec_id spec_digest stable_id sha256_digest canonical_json
    result_digest
answered = refl

run-ResultOf_example :
    ResultOf
      (session_in SessionState.running)
      (submit answer ∷ [])
      (run (session_in SessionState.running) (submit answer ∷ [])).result_digest
run-ResultOf_example =
    run-ResultOf (session_in SessionState.running) (submit answer ∷ []) running-IsValid
      running_unfinished answered

bound_session : bind_session spec registry plan 1 ≡ ok (session_in SessionState.bound)
unfolding bind_session bind_assigned check_session SessionState-discrete verify_plan plan_execution
    compatible_runners compatible sort insert_sorted plan_for check_plan is_valid_mode
    String-discrete ℕ_discrete ExecutionMode-discrete DispatchPlan-discrete
    RunnerCapabilities-discrete sha256_digest stable_id canonical_json spec_id spec_digest plan_id
    plan_digest runner_digest registry_digest key_le str_le codes_le
bound_session = refl

bind_session_bindings_example :
    (plan_execution spec registry plan.mode ≡ ok plan)
    × IsValid (session_in SessionState.bound)
    × (SessionState.bound ≡ SessionState.bound)
    × (spec_id spec ≡ spec_id spec)
    × (spec_digest spec ≡ spec_digest spec)
    × (plan_id plan ≡ plan_id plan)
    × (plan_digest plan ≡ plan_digest plan)
    × (plan.runner_id ≡ some "r")
    × (plan.runner_capability_digest ≡ some (runner_digest runner))
    × (plan.mode ≡ plan.mode)
    × ((session_in SessionState.bound).attempt ≡ 1)
bind_session_bindings_example =
    bind_session_bindings spec registry plan 1 (session_in SessionState.bound) bound_session
