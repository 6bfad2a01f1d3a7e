-- ===== src/Session.antt =====
-- src/general_execution/session.py: the life of a session, from binding to its end.
pub mod Lifecycle
use general_execution.Prelude.{
  ℕ, String, Bool, true, false, ◌&&◌, ◌||◌, not, Option, none, some, Result, ok, err, session_error,
  raise_if, ◌>>=◌, ◌>>◌, ◌==◌, ◌!=◌, string_eq, nat_eq, is_none,
}
use general_execution.Canonical.{Hash}
use general_execution.Models.{
  ExecutionSpec, spec_id, spec_digest, RunnerRegistry, DispatchPlan, plan_id, plan_digest,
  ExecutionSession, SessionState, bound, running, result_submitted, revoked, state_eq,
  check_session, session_id, ResultEnvelope, result_digest,
}
use general_execution.Planner.{verify_plan}

-- `dataclasses.replace(session, state=…)`, which runs the checks again.
unfoldable pub replace_state : ExecutionSession → SessionState → Result ExecutionSession
replace_state s state = check_session (record s { state = state })

unfoldable pub start_session : ExecutionSession → Result ExecutionSession
unfolding replace_state
start_session s = do
  raise_if (s.state != bound) (session_error "only a bound session can start")
  replace_state s running

unfoldable pub revoke_session : ExecutionSession → Result ExecutionSession
unfolding replace_state
revoke_session s = do
  raise_if (not (s.state == bound || s.state == running))
      (session_error "only a bound or running session can be revoked")
  replace_state s revoked

module _ ⦃h : Hash⦄ where
  -- The mode and the runner of a plan that is not deferred.
  unfoldable pub bind_assigned :
      ExecutionSpec → DispatchPlan → ℕ → Option String → Option String → Result ExecutionSession
  bind_assigned spec plan attempt (some runner) (some capability) = check_session (record {
    spec_id = spec_id spec;
    spec_digest = spec_digest spec;
    plan_id = plan_id plan;
    plan_digest = plan_digest plan;
    runner_id = runner;
    runner_capability_digest = capability;
    mode = plan.mode;
    attempt = attempt;
    state = bound;
    result_digest = none;
  })
  bind_assigned spec plan attempt _ _ = err (session_error "cannot bind a deferred dispatch plan")

  unfoldable pub bind_session :
      ExecutionSpec → RunnerRegistry → DispatchPlan → ℕ → Result ExecutionSession
  unfolding bind_assigned
  bind_session spec registry plan attempt = do
    verified ← verify_plan spec registry plan
    raise_if (not verified)
        (session_error "dispatch plan does not reproduce from the supplied spec and registry")
    bind_assigned spec plan attempt plan.runner_id plan.runner_capability_digest

  -- The result names the session, its specification, its runner and its attempt.
  unfoldable pub binds_session : ExecutionSession → ResultEnvelope → Bool
  binds_session s r =
      r.session_id == session_id s
      && r.spec_id == s.spec_id
      && r.spec_digest == s.spec_digest
      && r.runner_id == s.runner_id
      && r.attempt == s.attempt

  unfoldable pub submit_result : ExecutionSession → ResultEnvelope → Result ExecutionSession
  unfolding binds_session
  submit_result s r = do
    raise_if (s.state != running) (session_error "only a running session can submit a result")
    raise_if (not (binds_session s r))
        (session_error "result is not bound to the exact active session")
    check_session (record s { state = result_submitted; result_digest = some (result_digest r) })
