-- ===== src/Models/Plan.antt =====
-- `DispatchPlan` and `ExecutionSession` of models.py.
use general_execution.Prelude.{
  ℕ, ℕ_discrete, String, String-discrete, ◌||◌, ◌&&◌, not, [], ◌∷◌, Option, Result, ok, raise_if,
  value_error, ◌>>◌, Eq, ◌==◌, ◌!=◌, ltb, is_some, is_none,
}
use general_execution.Canonical.{Value, str, num, opt, obj, Hash, sha256_digest, stable_id}
use general_execution.Models.Runner.{ExecutionMode, mode_text, is_valid_mode}

pub data DeferralReason : Type 0 where
  no_compatible_runner : DeferralReason
  other : String → DeferralReason

pub record DispatchPlan : Type 0 where
  pub spec_id : String
  pub spec_digest : String
  pub registry_digest : String
  pub mode : ExecutionMode
  pub runner_id : Option String
  pub runner_capability_digest : Option String
  pub deferral_reason : Option DeferralReason

unfoldable pub check_plan : DispatchPlan → Result DispatchPlan
unfolding is_valid_mode
check_plan p = do
  raise_if (not (is_valid_mode p.mode)) (value_error "mode must be read_only or bounded_write")
  raise_if
      ((is_none p.runner_id && is_some p.runner_capability_digest)
        || (is_some p.runner_id && is_none p.runner_capability_digest))
      (value_error "runner_id and runner_capability_digest must be both present or both absent")
  raise_if (is_none p.runner_id && is_none p.deferral_reason)
      (value_error "a deferred plan requires deferral_reason")
  raise_if (is_some p.runner_id && is_some p.deferral_reason)
      (value_error "an assigned plan cannot have deferral_reason")
  ok p

abbrev pub reason_text : DeferralReason → String
reason_text no_compatible_runner = "no_compatible_runner"
reason_text (other s) = s

unfoldable pub plan_value : DispatchPlan → Value
unfolding mode_text
plan_value p = obj (
    ("spec_id", str p.spec_id)
    ∷ ("spec_digest", str p.spec_digest)
    ∷ ("registry_digest", str p.registry_digest)
    ∷ ("mode", str (mode_text p.mode))
    ∷ ("runner_id", opt str p.runner_id)
    ∷ ("runner_capability_digest", opt str p.runner_capability_digest)
    ∷ ("deferral_reason", opt (λ r. str (reason_text r)) p.deferral_reason)
    ∷ ("schema_version", str "ge.dispatch-plan.v1")
    ∷ [])

unfoldable pub DispatchPlan-discrete : Discrete DispatchPlan
unfolding String-discrete
DispatchPlan-discrete = hlevel String-discrete

instance abbrev pub plan_eq : Eq DispatchPlan
plan_eq = record { dec = DispatchPlan-discrete }

pub data SessionState : Type 0 where
  bound running result_submitted revoked : SessionState
  other : String → SessionState

unfoldable pub SessionState-discrete : Discrete SessionState
unfolding String-discrete
SessionState-discrete = hlevel String-discrete

instance abbrev pub state_eq : Eq SessionState
state_eq = record { dec = SessionState-discrete }

unfoldable pub state_text : SessionState → String
state_text bound = "bound"
state_text running = "running"
state_text result_submitted = "result_submitted"
state_text revoked = "revoked"
state_text (other s) = s

pub record ExecutionSession : Type 0 where
  pub spec_id : String
  pub spec_digest : String
  pub plan_id : String
  pub plan_digest : String
  pub runner_id : String
  pub runner_capability_digest : String
  pub mode : ExecutionMode
  pub attempt : ℕ
  pub state : SessionState
  pub result_digest : Option String

unfoldable pub check_session : ExecutionSession → Result ExecutionSession
unfolding is_valid_mode
check_session s = do
  raise_if (ltb s.attempt 1) (value_error "attempt must be >= 1")
  raise_if (not (is_valid_mode s.mode)) (value_error "mode must be read_only or bounded_write")
  raise_if (s.state == result_submitted && is_none s.result_digest)
      (value_error "result_submitted state requires result_digest")
  raise_if (s.state != result_submitted && is_some s.result_digest)
      (value_error "only result_submitted state may carry result_digest")
  ok s

unfoldable pub session_value : ExecutionSession → Value
unfolding mode_text state_text
session_value s = obj (
    ("spec_id", str s.spec_id)
    ∷ ("spec_digest", str s.spec_digest)
    ∷ ("plan_id", str s.plan_id)
    ∷ ("plan_digest", str s.plan_digest)
    ∷ ("runner_id", str s.runner_id)
    ∷ ("runner_capability_digest", str s.runner_capability_digest)
    ∷ ("mode", str (mode_text s.mode))
    ∷ ("attempt", num s.attempt)
    ∷ ("state", str (state_text s.state))
    ∷ ("result_digest", opt str s.result_digest)
    ∷ ("schema_version", str "ge.execution-session.v1")
    ∷ [])

unfoldable pub ExecutionSession-discrete : Discrete ExecutionSession
unfolding String-discrete ℕ_discrete
ExecutionSession-discrete = hlevel (String-discrete, ℕ_discrete)

instance abbrev pub session_eq : Eq ExecutionSession
session_eq = record { dec = ExecutionSession-discrete }

module _ ⦃h : Hash⦄ where
  unfoldable pub plan_digest : DispatchPlan → String
  plan_digest p = sha256_digest (plan_value p)

  unfoldable pub plan_id : DispatchPlan → String
  plan_id p = stable_id "gep" (plan_value p)

  -- The id leaves out the state and the result.
  unfoldable pub session_id : ExecutionSession → String
  unfolding mode_text
  session_id s = stable_id "gex" (
      obj (
        ("spec_digest", str s.spec_digest)
        ∷ ("plan_digest", str s.plan_digest)
        ∷ ("runner_id", str s.runner_id)
        ∷ ("runner_capability_digest", str s.runner_capability_digest)
        ∷ ("mode", str (mode_text s.mode))
        ∷ ("attempt", num s.attempt)
        ∷ []))
