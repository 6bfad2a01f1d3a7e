-- ===== src/Adapter/Request.antt =====
-- `AdapterDispatchRequest`, `_verify_static_binding`, `build_dispatch_request` and
-- `verify_dispatch_request` of adapter.py. A fresh invocation id (`uuid4`) is an argument.
use general_execution.Prelude.{
  ℕ, ℕ_discrete, String, String-discrete, Bool, false, ◌&&◌, not, [], ◌∷◌, Result, ok, err,
  value_error, adapter_error, raise_if, ◌>>=◌, ◌>>◌, ◌==◌, ◌!=◌, Eq, string_eq, nat_eq, ltb,
  contains, option_eq,
}
use general_execution.Prelude.Text.{codes, starts_with}
use general_execution.Canonical.{Value, str, num, obj, Hash, sha256_digest, stable_id}
use general_execution.Models.{
  ExecutionSpec, spec_id, spec_digest, spec_value, RunnerCapabilities, RunnerRegistry,
  runner_digest, runner_eq, registry_digest, ExecutionMode, mode_text, mode_eq, DispatchPlan,
  plan_id, plan_digest, ExecutionSession, running, state_eq, session_id,
}
use general_execution.Planner.{verify_plan}

pub record AdapterDispatchRequest : Type 0 where
  pub invocation_id : String
  pub session_id : String
  pub spec_id : String
  pub spec_digest : String
  pub plan_id : String
  pub plan_digest : String
  pub registry_digest : String
  pub runner_id : String
  pub runner_capability_digest : String
  pub mode : ExecutionMode
  pub attempt : ℕ
  pub provider : String
  pub adapter : String
  pub adapter_version : String
  pub spec : ExecutionSpec

unfoldable pub check_request : AdapterDispatchRequest → Result AdapterDispatchRequest
check_request q = do
  raise_if (not (starts_with (codes q.invocation_id) (codes "gei-")))
      (value_error "invocation_id must use the gei- namespace")
  raise_if (ltb q.attempt 1) (value_error "attempt must be >= 1")
  ok q

unfoldable pub request_value : AdapterDispatchRequest → Value
request_value q = obj (
    ("invocation_id", str q.invocation_id)
    ∷ ("session_id", str q.session_id)
    ∷ ("spec_id", str q.spec_id)
    ∷ ("spec_digest", str q.spec_digest)
    ∷ ("plan_id", str q.plan_id)
    ∷ ("plan_digest", str q.plan_digest)
    ∷ ("registry_digest", str q.registry_digest)
    ∷ ("runner_id", str q.runner_id)
    ∷ ("runner_capability_digest", str q.runner_capability_digest)
    ∷ ("mode", str (mode_text q.mode))
    ∷ ("attempt", num q.attempt)
    ∷ ("provider", str q.provider)
    ∷ ("adapter", str q.adapter)
    ∷ ("adapter_version", str q.adapter_version)
    ∷ ("spec", spec_value q.spec)
    ∷ ("schema_version", str "ge.adapter-dispatch.v1")
    ∷ [])

unfoldable pub AdapterDispatchRequest-discrete : Discrete AdapterDispatchRequest
unfolding String-discrete ℕ_discrete
AdapterDispatchRequest-discrete = hlevel (String-discrete, ℕ_discrete)

instance abbrev pub request_eq : Eq AdapterDispatchRequest
request_eq = record { dec = AdapterDispatchRequest-discrete }

-- What every verification of a dispatch is given.
pub record Context : Type 0 where
  pub spec : ExecutionSpec
  pub registry : RunnerRegistry
  pub plan : DispatchPlan
  pub session : ExecutionSession
  pub runner : RunnerCapabilities

-- A test that `try … except AdapterError` guards: other exceptions pass.
unfoldable pub catch_adapter_error : {A : Type 0} → Result A → (A → Result Bool) → Result Bool
catch_adapter_error (ok a) f = f a
catch_adapter_error (err (adapter_error m)) f = ok false
catch_adapter_error (err x) f = err x

module _ ⦃h : Hash⦄ where
  unfoldable pub request_digest : AdapterDispatchRequest → String
  request_digest q = sha256_digest (request_value q)

  unfoldable pub request_id : AdapterDispatchRequest → String
  request_id q = stable_id "ger" (request_value q)

  -- The session is bound to exactly this specification, registry, plan and runner.
  unfoldable pub exactly_bound : Context → Bool
  exactly_bound c =
      c.session.spec_id == spec_id c.spec
      && c.session.spec_digest == spec_digest c.spec
      && c.session.plan_id == plan_id c.plan
      && c.session.plan_digest == plan_digest c.plan
      && c.plan.registry_digest == registry_digest c.registry
      && c.session.runner_id == c.runner.runner_id
      && c.session.runner_capability_digest == runner_digest c.runner
      && c.session.mode == c.plan.mode

  unfoldable pub verify_static_binding : Context → Result (Unit {0})
  unfolding exactly_bound
  verify_static_binding c = do
    verified ← verify_plan c.spec c.registry c.plan
    raise_if (not verified) (adapter_error "dispatch plan does not reproduce")
    raise_if (not (contains c.runner c.registry.runners))
        (adapter_error "runner is absent from registry")
    raise_if (c.session.state != running) (adapter_error "dispatch requires a running session")
    raise_if (not (exactly_bound c))
        (adapter_error "spec, registry, plan, runner, and session are not exactly bound")

  -- The request for a context and an invocation id.
  unfoldable pub request_for : Context → String → AdapterDispatchRequest
  request_for c invocation_id = record {
    invocation_id = invocation_id;
    session_id = session_id c.session;
    spec_id = spec_id c.spec;
    spec_digest = spec_digest c.spec;
    plan_id = plan_id c.plan;
    plan_digest = plan_digest c.plan;
    registry_digest = registry_digest c.registry;
    runner_id = c.runner.runner_id;
    runner_capability_digest = runner_digest c.runner;
    mode = c.session.mode;
    attempt = c.session.attempt;
    provider = c.runner.provider;
    adapter = c.runner.adapter;
    adapter_version = c.runner.adapter_version;
    spec = c.spec;
  }

  unfoldable pub build_dispatch_request : Context → String → Result AdapterDispatchRequest
  unfolding request_for
  build_dispatch_request c invocation_id = do
    verify_static_binding c
    check_request (request_for c invocation_id)

  unfoldable pub verify_dispatch_request : Context → AdapterDispatchRequest → Result Bool
  unfolding catch_adapter_error
  verify_dispatch_request c request =
      catch_adapter_error (build_dispatch_request c request.invocation_id)
        λ expected. ok (request == expected)
