-- ===== src/Tests/Data.antt =====
-- A runner, a specification, their plan and session, and a hash that stands for the library's.
use general_execution.Prelude.{
  ◌≡◌, ◌≢◌, ◌==◌, string_eq, nat_eq, Option, if◌then◌else◌, false, arith, refl, String-discrete,
  String, [], ◌∷◌, none, some,
}
use general_execution.Canonical.{Hash, Value, num, str, get}
use general_execution.Models.{
  ExecutionSpec, spec_id, spec_digest, RunnerCapabilities, RunnerRegistry, runner_digest,
  registry_digest, ExecutionMode, DispatchPlan, plan_id, plan_digest, ExecutionSession,
  SessionState,
}
use general_execution.Adapter.{Context}

abbrev pub digits : String
digits = "00112233445566778899aabbccddeeff00112233445566778899aabbccddeeff"

-- A snapshot of a capacity state is written as a text for its generation, and a dispatch state as
-- its status; every digest is the same.
abbrev text_of_generation : Option Value → String
text_of_generation (some (num n)) = if n == 0 then "s0" else if n == 1 then "s1" else "s2"
text_of_generation _ = digits

abbrev text_of_status : Option Value → String
text_of_status (some (str s)) = s
text_of_status _ = digits

abbrev text_of : Option Value → Value → String
text_of (some v) w = text_of_generation (get "generation" v)
text_of none w = text_of_status (get "status" w)

instance abbrev pub toy : Hash
toy = record { dumps = λ v. text_of (get "state" v) v; hexdigest = λ s. digits }

abbrev pub spec : ExecutionSpec
spec = record {
  producer = "p";
  producer_revision = "1";
  task_kind = "reference-probe";
  objective = "o";
  source_revision = "s";
  required_capabilities = "reference.probe" ∷ [];
  allowed_scopes = [];
  forbidden_actions = [];
  evidence_requirements = "reference-probe-digest" ∷ [];
  inputs = [];
  authority_ref = none;
  metadata = [];
}

abbrev pub runner : RunnerCapabilities
runner = record {
  runner_id = "r";
  provider = "reference";
  adapter = "a";
  adapter_version = "1";
  capabilities = "reference.probe" ∷ [];
  modes = ExecutionMode.read_only ∷ [];
  max_parallelism = 2;
}

abbrev pub writer : RunnerCapabilities
writer = record runner { runner_id = "w"; modes = ExecutionMode.bounded_write ∷ [] }

abbrev pub registry : RunnerRegistry
registry = record { runners = runner ∷ writer ∷ [] }

abbrev pub plan : DispatchPlan
plan = record {
  spec_id = spec_id spec;
  spec_digest = spec_digest spec;
  registry_digest = registry_digest registry;
  mode = ExecutionMode.read_only;
  runner_id = some "r";
  runner_capability_digest = some (runner_digest runner);
  deferral_reason = none;
}

abbrev pub session_in : SessionState → ExecutionSession
session_in state = record {
  spec_id = spec_id spec;
  spec_digest = spec_digest spec;
  plan_id = plan_id plan;
  plan_digest = plan_digest plan;
  runner_id = "r";
  runner_capability_digest = runner_digest runner;
  mode = ExecutionMode.read_only;
  attempt = 1;
  state = state;
  result_digest = none;
}

abbrev pub context : Context
context = record {
  spec = spec;
  registry = registry;
  plan = plan;
  session = session_in SessionState.running;
  runner = runner;
}

pub texts_differ : (s t : String) → (s == t) ≡ false → s ≢ t
texts_differ s t e same = ground (arith, e)

pub r-ne-w : ◌≢◌ {A = String} "r" "w"
unfolding String-discrete
r-ne-w = texts_differ "r" "w" refl

pub b-ne-a : ◌≢◌ {A = String} "b" "a"
unfolding String-discrete
b-ne-a = texts_differ "b" "a" refl
