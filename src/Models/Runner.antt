-- ===== src/Models/Runner.antt =====
-- `RunnerCapabilities` and `RunnerRegistry` of models.py.
use general_execution.Prelude.{
  ℕ, ℕ_discrete, String, String-discrete, Bool, true, false, ◌||◌, not, List, [], ◌∷◌, map, Result,
  ok, raise_if, value_error, ◌>>◌, Eq, string_eq, distinct, any, ltb, if◌then◌else◌,
}
use general_execution.Canonical.{Value, str, num, arr, obj, Hash, sha256_digest, str_le}
use general_execution.Models.Checks.{nonempty_all, unique}

-- `other` is any text that is no mode of the protocol.
pub data ExecutionMode : Type 0 where
  read_only bounded_write : ExecutionMode
  other : String → ExecutionMode

unfoldable pub mode_text : ExecutionMode → String
mode_text read_only = "read_only"
mode_text bounded_write = "bounded_write"
mode_text (other s) = s

-- `mode in VALID_EXECUTION_MODES`
unfoldable pub is_valid_mode : ExecutionMode → Bool
is_valid_mode read_only = true
is_valid_mode bounded_write = true
is_valid_mode (other s) = false

unfoldable pub ExecutionMode-discrete : Discrete ExecutionMode
unfolding String-discrete
ExecutionMode-discrete = hlevel String-discrete

instance abbrev pub mode_eq : Eq ExecutionMode
mode_eq = record { dec = ExecutionMode-discrete }

pub record RunnerCapabilities : Type 0 where
  pub runner_id : String
  pub provider : String
  pub adapter : String
  pub adapter_version : String
  pub capabilities : List String
  pub modes : List ExecutionMode
  pub max_parallelism : ℕ

abbrev is_empty : {A : Type 0} → List A → Bool
is_empty [] = true
is_empty (_ ∷ _) = false

unfoldable pub check_runner : RunnerCapabilities → Result RunnerCapabilities
unfolding nonempty_all unique is_valid_mode
check_runner r = do
  nonempty_all (
      ("runner_id", r.runner_id)
      ∷ ("provider", r.provider)
      ∷ ("adapter", r.adapter)
      ∷ ("adapter_version", r.adapter_version)
      ∷ [])
  unique "capabilities" r.capabilities
  unique "modes" r.modes
  raise_if (is_empty r.modes || any (λ m. not (is_valid_mode m)) r.modes)
      (value_error "modes must contain only read_only or bounded_write")
  raise_if (ltb r.max_parallelism 1) (value_error "max_parallelism must be >= 1")
  ok r

unfoldable pub runner_value : RunnerCapabilities → Value
unfolding mode_text
runner_value r = obj (
    ("runner_id", str r.runner_id)
    ∷ ("provider", str r.provider)
    ∷ ("adapter", str r.adapter)
    ∷ ("adapter_version", str r.adapter_version)
    ∷ ("capabilities", arr str r.capabilities)
    ∷ ("modes", arr (λ m. str (mode_text m)) r.modes)
    ∷ ("max_parallelism", num r.max_parallelism)
    ∷ [])

unfoldable pub RunnerCapabilities-discrete : Discrete RunnerCapabilities
unfolding String-discrete ℕ_discrete
RunnerCapabilities-discrete = hlevel (String-discrete, ℕ_discrete)

instance abbrev pub runner_eq : Eq RunnerCapabilities
runner_eq = record { dec = RunnerCapabilities-discrete }

pub record RunnerRegistry : Type 0 where
  pub runners : List RunnerCapabilities

unfoldable pub check_registry : RunnerRegistry → Result RunnerRegistry
check_registry g = do
  raise_if (not (distinct (map (λ r. r.runner_id) g.runners)))
      (value_error "runner ids must be unique")
  ok g

-- Python's `sorted` by a key: a stable insertion sort for the order `le` of the keys.
module _ {A : Type 0} (le : A → A → Bool) where
  unfoldable pub insert_sorted : A → List A → List A
  insert_sorted a [] = a ∷ []
  insert_sorted a (b ∷ bs) = if le a b then a ∷ b ∷ bs else b ∷ insert_sorted a bs

  unfoldable pub sort : List A → List A
  unfolding insert_sorted
  sort [] = []
  sort (a ∷ xs) = insert_sorted a (sort xs)

module _ ⦃h : Hash⦄ where
  unfoldable pub runner_digest : RunnerCapabilities → String
  runner_digest r = sha256_digest (runner_value r)

  unfoldable pub registry_digest : RunnerRegistry → String
  unfolding sort
  registry_digest g =
      let normalized = sort (λ r q. str_le r.runner_id q.runner_id) g.runners in
      sha256_digest (
        obj (
          ("schema_version", str "ge.runner-registry.v1")
          ∷ ("runners", arr runner_value normalized)
          ∷ []))
