-- ===== src/Models/Spec.antt =====
-- `ArtifactRef` and `ExecutionSpec` of models.py.
use general_execution.Prelude.{
  String, String-discrete, not, List, [], ◌∷◌, map, Option, Result, ok, raise_if, value_error, ◌>>◌,
  Eq, string_eq, distinct,
}
use general_execution.Canonical.{Value, str, arr, obj, opt, Hash, sha256_digest, stable_id}
use general_execution.Models.Checks.{
  nonempty, nonempty_all, unique, has_digest_shape, has_digest_digits,
}

pub record ArtifactRef : Type 0 where
  pub name : String
  pub uri : String
  pub digest : String

unfoldable pub check_artifact : ArtifactRef → Result ArtifactRef
unfolding nonempty
check_artifact a = do
  nonempty "artifact.name" a.name
  nonempty "artifact.uri" a.uri
  raise_if (not (has_digest_shape a.digest))
      (value_error "artifact.digest must be a sha256:<64-hex> digest")
  raise_if (not (has_digest_digits a.digest))
      (value_error "artifact.digest must contain 64 hexadecimal characters")
  ok a

abbrev pub artifact_value : ArtifactRef → Value
artifact_value a = obj (("name", str a.name) ∷ ("uri", str a.uri) ∷ ("digest", str a.digest) ∷ [])

pub record ExecutionSpec : Type 0 where
  pub producer : String
  pub producer_revision : String
  pub task_kind : String
  pub objective : String
  pub source_revision : String
  pub required_capabilities : List String
  pub allowed_scopes : List String
  pub forbidden_actions : List String
  pub evidence_requirements : List String
  pub inputs : List ArtifactRef
  pub authority_ref : Option ArtifactRef
  pub metadata : List (String × String)

unfoldable pub check_spec : ExecutionSpec → Result ExecutionSpec
unfolding nonempty_all unique
check_spec s = do
  nonempty_all (
      ("producer", s.producer)
      ∷ ("producer_revision", s.producer_revision)
      ∷ ("task_kind", s.task_kind)
      ∷ ("objective", s.objective)
      ∷ ("source_revision", s.source_revision)
      ∷ [])
  unique "required_capabilities" s.required_capabilities
  unique "allowed_scopes" s.allowed_scopes
  unique "forbidden_actions" s.forbidden_actions
  unique "evidence_requirements" s.evidence_requirements
  raise_if (not (distinct (map (λ e. e.0) s.metadata))) (value_error "metadata keys must be unique")
  ok s

unfoldable pub spec_value : ExecutionSpec → Value
spec_value s = obj (
    ("producer", str s.producer)
    ∷ ("producer_revision", str s.producer_revision)
    ∷ ("task_kind", str s.task_kind)
    ∷ ("objective", str s.objective)
    ∷ ("source_revision", str s.source_revision)
    ∷ ("required_capabilities", arr str s.required_capabilities)
    ∷ ("allowed_scopes", arr str s.allowed_scopes)
    ∷ ("forbidden_actions", arr str s.forbidden_actions)
    ∷ ("evidence_requirements", arr str s.evidence_requirements)
    ∷ ("inputs", arr artifact_value s.inputs)
    ∷ ("authority_ref", opt artifact_value s.authority_ref)
    ∷ ("metadata", arr (λ e. arr str (e.0 ∷ e.1 ∷ [])) s.metadata)
    ∷ ("schema_version", str "ge.execution-spec.v1")
    ∷ [])

unfoldable pub ArtifactRef-discrete : Discrete ArtifactRef
unfolding String-discrete
ArtifactRef-discrete = hlevel String-discrete

unfoldable pub ExecutionSpec-discrete : Discrete ExecutionSpec
unfolding String-discrete
ExecutionSpec-discrete = hlevel String-discrete

instance abbrev pub artifact_eq : Eq ArtifactRef
artifact_eq = record { dec = ArtifactRef-discrete }

instance abbrev pub spec_eq : Eq ExecutionSpec
spec_eq = record { dec = ExecutionSpec-discrete }

module _ ⦃h : Hash⦄ where
  unfoldable pub spec_digest : ExecutionSpec → String
  spec_digest s = sha256_digest (spec_value s)

  unfoldable pub spec_id : ExecutionSpec → String
  spec_id s = stable_id "ges" (spec_value s)
