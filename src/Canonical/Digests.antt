-- ===== src/Canonical/Digests.antt =====
-- `canonical_json`, `sha256_digest` and `stable_id` of canonical.py.
use Prim.Native.String.{slice, ◌++◌}
use general_execution.Prelude.{String, ◌≡◌, ◌≢◌, ◌⊎◌, inl, inr, ap}
use general_execution.Canonical.Values.{Value, Value-discrete, Fields, dict, normalize}
use general_execution.Canonical.Order.{Reorder, normalize-Reorder}

-- `json.dumps` with the options of `canonical_json`, and the hexadecimal SHA-256 of a text's UTF-8.
pub record Hash : Type 0 where
  pub dumps : Value → String
  pub hexdigest : String → String

module _ ⦃h : Hash⦄ where
  unfoldable pub canonical_json : Value → String
  canonical_json v = h.dumps (normalize v)

  unfoldable pub sha256_digest : Value → String
  sha256_digest v = "sha256:" ++ h.hexdigest (canonical_json v)

  unfoldable pub stable_id : String → Value → String
  stable_id prefix v = prefix ++ ("-" ++ slice (h.hexdigest (canonical_json v)) 0 24)

  -- Two values with different canonical forms and one digest.
  abbrev pub Collision : Type 0
  Collision =
      (v : Value) × (w : Value) × (normalize v ≢ normalize w) × (sha256_digest v ≡ sha256_digest w)

  -- Two values with one digest have one canonical form, or are a collision.
  pub same_digest :
      (v w : Value) → sha256_digest v ≡ sha256_digest w → (normalize v ≡ normalize w) ⊎ Collision
  same_digest v w e = elim (Value-discrete (normalize v) (normalize w)) [
    | yes same ↦ inl same
    | no other ↦ inr (v, w, other, e)
  ]

  -- Two mappings with the same entries, in whatever order they were built and at whatever depth,
  -- have one digest and one stable id.
  pub digest-Reorder :
      {r s : Fields} (prefix : String)
      → Reorder r s
      → (sha256_digest (dict r) ≡ sha256_digest (dict s))
        × (stable_id prefix (dict r) ≡ stable_id prefix (dict s))
  unfolding sha256_digest stable_id canonical_json
  digest-Reorder prefix p = (
    ap (λ v. "sha256:" ++ h.hexdigest (h.dumps v)) (normalize-Reorder p),
    ap (λ v. prefix ++ ("-" ++ slice (h.hexdigest (h.dumps v)) 0 24)) (normalize-Reorder p),
  )
