-- ===== src/Models/Checks.antt =====
-- `_nonempty`, `_unique` and the digest format of models.py.
use Prim.Native.String.{◌++◌}
use general_execution.Prelude.{
  String, Bool, ◌&&◌, not, List, [], ◌∷◌, length, Result, ok, raise_if, value_error, ◌>>◌, ◌==◌,
  nat_eq, string_eq, Eq, distinct,
}
use general_execution.Prelude.Text.{codes, is_blank, starts_with, drop_prefix, is_int_base16}

unfoldable pub nonempty : String → String → Result (Unit {0})
nonempty name value = raise_if (is_blank value) (value_error (name ++ " must be non-empty"))

unfoldable pub unique : {A : Type 0} ⦃e : Eq A⦄ → String → List A → Result (Unit {0})
unique name values =
    raise_if (not (distinct values)) (value_error (name ++ " must not contain duplicates"))

-- `nonempty` of named fields, in order.
unfoldable pub nonempty_all : List (String × String) → Result (Unit {0})
unfolding nonempty
nonempty_all [] = ok tt
nonempty_all ((name, value) ∷ r) = nonempty name value >> nonempty_all r

-- The two checks that a digest passes: its prefix and length, and then its digits.
unfoldable pub has_digest_shape : String → Bool
has_digest_shape d = starts_with (codes d) (codes "sha256:") && length (codes d) == 71

unfoldable pub has_digest_digits : String → Bool
has_digest_digits d = is_int_base16 (drop_prefix (codes d) (codes "sha256:"))
