-- ===== src/Canonical/Lookup.antt =====
-- Reading a key of a mapping, as `dict.get` does, and what the canonical form keeps of it.
use mathlib.Core.Option
use general_execution.Prelude.{
  String, ◌≡◌, ◌∙◌, refl, ap, sym, Option, none, some, ◌==◌, string_eq, arith, if◌then◌else◌,
  Bool-cases, inl, inr,
}
use general_execution.Canonical.Values.{
  Value, Fields, null, bool, num, str, tuple, list, dict, end, field, str_le, insert_field,
  normalize, normalize_fields,
}
use general_execution.Canonical.Order.{str_le_refl}

-- `payload.get(key)` of a mapping; `none` too where the payload is no mapping.
unfoldable pub get_field : String → Fields → Option Value
get_field key end = none
get_field key (field k v r) = if k == key then some v else get_field key r

unfoldable pub get : String → Value → Option Value
unfolding get_field
get key (dict r) = get_field key r
get key _ = none

get_field-insert_field :
    (k j : String) (v : Value) (r : Fields)
    → get_field k (insert_field j v r) ≡ (if j == k then some v else get_field k r)
unfolding get_field insert_field
get_field-insert_field k j v end = refl
get_field-insert_field k j v (field i w r) = elim (Bool-cases (str_le j i)) [
  | inl le ↦ rw le refl
  | inr gt ↦ rw gt (ground (arith, str_le_refl j, gt, get_field-insert_field k j v r))
]

get_field-normalize_fields :
    (k : String) (r : Fields)
    → get_field k (normalize_fields r) ≡ Option.map normalize (get_field k r)
unfolding get_field normalize_fields
get_field-normalize_fields k end = refl
get_field-normalize_fields k (field j v r) =
    get_field-insert_field k j (normalize v) (normalize_fields r)
    ∙ ground (arith, get_field-normalize_fields k r)

-- Only a text has that text as its canonical form.
pub str_of_normalize : (v : Value) (s : String) → normalize v ≡ str s → v ≡ str s
unfolding normalize
str_of_normalize (str t) s e = e
str_of_normalize null s e = e
str_of_normalize (bool b) s e = cc
str_of_normalize (num n) s e = cc
str_of_normalize (tuple xs) s e = cc
str_of_normalize (list xs) s e = cc
str_of_normalize (dict r) s e = cc

str_of_some :
    (o : Option Value) (s : String) → Option.map normalize o ≡ some (str s) → o ≡ some (str s)
str_of_some none s e = cc
str_of_some (some v) s e = ap some (str_of_normalize v s (cc e))

-- The canonical form holds the canonical forms of the values, under the same keys.
pub get-normalize : (k : String) (v : Value) → get k (normalize v) ≡ Option.map normalize (get k v)
unfolding get normalize
get-normalize k null = refl
get-normalize k (bool b) = refl
get-normalize k (num n) = refl
get-normalize k (str s) = refl
get-normalize k (tuple xs) = refl
get-normalize k (list xs) = refl
get-normalize k (dict r) = get_field-normalize_fields k r

-- Values with one canonical form hold the same text under each key.
pub get_of_normalize :
    (k : String) (v w : Value) (s : String)
    → normalize v ≡ normalize w
    → get k w ≡ some (str s)
    → get k v ≡ some (str s)
unfolding normalize
get_of_normalize k v w s e g =
    str_of_some (get k v) s
      (sym (get-normalize k v) ∙ ap (get k) e ∙ get-normalize k w ∙ ap (Option.map normalize) g)
