-- ===== src/Canonical/Form.antt =====
-- The canonical form, described without the function that makes it.
use general_execution.Prelude.{
  String, ◌≡◌, ◌↔◌, subst, refl, ap, ap₂, ◌∙◌, true, Bool-cases, inl, inr,
}
use general_execution.Canonical.Values.{
  Value, Items, Fields, null, bool, num, str, tuple, list, dict, nil, cons, end, field, str_le,
  insert_field, normalize, normalize_items, normalize_fields,
}
use general_execution.Canonical.Order.{str_le_total}

-- The first key of the mapping, if there is one, is not below this one.
abbrev Above : String → Fields → Type 0
Above k end = Unit
Above k (field j w r) = str_le k j ≡ true

-- No tuples, and the keys of every mapping in ascending order.
abbrev mutual
  pub IsCanonical : Value → Type 0
  IsCanonical (tuple xs) = ⊥
  IsCanonical (list xs) = AreCanonical xs
  IsCanonical (dict r) = IsSorted r
  IsCanonical _ = Unit

  pub AreCanonical : Items → Type 0
  AreCanonical nil = Unit
  AreCanonical (cons v xs) = IsCanonical v × AreCanonical xs

  pub IsSorted : Fields → Type 0
  IsSorted end = Unit
  IsSorted (field k v r) = IsCanonical v × Above k r × IsSorted r

Above-insert_field :
    (j k : String) (v : Value) (r : Fields)
    → str_le j k ≡ true
    → Above j r
    → Above j (insert_field k v r)
unfolding insert_field
Above-insert_field j k v end le a = le
Above-insert_field j k v (field i w r) le a = elim (Bool-cases (str_le k i)) [
  | inl here ↦ rw here le
  | inr later ↦ rw later a
]

insert_field-IsSorted :
    (k : String) (v : Value) (r : Fields)
    → IsCanonical v
    → IsSorted r
    → IsSorted (insert_field k v r)
unfolding insert_field
insert_field-IsSorted k v end c s = (c, tt, tt)
insert_field-IsSorted k v (field j w r) c (d, a, s) = elim (Bool-cases (str_le k j)) [
  | inl here ↦ rw here (c, here, (d, a, s))
  | inr later ↦
      rw later
        (d, Above-insert_field j k v r (str_le_total k j later) a, insert_field-IsSorted k v r c s)
]

insert_field-Above :
    (k : String) (v : Value) (r : Fields) → Above k r → insert_field k v r ≡ field k v r
unfolding insert_field
insert_field-Above k v end a = refl
insert_field-Above k v (field j w r) a = rw a refl

mutual
  unfolding normalize

  made-IsCanonical : (v : Value) → IsCanonical (normalize v)
  made-IsCanonical null = tt
  made-IsCanonical (bool b) = tt
  made-IsCanonical (num n) = tt
  made-IsCanonical (str s) = tt
  made-IsCanonical (tuple xs) = made-AreCanonical xs
  made-IsCanonical (list xs) = made-AreCanonical xs
  made-IsCanonical (dict r) = made-IsSorted r

  made-AreCanonical : (xs : Items) → AreCanonical (normalize_items xs)
  made-AreCanonical nil = tt
  made-AreCanonical (cons v xs) = (made-IsCanonical v, made-AreCanonical xs)

  made-IsSorted : (r : Fields) → IsSorted (normalize_fields r)
  made-IsSorted end = tt
  made-IsSorted (field k v r) =
      insert_field-IsSorted k (normalize v) (normalize_fields r) (made-IsCanonical v)
        (made-IsSorted r)

mutual
  unfolding normalize

  kept : (v : Value) → IsCanonical v → normalize v ≡ v
  kept null c = refl
  kept (bool b) c = refl
  kept (num n) c = refl
  kept (str s) c = refl
  kept (tuple xs) c = absurd c
  kept (list xs) c = ap list (kept_items xs c)
  kept (dict r) c = ap dict (kept_fields r c)

  kept_items : (xs : Items) → AreCanonical xs → normalize_items xs ≡ xs
  kept_items nil c = refl
  kept_items (cons v xs) (c, cs) = ap₂ cons (kept v c) (kept_items xs cs)

  kept_fields : (r : Fields) → IsSorted r → normalize_fields r ≡ r
  kept_fields end c = refl
  kept_fields (field k v r) (c, a, s) =
      ap₂ (insert_field k) (kept v c) (kept_fields r s) ∙ insert_field-Above k v r a

-- The canonical form of a value holds no tuple and no mapping whose keys are out of order, at any
-- depth; and a value is its own canonical form exactly if it has these two properties.
pub normalize-IsCanonical :
    (v : Value) → IsCanonical (normalize v) × ((normalize v ≡ v) ↔ IsCanonical v)
normalize-IsCanonical v =
    (made-IsCanonical v, (λ same. subst IsCanonical same (made-IsCanonical v), kept v))
