-- ===== src/Canonical/Order.antt =====
-- The canonical form forgets the order in which a mapping was built, and is its own canonical form.
use text.Mathlib.TextEquality.{Char-path}
use general_execution.Prelude.{
  String, ◌≡◌, ◌≢◌, inl, inr, refl, ap, ap₂, ◌∙◌, true, false, List, [], ◌∷◌, ℕ, arith, Bool-cases,
  nat_eq,
}
use general_execution.Prelude.Text.{codes}
use general_execution.Canonical.Values.{
  Value, Items, Fields, null, bool, num, str, tuple, list, dict, nil, cons, end, field, codes_le,
  str_le, insert_field, normalize, normalize_items, normalize_fields,
}

codes_le_total : (s t : List ℕ) → codes_le s t ≡ false → codes_le t s ≡ true
unfolding codes_le
codes_le_total [] t h = cc
codes_le_total (c ∷ s) [] h = refl
codes_le_total (c ∷ s) (d ∷ t) h = ground (arith, codes_le_total s t)

codes_le_trans : (s t u : List ℕ) → codes_le s t ≡ true → codes_le t u ≡ true → codes_le s u ≡ true
unfolding codes_le
codes_le_trans [] t u h k = refl
codes_le_trans (c ∷ s) [] u h k = cc
codes_le_trans (c ∷ s) (d ∷ t) [] h k = cc
codes_le_trans (c ∷ s) (d ∷ t) (e ∷ u) h k = ground (arith, codes_le_trans s t u)

codes_le_antisymm : (s t : List ℕ) → codes_le s t ≡ true → codes_le t s ≡ true → s ≡ t
unfolding codes_le
codes_le_antisymm [] [] h k = refl
codes_le_antisymm [] (d ∷ t) h k = cc
codes_le_antisymm (c ∷ s) [] h k = cc
codes_le_antisymm (c ∷ s) (d ∷ t) h k = ground (arith, codes_le_antisymm s t)

codes_inj : (s t : String) → codes s ≡ codes t → s ≡ t
codes_inj String.[] String.[] h = refl
codes_inj String.[] (String.◌∷◌ d t) h = cc
codes_inj (String.◌∷◌ c s) String.[] h = cc
codes_inj (String.◌∷◌ c s) (String.◌∷◌ d t) h = ground (arith, Char-path c d, codes_inj s t)

pub str_le_total : (s t : String) → str_le s t ≡ false → str_le t s ≡ true
unfolding str_le
str_le_total s t = codes_le_total (codes s) (codes t)

pub str_le_trans : (s t u : String) → str_le s t ≡ true → str_le t u ≡ true → str_le s u ≡ true
unfolding str_le
str_le_trans s t u = codes_le_trans (codes s) (codes t) (codes u)

pub str_le_refl : (s : String) → str_le s s ≡ true
str_le_refl s = elim (Bool-cases (str_le s s)) [ inl e ↦ e | inr e ↦ str_le_total s s e ]

pub str_le_antisymm : (s t : String) → str_le s t ≡ true → str_le t s ≡ true → s ≡ t
unfolding str_le
str_le_antisymm s t h k = codes_inj s t (codes_le_antisymm (codes s) (codes t) h k)

insert_field_comm :
    (k j : String) (v w : Value) (r : Fields)
    → k ≢ j
    → insert_field k v (insert_field j w r) ≡ insert_field j w (insert_field k v r)
unfolding insert_field
insert_field_comm k j v w end ne = ground (arith, str_le_total k j, str_le_antisymm k j)
insert_field_comm k j v w (field i u r) ne = ground (
  arith,
  str_le_total k j,
  str_le_antisymm k j,
  str_le_total k i,
  str_le_total j i,
  str_le_trans k j i,
  str_le_trans j k i,
  str_le_trans k i j,
  str_le_trans j i k,
  insert_field_comm k j v w r ne,
)

-- Normalising after an insertion is inserting into the normal form.
normalize_fields-insert_field :
    (k : String) (v : Value) (r : Fields)
    → normalize_fields (insert_field k v r) ≡ insert_field k (normalize v) (normalize_fields r)
unfolding normalize_fields insert_field
normalize_fields-insert_field k v end = refl
normalize_fields-insert_field k v (field j w r) = elim (Bool-cases (str_le k j)) [
  | inl le ↦ rw le
  | inr gt ↦ rw gt (
      ap (insert_field j (normalize w)) (normalize_fields-insert_field k v r)
      ∙ insert_field_comm j k (normalize w) (normalize v) (normalize_fields r) (ne gt))
]
  where
    ne : str_le k j ≡ false → j ≢ k
    ne gt e = ground (arith, str_le_total k j)

mutual
  unfolding normalize

  normal_again : (v : Value) → normalize (normalize v) ≡ normalize v
  normal_again null = refl
  normal_again (bool b) = refl
  normal_again (num n) = refl
  normal_again (str s) = refl
  normal_again (tuple xs) = ap list (normal_again_items xs)
  normal_again (list xs) = ap list (normal_again_items xs)
  normal_again (dict r) = ap dict (normal_again_fields r)

  normal_again_items : (xs : Items) → normalize_items (normalize_items xs) ≡ normalize_items xs
  normal_again_items nil = refl
  normal_again_items (cons v xs) = ap₂ cons (normal_again v) (normal_again_items xs)

  normal_again_fields : (r : Fields) → normalize_fields (normalize_fields r) ≡ normalize_fields r
  normal_again_fields end = refl
  normal_again_fields (field k v r) =
      normalize_fields-insert_field k (normalize v) (normalize_fields r)
      ∙ ap₂ (insert_field k) (normal_again v) (normal_again_fields r)

-- The canonical form of a canonical form is itself.
pub normalize_idem : (v : Value) → normalize (normalize v) ≡ normalize v
normalize_idem v = normal_again v

-- Two mappings with the same entries in another order, the values up to their canonical form.
pub data Reorder : Fields → Fields → Type 0 where
  empty : Reorder end end
  keep :
      (k : String) (v w : Value) {r s : Fields}
      → normalize v ≡ normalize w
      → Reorder r s
      → Reorder (field k v r) (field k w s)
  swap :
      (k j : String) (v w : Value) (r : Fields)
      → k ≢ j
      → Reorder (field k v (field j w r)) (field j w (field k v r))
  join : {r s t : Fields} → Reorder r s → Reorder s t → Reorder r t

normalize_fields-Reorder : {r s : Fields} → Reorder r s → normalize_fields r ≡ normalize_fields s
unfolding normalize_fields
normalize_fields-Reorder empty = refl
normalize_fields-Reorder (keep k v w e p) = ap₂ (insert_field k) e (normalize_fields-Reorder p)
normalize_fields-Reorder (swap k j v w r ne) =
    insert_field_comm k j (normalize v) (normalize w) (normalize_fields r) ne
normalize_fields-Reorder (join p q) = normalize_fields-Reorder p ∙ normalize_fields-Reorder q

-- Two mappings with the same entries, in whatever order and at whatever depth, have one canonical
-- form.
pub normalize-Reorder : {r s : Fields} → Reorder r s → normalize (dict r) ≡ normalize (dict s)
unfolding normalize
normalize-Reorder p = ap dict (normalize_fields-Reorder p)
