-- ===== src/Planner/Sorting.antt =====
-- A stable insertion sort: its head is a least element, and it forgets the order of the elements
-- that the keys tell apart.
use general_execution.Prelude.{
  ◌≡◌, refl, ap, ◌∙◌, Bool, true, false, List, [], ◌∷◌, select, arith, Eq, contains, Bool-cases,
  inl, inr,
}
use general_execution.Models.{insert_sorted, sort}

-- One list is the other with neighbours exchanged that `Apart` tells apart.
pub data Reordered {A : Type 0} (Apart : A → A → Type 0) : List A → List A → Type 0 where
  empty : Reordered Apart [] []
  keep : (a : A) {xs ys : List A} → Reordered Apart xs ys → Reordered Apart (a ∷ xs) (a ∷ ys)
  swap : (a b : A) (xs : List A) → Apart a b → Reordered Apart (a ∷ b ∷ xs) (b ∷ a ∷ xs)
  join : {xs ys zs : List A} → Reordered Apart xs ys → Reordered Apart ys zs → Reordered Apart xs zs

Reordered-refl : {A : Type 0} (Apart : A → A → Type 0) (xs : List A) → Reordered Apart xs xs
Reordered-refl Apart [] = empty
Reordered-refl Apart (a ∷ xs) = keep a (Reordered-refl Apart xs)

module _ {A : Type 0} (Apart : A → A → Type 0) (p : A → Bool) where
  pub select-Reordered :
      {xs ys : List A} → Reordered Apart xs ys → Reordered Apart (select p xs) (select p ys)
  select-Reordered empty = empty
  select-Reordered (keep a r) = elim (Bool-cases (p a)) [
    | inl kept ↦ rw kept (keep a (select-Reordered r))
    | inr dropped ↦ rw dropped (select-Reordered r)
  ]
  select-Reordered (swap a b xs ne) = elim (Bool-cases (p a)) [
    | inl pa ↦ elim (Bool-cases (p b)) [
      | inl pb ↦ rw (pa, pb) (swap a b (select p xs) ne)
      | inr nb ↦ rw (pa, nb) (Reordered-refl Apart (a ∷ select p xs))
    ]
    | inr na ↦ elim (Bool-cases (p b)) [
      | inl pb ↦ rw (na, pb) (Reordered-refl Apart (b ∷ select p xs))
      | inr nb ↦ rw (na, nb) (Reordered-refl Apart (select p xs))
    ]
  ]
  select-Reordered (join r s) = join (select-Reordered r) (select-Reordered s)

module _ {A : Type 0} (le : A → A → Bool) (total : (a b : A) → le a b ≡ false → le b a ≡ true)
    (trans : (a b c : A) → le a b ≡ true → le b c ≡ true → le a c ≡ true) where
  insert_sorted_comm :
      (a b : A) (xs : List A)
      → (le a b ≡ true → le b a ≡ true → ⊥)
      → insert_sorted le a (insert_sorted le b xs) ≡ insert_sorted le b (insert_sorted le a xs)
  unfolding insert_sorted
  insert_sorted_comm a b [] ne = ground (arith, total a b)
  insert_sorted_comm a b (x ∷ xs) ne = ground (
    arith,
    total a b,
    total a x,
    total b x,
    trans a b x,
    trans b a x,
    trans a x b,
    trans b x a,
    insert_sorted_comm a b xs ne,
  )

  pub sort-Reordered :
      (Apart : A → A → Type 0)
      → ((a b : A) → Apart a b → le a b ≡ true → le b a ≡ true → ⊥)
      → {xs ys : List A} → Reordered Apart xs ys
      → sort le xs ≡ sort le ys
  unfolding sort
  sort-Reordered Apart anti empty = refl
  sort-Reordered Apart anti (keep a r) = ap (insert_sorted le a) (sort-Reordered Apart anti r)
  sort-Reordered Apart anti (swap a b xs ne) = insert_sorted_comm a b (sort le xs) (anti a b ne)
  sort-Reordered Apart anti (join r s) = sort-Reordered Apart anti r ∙ sort-Reordered Apart anti s

module _ {A : Type 0} ⦃e : Eq A⦄ (le : A → A → Bool) where
  -- An element of the list that is above no other.
  abbrev pub IsLeast : A → List A → Type 0
  IsLeast a xs = (contains a xs ≡ true) × ((b : A) → contains b xs ≡ true → le a b ≡ true)

  insert_sorted-IsLeast :
      ((a : A) → le a a ≡ true)
      → ((a b : A) → le a b ≡ false → le b a ≡ true)
      → ((a b c : A) → le a b ≡ true → le b c ≡ true → le a c ≡ true)
      → (a b : A) (xs ys : List A) → IsLeast b xs
      → (c : A) × (zs : List A) × (insert_sorted le a (b ∷ ys) ≡ c ∷ zs) × IsLeast c (a ∷ xs)
  unfolding insert_sorted
  insert_sorted-IsLeast refl_le total trans a b xs ys least = elim (Bool-cases (le a b)) [
    | inl low ↦ (
      a,
      b ∷ ys,
      rw low,
      (ground arith, λ c m. ground (arith, refl_le a, least.1 c, trans a b c)),
    )
    | inr high ↦ (
      b,
      insert_sorted le a ys,
      rw high,
      (ground (arith, least.0), λ c m. ground (arith, least.1 c, total a b)),
    )
  ]

  -- The head of the sorted list is least in the list that was sorted.
  pub sort-IsLeast :
      ((a : A) → le a a ≡ true)
      → ((a b : A) → le a b ≡ false → le b a ≡ true)
      → ((a b c : A) → le a b ≡ true → le b c ≡ true → le a c ≡ true)
      → (a : A) (xs : List A)
      → (c : A) × (zs : List A) × (sort le (a ∷ xs) ≡ c ∷ zs) × IsLeast c (a ∷ xs)
  unfolding sort insert_sorted
  sort-IsLeast refl_le total trans a [] =
      (a, [], refl, (ground arith, λ c m. ground (arith, refl_le a)))
  sort-IsLeast refl_le total trans a (b ∷ xs) =
      let (c, zs, eq, least) = sort-IsLeast refl_le total trans b xs in
      let (d, ws, eq', least') = insert_sorted-IsLeast refl_le total trans a c (b ∷ xs) zs least in
      (d, ws, ap (insert_sorted le a) eq ∙ eq', least')
