-- ===== src/Capacity/Slots.antt =====
-- The search for a free slot finds the lowest one, and finds one whenever a slot is free.
use general_execution.Prelude.{
  ℕ, ◌+◌, ◌≤◌, ◌<◌, zero, suc, ◌≡◌, ◌≢◌, refl, true, false, List, [], ◌∷◌, length, contains, Option,
  none, some, arith, ◌==◌, nat_eq, if◌then◌else◌, Bool-cases, inl, inr,
}
use general_execution.Capacity.{first_free}

-- The list without the first occurrence of a number.
remove : ℕ → List ℕ → List ℕ
remove x [] = []
remove x (y ∷ ys) = if y == x then ys else y ∷ remove x ys

length-remove :
    (x : ℕ) (ys : List ℕ) → contains x ys ≡ true → length ys ≡ suc (length (remove x ys))
unfolding remove
length-remove x [] e = cc
length-remove x (y ∷ ys) e = ground (arith, length-remove x ys)

contains-remove_ne : (x z : ℕ) (ys : List ℕ) → x ≢ z → contains z (remove x ys) ≡ contains z ys
unfolding remove
contains-remove_ne x z [] ne = refl
contains-remove_ne x z (y ∷ ys) ne = ground (arith, contains-remove_ne x z ys ne)

first_free-remove :
    (x i n : ℕ) (ys : List ℕ) → x < i → first_free i n (remove x ys) ≡ first_free i n ys
unfolding first_free
first_free-remove x i zero ys lt = refl
first_free-remove x i (suc n) ys lt =
    ground (arith, contains-remove_ne x i ys, first_free-remove x (suc i) n ys)

first_free-none : (i n : ℕ) (ys : List ℕ) → first_free i n ys ≡ none → n ≤ length ys
unfolding first_free
first_free-none i zero ys e = omega arith
first_free-none i (suc n) ys e = elim (Bool-cases (contains i ys)) [
  | inr free ↦ ground (arith, free, e)
  | inl taken ↦
      let deeper =
        first_free-none (suc i) n (remove i ys)
          (ground (arith, first_free-remove i (suc i) n ys)) in
      omega (arith, deeper, length-remove i ys taken)
]

-- A slot that is found is one of those searched and free, and all below it are taken.
pub first_free-some :
    (i n : ℕ) (ys : List ℕ) (k : ℕ)
    → first_free i n ys ≡ some k
    → (i ≤ k)
      × (k < i + n)
      × (contains k ys ≡ false)
      × ((j : ℕ) → i ≤ j → j < k → contains j ys ≡ true)
unfolding first_free
first_free-some i zero ys k e = cc
first_free-some i (suc n) ys k e = elim (Bool-cases (contains i ys)) [
  | inr free ↦
      let here : i ≡ k = ground (arith, free, e) in
      (
        omega (arith, here),
        omega (arith, here),
        ground (arith, here, free),
        λ j lo hi. absurd (omega (arith, here)),
      )
  | inl taken ↦
      let (lo, hi, free, below) = first_free-some (suc i) n ys k (ground (arith, taken, e)) in
      (omega (arith, lo), omega (arith, hi), free, λ j a b. ground (arith, below j, taken))
]

-- Among more slots than are occupied one is free.
pub first_free_found :
    (n : ℕ) (ys : List ℕ) → length ys < n → (k : ℕ) × (first_free 0 n ys ≡ some k)
first_free_found n ys lt = go (first_free 0 n ys) refl
  where
    go : (o : Option ℕ) → first_free 0 n ys ≡ o → (k : ℕ) × (first_free 0 n ys ≡ some k)
    go none e = absurd (omega (arith, first_free-none 0 n ys e))
    go (some k) e = (k, e)
