-- ===== src/Capacity/Apart.antt =====
-- Lemmas on lists of leases and releases: what is told apart by a key, dropped and appended.
use general_execution.Prelude.{
  ℕ, String, ◌≡◌, inl, inr, refl, ap, ◌∙◌, sym, Bool, true, false, not, ◌&&◌, ◌||◌, List, [], ◌∷◌,
  ◌++◌, map, any, select, All, contains, any-append, any-select, String-discrete, ℕ_discrete, ok,
  arith, ◌==◌, string_eq, nat_eq, Bool-cases, Eq,
}
use general_execution.Capacity.{
  CapacityLease, CapacityRelease, CapacityTransition, leases_in, releases_in, has_active, the_one,
}

-- Lists that are told apart by a key.
module _ {A : Type 0} {K : Type 0} ⦃e : Eq K⦄ (key : A → K) where
  -- No two elements have one key.
  abbrev pub Apart : List A → Type 0
  Apart [] = Unit
  Apart (x ∷ xs) = (any (λ y. key y == key x) xs ≡ false) × Apart xs

  pub Apart-select : (p : A → Bool) (xs : List A) → Apart xs → Apart (select p xs)
  Apart-select p [] a = tt
  Apart-select p (x ∷ xs) a = elim (Bool-cases (p x)) [
    | inl kept ↦ rw kept (any-select p (λ y. key y == key x) xs a.0, Apart-select p xs a.1)
    | inr dropped ↦ rw dropped (Apart-select p xs a.1)
  ]

  pub Apart-snoc :
      (xs : List A) (y : A) → Apart xs → any (λ x. key x == key y) xs ≡ false → Apart (xs ++ y ∷ [])
  Apart-snoc [] y a f = (refl, tt)
  Apart-snoc (x ∷ xs) y a f = (
    ground (arith, any-append (λ z. key z == key x) xs (y ∷ []), a.0, f),
    Apart-snoc xs y a.1 (ground (arith, f)),
  )

-- What one active lease at a time may be for.
pub record SessionKey : Type 0 where
  pub session_id : String
  pub logical_attempt : ℕ

unfoldable pub SessionKey-discrete : Discrete SessionKey
SessionKey-discrete = hlevel (String-discrete, ℕ_discrete)

instance abbrev pub key_eq : Eq SessionKey
key_eq = record { dec = SessionKey-discrete }

abbrev pub session_key : CapacityLease → SessionKey
session_key l = record { session_id = l.session_id; logical_attempt = l.logical_attempt }

pub has_active-session_key :
    (l : CapacityLease) (xs : List CapacityLease)
    → has_active l.session_id l.logical_attempt xs ≡ any (λ x. session_key x == session_key l) xs
unfolding has_active
has_active-session_key l [] = refl
has_active-session_key l (x ∷ xs) = ground (arith, has_active-session_key l xs)

pub All-select :
    {A : Type 0} (P : A → Type 0) (p : A → Bool) (xs : List A) → All P xs → All P (select p xs)
All-select P p [] a = tt
All-select P p (x ∷ xs) a = elim (Bool-cases (p x)) [
  | inl kept ↦ rw kept (a.0, All-select P p xs a.1)
  | inr dropped ↦ rw dropped (All-select P p xs a.1)
]

pub All-snoc :
    {A : Type 0} (P : A → Type 0) (xs : List A) (y : A) → All P xs → P y → All P (xs ++ y ∷ [])
All-snoc P [] y a b = (b, tt)
All-snoc P (x ∷ xs) y a b = (a.0, All-snoc P xs y a.1 b)

-- What is not among the keys of one list is not among those of another whose keys are.
pub not_known :
    (id : String) (known : String → Bool) (rs : List CapacityRelease)
    → All (λ r. known r.lease_id ≡ true) rs
    → known id ≡ false
    → contains id (map (λ r. r.lease_id) rs) ≡ false
not_known id known [] a f = refl
not_known id known (r ∷ rs) a f = ground (arith, not_known id known rs a.1 f, a.0)

-- Dropping what is in a longer list is dropping twice.
pub select_twice :
    (f : CapacityLease → String) (y : String) (ids : List String) (ls : List CapacityLease)
    → select (λ l. not (contains (f l) (ids ++ y ∷ []))) ls
      ≡ select (λ l. not (f l == y)) (select (λ l. not (contains (f l) ids)) ls)
select_twice f y ids [] = refl
select_twice f y ids (l ∷ ls) =
    ground (arith, any-append (λ x. x == f l) ids (y ∷ []), select_twice f y ids ls)

pub leases_in-append :
    (ts : List CapacityTransition) (t : CapacityTransition)
    → leases_in (ts ++ t ∷ []) ≡ leases_in ts ++ leases_in (t ∷ [])
unfolding leases_in
leases_in-append [] t = refl
leases_in-append (x ∷ ts) t = ground (arith, leases_in-append ts t)

pub releases_in-append :
    (ts : List CapacityTransition) (t : CapacityTransition)
    → releases_in (ts ++ t ∷ []) ≡ releases_in ts ++ releases_in (t ∷ [])
unfolding releases_in
releases_in-append [] t = refl
releases_in-append (x ∷ ts) t = ground (arith, releases_in-append ts t)

pub any-map :
    {A B : Type 0} (p : B → Bool) (f : A → B) (xs : List A)
    → any p (map f xs) ≡ any (λ x. p (f x)) xs
any-map p f [] = refl
any-map p f (x ∷ xs) = ap (λ b. p (f x) || b) (any-map p f xs)

pub any-or-left :
    {A : Type 0} (p q : A → Bool) (xs : List A)
    → any (λ x. p x || q x) xs ≡ false
    → any p xs ≡ false
any-or-left p q [] e = refl
any-or-left p q (x ∷ xs) e = ground (arith, any-or-left p q xs, e)

pub any-or-right :
    {A : Type 0} (p q : A → Bool) (xs : List A)
    → any (λ x. p x || q x) xs ≡ false
    → any q xs ≡ false
any-or-right p q [] e = refl
any-or-right p q (x ∷ xs) e = ground (arith, any-or-right p q xs, e)

pub any-appended :
    {A : Type 0} (p : A → Bool) (xs ys : List A) → any p xs ≡ true → any p (xs ++ ys) ≡ true
any-appended p xs ys e = any-append p xs ys ∙ ap (λ b. b || any p ys) e

pub none_selected :
    {A : Type 0} (p q : A → Bool) (xs : List A)
    → any p xs ≡ false
    → select (λ x. p x && q x) xs ≡ []
none_selected p q [] e = refl
none_selected p q (x ∷ xs) e = ground (arith, none_selected p q xs, e)

pub the_one_exists :
    {A : Type 0} (p q : A → Bool) (xs : List A) (m : String) (a : A)
    → the_one (select (λ x. p x && q x) xs) m ≡ ok a
    → any p xs ≡ true
unfolding the_one
the_one_exists p q xs m a e = elim (Bool-cases (any p xs)) [
  | inl some_is ↦ some_is
  | inr none_is ↦ no (sym (ap (λ l. the_one l m) (none_selected p q xs none_is)) ∙ e)
]
  where
    no : the_one [] m ≡ ok a → any p xs ≡ true
    no e = cc

pub any-of-select :
    {A : Type 0} (p q : A → Bool) (xs : List A) → any q (select p xs) ≡ true → any q xs ≡ true
any-of-select p q xs e = elim (Bool-cases (any q xs)) [
  | inl some_is ↦ some_is
  | inr none_is ↦ ground (arith, any-select p q xs none_is, e)
]
