-- ===== src/Prelude/Tests.antt =====
-- Boolean tests, the conditional, and equality by decision: Python's `==`, `<`, `in` and `if`.
use Prim.Native.Nat.{ℕ, compare, Ordering}
use Prim.Native.String.{String}
use mathlib.Core.Path.{◌≡◌, refl}
use mathlib.Core.Logic.{◌⊎◌, ◌≢◌, inl, inr}
use mathlib.Core.Bool.{Bool, true, false, not}
use mathlib.Core.Option.{Option, none, some}
use mathlib.Core.List.{List}
use native.Mathlib.Omega.{arith}
use native.Mathlib.Decide.{ℕ_discrete}
use text.Mathlib.Text.{◌==◌ as str_eq}
use text.Mathlib.TextEquality.{eq_iff}

abbrev pub ltb : ℕ → ℕ → Bool
ltb a b = elim (compare a b) [ Ordering.lt ↦ true | _ ↦ false ]

abbrev pub leb : ℕ → ℕ → Bool
leb a b = elim (compare a b) [ Ordering.gt ↦ false | _ ↦ true ]

infix 1 if◌then◌else◌
abbrev pub if◌then◌else◌ {ℓ} : {A : Type ℓ} → Bool → A → A → A
if true then x else y = x
if false then x else y = y

pub Bool-cases : (b : Bool) → (b ≡ true) ⊎ (b ≡ false)
Bool-cases true = inl refl
Bool-cases false = inr refl

pub Option-cases {ℓ} : {A : Type ℓ} (o : Option A) → (o ≡ none) ⊎ ((a : A) × (o ≡ some a))
Option-cases none = inl refl
Option-cases (some a) = inr (a, refl)

pub false-ne-true : false ≡ true → ⊥
false-ne-true h = cc

abbrev dec_of_test : {A : Type 0} (b : Bool) → (b ≡ true → A) → (A → b ≡ true) → Dec A
dec_of_test true f g = yes (f refl)
dec_of_test false f g = no (λ a. false-ne-true (g a))

unfoldable pub String-discrete : Discrete String
String-discrete s t = dec_of_test (str_eq s t) (eq_iff s t).0 (eq_iff s t).1

-- A type whose values Python compares by `==`.
pub record Eq (A : Type 0) : Type 0 where
  pub dec : Discrete A

-- The tactics split on the decision, and so have the equation or its negation.
infix 50 ◌==◌ ◌!=◌
abbrev pub ◌==◌ : {A : Type 0} ⦃e : Eq A⦄ → A → A → Bool
◌==◌ ⦃e⦄ a b = elim (e.dec a b) [ yes _ ↦ true | no _ ↦ false ]

abbrev pub ◌!=◌ : {A : Type 0} ⦃e : Eq A⦄ → A → A → Bool
a != b = not (a == b)

instance abbrev pub nat_eq : Eq ℕ
nat_eq = record { dec = ℕ_discrete }

instance abbrev pub string_eq : Eq String
string_eq = record { dec = String-discrete }

dec_Option : {A : Type 0} → Discrete A → Discrete (Option A)
dec_Option d = hlevel d

unfoldable pub Option-discrete : {A : Type 0} → Discrete A → Discrete (Option A)
unfolding dec_Option
Option-discrete d = dec_Option d

instance abbrev pub option_eq : {A : Type 0} ⦃e : Eq A⦄ → Eq (Option A)
option_eq ⦃e⦄ = record { dec = Option-discrete e.dec }

dec_List : {A : Type 0} → Discrete A → Discrete (List A)
dec_List d = hlevel d

unfoldable pub List-discrete : {A : Type 0} → Discrete A → Discrete (List A)
unfolding dec_List
List-discrete d = dec_List d

instance abbrev pub list_eq : {A : Type 0} ⦃e : Eq A⦄ → Eq (List A)
list_eq ⦃e⦄ = record { dec = List-discrete e.dec }

module _ {A : Type 0} ⦃e : Eq A⦄ where
  pub ==→≡ : (a b : A) → (a == b) ≡ true → a ≡ b
  ==→≡ a b h = ground arith

  pub ==_refl : (a : A) → (a == a) ≡ true
  ==_refl a = ground arith

  pub !=→≢ : (a b : A) → (a != b) ≡ true → a ≢ b
  !=→≢ a b h = ground arith

abbrev pub is_some {ℓ} : {A : Type ℓ} → Option A → Bool
is_some none = false
is_some (some _) = true

abbrev pub is_none {ℓ} : {A : Type ℓ} → Option A → Bool
is_none none = true
is_none (some _) = false
