-- ===== src/Prelude/Results.antt =====
-- Exceptions as values. `Exn` holds the exception's class and message.
use Prim.Native.String.{String}
use mathlib.Core.Path.{◌≡◌, refl}
use mathlib.Core.Bool.{Bool, true, false, not, ◌&&◌}

-- Every class but `TypeError` is a `ValueError`; some are caught by name. `DurableCapacityError` is a
-- `CapacityError`.
pub data Exn : Type 0 where
  value_error session_error adapter_error physical_error capacity_error : String → Exn
  durable_error dispatch_error reconciliation_error type_error : String → Exn

pub data Result {ℓ} (S : Type ℓ) : Type ℓ where
  ok : S → Result S
  err : Exn → Result S

infixl 5 ◌>>◌ ◌>>=◌
-- `if b: raise x`
abbrev pub raise_if : Bool → Exn → Result (Unit {0})
raise_if true x = err x
raise_if false x = ok tt

abbrev pub ◌>>=◌ {ℓ κ} : {S : Type ℓ} {T : Type κ} → Result S → (S → Result T) → Result T
ok s >>= next = next s
err x >>= next = err x

abbrev pub is_ok {ℓ} : {S : Type ℓ} → Result S → Bool
is_ok (ok _) = true
is_ok (err _) = false

abbrev pub ◌>>◌ {ℓ} : {T : Type ℓ} → Result (Unit {0}) → Result T → Result T
first >> then_do = first >>= λ _. then_do

-- Inversion of a successful bind.
pub >>=-eq-ok {ℓ κ} :
    {S : Type ℓ} {T : Type κ} (r : Result S) (next : S → Result T) {t : T}
    → (r >>= next) ≡ ok t
    → (s : S) × (r ≡ ok s) × (next s ≡ ok t)
>>=-eq-ok (ok s) next made = (s, refl, made)
>>=-eq-ok (err x) next made = cc

-- What follows a guard is reached only when the guard's test fails.
pub raise_if-eq-ok {ℓ} :
    {A : Type ℓ} (b : Bool) (e : Exn) (m : Result A) {a : A}
    → (raise_if b e >> m) ≡ ok a
    → (b ≡ false) × (m ≡ ok a)
raise_if-eq-ok true e m h = cc
raise_if-eq-ok false e m h = (refl, h)

pub not-eq-false : (b : Bool) → not b ≡ false → b ≡ true
not-eq-false true h = refl
not-eq-false false h = cc

-- A conjunction that passes passes in both parts.
pub and-eq-true : (a b : Bool) → (a && b) ≡ true → (a ≡ true) × (b ≡ true)
and-eq-true true b h = (refl, h)
and-eq-true false b h = cc

pub >>=-ok {ℓ} : {A : Type ℓ} (m : Result A) → (m >>= λ a. ok a) ≡ m
>>=-ok (ok a) = refl
>>=-ok (err e) = refl

pub >>=_assoc {ℓ κ μ} :
    {A : Type ℓ} {B : Type κ} {C : Type μ} (m : Result A) (f : A → Result B) (g : B → Result C)
    → ((m >>= f) >>= g) ≡ (m >>= λ a. f a >>= g)
>>=_assoc (ok a) f g = refl
>>=_assoc (err e) f g = refl

pub >>=_cong {ℓ κ} :
    {A : Type ℓ} {B : Type κ} (m : Result A) (f g : A → Result B)
    → ((a : A) → f a ≡ g a)
    → (m >>= f) ≡ (m >>= g)
>>=_cong (ok a) f g h = h a
>>=_cong (err e) f g h = refl

-- `try: m; except (TypeError, ValueError) as exc: raise x from exc`
abbrev pub rewrap {ℓ} : {S : Type ℓ} → Result S → Exn → Result S
rewrap (ok s) x = ok s
rewrap (err _) x = err x

-- What `rewrap` passes on was there.
pub rewrap-eq-ok {ℓ} : {S : Type ℓ} (m : Result S) (x : Exn) {s : S} → rewrap m x ≡ ok s → m ≡ ok s
rewrap-eq-ok (ok s) x made = made
rewrap-eq-ok (err y) x made = cc

pub ok_inj {ℓ} : {S : Type ℓ} (s t : S) → ok s ≡ ok t → s ≡ t
ok_inj s t e = cc
