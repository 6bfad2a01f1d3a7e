-- ===== src/Canonical/Values.antt =====
-- `_normalize` of canonical.py on the values that `dataclasses.asdict` and the callers build:
-- texts, numbers, tuples, lists and mappings with text keys.
use general_execution.Prelude.{
  ℕ, String, String-discrete, ℕ_discrete, ◌≡◌, refl, Bool, true, false, List, [], ◌∷◌, Option, none,
  some, Eq, ltb, ◌==◌, nat_eq, if◌then◌else◌,
}
use general_execution.Prelude.Text.{codes}

mutual
  pub data Value : Type 0 where
    null : Value
    bool : Bool → Value
    num : ℕ → Value
    str : String → Value
    tuple : Items → Value
    list : Items → Value
    dict : Fields → Value

  pub data Items : Type 0 where
    nil : Items
    cons : Value → Items → Items

  pub data Fields : Type 0 where
    end : Fields
    field : String → Value → Fields → Fields

unfoldable pub Value-discrete : Discrete Value
unfolding String-discrete ℕ_discrete
Value-discrete = hlevel (String-discrete, ℕ_discrete)

instance abbrev pub value_eq : Eq Value
value_eq = record { dec = Value-discrete }

-- Python's order of texts: by code points, from the left.
unfoldable pub codes_le : List ℕ → List ℕ → Bool
codes_le [] t = true
codes_le (c ∷ s) [] = false
codes_le (c ∷ s) (d ∷ t) = if ltb c d then true else if c == d then codes_le s t else false

unfoldable pub str_le : String → String → Bool
unfolding codes_le
str_le s t = codes_le (codes s) (codes t)

-- `sorted(value, key=str)` puts a key behind those that are not above it.
unfoldable pub insert_field : String → Value → Fields → Fields
insert_field k v end = field k v end
insert_field k v (field j w r) =
    if str_le k j then field k v (field j w r) else field j w (insert_field k v r)

unfoldable mutual
  pub normalize : Value → Value
  normalize null = null
  normalize (bool b) = bool b
  normalize (num n) = num n
  normalize (str s) = str s
  normalize (tuple xs) = list (normalize_items xs)
  normalize (list xs) = list (normalize_items xs)
  normalize (dict r) = dict (normalize_fields r)

  pub normalize_items : Items → Items
  normalize_items nil = nil
  normalize_items (cons v xs) = cons (normalize v) (normalize_items xs)

  pub normalize_fields : Fields → Fields
  normalize_fields end = end
  normalize_fields (field k v r) = insert_field k (normalize v) (normalize_fields r)

-- A mapping written as its entries, and the values of a sequence.
abbrev pub fields : List (String × Value) → Fields
fields [] = end
fields ((k, v) ∷ r) = field k v (fields r)

abbrev pub obj : List (String × Value) → Value
obj r = dict (fields r)

abbrev pub items : {A : Type 0} → (A → Value) → List A → Items
items f [] = nil
items f (x ∷ xs) = cons (f x) (items f xs)

-- The tuple of a field, and the list of a comprehension.
abbrev pub arr : {A : Type 0} → (A → Value) → List A → Value
arr f xs = tuple (items f xs)

abbrev pub list_of : {A : Type 0} → (A → Value) → List A → Value
list_of f xs = list (items f xs)

-- `None` or a value.
abbrev pub opt : {A : Type 0} → (A → Value) → Option A → Value
opt f none = null
opt f (some a) = f a

sorted :
    normalize (obj (("b", num 1) ∷ ("a", null) ∷ ("ab", bool true) ∷ []))
    ≡ obj (("a", null) ∷ ("ab", bool true) ∷ ("b", num 1) ∷ [])
unfolding normalize normalize_fields insert_field str_le ℕ_discrete
sorted = refl
