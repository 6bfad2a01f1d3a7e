-- ===== src/Canonical/Equality.antt =====
-- Python's `==` and `hash` on values, as far as the records of physical.py in the ledger use them.
use general_execution.Prelude.{Bool, true, false, ◌&&◌, if◌then◌else◌}
use general_execution.Canonical.Values.{
  Value, Items, Fields, null, bool, num, str, tuple, list, dict, nil, cons, end, field,
  insert_field,
}

-- What Python's `==` compares of a value: the order of a mapping's keys is left out, `True` is 1 and
-- `False` is 0, and a tuple is no list.
unfoldable mutual
  pub comparable : Value → Value
  comparable null = null
  comparable (bool b) = num (if b then 1 else 0)
  comparable (num n) = num n
  comparable (str s) = str s
  comparable (tuple xs) = tuple (comparable_items xs)
  comparable (list xs) = list (comparable_items xs)
  comparable (dict r) = dict (comparable_fields r)

  pub comparable_items : Items → Items
  comparable_items nil = nil
  comparable_items (cons v xs) = cons (comparable v) (comparable_items xs)

  pub comparable_fields : Fields → Fields
  comparable_fields end = end
  comparable_fields (field k v r) = insert_field k (comparable v) (comparable_fields r)

-- `hash(v)` does not raise: lists and mappings have no hash, and a tuple has that of its items.
unfoldable mutual
  pub is_hashable : Value → Bool
  is_hashable (tuple xs) = all_hashable xs
  is_hashable (list xs) = false
  is_hashable (dict r) = false
  is_hashable _ = true

  pub all_hashable : Items → Bool
  all_hashable nil = true
  all_hashable (cons v xs) = is_hashable v && all_hashable xs
