-- ===== src/Canonical/Readers.antt =====
-- Building a record from a mapping, as a call `C(**data)` of a dataclass does: a field that is missing
-- and has no default raises, and so does a key that is no field. A value that is not of the JSON type
-- of its field is outside the model: it is refused here, where Python may accept a mapping that agrees
-- with its own digests.
use general_execution.Prelude.{
  ℕ, String, Bool, true, false, ◌&&◌, not, List, Option, none, some, Result, ok, err, value_error,
  raise_if, ◌==◌, string_eq, contains, if◌then◌else◌,
}
use general_execution.Canonical.Values.{Value, Fields, null, num, str, end, field}
use general_execution.Canonical.Lookup.{get_field}

-- Every key is one of the names.
unfoldable pub known_keys : List String → Fields → Bool
known_keys names end = true
known_keys names (field k v r) = contains k names && known_keys names r

-- `del data[key]`
unfoldable pub drop_field : String → Fields → Fields
drop_field key end = end
drop_field key (field k v r) = if k == key then r else field k v (drop_field key r)

abbrev pub text_of : Option Value → Result String
text_of (some (str s)) = ok s
text_of _ = err (value_error "missing or mistyped field")

abbrev pub number_of : Option Value → Result ℕ
number_of (some (num n)) = ok n
number_of _ = err (value_error "missing or mistyped field")

-- A field whose default is `None`.
abbrev pub optional_text_of : Option Value → Result (Option String)
optional_text_of none = ok none
optional_text_of (some null) = ok none
optional_text_of (some (str s)) = ok (some s)
optional_text_of _ = err (value_error "mistyped field")

-- A field that must be there and may be `None`.
abbrev pub nullable_text_of : Option Value → Result (Option String)
nullable_text_of (some null) = ok none
nullable_text_of (some (str s)) = ok (some s)
nullable_text_of _ = err (value_error "missing or mistyped field")

unfoldable pub read_text : String → Fields → Result String
unfolding get_field
read_text key r = text_of (get_field key r)

unfoldable pub read_number : String → Fields → Result ℕ
unfolding get_field
read_number key r = number_of (get_field key r)

unfoldable pub read_optional_text : String → Fields → Result (Option String)
unfolding get_field
read_optional_text key r = optional_text_of (get_field key r)

unfoldable pub read_nullable_text : String → Fields → Result (Option String)
unfolding get_field
read_nullable_text key r = nullable_text_of (get_field key r)

unfoldable pub only_keys : List String → Fields → Result (Unit {0})
unfolding known_keys
only_keys names r = raise_if (not (known_keys names r)) (value_error "unexpected keyword argument")

abbrev pub text_is : String → Option Value → Bool
text_is expected (some (str s)) = s == expected
text_is expected _ = false

-- `data.get("schema_version") == expected`
unfoldable pub has_schema : String → Fields → Bool
unfolding get_field
has_schema expected r = text_is expected (get_field "schema_version" r)
