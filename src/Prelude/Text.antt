-- ===== src/Prelude/Text.antt =====
-- Python's `str` where the program looks inside it: `strip`, `startswith`, `len`, `int(s, 16)`.
use Prim.Native.Nat.{ℕ}
use Prim.Native.Char.{code}
use Prim.Native.String.{String}
use mathlib.Core.Path.{◌≡◌, refl}
use native.Mathlib.Decide.{ℕ_discrete}
use mathlib.Core.Bool.{Bool, true, false, not, ◌&&◌, ◌||◌}
use mathlib.Core.List.{List, [], ◌∷◌}
use general_execution.Prelude.Tests.{leb, ◌==◌, nat_eq, if◌then◌else◌}
use general_execution.Prelude.Lists.{all}

-- The code points of a text.
abbrev pub codes : String → List ℕ
codes String.[] = []
codes (String.◌∷◌ c s) = code c ∷ codes s

-- `str.isspace` of one character.
is_space : ℕ → Bool
is_space c =
    (leb 9 c && leb c 13)
    || (leb 28 c && leb c 32)
    || c == 133
    || c == 160
    || c == 5760
    || (leb 8192 c && leb c 8202)
    || c == 8232
    || c == 8233
    || c == 8239
    || c == 8287
    || c == 12288

-- `not s or not s.strip()`
unfoldable pub is_blank : String → Bool
unfolding is_space
is_blank s = all is_space (codes s)

-- `s.startswith(t)` over code points, and the text after the prefix.
unfoldable pub starts_with : List ℕ → List ℕ → Bool
starts_with s [] = true
starts_with [] (c ∷ t) = false
starts_with (d ∷ s) (c ∷ t) = d == c && starts_with s t

unfoldable pub drop_prefix : List ℕ → List ℕ → List ℕ
drop_prefix s [] = s
drop_prefix [] (c ∷ t) = []
drop_prefix (d ∷ s) (c ∷ t) = drop_prefix s t

unfoldable pub is_hex : ℕ → Bool
is_hex c = (leb b'0' c && leb c b'9') || (leb b'a' c && leb c b'f') || (leb b'A' c && leb c b'F')

-- Digits with single underscores between them; the flag says that a digit came last.
unfoldable pub hex_digits : Bool → List ℕ → Bool
unfolding is_hex
hex_digits last [] = last
hex_digits last (c ∷ s) =
    if is_hex c then hex_digits true s else (c == b'_' && last) && hex_digits false s

-- What `int` strips: all white space, except that it leaves the separators 28 to 31 where every
-- character of the text is one of ASCII.
is_int_space : Bool → ℕ → Bool
unfolding is_space
is_int_space ascii c = is_space c && not (ascii && leb 28 c && leb c 31)

drop_spaces : Bool → List ℕ → List ℕ
unfolding is_int_space
drop_spaces ascii [] = []
drop_spaces ascii (c ∷ s) = elim (is_int_space ascii c) [
  | true ↦ drop_spaces ascii s
  | false ↦ c ∷ s
]

-- A text that ends in white space may be cut there.
rstrip : Bool → List ℕ → List ℕ
unfolding is_int_space
rstrip ascii [] = []
rstrip ascii (c ∷ s) = elim (all (is_int_space ascii) (c ∷ s)) [
  | true ↦ []
  | false ↦ c ∷ rstrip ascii s
]

drop_sign : List ℕ → List ℕ
drop_sign [] = []
drop_sign (c ∷ s) = if c == b'+' || c == b'-' then s else c ∷ s

drop_underscore : List ℕ → List ℕ
drop_underscore [] = []
drop_underscore (c ∷ r) = if c == b'_' then r else c ∷ r

-- `0x` or `0X`, after which one underscore may stand.
drop_base : List ℕ → List ℕ
unfolding drop_underscore
drop_base (z ∷ x ∷ s) =
    if z == b'0' && (x == b'x' || x == b'X') then drop_underscore s else z ∷ x ∷ s
drop_base s = s

-- `int(s, 16)` does not raise. The digits are those of ASCII; Python reads other decimal digits
-- of Unicode too.
unfoldable pub is_int_base16 : List ℕ → Bool
unfolding drop_spaces rstrip drop_sign drop_base hex_digits
is_int_base16 s =
    let ascii = all (λ c. leb c 127) s in
    hex_digits false (drop_base (drop_sign (rstrip ascii (drop_spaces ascii s))))

accepted : is_int_base16 (codes " -0X_a_9 ") ≡ true
unfolding is_int_base16 ℕ_discrete
accepted = refl

separator_refused : is_int_base16 (28 ∷ codes "9") ≡ false
unfolding is_int_base16 ℕ_discrete
separator_refused = refl

refused : is_int_base16 (codes "a__9") ≡ false
unfolding is_int_base16 ℕ_discrete
refused = refl
