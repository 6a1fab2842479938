-- ===== src/Dsl/Text.antt =====
-- What internal/validation/dsl uses of Go's packages strings and strconv, on bytes.
pub mod Trim
use Prim.Native.Char.{code}
use Prim.Native.String.{String}
use mathlib.Core.List.{reverse}
use sumpter.Base.{
  ℕ, zero, suc, ◌+◌, ◌-◌, ◌*◌, ◌≤◌, Bool, true, false, ◌&&◌, ◌||◌, Option, none, some, [], ◌∷◌,
  length, length-reverse, arith, ltb, leb, ◌==◌, if◌then◌else◌,
}
use sumpter.Base.Int.{ℤ, pos, negsuc, two63}
use sumpter.Dsl.{Text}

-- The bytes of an ASCII literal.
abbrev pub codes : String → Text
codes String.[] = []
codes (String.◌∷◌ c s) = code c ∷ codes s

unfoldable pub eq_text : Text → Text → Bool
eq_text [] [] = true
eq_text [] (y ∷ ys) = false
eq_text (x ∷ xs) [] = false
eq_text (x ∷ xs) (y ∷ ys) = let rest = eq_text xs ys in x == y && rest

-- strings.HasPrefix(s, p)
unfoldable pub has_prefix : Text → Text → Bool
has_prefix s [] = true
has_prefix [] (y ∷ ys) = false
has_prefix (x ∷ xs) (y ∷ ys) = let rest = has_prefix xs ys in x == y && rest

-- strings.HasSuffix(s, c), for one byte
unfoldable pub ends_in : Text → ℕ → Bool
ends_in [] c = false
ends_in (x ∷ []) c = x == c
ends_in (x ∷ y ∷ s) c = ends_in (y ∷ s) c

-- strings.Index(s, c), for one byte
unfoldable pub index_of : ℕ → Text → Option ℕ
index_of c [] = none
index_of c (x ∷ s) =
    let rest = index_of c s in
    if x == c then some 0 else elim rest [ some i ↦ some (suc i) | none ↦ none ]

-- The white space of unicode.IsSpace in UTF-8: of one, two and three bytes.
unfoldable pub is_space : ℕ → Bool
is_space a = a == b' ' || leb 9 a && leb a 13

unfoldable pub is_space2 : ℕ → ℕ → Bool
is_space2 a b = a == 194 && (b == 133 || b == 160)

unfoldable pub is_space3 : ℕ → ℕ → ℕ → Bool
is_space3 a b c =
    a == 225 && b == 154 && c == 128
    || a == 226 && b == 128 && (leb 128 c && leb c 138 || c == 168 || c == 169 || c == 175)
    || a == 226 && b == 129 && c == 159
    || a == 227 && b == 128 && c == 128

-- The bytes of the white space at the front; 0 if there is none.
unfoldable pub space_width : Text → ℕ
space_width [] = 0
space_width (a ∷ []) = if is_space a then 1 else 0
space_width (a ∷ b ∷ []) = if is_space a then 1 else if is_space2 a b then 2 else 0
space_width (a ∷ b ∷ c ∷ s) =
    if is_space a then 1 else if is_space2 a b then 2 else if is_space3 a b c then 3 else 0

-- The same, for the last byte first.
unfoldable pub space_width_back : Text → ℕ
space_width_back [] = 0
space_width_back (a ∷ []) = if is_space a then 1 else 0
space_width_back (a ∷ b ∷ []) = if is_space a then 1 else if is_space2 b a then 2 else 0
space_width_back (a ∷ b ∷ c ∷ s) =
    if is_space a then 1 else if is_space2 b a then 2 else if is_space3 c b a then 3 else 0

-- Drop `k` bytes, and then white space as long as there is some.
unfoldable pub strip : (Text → ℕ) → ℕ → Text → Text
strip width k [] = []
strip width (suc k) (c ∷ s) = strip width k s
strip width zero (c ∷ s) = elim (width (c ∷ s)) [ zero ↦ c ∷ s | suc w ↦ strip width w s ]

-- strings.TrimSpace(s)
unfoldable pub trim_space : Text → Text
trim_space s = reverse (strip space_width_back 0 (reverse (strip space_width 0 s)))

unfoldable pub is_digit : ℕ → Bool
is_digit c = leb b'0' c && leb c b'9'

unfoldable pub digits_value : ℕ → Text → Option ℕ
digits_value n [] = some n
digits_value n (c ∷ s) = if is_digit c then digits_value (n * 10 + (c - b'0')) s else none

unfoldable pub unsigned_value : Text → Option ℕ
unsigned_value [] = none
unsigned_value (c ∷ s) = digits_value 0 (c ∷ s)

-- The value in range, if it is.
abbrev up_to_max : Option ℕ → Option ℤ
up_to_max none = none
up_to_max (some n) = if ltb n two63 then some (pos n) else none

abbrev down_to_min : Option ℕ → Option ℤ
down_to_min none = none
down_to_min (some zero) = some (pos 0)
down_to_min (some (suc n)) = if ltb n two63 then some (negsuc n) else none

-- strconv.ParseInt(s, 10, 64)
unfoldable pub parse_int : Text → Option ℤ
parse_int [] = none
parse_int (c ∷ s) =
    if c == b'-'
    then down_to_min (unsigned_value s)
    else if c == b'+'
    then up_to_max (unsigned_value s)
    else up_to_max (unsigned_value (c ∷ s))

length-strip : (width : Text → ℕ) (k : ℕ) (s : Text) → length (strip width k s) ≤ length s
unfolding strip
length-strip width k [] = omega arith
length-strip width (suc k) (c ∷ s) = omega (arith, length-strip width k s)
length-strip width zero (c ∷ s) =
    elim (width (c ∷ s))
      as (λ w. length (elim w [ zero ↦ c ∷ s | suc v ↦ strip width v s ]) ≤ suc (length s)) [
        | zero ↦ omega arith
        | suc w ↦ omega (arith, length-strip width w s)
      ]

pub length-trim_space : (s : Text) → length (trim_space s) ≤ length s
unfolding trim_space
length-trim_space s =
    let t : Text = strip space_width 0 s in
    omega (
      arith,
      length-strip space_width 0 s,
      length-strip space_width_back 0 (reverse t),
      length-reverse t,
      length-reverse (strip space_width_back 0 (reverse t)),
    )
