-- ===== src/Dsl/Value.antt =====
-- internal/validation/dsl/evaluator.go: the values of an evaluation, and what is done with two of them.
-- Of Go's number types a value has int, int64 and float64. The arithmetic of float64 is `Float64`, an
-- interface; an int, which is converted to a float64 before any use, is an integer in its range. An
-- array, []interface{}, is left out: of lists there is []string, a list-typed parameter of a recipe.
pub mod Naturals
use sumpter.Base.{
  ℕ, suc, Bool, true, false, not, ◌&&◌, ◌||◌, Option, none, some, List, [], ◌∷◌, ◌++◌, ◌>>=◌, ◌==◌,
  if◌then◌else◌,
}
use sumpter.Base.Int.{ℤ, pos, negsuc}
use sumpter.Dsl.{Text, Constant, bool_value, int_value, float_value, string_value}
use sumpter.Dsl.Text.{codes, eq_text}

pub record Float64 (F : Type 0) : Type 0 where
  pub of_int : ℤ → F
  pub add : F → F → F
  pub sub : F → F → F
  pub mul : F → F → F
  pub div : F → F → F
  pub eq : F → F → Bool
  pub lt : F → F → Bool
  pub le : F → F → Bool
  -- math.Abs, math.Round, math.Trunc and math.Pow(10, x)
  pub abs : F → F
  pub round : F → F
  pub trunc : F → F
  pub pow10 : F → F
  -- math.IsNaN, and math.IsInf for each sign
  pub is_nan : F → Bool
  pub is_inf : F → Bool
  pub is_neg_inf : F → Bool
  pub inf : F
  pub neg_inf : F
  -- The conversion to int of a float that is not negative and below 2^63.
  pub to_nat : F → ℕ

-- `object` is a map[string]interface{}; `strings` is a []string.
mutual
  pub data Value (F : Type 0) : Type 0 where
    null : Value F
    boolean : Bool → Value F
    int : ℤ → Value F
    int64 : ℤ → Value F
    float64 : F → Value F
    string : Text → Value F
    strings : List Text → Value F
    object : Fields F → Value F

  pub data Fields (F : Type 0) : Type 0 where
    no_field : Fields F
    field : Text → Value F → Fields F → Fields F

module _ {F : Type 0} where
  -- record[key], with whether it is there
  unfoldable pub get_field : Text → Fields F → Option (Value F)
  get_field k no_field = none
  get_field k (field j v fs) = let rest = get_field k fs in if eq_text j k then some v else rest

  -- ctx[key] = v
  unfoldable pub set_field : Text → Value F → Fields F → Fields F
  set_field k v no_field = field k v no_field
  set_field k v (field j w fs) =
      let rest = set_field k v fs in if eq_text j k then field k v fs else field j w rest

  abbrev pub or_null : Option (Value F) → Value F
  or_null none = null
  or_null (some v) = v

  abbrev pub of_constant : Constant F → Value F
  of_constant (bool_value b) = boolean b
  of_constant (int_value n) = int64 n
  of_constant (float_value x) = float64 x
  of_constant (string_value s) = string s

  abbrev pub to_bool : Value F → Option Bool
  to_bool (boolean b) = some b
  to_bool v = none

  abbrev pub size : Fields F → ℕ
  size no_field = 0
  size (field k v fs) = suc (size fs)

abbrev pub same_strings : List Text → List Text → Bool
same_strings [] [] = true
same_strings (x ∷ xs) (y ∷ ys) = let rest = same_strings xs ys in eq_text x y && rest
same_strings _ _ = false

abbrev pub eq_int : ℤ → ℤ → Bool
eq_int (pos a) (pos b) = a == b
eq_int (negsuc a) (negsuc b) = a == b
eq_int _ _ = false

-- strings.Split(path, "."), with the part so far
unfoldable pub split_path : Text → Text → List Text
split_path current [] = current ∷ []
split_path current (c ∷ s) = elim (c == b'.') [
  | true ↦ current ∷ split_path [] s
  | false ↦ split_path (current ++ c ∷ []) s
]

module _ {F : Type 0} (fl : Float64 F) where
  abbrev pub to_float64 : Value F → Option F
  to_float64 (int n) = some (fl.of_int n)
  to_float64 (int64 n) = some (fl.of_int n)
  to_float64 (float64 x) = some x
  to_float64 v = none

  -- reflect.DeepEqual on two values; of two maps, none is the other itself with a NaN in it.
  unfoldable mutual
    pub deep_equal : Value F → Value F → Bool
    deep_equal null null = true
    deep_equal (boolean a) (boolean b) = if a then b else not b
    deep_equal (int a) (int b) = eq_int a b
    deep_equal (int64 a) (int64 b) = eq_int a b
    deep_equal (float64 a) (float64 b) = fl.eq a b
    deep_equal (string a) (string b) = eq_text a b
    deep_equal (strings a) (strings b) = same_strings a b
    deep_equal (object a) (object b) = size a == size b && fields_in a b
    deep_equal _ _ = false

    pub fields_in : Fields F → Fields F → Bool
    fields_in no_field b = true
    fields_in (field k v fs) b =
        let rest = fields_in fs b in
        elim (get_field k b) [ none ↦ false | some w ↦ deep_equal v w ] && rest

  -- The operators of compareValues on two numbers.
  unfoldable pub compare_floats : F → Text → F → Option Bool
  compare_floats a op b =
      if eq_text op (codes "==")
      then some (fl.eq a b)
      else if eq_text op (codes "!=")
      then some (not (fl.eq a b))
      else if eq_text op (codes ">")
      then some (fl.lt b a)
      else if eq_text op (codes ">=")
      then some (fl.le b a)
      else if eq_text op (codes "<")
      then some (fl.lt a b)
      else if eq_text op (codes "<=")
      then some (fl.le a b)
      else none

  unfoldable pub compare_others : Value F → Text → Value F → Option Bool
  compare_others a op b =
      if eq_text op (codes "==")
      then some (deep_equal a b)
      else if eq_text op (codes "!=")
      then some (not (deep_equal a b))
      else none

  unfoldable pub compare_values : Value F → Text → Value F → Option Bool
  compare_values a op b = elim (to_float64 a) [
    | none ↦ compare_others a op b
    | some x ↦ elim (to_float64 b) [ none ↦ compare_others a op b | some y ↦ compare_floats x op y ]
  ]

  -- addValues, subtractValues and multiplyValues
  unfoldable pub arithmetic : (F → F → F) → Value F → Value F → Option (Value F)
  arithmetic f a b = do x ← to_float64 a; y ← to_float64 b; some (float64 (f x y))

  unfoldable pub divide_values : Value F → Value F → Option (Value F)
  divide_values a b = do
    x ← to_float64 a
    y ← to_float64 b
    if fl.eq y (fl.of_int (pos 0)) then none else some (float64 (fl.div x y))

module _ {F : Type 0} where
  unfoldable pub walk_path : List Text → Value F → Value F
  walk_path [] v = v
  walk_path (part ∷ parts) (object fs) = walk_path parts (or_null (get_field part fs))
  walk_path (part ∷ parts) v = null

  unfoldable pub get_nested_field : Fields F → Text → Value F
  get_nested_field record_ path = walk_path (split_path [] path) (object record_)
