-- ===== src/Dsl/Functions.antt =====
-- internal/validation/dsl/evaluator.go: the functions of evaluateFunctionCall. An evaluation has no
-- effect, so the arguments of a call are given with their results, an error among them, and a function
-- looks at those that it evaluates.
use sumpter.Base.{
  ℕ, Bool, false, not, ◌&&◌, ◌||◌, Option, none, some, List, [], ◌∷◌, length, ◌>>=◌, ◌==◌,
  if◌then◌else◌,
}
use sumpter.Base.Int.{pos, two63}
use sumpter.Dsl.{Text, Arguments}
use sumpter.Dsl.Text.{codes}
use sumpter.Dsl.Scan.{is_empty}
use sumpter.Dsl.References.{table_name}
use sumpter.Dsl.Value.{
  Float64, Value, null, boolean, int, float64, string, strings, Fields, get_field, to_float64,
}
use sumpter.Dsl.Runes.{runes, mask_tail_string, mask_middle_string}

-- The interface to the reference tables; none is an error.
pub record ReferenceLookup : Type 0 where
  pub contains : Text → Text → Option Bool
  pub lookup : Text → Text → Option (Option Text)

unfoldable pub some_member : (Text → Bool) → List Text → Bool
some_member p [] = false
some_member p (m ∷ ms) = let rest = some_member p ms in p m || rest

unfoldable pub any_empty : List Text → Bool
any_empty [] = false
any_empty (m ∷ ms) = let rest = any_empty ms in is_empty m || rest

-- The results of the arguments.
abbrev pub Results : Type 0 → Type 0
Results F = List (Option (Value F))

module _ {F : Type 0} where
  -- A string argument, or nil.
  unfoldable pub string_or_nil : Option (Value F) → Option (Option Text)
  string_or_nil none = none
  string_or_nil (some null) = some none
  string_or_nil (some (string s)) = some (some s)
  string_or_nil (some v) = none

  -- evaluateStringListArg
  unfoldable pub string_list : Option (Value F) → Option (List Text)
  string_list (some (strings ms)) = if any_empty ms then none else some ms
  string_list r = none

  -- A function of one string, with nil for nil.
  unfoldable pub string_function : (Text → Text) → Results F → Option (Value F)
  string_function f (r ∷ []) = do
    arg ← string_or_nil r
    elim arg [ none ↦ some null | some s ↦ some (string (f s)) ]
  string_function f _ = none

  unfoldable pub string_length : Results F → Option (Value F)
  string_length (r ∷ []) = do
    arg ← string_or_nil r
    elim arg [ none ↦ some (int (pos 0)) | some s ↦ some (int (pos (length (runes s)))) ]
  string_length _ = none

  -- starts_with_any and value_in, by what a member is asked.
  unfoldable pub list_function : (Text → Text → Bool) → Results F → Option (Value F)
  list_function p (r ∷ l ∷ []) = do
    value ← string_or_nil r
    members ← string_list l
    elim value [ none ↦ some (boolean false) | some s ↦ some (boolean (some_member (p s) members)) ]
  list_function p _ = none

  unfoldable pub in_reference : Option ReferenceLookup → Arguments F → Results F → Option (Value F)
  in_reference refs args (_ ∷ r ∷ []) = do
    table ← table_name args
    key ← string_or_nil r
    references ← refs
    elim key [
      | none ↦ some (boolean false)
      | some [] ↦ some (boolean false)
      | some (c ∷ k) ↦ references.contains table (c ∷ k) >>= λ b. some (boolean b)
    ]
  in_reference refs args _ = none

  -- A default that is a string or null.
  unfoldable pub default_value : Option (Value F) → Option (Value F)
  default_value (some null) = some null
  default_value (some (string s)) = some (string s)
  default_value r = none

  abbrev pub found_or : Value F → Option Text → Value F
  found_or d none = d
  found_or d (some s) = string s

  unfoldable pub lookup_reference :
      Option ReferenceLookup → Arguments F → Results F → Option (Value F)
  lookup_reference refs args (_ ∷ r ∷ d ∷ []) = do
    table ← table_name args
    key ← string_or_nil r
    default ← default_value d
    references ← refs
    elim key [
      | none ↦ some default
      | some [] ↦ some default
      | some (c ∷ k) ↦ references.lookup table (c ∷ k) >>= λ v. some (found_or default v)
    ]
  lookup_reference refs args _ = none

  -- count() and sum(): a variable of that name, or a zero.
  unfoldable pub variable_or : Fields F → Text → Value F → Results F → Option (Value F)
  variable_or variables name zero_ [] =
      some (elim (get_field name variables) [ some v ↦ v | none ↦ zero_ ])
  variable_or variables name zero_ (r ∷ rs) = none

module _ {F : Type 0} (fl : Float64 F) where
  unfoldable pub numbers : Results F → Option (List F)
  numbers [] = some []
  numbers (r ∷ rs) = do v ← r; x ← to_float64 fl v; xs ← numbers rs; some (x ∷ xs)

  unfoldable pub abs_function : Results F → Option (Value F)
  abs_function (r ∷ []) = do v ← r; x ← to_float64 fl v; some (float64 (fl.abs x))
  abs_function _ = none

  unfoldable pub round_to : F → F → Value F
  round_to value places =
      let precision = fl.round places in
      let nought = fl.of_int (pos 0) in
      let factor = fl.pow10 (if fl.lt precision nought then nought else precision) in
      float64 (fl.div (fl.round (fl.mul value factor)) factor)

  unfoldable pub round_function : Results F → Option (Value F)
  round_function (r ∷ []) = do v ← r; x ← to_float64 fl v; some (round_to x (fl.of_int (pos 0)))
  round_function (r ∷ p ∷ []) = do
    v ← r
    x ← to_float64 fl v
    w ← p
    y ← to_float64 fl w
    some (round_to x y)
  round_function _ = none

  unfoldable pub best : (F → F → Bool) → F → List F → F
  best better result [] = result
  best better result (v ∷ vs) = best better (if better v result then v else result) vs

  -- min and max
  unfoldable pub extreme_function : (F → F → Bool) → Results F → Option (Value F)
  extreme_function better rs =
      numbers rs >>= λ xs. elim xs [ [] ↦ none | x ∷ vs ↦ some (float64 (best better x vs)) ]

  -- A finite float that is not negative, is an integer and is below 2^63.
  unfoldable pub is_count : F → Bool
  is_count n =
      not (fl.is_nan n || fl.is_inf n || fl.is_neg_inf n)
      && not (fl.lt n (fl.of_int (pos 0)))
      && fl.eq (fl.trunc n) n
      && not (fl.le (fl.of_int (pos two63)) n)

  -- evaluateNonNegativeIntArg
  unfoldable pub non_negative_int : Option (Value F) → Option ℕ
  non_negative_int r = do
    v ← r
    n ← to_float64 fl v
    if is_count n then some (fl.to_nat n) else none

  -- evaluateOptionalSingleRuneArg
  unfoldable pub single_rune : Results F → Option Text
  single_rune [] = some (codes "X")
  single_rune (some (string s) ∷ rs) = if length (runes s) == 1 then some s else none
  single_rune (r ∷ rs) = none

  -- A nil string is returned before the other arguments are evaluated.
  unfoldable pub mask_tail_with : Option (Value F) → Option (Value F) → Results F → Option (Value F)
  mask_tail_with r n c = string_or_nil r >>= λ arg. elim arg [
    | none ↦ some null
    | some s ↦ do
      keep_n ← non_negative_int n
      mask_char ← single_rune c
      some (string (mask_tail_string s keep_n mask_char))
  ]

  unfoldable pub mask_tail : Results F → Option (Value F)
  mask_tail (r ∷ n ∷ []) = mask_tail_with r n []
  mask_tail (r ∷ n ∷ c ∷ []) = mask_tail_with r n (c ∷ [])
  mask_tail _ = none

  unfoldable pub mask_middle_with :
      Option (Value F) → Option (Value F) → Option (Value F) → Results F → Option (Value F)
  mask_middle_with r h t c = string_or_nil r >>= λ arg. elim arg [
    | none ↦ some null
    | some s ↦ do
      head_n ← non_negative_int h
      tail_n ← non_negative_int t
      mask_char ← single_rune c
      some (string (mask_middle_string s head_n tail_n mask_char))
  ]

  unfoldable pub mask_middle : Results F → Option (Value F)
  mask_middle (r ∷ h ∷ t ∷ []) = mask_middle_with r h t []
  mask_middle (r ∷ h ∷ t ∷ c ∷ []) = mask_middle_with r h t (c ∷ [])
  mask_middle _ = none
