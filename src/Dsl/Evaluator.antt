-- ===== src/Dsl/Evaluator.antt =====
-- internal/validation/dsl/evaluator.go: EvaluateExpression and EvaluateFilter. strings.ToLower and
-- strings.ToUpper are a parameter, `Letters`; a function's name is in ASCII.
pub mod Tables
pub mod Typing
pub mod Sound
pub mod Registry
mod Tests
use sumpter.Base.{
  ℕ, zero, suc, ◌+◌, ◌*◌, ◌^◌, Bool, true, false, not, ◌&&◌, ◌||◌, Option, none, some, List, [],
  ◌∷◌, map, length, leb, ◌>>=◌, ◌==◌, if◌then◌else◌,
}
use sumpter.Base.Int.{ℤ, pos, two63}
use sumpter.Dsl.{
  Text, Expression, variable, constant, binary, unary, function, ternary, Arguments, no_more,
  argument,
}
use sumpter.Dsl.Text.{codes, eq_text, has_prefix}
use sumpter.Dsl.Scan.{is_empty}
use sumpter.Dsl.Filter.{FilterExpression}
use sumpter.Dsl.References.{lower_byte, table_name}
use sumpter.Dsl.Value.{
  Float64, Value, null, boolean, int, int64, float64, string, strings, object, Fields, get_field,
  set_field, of_constant, to_bool, to_float64, compare_values, arithmetic, divide_values,
  get_nested_field,
}
use sumpter.Dsl.Runes.{runes, mask_tail_string, mask_middle_string, normalize_space}
use sumpter.Dsl.Functions.{
  ReferenceLookup, Results, string_function, string_length, list_function, in_reference,
  lookup_reference, variable_or, abs_function, round_function, extreme_function, mask_tail,
  mask_middle,
}

pub record Letters : Type 0 where
  pub to_lower : Text → Text
  pub to_upper : Text → Text

pub record Evaluator (F : Type 0) : Type 0 where
  pub variables : Fields F
  pub references : Option ReferenceLookup

unfoldable pub new_evaluator : {F : Type 0} → Fields F → Option ReferenceLookup → Evaluator F
new_evaluator variables references = record {
  variables =
      set_field (codes "false") (boolean false)
        (set_field (codes "true") (boolean true) (set_field (codes "null") null variables));
  references = references;
}

module _ {F : Type 0} (fl : Float64 F) where
  unfoldable pub logical_operator : (Bool → Bool → Bool) → Value F → Value F → Option (Value F)
  logical_operator f a b = do x ← to_bool a; y ← to_bool b; some (boolean (f x y))

  -- The switch of evaluateBinaryExpression, on the operands' values.
  unfoldable pub apply_binary : Text → Value F → Value F → Option (Value F)
  apply_binary op a b =
      if eq_text op (codes "+")
      then arithmetic fl fl.add a b
      else if eq_text op (codes "-")
      then arithmetic fl fl.sub a b
      else if eq_text op (codes "*")
      then arithmetic fl fl.mul a b
      else if eq_text op (codes "/")
      then divide_values fl a b
      else if eq_text op (codes "&&")
      then logical_operator (◌&&◌) a b
      else if eq_text op (codes "||")
      then logical_operator (◌||◌) a b
      else compare_values fl a op b >>= λ r. some (boolean r)

  unfoldable pub apply_unary : Text → Value F → Option (Value F)
  apply_unary op a =
      if eq_text op (codes "!") then (to_bool a >>= λ b. some (boolean (not b))) else none

  module _ (letters : Letters) (e : Evaluator F) where
    -- The switch of evaluateFunctionCall: its first cases, and `rest` after them.
    unfoldable pub plain_function : Text → Results F → Option (Value F) → Option (Value F)
    plain_function f rs rest =
        if eq_text f (codes "abs")
        then abs_function fl rs
        else if eq_text f (codes "round")
        then round_function fl rs
        else if eq_text f (codes "min")
        then extreme_function fl (λ v result. fl.lt v result) rs
        else if eq_text f (codes "max")
        then extreme_function fl (λ v result. fl.lt result v) rs
        else if eq_text f (codes "count")
        then variable_or e.variables (codes "count") (int (pos 0)) rs
        else if eq_text f (codes "sum")
        then variable_or e.variables (codes "sum") (float64 (fl.of_int (pos 0))) rs
        else if eq_text f (codes "lower")
        then string_function letters.to_lower rs
        else if eq_text f (codes "upper")
        then string_function letters.to_upper rs
        else if eq_text f (codes "normalize_space")
        then string_function normalize_space rs
        else if eq_text f (codes "mask_tail")
        then mask_tail fl rs
        else if eq_text f (codes "mask_middle")
        then mask_middle fl rs
        else if eq_text f (codes "string_length")
        then string_length rs
        else if eq_text f (codes "starts_with_any")
        then list_function has_prefix rs
        else if eq_text f (codes "value_in")
        then list_function eq_text rs
        else rest

    -- Its last cases.
    unfoldable pub reference_function : Text → Arguments F → Results F → Option (Value F)
    reference_function f args rs =
        if eq_text f (codes "in_reference")
        then in_reference e.references args rs
        else if eq_text f (codes "lookup_reference")
        then lookup_reference e.references args rs
        else none

    unfoldable pub call_function : Text → Arguments F → Results F → Option (Value F)
    call_function name args rs =
        let f = map lower_byte name in plain_function f rs (reference_function f args rs)

    unfoldable mutual
      pub evaluate_expression : Expression F → Option (Value F)
      evaluate_expression (variable x) = get_field x e.variables
      evaluate_expression (constant v) = some (of_constant v)
      evaluate_expression (binary a op b) =
          evaluate_expression a >>= λ x. evaluate_expression b >>= λ y. apply_binary op x y
      evaluate_expression (unary op a) = evaluate_expression a >>= λ x. apply_unary op x
      evaluate_expression (function name args) = call_function name args (evaluate_arguments args)
      evaluate_expression (ternary c a b) = evaluate_expression c >>= λ v.
          to_bool v >>= λ t. elim t [ true ↦ evaluate_expression a | false ↦ evaluate_expression b ]

      pub evaluate_arguments : Arguments F → Results F
      evaluate_arguments no_more = []
      evaluate_arguments (argument a rest) = evaluate_expression a ∷ evaluate_arguments rest

  abbrev null_filter : Text → Bool → Option Bool
  null_filter op is_null =
      if eq_text op (codes "==")
      then some is_null
      else if eq_text op (codes "!=")
      then some (not is_null)
      else none

  abbrev pub is_nil : Value F → Bool
  is_nil null = true
  is_nil v = false

  abbrev value_of_filter : FilterExpression F → Value F
  value_of_filter f = elim f.value [ none ↦ null | some v ↦ of_constant v ]

  unfoldable pub evaluate_filter : FilterExpression F → Fields F → Option Bool
  evaluate_filter f record_ =
      let v = get_nested_field record_ f.field in
      if f.is_null
      then null_filter f.operator (is_nil v)
      else if is_nil v
      then some false
      else compare_values fl v f.operator (value_of_filter f)
