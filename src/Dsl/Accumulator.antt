-- ===== src/Dsl/Accumulator.antt =====
-- internal/validation/dsl/accumulator.go, and AccumulationConfig and Accumulator of types.go, with the loop of runtime.go. A nil
-- filter is `none`. A map of accumulators is a list in the order in which the code ranges over it. The
-- count of the records of a run is below 2^63. The messages of errors are not modelled.
pub mod Summary
pub mod Document
pub mod Bounds
mod Tests
use sumpter.Base.{
  ℕ, suc, Bool, true, false, not, ◌||◌, Option, none, some, List, [], ◌∷◌, ◌++◌, ◌==◌, ◌>>=◌,
  if◌then◌else◌,
}
use sumpter.Base.Int.{pos}
use sumpter.TextMap.{TextMap, put}
use sumpter.Dsl.{Text, Expression}
use sumpter.Dsl.Text.{codes, eq_text, trim_space}
use sumpter.Dsl.Scan.{is_empty}
use sumpter.Dsl.Parser.{parse_expression}
use sumpter.Dsl.Filter.{FilterExpression, parse_filter}
use sumpter.Dsl.Advanced.{is_advanced_filter}
use sumpter.Dsl.Value.{
  Float64, Value, null, int, float64, Fields, no_field, to_bool, to_float64, get_nested_field,
}
use sumpter.Dsl.Evaluator.{Letters, Evaluator, new_evaluator, evaluate_expression, evaluate_filter}

pub record AccumulationConfig : Type 0 where
  pub name : Text
  pub operation : Text
  pub field : Text
  pub filter : Text

pub record Accumulator (F : Type 0) : Type 0 where
  pub name : Text
  pub operation : Text
  pub field : Text
  pub filter : Option (FilterExpression F)
  pub filter_expr : Option (Expression F)
  pub count : ℕ
  pub sum : F
  pub min : F
  pub max : F
  pub values : List F

module _ {F : Type 0} (fl : Float64 F) where
  unfoldable pub accumulator_of :
      AccumulationConfig → Option (FilterExpression F) → Option (Expression F) → Accumulator F
  accumulator_of config filter filter_expr = record {
    name = config.name;
    operation = config.operation;
    field = config.field;
    filter = filter;
    filter_expr = filter_expr;
    count = 0;
    sum = fl.of_int (pos 0);
    min = fl.inf;
    max = fl.neg_inf;
    values = [];
  }

  unfoldable pub new_accumulator : (Text → Option F) → AccumulationConfig → Option (Accumulator F)
  new_accumulator parse_float config =
      if is_empty config.filter
      then some (accumulator_of config none none)
      else (is_advanced_filter (trim_space config.filter) >>= λ advanced.
          if advanced
          then (parse_expression parse_float (trim_space config.filter) >>= λ e.
              some (accumulator_of config none (some e)))
          else (parse_filter parse_float (trim_space config.filter) >>= λ f.
              some (accumulator_of config f none)))

  -- The operations of the two first cases of Update, and those of the third one.
  unfoldable pub is_counting : Text → Bool
  is_counting op = eq_text op (codes "count") || eq_text op (codes "increment")

  unfoldable pub is_numeric : Text → Bool
  is_numeric op =
      eq_text op (codes "sum")
      || eq_text op (codes "avg")
      || eq_text op (codes "min")
      || eq_text op (codes "max")

  unfoldable pub add_value : Accumulator F → F → Accumulator F
  add_value acc x = record acc {
    count = suc acc.count;
    sum = fl.add acc.sum x;
    min = if fl.lt x acc.min then x else acc.min;
    max = if fl.lt acc.max x then x else acc.max;
    values = if eq_text acc.operation (codes "avg") then acc.values ++ x ∷ [] else acc.values;
  }

  -- The number in the field of a record, and none inside where the record has no such field.
  unfoldable pub field_number : Accumulator F → Fields F → Option (Option F)
  field_number acc record_ =
      if is_empty acc.field then none else elim (get_nested_field record_ acc.field) [
        | null ↦ some none
        | v ↦ (to_float64 fl v >>= λ x. some (some x))
      ]

  unfoldable pub apply_operation : Accumulator F → Fields F → Option (Accumulator F)
  apply_operation acc record_ =
      if is_counting acc.operation
      then some (record acc { count = suc acc.count })
      else if is_numeric acc.operation
      then (field_number acc record_ >>= λ found.
          some (elim found [ none ↦ acc | some x ↦ add_value acc x ]))
      else none

  module _ (letters : Letters) where
    -- Whether the accumulator's filter lets the record through.
    unfoldable pub matches : Accumulator F → Fields F → Option Bool
    matches acc record_ = elim acc.filter_expr [
      | some e ↦ (evaluate_expression fl letters (new_evaluator record_ none) e >>= to_bool)
      | none ↦ elim acc.filter [ some f ↦ evaluate_filter fl f record_ | none ↦ some true ]
    ]

    unfoldable pub update : Accumulator F → Fields F → Option (Accumulator F)
    update acc record_ =
        matches acc record_ >>= λ passed. if passed then apply_operation acc record_ else some acc

    -- What is left of the map after an error is not used.
    unfoldable pub update_all :
        TextMap (Accumulator F) → Fields F → Option (TextMap (Accumulator F))
    update_all [] record_ = some []
    update_all ((name, acc) ∷ accumulators) record_ = do
      acc' ← update acc record_
      rest ← update_all accumulators record_
      some ((name, acc') ∷ rest)

    -- The loop of RunValidation over the records of the document, in runtime.go.
    unfoldable pub update_records :
        TextMap (Accumulator F) → List (Fields F) → Option (TextMap (Accumulator F))
    update_records accumulators [] = some accumulators
    update_records accumulators (item ∷ items) =
        update_all accumulators item >>= λ accumulators'. update_records accumulators' items

  unfoldable pub get_result : Accumulator F → Option (Value F)
  get_result acc =
      if is_counting acc.operation
      then some (int (pos acc.count))
      else if eq_text acc.operation (codes "sum")
      then some (float64 acc.sum)
      else if eq_text acc.operation (codes "min")
      then some (if fl.is_inf acc.min then null else float64 acc.min)
      else if eq_text acc.operation (codes "max")
      then some (if fl.is_neg_inf acc.max then null else float64 acc.max)
      else if eq_text acc.operation (codes "avg")
      then some
          (if acc.count == 0 then null else float64 (fl.div acc.sum (fl.of_int (pos acc.count))))
      else none

  unfoldable pub reset : Accumulator F → Accumulator F
  reset acc = record acc {
    count = 0;
    sum = fl.of_int (pos 0);
    min = fl.inf;
    max = fl.neg_inf;
    values = [];
  }

  unfoldable pub initialize_accumulators :
      (Text → Option F)
      → List AccumulationConfig
      → TextMap (Accumulator F)
      → Option (TextMap (Accumulator F))
  initialize_accumulators parse_float [] accumulators = some accumulators
  initialize_accumulators parse_float (config ∷ configs) accumulators =
      new_accumulator parse_float config >>= λ acc.
      initialize_accumulators parse_float configs (put config.name acc accumulators)

  unfoldable pub get_all_results : TextMap (Accumulator F) → Option (TextMap (Value F))
  get_all_results [] = some []
  get_all_results ((name, acc) ∷ accumulators) = do
    result ← get_result acc
    rest ← get_all_results accumulators
    some ((name, result) ∷ rest)
