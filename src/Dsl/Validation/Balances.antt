-- ===== src/Dsl/Validation/Balances.antt =====
-- internal/validation/dsl/runtime.go: ComputeAggregations, and evaluateReconciliations for
-- configurations with no group_by. An error is none. The literal 0.01 is the quotient of 1 and 100,
-- which float64 rounds to the same number.
pub mod Compared
pub mod Totals
mod Tests
use sumpter.Base.{
  ℕ, Bool, true, false, not, ◌&&◌, Option, none, some, List, [], ◌∷◌, ◌++◌, ◌>>=◌, if◌then◌else◌,
}
use sumpter.Base.Int.{pos}
use sumpter.TextMap.{TextMap}
use sumpter.Dsl.{Text}
use sumpter.Dsl.Text.{codes, trim_space}
use sumpter.Dsl.Scan.{is_empty}
use sumpter.Dsl.Parser.{parse_expression}
use sumpter.Dsl.Value.{
  Float64, Value, float64, string, Fields, no_field, get_field, set_field, to_float64,
}
use sumpter.Dsl.Evaluator.{Letters, new_evaluator, evaluate_expression}
use sumpter.Dsl.Accumulator.{Accumulator}
use sumpter.Dsl.Validation.{set_all, set_results, build_variable_context}

pub record AggregationConfig (F : Type 0) : Type 0 where
  pub name : Text
  pub expression : Text
  pub compare_to : Text
  pub tolerance : F
  pub tolerance_set : Bool

pub record ComponentConfig : Type 0 where
  pub name : Text
  pub description : Text
  pub expression : Text

pub record ReconciliationConfig (F : Type 0) : Type 0 where
  pub name : Text
  pub base_expression : Text
  pub tolerance : F
  pub severity : Text
  pub allow_unexplained : Bool
  pub components : List ComponentConfig

pub record ComponentResult (F : Type 0) : Type 0 where
  pub name : Text
  pub description : Text
  pub value : F

pub record ReconciliationResult (F : Type 0) : Type 0 where
  pub name : Text
  pub base_value : F
  pub components : List (ComponentResult F)
  pub components_total : F
  pub residual : F
  pub tolerance : F
  pub status : Text
  pub allow_unexplained : Bool
  pub severity : Text

-- The results of the reconciliations so far, and what later expressions see of them.
pub record Reconciled (F : Type 0) : Type 0 where
  pub results : List (ReconciliationResult F)
  pub scalars : Fields F

module _ {F : Type 0} (fl : Float64 F) where
  abbrev pub nought : F
  nought = fl.of_int (pos 0)

  abbrev pub hundredth : F
  hundredth = fl.div (fl.of_int (pos 1)) (fl.of_int (pos 100))

  unfoldable pub apply_aggregation_defaults : AggregationConfig F → AggregationConfig F
  apply_aggregation_defaults c =
      if not c.tolerance_set && fl.eq c.tolerance nought
      then (record c { tolerance = hundredth })
      else c

  -- The comparison of an aggregation's result with a field of the document.
  unfoldable pub is_close : AggregationConfig F → Fields F → Value F → Option Bool
  is_close c doc result = do
    target ← get_field c.compare_to doc
    x ← to_float64 fl result
    y ← to_float64 fl target
    some (not (fl.lt c.tolerance (fl.abs (fl.sub x y))))

  unfoldable pub reconciliation_tolerance : F → F
  reconciliation_tolerance tolerance = if fl.eq tolerance nought then hundredth else tolerance

  unfoldable pub reconciliation_status : F → F → Bool → Text
  reconciliation_status residual tolerance allow_unexplained =
      if fl.lt tolerance (fl.abs residual)
      then (if allow_unexplained then codes "unexplained" else codes "unbalanced")
      else codes "balanced"

  module _ (letters : Letters) (parse_float : Text → Option F) where
    unfoldable pub evaluate_text : Fields F → Text → Option (Value F)
    evaluate_text variables expression = do
      expr ← parse_expression parse_float expression
      evaluate_expression fl letters (new_evaluator variables none) expr

    unfoldable pub evaluate_number : Fields F → Text → Option F
    evaluate_number variables expression =
        evaluate_text variables expression >>= λ value. to_float64 fl value

    -- A round of the loop of ComputeAggregations.
    unfoldable pub compute_aggregation :
        TextMap (Accumulator F) → Fields F → AggregationConfig F → Fields F → Option (Fields F)
    compute_aggregation accumulators doc config results =
        let c = apply_aggregation_defaults config in
        do
          accumulated ← set_results fl accumulators no_field
          result ← evaluate_text (set_all doc (set_all results accumulated)) c.expression
          if is_empty (trim_space c.compare_to)
              then some (set_field c.name result results)
              else is_close c doc result >>= λ close.
                  if close then some (set_field c.name result results) else none

    unfoldable pub compute_aggregations :
        TextMap (Accumulator F)
        → Fields F
        → List (AggregationConfig F)
        → Fields F
        → Option (Fields F)
    compute_aggregations accumulators doc [] results = some results
    compute_aggregations accumulators doc (config ∷ configs) results =
        compute_aggregation accumulators doc config results >>= λ results'.
        compute_aggregations accumulators doc configs results'

    -- The loop over the components, with the total so far.
    unfoldable pub evaluate_components :
        Fields F → List ComponentConfig → F → Option (List (ComponentResult F) × F)
    evaluate_components variables [] total = some ([], total)
    evaluate_components variables (c ∷ cs) total =
        if is_empty (trim_space c.expression)
        then none
        else evaluate_number variables c.expression >>= λ value.
            evaluate_components variables cs (fl.add total value) >>= λ (rest, all).
            some
              ((record { name = c.name; description = c.description; value = value }) ∷ rest, all)

    unfoldable pub reconcile : Fields F → ReconciliationConfig F → Option (ReconciliationResult F)
    reconcile variables config =
        if is_empty (trim_space config.base_expression)
        then none
        else evaluate_number variables config.base_expression >>= λ base.
            evaluate_components variables config.components nought >>= λ (components, total).
            let residual = fl.sub base total in
            let tolerance = reconciliation_tolerance config.tolerance in
            some (record {
              name = config.name;
              base_value = base;
              components = components;
              components_total = total;
              residual = residual;
              tolerance = tolerance;
              status = reconciliation_status residual tolerance config.allow_unexplained;
              allow_unexplained = config.allow_unexplained;
              severity =
                  if is_empty (trim_space config.severity)
                  then codes "warning"
                  else config.severity;
            })

  unfoldable pub note_reconciliation : ReconciliationResult F → Reconciled F → Reconciled F
  note_reconciliation r state = record {
    results = state.results ++ r ∷ [];
    scalars = set_field (r.name ++ codes "_status") (string r.status) (
        set_field (r.name ++ codes "_residual") (float64 r.residual) (
          set_field (r.name ++ codes "_components_total") (float64 r.components_total)
            (set_field (r.name ++ codes "_base") (float64 r.base_value) state.scalars)));
  }

  module _ (letters : Letters) (parse_float : Text → Option F) where
    unfoldable pub evaluate_reconciliations :
        TextMap (Accumulator F)
        → Fields F
        → Fields F
        → List (ReconciliationConfig F)
        → Reconciled F
        → Option (Reconciled F)
    evaluate_reconciliations accumulators aggregations doc [] state = some state
    evaluate_reconciliations accumulators aggregations doc (config ∷ configs) state = do
      variables ← build_variable_context fl accumulators aggregations doc state.scalars
      result ← reconcile letters parse_float variables config
      evaluate_reconciliations accumulators aggregations doc configs
          (note_reconciliation result state)
