-- ===== src/Dsl/Validation/Balances/Totals.antt =====
-- The reconciliations against their configurations.
use mathlib.Core.List.{append_assoc, append-nil}
use mathlib.Core.Path.{subst}
use mathlib.Core.Option.{some-injective}
use sumpter.Base.{
  ◌≡◌, refl, sym, ap, ◌∙◌, Option, some, List, [], ◌∷◌, ◌++◌, inl, inr, Bool-cases, bind-some,
  if◌then◌else◌,
}
use sumpter.Base.Int.{pos}
use sumpter.TextMap.{TextMap}
use sumpter.Dsl.{Text}
use sumpter.Dsl.Text.{codes, trim_space}
use sumpter.Dsl.Scan.{is_empty}
use sumpter.Dsl.Value.{Float64, float64, string, Fields, no_field, set_field}
use sumpter.Dsl.Evaluator.{Letters}
use sumpter.Dsl.Accumulator.{Accumulator}
use sumpter.Dsl.Validation.{build_variable_context}
use sumpter.Dsl.Validation.Balances.{
  ComponentConfig, ReconciliationConfig, ComponentResult, ReconciliationResult, Reconciled, nought,
  reconciliation_tolerance, reconciliation_status, evaluate_number, evaluate_components, reconcile,
  note_reconciliation, evaluate_reconciliations,
}

module _ {F : Type 0} (fl : Float64 F) where
  -- The sum from the left
  abbrev pub sum_from : F → List (ComponentResult F) → F
  sum_from total [] = total
  sum_from total (r ∷ rs) = sum_from (fl.add total r.value) rs

  -- What later expressions see of a result
  abbrev pub noted : ReconciliationResult F → Fields F → Fields F
  noted r scalars =
      let base = set_field (r.name ++ codes "_base") (float64 r.base_value) scalars in
      let total =
        set_field (r.name ++ codes "_components_total") (float64 r.components_total) base in
      let residual = set_field (r.name ++ codes "_residual") (float64 r.residual) total in
      set_field (r.name ++ codes "_status") (string r.status) residual

  module _ (letters : Letters) (parse_float : Text → Option F) where
    -- The components of a result are those of the configuration, each with its expression's value.
    abbrev pub AreValues : Fields F → List ComponentConfig → List (ComponentResult F) → Type 0
    AreValues variables [] [] = Unit
    AreValues variables (c ∷ cs) (r ∷ rs) =
        (r.name ≡ c.name)
        × (r.description ≡ c.description)
        × (evaluate_number fl letters parse_float variables c.expression ≡ some r.value)
        × AreValues variables cs rs
    AreValues variables _ _ = ⊥

    -- A result that is made of its configuration, whose expressions see `variables`.
    pub record IsBalance (variables : Fields F) (config : ReconciliationConfig F)
        (r : ReconciliationResult F) : Type 0 where
      pub its_name : r.name ≡ config.name
      pub its_base :
          evaluate_number fl letters parse_float variables config.base_expression
          ≡ some r.base_value
      pub its_components : AreValues variables config.components r.components
      pub its_total : r.components_total ≡ sum_from (fl.of_int (pos 0)) r.components
      pub its_residual : r.residual ≡ fl.sub r.base_value r.components_total
      pub its_tolerance : r.tolerance ≡ (
          if fl.eq config.tolerance (fl.of_int (pos 0))
          then fl.div (fl.of_int (pos 1)) (fl.of_int (pos 100))
          else config.tolerance)
      pub its_status : r.status ≡ (
          if fl.lt r.tolerance (fl.abs r.residual)
          then (if config.allow_unexplained then codes "unexplained" else codes "unbalanced")
          else codes "balanced")
      pub its_permission : r.allow_unexplained ≡ config.allow_unexplained
      pub its_severity :
          r.severity
          ≡ (if is_empty (trim_space config.severity) then codes "warning" else config.severity)

    module _ (accs : TextMap (Accumulator F)) (aggregations doc : Fields F) where
      -- Each result is made of its configuration, whose expressions see the results before it.
      abbrev pub AreBalances :
          Fields F → List (ReconciliationConfig F) → List (ReconciliationResult F) → Type 0
      AreBalances scalars [] [] = Unit
      AreBalances scalars (c ∷ cs) (r ∷ rs) =
          (variables : Fields F) × (build_variable_context fl accs aggregations doc scalars
            ≡ some variables)
          × IsBalance variables c r
          × AreBalances (noted r scalars) cs rs
      AreBalances scalars _ _ = ⊥

    components-AreValues :
        (variables : Fields F) (cs : List ComponentConfig) (total : F)
        (out : List (ComponentResult F) × F)
        → evaluate_components fl letters parse_float variables cs total ≡ some out
        → AreValues variables cs out.0 × (out.1 ≡ sum_from total out.0)
    unfolding evaluate_components
    components-AreValues variables [] total out h =
        subst
          (λ (o : List (ComponentResult F) × F).
            AreValues variables [] o.0 × (o.1 ≡ sum_from total o.0))
          (some-injective _ _ h) (tt, refl)
    components-AreValues variables (c ∷ cs) total out h =
        elim (Bool-cases (is_empty (trim_space c.expression))) [
          | inl blank ↦ cc (rw (evaluate_components, blank) at h)
          | inr given ↦
              let (value, p, h1) =
                bind-some (evaluate_number fl letters parse_float variables c.expression) _ out
                  (rw (evaluate_components, given) at h) in
              let ((rest, all), q, h2) =
                bind-some
                  (evaluate_components fl letters parse_float variables cs (fl.add total value)) _
                  out h1 in
              let (values, sum) =
                components-AreValues variables cs (fl.add total value) (rest, all) q in
              subst
                (λ (o : List (ComponentResult F) × F).
                  AreValues variables (c ∷ cs) o.0 × (o.1 ≡ sum_from total o.0))
                (some-injective _ _ h2) ((refl, refl, p, values), sum)
        ]

    reconcile-IsBalance :
        (variables : Fields F) (config : ReconciliationConfig F) (r : ReconciliationResult F)
        → reconcile fl letters parse_float variables config ≡ some r
        → IsBalance variables config r
    unfolding reconcile reconciliation_tolerance reconciliation_status
    reconcile-IsBalance variables config r h =
        elim (Bool-cases (is_empty (trim_space config.base_expression))) [
          | inl blank ↦ cc (rw (reconcile, blank) at h)
          | inr given ↦
              let (base, p, h1) =
                bind-some (evaluate_number fl letters parse_float variables config.base_expression)
                  _ r (rw (reconcile, given) at h) in
              let ((components, total), q, h2) =
                bind-some
                  (evaluate_components fl letters parse_float variables config.components
                    (nought fl))
                  _ r h1 in
              let (values, sum) =
                components-AreValues variables config.components (nought fl) (components, total)
                  q in
              subst (IsBalance variables config) (some-injective _ _ h2) (record {
                its_name = refl;
                its_base = p;
                its_components = values;
                its_total = sum;
                its_residual = refl;
                its_tolerance = refl;
                its_status = refl;
                its_permission = refl;
                its_severity = refl;
              })
        ]

    AreBalances-from :
        (accs : TextMap (Accumulator F)) (aggregations doc : Fields F)
        (configs : List (ReconciliationConfig F)) (state final : Reconciled F)
        → evaluate_reconciliations fl letters parse_float accs aggregations doc configs state
          ≡ some final
        → (rs : List (ReconciliationResult F)) × (final.results ≡ state.results ++ rs)
          × AreBalances accs aggregations doc state.scalars configs rs
    unfolding evaluate_reconciliations note_reconciliation
    AreBalances-from accs aggregations doc [] state final h = (
      [],
      ap (λ (s : Reconciled F). s.results) (sym (some-injective _ _ h))
          ∙ sym (append-nil state.results),
      tt,
    )
    AreBalances-from accs aggregations doc (config ∷ configs) state final h =
        let (variables, p, h1) =
          bind-some (build_variable_context fl accs aggregations doc state.scalars) _ final h in
        let (r, q, h2) = bind-some (reconcile fl letters parse_float variables config) _ final h1 in
        let (rs, e, k) =
          AreBalances-from accs aggregations doc configs (note_reconciliation fl r state) final
            h2 in
        (
          r ∷ rs,
          e ∙ append_assoc state.results (r ∷ []) rs,
          (variables, p, reconcile-IsBalance variables config r q, k),
        )

    -- Where the reconciliations succeed, with no group_by: there is one result for each configuration,
    -- in order, whose expressions see the accumulators, the aggregations, the document and the results
    -- before it. Its base is the value of the base expression, its components are those of the
    -- configuration with the values of their expressions, its total is their sum from the left, its
    -- residual the base less the total, its tolerance the configured one, or 0.01 where that is zero,
    -- and its status tells whether the residual's amount is above the tolerance and whether that is
    -- permitted; the permission and the severity are the configured ones, "warning" for a blank one.
    pub evaluate_reconciliations-AreBalances :
        (accs : TextMap (Accumulator F)) (aggregations doc : Fields F)
        (configs : List (ReconciliationConfig F)) (final : Reconciled F)
        → evaluate_reconciliations fl letters parse_float accs aggregations doc configs
            (record { results = []; scalars = no_field })
          ≡ some final
        → AreBalances accs aggregations doc no_field configs final.results
    evaluate_reconciliations-AreBalances accs aggregations doc configs final h =
        let (rs, e, k) = AreBalances-from accs aggregations doc configs _ final h in
        subst (AreBalances accs aggregations doc no_field configs) (sym e) k
