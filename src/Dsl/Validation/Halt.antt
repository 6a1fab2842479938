-- ===== src/Dsl/Validation/Halt.antt =====
-- Stopping at the first fatal failure does not change whether the extraction fails.
use mathlib.Core.Path.{subst}
use sumpter.Base.{
  ℕ, suc, ◌+◌, ◌≤◌, ◌≡◌, ◌⊎◌, refl, sym, ap, ◌∙◌, Bool, true, false, not, ◌&&◌, Option, none, some,
  List, [], ◌∷◌, length, ltb, ◌>>=◌, if◌then◌else◌, arith, Bool-cases, inl, inr, Option-cases,
}
use sumpter.TextMap.{eq_text_iff, eq_text_refl}
use sumpter.Dsl.{Text}
use sumpter.Dsl.Text.{
  codes, eq_text, trim_space, strip, space_width, space_width_back, is_space, is_space2, is_space3,
}
use sumpter.Dsl.Value.{Float64, Fields}
use sumpter.Dsl.Evaluator.{Letters}
use sumpter.Dsl.Validation.{
  FailurePolicy, apply_defaults, ValidationConfig, ValidationResult, QualitySummary,
  normalize_validation_severity, count_result, count_results, get_quality_summary,
  should_fail_extraction, stops, check_rule, evaluate_validations,
}

warning_other : eq_text (codes "warning") (codes "fatal") ≡ false
unfolding eq_text
warning_other = refl

error_other : eq_text (codes "error") (codes "fatal") ≡ false
unfolding eq_text
error_other = refl

not_fatal :
    (severity name : Text)
    → eq_text severity name ≡ true
    → eq_text name (codes "fatal") ≡ false
    → eq_text severity (codes "fatal") ≡ false
not_fatal severity name e f =
    ap (λ t. eq_text t (codes "fatal")) ((eq_text_iff severity name).0 e) ∙ f

module _ (letters : Letters) where
  -- The results that GetQualitySummary counts as fatal.
  abbrev is_fatal : ValidationResult → Bool
  is_fatal r =
      not r.passed && eq_text (normalize_validation_severity letters r.severity) (codes "fatal")

  abbrev fatals_in : List ValidationResult → ℕ
  fatals_in [] = 0
  fatals_in (r ∷ rs) = let rest = fatals_in rs in if is_fatal r then suc rest else rest

  count_result-fatals :
      (r : ValidationResult) (s : QualitySummary)
      → (count_result letters r s).fatals ≡ (if is_fatal r then suc s.fatals else s.fatals)
  unfolding count_result
  count_result-fatals r s =
      let severity = normalize_validation_severity letters r.severity in
      elim (Bool-cases r.passed) [
        | inl p ↦ rw (count_result, p) refl
        | inr p ↦ elim (Bool-cases (eq_text severity (codes "warning"))) [
          | inl w ↦
              let other = not_fatal severity (codes "warning") w warning_other in
              rw (count_result, p, w, other) refl
          | inr w ↦ elim (Bool-cases (eq_text severity (codes "error"))) [
            | inl e ↦
                let other = not_fatal severity (codes "error") e error_other in
                rw (count_result, p, w, e, other) refl
            | inr e ↦ elim (Bool-cases (eq_text severity (codes "fatal"))) [
              | inl f ↦ rw (count_result, p, w, e, f) refl
              | inr f ↦ rw (count_result, p, w, e, f) refl
            ]
          ]
        ]
      ]

  count_results-fatals :
      (rs : List ValidationResult) (s : QualitySummary)
      → (count_results letters rs s).fatals ≡ fatals_in rs + s.fatals
  unfolding count_results
  count_results-fatals [] s = omega arith
  count_results-fatals (r ∷ rs) s =
      ground (arith, count_results-fatals rs (count_result letters r s), count_result-fatals r s)

  fatal_fails :
      (policy : FailurePolicy) (rs : List ValidationResult)
      → (apply_defaults policy).fail_on_fatal ≡ true
      → 1 ≤ fatals_in rs
      → should_fail_extraction letters policy rs ≡ true
  unfolding should_fail_extraction get_quality_summary
  fatal_fails policy rs p le =
      let start : QualitySummary = record {
        total_checks = length rs;
        passed = 0;
        warnings = 0;
        errors = 0;
        fatals = 0;
      } in
      let some_fatal : ltb 0 (count_results letters rs start).fatals ≡ true =
        ground (arith, count_results-fatals rs start, le) in
      rw (should_fail_extraction, p, some_fatal) refl

-- Results of the same configurations, where one run may have stopped.
module _ (letters : Letters) where
  abbrev Same : List ValidationResult → List ValidationResult → Type 0
  Same rs rs' = (rs ≡ rs') ⊎ ((1 ≤ fatals_in letters rs) × (1 ≤ fatals_in letters rs'))

  Same-cons :
      (r : ValidationResult) (rs rs' : List ValidationResult)
      → Same rs rs'
      → Same (r ∷ rs) (r ∷ rs')
  Same-cons r rs rs' (inl e) = inl (ap (λ x. r ∷ x) e)
  Same-cons r rs rs' (inr (h, g)) = inr (ground (arith, h), ground (arith, g))

  Same-decision :
      (policy : FailurePolicy) (rs rs' : List ValidationResult)
      → (apply_defaults policy).fail_on_fatal ≡ true
      → Same rs rs'
      → should_fail_extraction letters policy rs ≡ should_fail_extraction letters policy rs'
  Same-decision policy rs rs' p (inl e) = ap (should_fail_extraction letters policy) e
  Same-decision policy rs rs' p (inr (h, g)) =
      fatal_fails letters policy rs p h ∙ sym (fatal_fails letters policy rs' p g)

stops-fatal :
    (letters : Letters) (r : ValidationResult)
    → stops true r ≡ true
    → (eq_text r.severity (codes "fatal") ≡ true
        → normalize_validation_severity letters r.severity ≡ codes "fatal")
    → is_fatal letters r ≡ true
unfolding stops
stops-fatal letters r h normal =
    let failed : r.passed ≡ false = ground (arith, h) in
    let fatal : eq_text r.severity (codes "fatal") ≡ true = ground (arith, h) in
    rw (failed, normal fatal) (eq_text_refl (codes "fatal"))

normalize_fatal :
    (letters : Letters)
    → letters.to_lower (codes "fatal") ≡ codes "fatal"
    → (severity : Text) → eq_text severity (codes "fatal") ≡ true
    → normalize_validation_severity letters severity ≡ codes "fatal"
unfolding normalize_validation_severity trim_space strip space_width space_width_back is_space
    is_space2 is_space3
normalize_fatal letters lower severity e =
    ap (normalize_validation_severity letters) ((eq_text_iff severity (codes "fatal")).0 e)
    ∙ rw lower refl

never_stops : (r : ValidationResult) → stops false r ≡ false
unfolding stops
never_stops r = ground arith

module _ {F : Type 0} (fl : Float64 F) (letters : Letters) (parse_float : Text → Option F) where
  abbrev rest_of :
      Bool
      → Option (Fields F)
      → List ValidationConfig
      → ValidationResult
      → Option (List ValidationResult)
  rest_of halt context configs r =
      evaluate_validations fl letters parse_float halt context configs >>= λ rest. some (r ∷ rest)

  abbrev Stops : Option (Fields F) → List ValidationConfig → Type 0
  Stops context configs =
      (rs : List ValidationResult)
      → evaluate_validations fl letters parse_float false context configs ≡ some rs
      → (rs' : List ValidationResult) × (evaluate_validations fl letters parse_float true context
            configs
          ≡ some rs')
        × Same letters rs' rs

  rest_of-Same :
      (context : Option (Fields F)) (configs : List ValidationConfig) (r : ValidationResult)
      (rs : List ValidationResult)
      → Stops context configs
      → rest_of false context configs r ≡ some rs
      → (rs' : List ValidationResult) × (rest_of true context configs r ≡ some rs')
        × Same letters rs' rs
  rest_of-Same context configs r rs ih h =
      elim (Option-cases (evaluate_validations fl letters parse_float false context configs)) [
        | inl e ↦ cc (rw e at h)
        | inr (all, e) ↦
            let (rs', e', s) = ih all e in
            let same : r ∷ all ≡ rs = cc (rw e at h) in
            (
              r ∷ rs',
              rw e' refl,
              subst (Same letters (r ∷ rs')) same (Same-cons letters r rs' all s),
            )
      ]

  abbrev goes :
      Bool
      → Option (Fields F)
      → List ValidationConfig
      → ValidationResult
      → Option (List ValidationResult)
  goes halt context configs r = elim (stops halt r) [
    | true ↦ some (r ∷ [])
    | false ↦ rest_of halt context configs r
  ]

  abbrev result_of : ValidationConfig → Bool → ValidationResult
  result_of c passed = record {
    name = c.name;
    passed = passed;
    severity = normalize_validation_severity letters c.severity;
  }

  evaluate_validations-goes :
      (halt : Bool) (variables : Fields F) (c : ValidationConfig) (configs : List ValidationConfig)
      (passed : Bool)
      → check_rule fl letters parse_float variables c.rule ≡ some passed
      → evaluate_validations fl letters parse_float halt (some variables) (c ∷ configs)
        ≡ goes halt (some variables) configs (result_of c passed)
  unfolding evaluate_validations
  evaluate_validations-goes halt variables c configs passed e =
      ap (λ o. o >>= λ p. goes halt (some variables) configs (result_of c p)) e

  goes-Same :
      (context : Option (Fields F)) (configs : List ValidationConfig) (r : ValidationResult)
      (rs : List ValidationResult)
      → (eq_text r.severity (codes "fatal") ≡ true
          → normalize_validation_severity letters r.severity ≡ codes "fatal")
      → Stops context configs
      → goes false context configs r ≡ some rs
      → (rs' : List ValidationResult) × (goes true context configs r ≡ some rs')
        × Same letters rs' rs
  goes-Same context configs r rs normal ih h =
      let full : rest_of false context configs r ≡ some rs = rw (goes, never_stops r) at h in
      elim (Bool-cases (stops true r)) [
        | inr f ↦ rw (goes, f) (rest_of-Same context configs r rs ih full)
        | inl f ↦
            elim (Option-cases
              (evaluate_validations fl letters parse_float false context configs)) [
                | inl e ↦ cc (rw e at full)
                | inr (all, e) ↦
                    let same : r ∷ all ≡ rs = cc (rw e at full) in
                    let fatal : is_fatal letters r ≡ true = stops-fatal letters r f normal in
                    rw (goes, f, sym same)
                      (r ∷ [], refl, inr (ground (arith, fatal), ground (arith, fatal)))
              ]
      ]

  halt-Same :
      (context : Option (Fields F)) (configs : List ValidationConfig)
      → letters.to_lower (codes "fatal") ≡ codes "fatal"
      → Stops context configs
  unfolding evaluate_validations
  halt-Same context [] lower rs h = (rs, h, inl refl)
  halt-Same none (c ∷ configs) lower rs h = cc h
  halt-Same (some variables) (c ∷ configs) lower rs h =
      elim (Option-cases (check_rule fl letters parse_float variables c.rule)) [
        | inl e ↦ cc (rw (evaluate_validations, e) at h)
        | inr (passed, e) ↦
            let (rs', e', s) =
              goes-Same (some variables) configs (result_of c passed) rs
                (normalize_fatal letters lower (normalize_validation_severity letters c.severity))
                (halt-Same (some variables) configs lower)
                (sym (evaluate_validations-goes false variables c configs passed e) ∙ h) in
            (rs', evaluate_validations-goes true variables c configs passed e ∙ e', s)
      ]

-- Let the rules of all configurations evaluate, the policy's fail_on_fatal be on, given or by default,
-- and `fatal` be in lower case. Then the loop that stops at the first fatal failure gives results too,
-- and the decision on them whether the extraction fails is that on the results of all rules.
pub halt-decision :
    {F : Type 0} (fl : Float64 F) (letters : Letters) (parse_float : Text → Option F)
    (policy : FailurePolicy) (context : Option (Fields F)) (configs : List ValidationConfig)
    (rs : List ValidationResult)
    → letters.to_lower (codes "fatal") ≡ codes "fatal"
    → (apply_defaults policy).fail_on_fatal ≡ true
    → evaluate_validations fl letters parse_float false context configs ≡ some rs
    → (rs' : List ValidationResult) × (evaluate_validations fl letters parse_float true context
          configs
        ≡ some rs')
      × (should_fail_extraction letters policy rs' ≡ should_fail_extraction letters policy rs)
halt-decision fl letters parse_float policy context configs rs lower p h =
    let (rs', e, s) = halt-Same fl letters parse_float context configs lower rs h in
    (rs', e, Same-decision letters policy rs' rs p s)
