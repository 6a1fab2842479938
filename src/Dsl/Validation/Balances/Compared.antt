-- ===== src/Dsl/Validation/Balances/Compared.antt =====
-- The aggregations that are compared with a field of the document.
use sumpter.Base.{
  ◌≡◌, ◌≢◌, refl, sym, ap, ◌∙◌, true, false, Option, some, List, [], ◌∷◌, map, if◌then◌else◌, inl,
  inr, ◌⊎◌, Bool-cases, bind-some, arith,
}
use sumpter.Base.Members.{All, IsDistinct}
use sumpter.TextMap.{TextMap, eq_text_iff, eq_text_refl}
use sumpter.Dsl.{Text}
use sumpter.Dsl.Text.{eq_text, trim_space}
use sumpter.Dsl.Scan.{is_empty}
use sumpter.Dsl.Value.{Float64, Value, Fields, no_field, field, get_field, set_field, to_float64}
use sumpter.Dsl.Evaluator.{Letters}
use sumpter.Dsl.Accumulator.{Accumulator}
use sumpter.Dsl.Validation.{set_all, set_results}
use sumpter.Dsl.Validation.Balances.{
  AggregationConfig, apply_aggregation_defaults, is_close, evaluate_text, compute_aggregation,
  compute_aggregations,
}

module _ {F : Type 0} where
  get_field-set_field :
      (j k : Text) (v : Value F) (fs : Fields F)
      → get_field j (set_field k v fs) ≡ (if eq_text k j then some v else get_field j fs)
  unfolding get_field set_field
  get_field-set_field j k v no_field = refl
  get_field-set_field j k v (field i w fs) =
      ground
        (arith, get_field-set_field j k v fs, eq_text_iff i k, eq_text_iff k j, eq_text_iff i j)

module _ {F : Type 0} (fl : Float64 F) where
  -- A result that is compared is a number within the tolerance of the document's.
  abbrev pub IsCompared : Fields F → AggregationConfig F → Value F → Type 0
  IsCompared doc config v =
      (is_empty (trim_space config.compare_to) ≡ true)
      ⊎ ((t : Value F) × (x : F) × (y : F) × (get_field config.compare_to doc ≡ some t)
          × (to_float64 fl v ≡ some x)
          × (to_float64 fl t ≡ some y)
          × (fl.lt (apply_aggregation_defaults fl config).tolerance (fl.abs (fl.sub x y)) ≡ false))

  apply_aggregation_defaults-compare_to :
      (c : AggregationConfig F) → (apply_aggregation_defaults fl c).compare_to ≡ c.compare_to
  unfolding apply_aggregation_defaults
  apply_aggregation_defaults-compare_to c = ground arith

  apply_aggregation_defaults-name :
      (c : AggregationConfig F) → (apply_aggregation_defaults fl c).name ≡ c.name
  unfolding apply_aggregation_defaults
  apply_aggregation_defaults-name c = ground arith

  is_close-true :
      (c : AggregationConfig F) (doc : Fields F) (v : Value F)
      → is_close fl c doc v ≡ some true
      → (t : Value F) × (x : F) × (y : F) × (get_field c.compare_to doc ≡ some t)
        × (to_float64 fl v ≡ some x)
        × (to_float64 fl t ≡ some y)
        × (fl.lt c.tolerance (fl.abs (fl.sub x y)) ≡ false)
  unfolding is_close
  is_close-true c doc v h =
      let (t, p, h1) = bind-some (get_field c.compare_to doc) _ true h in
      let (x, q, h2) = bind-some (to_float64 fl v) _ true h1 in
      let (y, r, h3) = bind-some (to_float64 fl t) _ true h2 in
      (t, x, y, p, q, r, ground (arith, h3))

  module _ (letters : Letters) (parse_float : Text → Option F) (accs : TextMap (Accumulator F))
      (doc : Fields F) where
    compute_aggregation-some :
        (c : AggregationConfig F) (results after : Fields F)
        → compute_aggregation fl letters parse_float accs doc c results ≡ some after
        → (v : Value F) × (after ≡ set_field c.name v results) × IsCompared doc c v
    unfolding compute_aggregation
    compute_aggregation-some c results after h =
        let c' : AggregationConfig F = apply_aggregation_defaults fl c in
        let field_ : c'.compare_to ≡ c.compare_to = apply_aggregation_defaults-compare_to c in
        let name_ : c'.name ≡ c.name = apply_aggregation_defaults-name c in
        let (a, p, h1) = bind-some (set_results fl accs no_field) _ after h in
        let (v, q, h2) =
          bind-some
            (evaluate_text fl letters parse_float (set_all doc (set_all results a)) c'.expression) _
            after h1 in
        elim (Bool-cases (is_empty (trim_space c'.compare_to))) [
          | inl blank ↦
              let e : after ≡ set_field c'.name v results = cc (rw blank at h2) in
              (
                v,
                e ∙ ap (λ n. set_field n v results) name_,
                inl (ap (λ f. is_empty (trim_space f)) (sym field_) ∙ blank),
              )
          | inr named ↦
              let (close, k, h3) = bind-some (is_close fl c' doc v) _ after (rw named at h2) in
              elim (Bool-cases close) [
                | inl close_ ↦
                    let e : after ≡ set_field c'.name v results = cc (rw close_ at h3) in
                    let (t, x, y, r, num, num', near) =
                      is_close-true c' doc v (k ∙ ap some close_) in
                    (
                      v,
                      e ∙ ap (λ n. set_field n v results) name_,
                      inr (t, x, y, ap (λ f. get_field f doc) (sym field_) ∙ r, num, num', near),
                    )
                | inr far ↦ cc (rw far at h3)
              ]
        ]

    -- The configuration's result, under its name
    abbrev Holds : Fields F → AggregationConfig F → Type 0
    Holds final c = (v : Value F) × (get_field c.name final ≡ some v) × IsCompared doc c v

    -- A later configuration of another name leaves a result as it is.
    kept :
        (configs : List (AggregationConfig F)) (name : Text) (results final : Fields F)
        → compute_aggregations fl letters parse_float accs doc configs results ≡ some final
        → All (λ other. other ≢ name) (map (λ (c : AggregationConfig F). c.name) configs)
        → get_field name final ≡ get_field name results
    unfolding compute_aggregations
    kept [] name results final h d = ap (get_field name) (sym (cc h))
    kept (c ∷ configs) name results final h d =
        let (mid, p, h') =
          bind-some (compute_aggregation fl letters parse_float accs doc c results) _ final h in
        let (v, e, _) = compute_aggregation-some c results mid p in
        kept configs name mid final h' d.1
        ∙ ap (get_field name) e
        ∙ get_field-set_field name c.name v results
        ∙ ground (arith, eq_text_iff c.name name, d.0)

    compute_aggregations-from :
        (configs : List (AggregationConfig F)) (results final : Fields F)
        → compute_aggregations fl letters parse_float accs doc configs results ≡ some final
        → IsDistinct (map (λ (c : AggregationConfig F). c.name) configs)
        → All (Holds final) configs
    unfolding compute_aggregations
    compute_aggregations-from [] results final h d = tt
    compute_aggregations-from (c ∷ configs) results final h d =
        let (mid, p, h') =
          bind-some (compute_aggregation fl letters parse_float accs doc c results) _ final h in
        let (v, e, m) = compute_aggregation-some c results mid p in
        (
          (
            v,
            kept configs c.name mid final h' d.0
                ∙ ap (get_field c.name) e
                ∙ get_field-set_field c.name c.name v results
                ∙ rw (eq_text_refl c.name) refl,
            m,
          ),
          compute_aggregations-from configs mid final h' d.1,
        )

    -- Where ComputeAggregations succeeds, for aggregations of different names: each has a result under
    -- its name in the end, and if it is to be compared, the result and the document's field are
    -- numbers that do not differ by more than the tolerance, which is 0.01 where none was given.
    pub compute_aggregations-IsCompared :
        (configs : List (AggregationConfig F)) (final : Fields F)
        → compute_aggregations fl letters parse_float accs doc configs no_field ≡ some final
        → IsDistinct (map (λ (c : AggregationConfig F). c.name) configs)
        → All (λ c. (v : Value F) × (get_field c.name final ≡ some v) × IsCompared doc c v) configs
    compute_aggregations-IsCompared configs final h d =
        compute_aggregations-from configs no_field final h d
