-- ===== src/Dsl/Accumulator/Document.antt =====
-- The accumulators of a document, from their configurations to the results of all.
use mathlib.Core.Path.{subst}
use sumpter.Base.{
  ◌≡◌, refl, sym, ap, true, false, Option, none, some, List, [], ◌∷◌, ◌>>=◌, Bool-cases, inl, inr,
  Option-cases,
}
use sumpter.TextMap.{TextMap, put}
use sumpter.Dsl.{Text, Expression}
use sumpter.Dsl.Text.{eq_text, trim_space}
use sumpter.Dsl.Scan.{is_empty}
use sumpter.Dsl.Parser.{parse_expression}
use sumpter.Dsl.Filter.{FilterExpression, parse_filter}
use sumpter.Dsl.Advanced.{is_advanced_filter}
use sumpter.Dsl.Value.{Float64, Value, Fields}
use sumpter.Dsl.Evaluator.{Letters}
use sumpter.Dsl.Accumulator.{
  AccumulationConfig, Accumulator, accumulator_of, new_accumulator, update, update_all,
  update_records, get_result, reset, initialize_accumulators, get_all_results,
}
use sumpter.Dsl.Accumulator.Summary.{run, summary, run-summary}

module _ {F : Type 0} (fl : Float64 F) where
  -- Every accumulator is as Reset leaves it.
  abbrev pub IsFresh : TextMap (Accumulator F) → Type 0
  IsFresh [] = Unit
  IsFresh ((name, acc) ∷ m) = (reset fl acc ≡ acc) × IsFresh m

  accumulator_of-reset :
      (config : AccumulationConfig) (f : Option (FilterExpression F)) (e : Option (Expression F))
      (acc : Accumulator F)
      → some (accumulator_of fl config f e) ≡ some acc
      → reset fl acc ≡ acc
  unfolding accumulator_of reset
  accumulator_of-reset config f e acc h =
      let same : accumulator_of fl config f e ≡ acc = cc h in subst (λ a. reset fl a ≡ a) same refl

  pub new_accumulator-reset :
      (parse_float : Text → Option F) (config : AccumulationConfig) (acc : Accumulator F)
      → new_accumulator fl parse_float config ≡ some acc
      → reset fl acc ≡ acc
  unfolding new_accumulator accumulator_of reset
  new_accumulator-reset parse_float config acc h = elim (Bool-cases (is_empty config.filter)) [
    | inl e ↦ accumulator_of-reset config none none acc (rw (new_accumulator, e) at h)
    | inr e ↦ elim (Option-cases (is_advanced_filter (trim_space config.filter))) [
      | inl f ↦ cc (rw (new_accumulator, e, f) at h)
      | inr (true, f) ↦
          elim (Option-cases (parse_expression parse_float (trim_space config.filter))) [
            | inl p ↦ cc (rw (new_accumulator, e, f, p) at h)
            | inr (x, p) ↦
                accumulator_of-reset config none (some x) acc (rw (new_accumulator, e, f, p) at h)
          ]
      | inr (false, f) ↦ elim (Option-cases (parse_filter parse_float (trim_space config.filter))) [
        | inl p ↦ cc (rw (new_accumulator, e, f, p) at h)
        | inr (x, p) ↦ accumulator_of-reset config x none acc (rw (new_accumulator, e, f, p) at h)
      ]
    ]
  ]

  put-IsFresh :
      (name : Text) (acc : Accumulator F) (m : TextMap (Accumulator F))
      → reset fl acc ≡ acc
      → IsFresh m
      → IsFresh (put name acc m)
  unfolding put
  put-IsFresh name acc [] e h = (e, tt)
  put-IsFresh name acc ((j, w) ∷ m) e (e', h) = elim (Bool-cases (eq_text j name)) [
    | inl same ↦ rw same (e, h)
    | inr other ↦ rw other (e', put-IsFresh name acc m e h)
  ]

  initialize_accumulators-IsFresh :
      (parse_float : Text → Option F) (configs : List AccumulationConfig)
      (m accs : TextMap (Accumulator F))
      → initialize_accumulators fl parse_float configs m ≡ some accs
      → IsFresh m
      → IsFresh accs
  unfolding initialize_accumulators
  initialize_accumulators-IsFresh parse_float [] m accs h f = subst IsFresh (cc h) f
  initialize_accumulators-IsFresh parse_float (c ∷ cs) m accs h f =
      elim (Option-cases (new_accumulator fl parse_float c)) [
        | inl e ↦ cc (rw (initialize_accumulators, e) at h)
        | inr (acc, e) ↦
            initialize_accumulators-IsFresh parse_float cs (put c.name acc m) accs
              (rw (initialize_accumulators, e) at h)
              (put-IsFresh c.name acc m (new_accumulator-reset parse_float c acc e) f)
      ]

  module _ (letters : Letters) where
    update_records-none : (items : List (Fields F)) → update_records fl letters [] items ≡ some []
    unfolding update_records update_all
    update_records-none [] = refl
    update_records-none (r ∷ rs) = update_records-none rs

    update_records-cons :
        (name : Text) (acc : Accumulator F) (m : TextMap (Accumulator F)) (items : List (Fields F))
        → update_records fl letters ((name, acc) ∷ m) items ≡ (
            run fl letters acc items >>= λ acc'.
            update_records fl letters m items >>= λ m'. some ((name, acc') ∷ m'))
    unfolding update_records update_all run
    update_records-cons name acc m [] = refl
    update_records-cons name acc m (r ∷ rs) = elim (Option-cases (update fl letters acc r)) [
      | inl e ↦ rw e refl
      | inr (acc', e) ↦ elim (Option-cases (update_all fl letters m r)) [
        | inl f ↦
            rw (e, f)
              (elim (Option-cases (run fl letters acc' rs)) [
                | inl g ↦ rw g refl
                | inr (acc'', g) ↦ rw g refl
              ])
        | inr (m', f) ↦ rw (e, f) (update_records-cons name acc' m' rs)
      ]
    ]

    -- The summaries of the records, by the accumulators' names.
    unfoldable pub summaries :
        TextMap (Accumulator F) → List (Fields F) → Option (TextMap (Value F))
    summaries [] items = some []
    summaries ((name, acc) ∷ m) items = do
      v ← summary fl letters acc items
      rest ← summaries m items
      some ((name, v) ∷ rest)

    records-summaries :
        (m : TextMap (Accumulator F)) (items : List (Fields F))
        → IsFresh m
        → (update_records fl letters m items >>= λ m'. get_all_results fl m') ≡ summaries m items
    unfolding summaries get_all_results
    records-summaries [] items f = rw (update_records-none items) refl
    records-summaries ((name, acc) ∷ m) items (e, f) =
        let start = reset fl acc in
        let own = run-summary fl letters acc items in
        let rest = records-summaries m items f in
        let same : run fl letters acc items ≡ run fl letters start items =
          ap (λ a. run fl letters a items) (sym e) in
        rw (update_records-cons name acc m items, same, sym own, sym rest)
          (elim (Option-cases (run fl letters start items)) [
            | inl g ↦ rw g refl
            | inr (acc', g) ↦ elim (Option-cases (update_records fl letters m items)) [
              | inl k ↦
                  rw (g, k)
                    (elim (Option-cases (get_result fl acc')) [
                      | inl o ↦ rw o refl
                      | inr (v, o) ↦ rw o refl
                    ])
              | inr (m', k) ↦ rw (g, k) refl
            ]
          ])

    -- From the configurations of a document's accumulators to the results of all: the loop over the
    -- records and GetAllResults after it give for each accumulator the summary of all records that pass
    -- its filter (their number, or the sum, the least, the greatest or the mean of the numbers in its
    -- field), and an error if and only if one of the summaries is an error.
    pub document-summaries :
        (parse_float : Text → Option F) (configs : List AccumulationConfig)
        (accs : TextMap (Accumulator F)) (items : List (Fields F))
        → initialize_accumulators fl parse_float configs [] ≡ some accs
        → (update_records fl letters accs items >>= λ accs'. get_all_results fl accs')
          ≡ summaries accs items
    document-summaries parse_float configs accs items h =
        records-summaries accs items
          (initialize_accumulators-IsFresh parse_float configs [] accs h tt)
