-- ===== src/Dsl/Accumulator/Summary.antt =====
-- What an accumulator returns is a summary of the records that pass its filter.
use sumpter.Base.{
  ℕ, suc, ◌+◌, ◌≡◌, refl, Bool, true, false, Option, none, some, List, [], ◌∷◌, ◌++◌, length, ◌>>=◌,
  ◌==◌, if◌then◌else◌, Bool-cases, inl, inr, Option-cases, arith,
}
use sumpter.Base.Int.{pos}
use sumpter.Dsl.{Text}
use sumpter.Dsl.Text.{codes, eq_text}
use sumpter.Dsl.Value.{Float64, Value, null, int, float64, Fields}
use sumpter.Dsl.Evaluator.{Letters}
use sumpter.Dsl.Accumulator.{
  Accumulator, is_counting, is_numeric, add_value, field_number, apply_operation, matches, update,
  get_result, reset,
}

module _ {F : Type 0} where
  -- The numbers of all records, in their order.
  unfoldable pub column : (Fields F → Option (List F)) → List (Fields F) → Option (List F)
  column of [] = some []
  column of (r ∷ rs) = do xs ← of r; ys ← column of rs; some (xs ++ ys)

  unfoldable pub number_of : (Fields F → Option Bool) → List (Fields F) → Option ℕ
  number_of passes [] = some 0
  number_of passes (r ∷ rs) = do
    b ← passes r
    n ← number_of passes rs
    some (if b then suc n else n)

  abbrev pub fold_left : (F → F → F) → F → List F → F
  fold_left f z [] = z
  fold_left f z (x ∷ xs) = fold_left f (f z x) xs

module _ {F : Type 0} (fl : Float64 F) where
  abbrev pub smaller : F → F → F
  smaller m x = if fl.lt x m then x else m

  abbrev pub larger : F → F → F
  larger m x = if fl.lt m x then x else m

  -- The answers for a list of numbers.
  unfoldable pub summarize : Text → List F → Value F
  summarize op xs =
      let sum = fold_left fl.add (fl.of_int (pos 0)) xs in
      let low = fold_left smaller fl.inf xs in
      let high = fold_left larger fl.neg_inf xs in
      if eq_text op (codes "sum")
      then float64 sum
      else if eq_text op (codes "min")
      then (if fl.is_inf low then null else float64 low)
      else if eq_text op (codes "max")
      then (if fl.is_neg_inf high then null else float64 high)
      else if length xs == 0
      then null
      else float64 (fl.div sum (fl.of_int (pos (length xs))))

  pub add_values : Accumulator F → List F → Accumulator F
  add_values acc [] = acc
  add_values acc (x ∷ xs) = add_values (add_value fl acc x) xs

  add_values-append :
      (acc : Accumulator F) (xs ys : List F)
      → add_values (add_values acc xs) ys ≡ add_values acc (xs ++ ys)
  unfolding add_values
  add_values-append acc [] ys = refl
  add_values-append acc (x ∷ xs) ys = add_values-append (add_value fl acc x) xs ys

  add_values-operation :
      (acc : Accumulator F) (xs : List F) → (add_values acc xs).operation ≡ acc.operation
  unfolding add_values add_value
  add_values-operation acc [] = refl
  add_values-operation acc (x ∷ xs) = add_values-operation (add_value fl acc x) xs

  add_values-sum :
      (acc : Accumulator F) (xs : List F) → (add_values acc xs).sum ≡ fold_left fl.add acc.sum xs
  unfolding add_values add_value
  add_values-sum acc [] = refl
  add_values-sum acc (x ∷ xs) = add_values-sum (add_value fl acc x) xs

  pub add_values-min :
      (acc : Accumulator F) (xs : List F) → (add_values acc xs).min ≡ fold_left smaller acc.min xs
  unfolding add_values add_value
  add_values-min acc [] = refl
  add_values-min acc (x ∷ xs) = add_values-min (add_value fl acc x) xs

  pub add_values-max :
      (acc : Accumulator F) (xs : List F) → (add_values acc xs).max ≡ fold_left larger acc.max xs
  unfolding add_values add_value
  add_values-max acc [] = refl
  add_values-max acc (x ∷ xs) = add_values-max (add_value fl acc x) xs

  pub add_values-count :
      (acc : Accumulator F) (xs : List F) → (add_values acc xs).count ≡ length xs + acc.count
  unfolding add_values add_value
  add_values-count acc [] = omega arith
  add_values-count acc (x ∷ xs) = omega (arith, add_values-count (add_value fl acc x) xs)

  module _ (letters : Letters) where
    -- One accumulator on all records.
    unfoldable pub run : Accumulator F → List (Fields F) → Option (Accumulator F)
    run acc [] = some acc
    run acc (r ∷ rs) = update fl letters acc r >>= λ acc'. run acc' rs

    abbrev as_list : Option F → List F
    as_list none = []
    as_list (some x) = x ∷ []

    -- What a record adds for an operation on numbers.
    unfoldable pub contribution : Accumulator F → Fields F → Option (List F)
    contribution acc r = matches fl letters acc r >>= λ passed. elim passed [
      | true ↦ (field_number fl acc r >>= λ o. some (as_list o))
      | false ↦ some []
    ]

    contribution-add_values :
        (acc : Accumulator F) (xs : List F) → contribution (add_values acc xs) ≡ contribution acc
    unfolding add_values add_value contribution matches field_number
    contribution-add_values acc [] = refl
    contribution-add_values acc (x ∷ xs) = contribution-add_values (add_value fl acc x) xs

    update-numeric :
        (acc : Accumulator F) (r : Fields F)
        → is_counting fl acc.operation ≡ false
        → is_numeric fl acc.operation ≡ true
        → update fl letters acc r ≡ (contribution acc r >>= λ xs. some (add_values acc xs))
    unfolding update apply_operation contribution add_values
    update-numeric acc r c n = elim (Option-cases (matches fl letters acc r)) [
      | inl m ↦ rw m refl
      | inr (false, m) ↦ rw m refl
      | inr (true, m) ↦ elim (Option-cases (field_number fl acc r)) [
        | inl e ↦ rw (m, c, n, e) refl
        | inr (none, e) ↦ rw (m, c, n, e) refl
        | inr (some x, e) ↦ rw (m, c, n, e) refl
      ]
    ]

    pub run-numeric :
        (acc : Accumulator F) (rs : List (Fields F))
        → is_counting fl acc.operation ≡ false
        → is_numeric fl acc.operation ≡ true
        → run acc rs ≡ (column (contribution acc) rs >>= λ xs. some (add_values acc xs))
    unfolding run column add_values
    run-numeric acc [] c n = refl
    run-numeric acc (r ∷ rs) c n = elim (Option-cases (contribution acc r)) [
      | inl e ↦ rw (update-numeric acc r c n, e) refl
      | inr (xs, e) ↦
          let op = add_values-operation acc xs in
          let rest = run-numeric (add_values acc xs) rs (rw op c) (rw op n) in
          let same = contribution-add_values acc xs in
          rw (update-numeric acc r c n, e, rest, same)
            (elim (Option-cases (column (contribution acc) rs)) [
              | inl f ↦ rw f refl
              | inr (ys, f) ↦ rw (f, add_values-append acc xs ys) refl
            ])
    ]

    run-counting :
        (acc : Accumulator F) (rs : List (Fields F))
        → is_counting fl acc.operation ≡ true
        → run acc rs ≡ (
            number_of (matches fl letters acc) rs >>= λ n.
            some (record acc { count = n + acc.count }))
    unfolding run number_of update apply_operation matches
    run-counting acc [] c = let e : 0 + acc.count ≡ acc.count = omega arith in rw e refl
    run-counting acc (r ∷ rs) c = elim (Option-cases (matches fl letters acc r)) [
      | inl m ↦ rw m refl
      | inr (false, m) ↦
          rw (m, run-counting acc rs c)
            (elim (Option-cases (number_of (matches fl letters acc) rs)) [
              | inl f ↦ rw f refl
              | inr (n, f) ↦ rw f refl
            ])
      | inr (true, m) ↦
          let more = record acc { count = suc acc.count } in
          let rest : run more rs ≡ (
              number_of (matches fl letters acc) rs >>= λ n.
              some (record acc { count = n + suc acc.count })) =
            run-counting more rs c in
          rw (m, c, rest)
            (elim (Option-cases (number_of (matches fl letters acc) rs)) [
              | inl f ↦ rw f refl
              | inr (n, f) ↦
                  let e : n + suc acc.count ≡ suc n + acc.count = omega arith in rw (f, e) refl
            ])
    ]

    -- What one accumulator gives for the records of a document.
    unfoldable pub summary : Accumulator F → List (Fields F) → Option (Value F)
    summary acc rs =
        if is_counting fl acc.operation
        then (number_of (matches fl letters acc) rs >>= λ n. some (int (pos n)))
        else if is_numeric fl acc.operation
        then (column (contribution acc) rs >>= λ xs. some (summarize acc.operation xs))
        else none

    get_result-counting :
        (acc : Accumulator F)
        → is_counting fl acc.operation ≡ true
        → get_result fl acc ≡ some (int (pos acc.count))
    unfolding get_result
    get_result-counting acc c = rw (get_result, c) refl

    get_result-numeric :
        (acc : Accumulator F) (xs : List F)
        → is_counting fl acc.operation ≡ false
        → is_numeric fl acc.operation ≡ true
        → get_result fl (add_values (reset fl acc) xs) ≡ some (summarize acc.operation xs)
    unfolding get_result summarize reset is_numeric
    get_result-numeric acc xs c n =
        let start = reset fl acc in
        let count : (add_values start xs).count ≡ length xs =
          omega (arith, add_values-count start xs) in
        rw
          (
            get_result,
            add_values-operation start xs,
            add_values-sum start xs,
            add_values-min start xs,
            add_values-max start xs,
            count,
            c,
          )
          (ground (arith, n))

    run-unknown :
        (acc : Accumulator F) (rs : List (Fields F))
        → is_counting fl acc.operation ≡ false
        → is_numeric fl acc.operation ≡ false
        → (run acc rs >>= λ acc'. get_result fl acc') ≡ none
    unfolding run get_result update apply_operation is_numeric
    run-unknown acc [] c n = rw (get_result, c) (ground (arith, n))
    run-unknown acc (r ∷ rs) c n = elim (Option-cases (matches fl letters acc r)) [
      | inl m ↦ rw m refl
      | inr (false, m) ↦ rw m (run-unknown acc rs c n)
      | inr (true, m) ↦ rw (m, c, is_numeric, n) refl
    ]

    -- An accumulator starts as Reset leaves it.
    pub run-summary :
        (acc : Accumulator F) (rs : List (Fields F))
        → (run (reset fl acc) rs >>= λ acc'. get_result fl acc') ≡ summary acc rs
    unfolding summary reset matches contribution field_number
    run-summary acc rs =
        let start = reset fl acc in
        elim (Bool-cases (is_counting fl acc.operation)) [
          | inl c ↦
              let counted : run start rs ≡ (
                  number_of (matches fl letters acc) rs >>= λ n.
                  some (record start { count = n + 0 })) =
                run-counting start rs c in
              rw (summary, counted, c)
                (elim (Option-cases (number_of (matches fl letters acc) rs)) [
                  | inl f ↦ rw f refl
                  | inr (n, f) ↦
                      let e : n + 0 ≡ n = omega arith in rw (f, e) (get_result-counting _ c)
                ])
          | inr c ↦ elim (Bool-cases (is_numeric fl acc.operation)) [
            | inl n ↦
                let added : run start rs
                    ≡ (column (contribution acc) rs >>= λ xs. some (add_values start xs)) =
                  run-numeric start rs c n in
                rw (summary, added, c, n)
                  (elim (Option-cases (column (contribution acc) rs)) [
                    | inl f ↦ rw f refl
                    | inr (xs, f) ↦ rw f (get_result-numeric acc xs c n)
                  ])
            | inr n ↦ rw (summary, c, n) (run-unknown start rs c n)
          ]
        ]
