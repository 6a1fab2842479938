-- ===== src/Dsl/Accumulator/Bounds.antt =====
-- The least and the greatest number of an accumulator, by two laws of `<` on float64 that hold for NaN too.
use mathlib.Core.Path.{subst}
use sumpter.Base.{
  ◌≡◌, refl, sym, ap, ◌∙◌, Bool, true, false, some, List, [], ◌∷◌, ◌>>=◌, if◌then◌else◌, Bool-cases,
  inl, inr, Option-cases, length, arith,
}
use sumpter.Base.Members.{All}
use sumpter.Dsl.Value.{Float64, Fields}
use sumpter.Dsl.Evaluator.{Letters}
use sumpter.Dsl.Accumulator.{Accumulator, is_counting, is_numeric, field_number, matches, reset}
use sumpter.Dsl.Accumulator.Summary.{
  fold_left, column, contribution, run, add_values, run-numeric, add_values-min, add_values-max,
  add_values-count,
}

-- The loop of Update's comparisons, for an order or its reverse.
module _ {F : Type 0} (before : F → F → Bool) (irreflexive : (x : F) → before x x ≡ false)
    (transitive : (x y z : F) → before x y ≡ true → before y z ≡ true → before x z ≡ true) where
  abbrev pub first_of : F → F → F
  first_of m x = if before x m then x else m

  first_of-keeps :
      (x m : F) (ys : List F) → before x m ≡ false → before x (fold_left first_of m ys) ≡ false
  first_of-keeps x m [] h = h
  first_of-keeps x m (y ∷ ys) h = elim (Bool-cases (before y m)) [
    | inl c ↦ rw c (
        first_of-keeps x y ys
          (elim (Bool-cases (before x y)) [ inl d ↦ cc (transitive x y m d c, h) | inr d ↦ d ]))
    | inr c ↦ rw c (first_of-keeps x m ys h)
  ]

  pub All-first_of :
      (m : F) (xs : List F) → All (λ x. before x (fold_left first_of m xs) ≡ false) xs
  All-first_of m [] = tt
  All-first_of m (x ∷ xs) = elim (Bool-cases (before x m)) [
    | inl c ↦
        let e : x ≡ first_of m x = rw c refl in
        subst (λ z. All (λ y. before y (fold_left first_of z xs) ≡ false) (x ∷ xs)) e
          (first_of-keeps x x xs (irreflexive x), All-first_of x xs)
    | inr c ↦
        let e : m ≡ first_of m x = rw c refl in
        subst (λ z. All (λ y. before y (fold_left first_of z xs) ≡ false) (x ∷ xs)) e
          (first_of-keeps x m xs c, All-first_of m xs)
  ]

module _ {F : Type 0} (fl : Float64 F) (letters : Letters) where
  -- After any records, for an operation on numbers: the accumulator's count is the number of those that
  -- the records that pass the filter have in its field, and none of these is below its least or above
  -- its greatest number, where `<` is irreflexive and transitive.
  pub run-bounds :
      (acc acc' : Accumulator F) (items : List (Fields F))
      → ((x : F) → fl.lt x x ≡ false)
      → ((x y z : F) → fl.lt x y ≡ true → fl.lt y z ≡ true → fl.lt x z ≡ true)
      → is_counting fl acc.operation ≡ false
      → is_numeric fl acc.operation ≡ true
      → run fl letters (reset fl acc) items ≡ some acc'
      → (xs : List F) × (column (contribution fl letters acc) items ≡ some xs)
        × (acc'.count ≡ length xs)
        × All (λ x. fl.lt x acc'.min ≡ false) xs
        × All (λ x. fl.lt acc'.max x ≡ false) xs
  unfolding reset contribution matches field_number
  run-bounds acc acc' items irreflexive transitive c n h =
      let start = reset fl acc in
      let ran : run fl letters start items
          ≡ (column (contribution fl letters acc) items >>= λ xs. some (add_values fl start xs)) =
        run-numeric fl letters start items c n in
      elim (Option-cases (column (contribution fl letters acc) items)) [
        | inl f ↦ cc (h, rw f at ran)
        | inr (xs, f) ↦
            let same : add_values fl start xs ≡ acc' = cc (h, rw f at ran) in
            let count : (add_values fl start xs).count ≡ length xs =
              omega (arith, add_values-count fl start xs) in
            (
              xs,
              f,
              ap (λ a. a.count) (sym same) ∙ count,
              rw (ap (λ a. a.min) (sym same) ∙ add_values-min fl start xs)
                  (All-first_of fl.lt irreflexive transitive fl.inf xs),
              rw (ap (λ a. a.max) (sym same) ∙ add_values-max fl start xs) (
                  All-first_of (λ x y. fl.lt y x) irreflexive (λ x y z p q. transitive z y x q p)
                    fl.neg_inf xs),
            )
      ]
