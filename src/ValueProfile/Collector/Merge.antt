-- ===== src/ValueProfile/Collector/Merge.antt =====
-- The state of a field after an input is committed, against the texts of both.
use mathlib.Core.Path.{subst}
use sumpter.Base.{
  ℕ, suc, ◌+◌, ◌-◌, ◌≤◌, ◌≡◌, refl, sym, ap, ◌∙◌, Bool, true, false, not, ◌||◌, Option, none, some,
  List, [], ◌∷◌, ◌++◌, length, length-append, arith, ltb, if◌then◌else◌, Bool-cases, if-elim, inl,
  inr, Option-cases,
}
use sumpter.Base.Int.{two63}
use sumpter.TextMap.{TextMap, eq_text_iff}
use sumpter.Dsl.{Text}
use sumpter.Dsl.Text.{eq_text}
use sumpter.Dsl.Value.{Float64}
use sumpter.ValueProfile.{FieldConfig}
use sumpter.ValueProfile.Collector.{Formats, FieldState, or_empty}
use sumpter.ValueProfile.Collector.Merging.{
  merge_distinct, merge_values, merge_lengths, merge_numbers, merge_shape, merge_from,
}
use sumpter.ValueProfile.Collector.Observe.{
  least, greatest, total_length, IsMeasured, IsCounted, IsProfile, capped-IsCounted, kept-IsCounted,
  IsCounted-le, IsCounted-more, observe_numbers-rest,
}
use sumpter.ValueProfile.Counts.{kinds, member, Counts-length}
use sumpter.ValueProfile.Counts.Merged.{
  add_all, Counts-add_all, merge_distinct-add_all, kinds-append, member-append,
}

-- A text put in anywhere counts if it is new.
kinds-insert :
    (p : Text → Bool) (ys : List Text) (x : Text) (xs : List Text)
    → kinds p (ys ++ x ∷ xs)
      ≡ (if member x (ys ++ xs) || not (p x) then kinds p (ys ++ xs) else suc (kinds p (ys ++ xs)))
kinds-insert p [] x xs = refl
kinds-insert p (y ∷ ys) x xs =
    let rest = kinds-insert p ys x xs in
    let long = member-append y ys (x ∷ xs) in
    let short = member-append y ys xs in
    elim (Bool-cases (eq_text x y)) [
      | inl e ↦
          let same : x ≡ y = (eq_text_iff x y).0 e in
          ground (arith, rest, long, short, same, e, eq_text_iff y x, sym same)
      | inr e ↦
          let other : eq_text y x ≡ false = ground (arith, eq_text_iff x y, eq_text_iff y x, e) in
          ground (arith, rest, long, short, e, other)
    ]

append-nil : (ys : List Text) → ys ++ [] ≡ ys
append-nil [] = refl
append-nil (y ∷ ys) = ap (λ zs. y ∷ zs) (append-nil ys)

kinds-left : (p : Text → Bool) (ys xs : List Text) → kinds p ys ≤ kinds p (ys ++ xs)
kinds-left p ys [] = omega (arith, ap (kinds p) (append-nil ys))
kinds-left p ys (x ∷ xs) = ground (arith, kinds-left p ys xs, kinds-insert p ys x xs)

kinds-right : (p : Text → Bool) (ys xs : List Text) → kinds p xs ≤ kinds p (ys ++ xs)
kinds-right p ys xs = omega (arith, kinds-append p ys xs)

least-le : (xs : List Text) → least xs ≤ two63 - 1
least-le [] = omega arith
least-le (x ∷ xs) = ground (arith, least-le xs)

least-append :
    (ys xs : List Text)
    → least (ys ++ xs) ≡ (if ltb (least ys) (least xs) then least ys else least xs)
least-append [] xs = ground (arith, least-le xs)
least-append (y ∷ ys) xs = ground (arith, least-append ys xs)

greatest-append :
    (ys xs : List Text)
    → greatest (ys ++ xs) ≡ (if ltb (greatest xs) (greatest ys) then greatest ys else greatest xs)
greatest-append [] xs = ground arith
greatest-append (y ∷ ys) xs = ground (arith, greatest-append ys xs)

total_length-append :
    (ys xs : List Text) → total_length (ys ++ xs) ≡ total_length xs + total_length ys
total_length-append [] xs = omega arith
total_length-append (y ∷ ys) xs = omega (arith, total_length-append ys xs)

is_nil : (ys : List Text) → length ys ≡ 0 → ys ≡ []
is_nil [] e = refl
is_nil (y ∷ ys) e = absurd (omega (arith, e))

least-empty : (ys : List Text) → length ys ≡ 0 → least ys ≡ two63 - 1
least-empty ys e = ap least (is_nil ys e)

module _ {F : Type 0} (fl : Float64 F) (formats : Formats F) where
  merge_values-IsCounted :
      (max : ℕ) (xs ys : List Text) (s p : FieldState F)
      → IsCounted max xs s
      → IsCounted max ys p
      → IsCounted max (ys ++ xs) (merge_values fl formats max s p)
  unfolding merge_values
  merge_values-IsCounted max xs ys s p h g = elim (Bool-cases s.capped) [
    | inl e ↦
        let same : merge_values fl formats max s p ≡ s = simp (merge_values, e) refl in
        subst (IsCounted max (ys ++ xs)) (sym same) (
          capped-IsCounted max (ys ++ xs) s e (h.1 e)
            (omega (arith, IsCounted-more max xs s h e, kinds-right (λ t. true) ys xs)))
    | inr e ↦ elim (Bool-cases p.capped) [
      | inl f ↦
          let none_left = record s { capped = true; distinct = none } in
          let same : merge_values fl formats max s p ≡ none_left = simp (merge_values, e, f) refl in
          subst (IsCounted max (ys ++ xs)) (sym same) (
            capped-IsCounted max (ys ++ xs) none_left refl refl
              (omega (arith, IsCounted-more max ys p g f, kinds-left (λ t. true) ys xs)))
      | inr f ↦
          let (m, d, c) = h.2 e in
          let (m', d', c') = g.2 f in
          let all = Counts-add_all xs ys m m' c c' in
          let merged =
            merge_distinct-add_all fl formats max m m' c'.unique (IsCounted-le max xs s m h e c) in
          elim (Bool-cases (ltb max (length (add_all m m')))) [
            | inl full ↦
                let none_left = record s { capped = true; distinct = none } in
                let stops : merge_distinct fl formats max m m' ≡ none = merged ∙ rw full refl in
                let same : merge_values fl formats max s p ≡ none_left =
                  simp (merge_values, e, f, d', d, stops) refl in
                subst (IsCounted max (ys ++ xs)) (sym same) (
                  capped-IsCounted max (ys ++ xs) none_left refl refl
                    (ground (arith, Counts-length (ys ++ xs) (add_all m m') all, full)))
            | inr room ↦
                let with_all = record s { distinct = some (add_all m m') } in
                let ends : merge_distinct fl formats max m m' ≡ some (add_all m m') =
                  merged ∙ rw room refl in
                let same : merge_values fl formats max s p ≡ with_all =
                  simp (merge_values, e, f, d', d, ends, e) refl in
                subst (IsCounted max (ys ++ xs)) (sym same) (
                  kept-IsCounted max (ys ++ xs) with_all (add_all m m') e refl all
                    (ground (arith, room)))
          ]
    ]
  ]

  merge_values-rest :
      (max : ℕ) (s p : FieldState F)
      → (d : Option (TextMap ℕ)) × (c : Bool) × (merge_values fl formats max s p
          ≡ record s { distinct = d; capped = c })
  unfolding merge_values
  merge_values-rest max s p = elim (Bool-cases s.capped) [
    | inl e ↦
        let same : merge_values fl formats max s p ≡ s = simp (merge_values, e) refl in
        (s.distinct, s.capped, same)
    | inr e ↦ elim (Bool-cases p.capped) [
      | inl f ↦ (none, true, simp (merge_values, e, f) refl)
      | inr f ↦ elim (Option-cases p.distinct) [
        | inl d ↦
            let same : merge_values fl formats max s p ≡ s = simp (merge_values, e, f, d) refl in
            (s.distinct, s.capped, same)
        | inr (m, d) ↦ elim (Option-cases (merge_distinct fl formats max (or_empty s.distinct) m)) [
          | inl k ↦ (none, true, simp (merge_values, e, f, d, k) refl)
          | inr (m', k) ↦ (some m', s.capped, simp (merge_values, e, f, d, k) refl)
        ]
      ]
    ]
  ]

  merge_numbers-rest :
      (s p : FieldState F)
      → (a : F) × (b : F) × (c : Bool) × (d : Bool) × (merge_numbers fl formats s p
          ≡ record s { num_min = a; num_max = b; has_numeric = c; all_numeric = d })
  unfolding merge_numbers
  merge_numbers-rest s p = elim (Bool-cases p.has_numeric) [
    | inl e ↦
        let finish : FieldState F → FieldState F =
          λ t. record t { all_numeric = if p.all_numeric then t.all_numeric else false } in
        let (a, b, c, d, q) = observe_numbers-rest fl formats (some (p.num_min, p.num_max)) s in
        (a, b, c, if p.all_numeric then d else false, rw (merge_numbers, e) (ap finish q))
    | inr e ↦ (
      s.num_min,
      s.num_max,
      s.has_numeric,
      if p.all_numeric then s.all_numeric else false,
      rw (merge_numbers, e) refl,
    )
  ]

  -- The lengths of two lists of texts.
  merge_lengths-IsMeasured :
      (cfg : FieldConfig) (n k : ℕ) (xs ys : List Text) (s p : FieldState F) (seen : Bool)
      → IsMeasured cfg n xs s
      → IsMeasured cfg k ys p
      → IsMeasured cfg (n + k) (ys ++ xs) (
          merge_lengths fl formats
            (record s {
              count = s.count + p.count;
              null_count = s.null_count + p.null_count;
              saw_non_empty = seen;
            })
            p)
  unfolding merge_lengths
  merge_lengths-IsMeasured cfg n k xs ys s p seen
        (config, counted, nulls, lengths, shortest, longest, all_lengths)
        (config', counted', nulls', lengths', shortest', longest', all_lengths') =
      elim (Bool-cases (ltb 0 p.len_n)) [
        | inl e ↦
            rw (merge_lengths, e)
              (
                config,
                omega (arith, counted, counted'),
                omega (arith, nulls, nulls', length-append ys xs),
                omega (arith, lengths, lengths', length-append ys xs),
                ground (
                  arith,
                  lengths,
                  shortest,
                  shortest',
                  least-empty xs,
                  least-append ys xs,
                  least-le ys,
                ),
                ground (arith, longest, longest', greatest-append ys xs),
                omega (arith, all_lengths, all_lengths', total_length-append ys xs),
              )
        | inr e ↦
            let same : ys ≡ [] = is_nil ys (ground (arith, e, lengths')) in
            let none_more : length ys ≡ 0 = ap length same in
            rw (merge_lengths, e, same)
              (
                config,
                omega (arith, counted, counted'),
                omega (arith, nulls, nulls', none_more),
                lengths,
                shortest,
                longest,
                all_lengths,
              )
      ]

  merge_lengths-IsCounted :
      (max : ℕ) (xs : List Text) (s p : FieldState F)
      → IsCounted max xs s
      → IsCounted max xs (merge_lengths fl formats s p)
  unfolding merge_lengths
  merge_lengths-IsCounted max xs s p h =
      if-elim (IsCounted max xs) (ltb 0 p.len_n) (λ e. h) (λ e. h)

  -- CommitInput for a field.
  pub merge_from-IsProfile :
      (cfg : FieldConfig) (max n k : ℕ) (xs ys : List Text) (s p : FieldState F)
      → IsProfile cfg max n xs s
      → IsProfile cfg max k ys p
      → IsProfile cfg max (n + k) (ys ++ xs) (merge_from fl formats max s p)
  unfolding merge_from
  merge_from-IsProfile cfg max n k xs ys s p (measured, counted) (measured', counted') =
      let start = record s {
        count = s.count + p.count;
        null_count = s.null_count + p.null_count;
        saw_non_empty = s.saw_non_empty || p.saw_non_empty;
      } in
      let t = merge_lengths fl formats start p in
      let t_measured =
        merge_lengths-IsMeasured cfg n k xs ys s p (s.saw_non_empty || p.saw_non_empty) measured
          measured' in
      let t_counted = merge_lengths-IsCounted max xs start p counted in
      let (a, b, c, d, e) = merge_numbers-rest t p in
      let u = merge_numbers fl formats t p in
      let u_both : IsMeasured cfg (n + k) (ys ++ xs) u × IsCounted max xs u =
        subst (λ z. IsMeasured cfg (n + k) (ys ++ xs) z × IsCounted max xs z) (sym e)
          (t_measured, t_counted) in
      let v = record u { shape = merge_shape fl formats u.shape p.shape } in
      let (distinct, capped, q) = merge_values-rest max v p in
      (
        subst (IsMeasured cfg (n + k) (ys ++ xs)) (sym q) u_both.0,
        merge_values-IsCounted max xs ys v p u_both.1 counted',
      )
