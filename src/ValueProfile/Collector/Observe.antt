-- ===== src/ValueProfile/Collector/Observe.antt =====
-- The state of a field against the list of the texts that it has observed, the last one first.
use mathlib.Core.Path.{subst}
use sumpter.Base.{
  ℕ, suc, ◌+◌, ◌-◌, ◌≤◌, ◌≡◌, refl, sym, ap, ◌∙◌, Bool, true, false, Option, none, some, List, [],
  ◌∷◌, length, arith, ltb, leb, ◌>>=◌, if◌then◌else◌, Bool-cases, inl, inr, Option-cases,
}
use sumpter.Base.Int.{two63}
use sumpter.TextMap.{TextMap, lookup, put}
use sumpter.RefTable.{is_some}
use sumpter.Dsl.{Text}
use sumpter.Dsl.Value.{Float64, Value}
use sumpter.ValueProfile.{FieldConfig}
use sumpter.ValueProfile.Collector.{
  Formats, ShapeAccumulator, FieldState, size_of, new_field_state, observe_shape, observe_numbers,
  to_float, observe_text, observe_distinct, observe_value,
}
use sumpter.ValueProfile.Counts.{
  cells-put, cells-length, kinds, Counts, Counts-none, Counts-put, Counts-length, Counts-is_some,
}

-- Of the lengths: the least, with the state's first value for none, the greatest, and the sum.
abbrev pub least : List Text → ℕ
least [] = two63 - 1
least (x ∷ xs) = let rest = least xs in if ltb (length x) rest then length x else rest

abbrev pub greatest : List Text → ℕ
greatest [] = 0
greatest (x ∷ xs) = let rest = greatest xs in if ltb rest (length x) then length x else rest

abbrev pub total_length : List Text → ℕ
total_length [] = 0
total_length (x ∷ xs) = total_length xs + length x

size_put :
    (k : Text) (v : ℕ) (m : TextMap ℕ)
    → length (put k v m) ≡ (if is_some (lookup k m) then length m else suc (length m))
size_put k v m =
    ground (arith, cells-put (λ t. true) k v m, cells-length m, cells-length (put k v m))

module _ {F : Type 0} where
  -- The field has been looked for `n` times, and found with the texts `xs`: what is counted of all of
  -- them, and of their lengths.
  abbrev pub IsMeasured : FieldConfig → ℕ → List Text → FieldState F → Type 0
  IsMeasured cfg n xs s =
      (s.cfg ≡ cfg)
      × (s.count ≡ n)
      × (s.null_count + length xs ≡ n)
      × (s.len_n ≡ length xs)
      × (s.len_min ≡ least xs)
      × (s.len_max ≡ greatest xs)
      × (s.len_sum ≡ total_length xs)

  -- The cap is reached where there are more different texts; if not, each is counted.
  abbrev pub IsCounted : ℕ → List Text → FieldState F → Type 0
  IsCounted max_distinct xs s =
      (s.capped ≡ ltb max_distinct (kinds (λ t. true) xs))
      × (s.capped ≡ true → s.distinct ≡ none)
      × (s.capped ≡ false → (m : TextMap ℕ) × (s.distinct ≡ some m) × Counts xs m)

  abbrev pub IsProfile : FieldConfig → ℕ → ℕ → List Text → FieldState F → Type 0
  IsProfile cfg max_distinct n xs s = IsMeasured cfg n xs s × IsCounted max_distinct xs s

  pub capped-IsCounted :
      (max : ℕ) (xs : List Text) (s : FieldState F)
      → s.capped ≡ true
      → s.distinct ≡ none
      → suc max ≤ kinds (λ t. true) xs
      → IsCounted max xs s
  capped-IsCounted max xs s c d h = (c ∙ ground (arith, h), (λ e. d), (λ e. cc (c, e)))

  pub kept-IsCounted :
      (max : ℕ) (xs : List Text) (s : FieldState F) (m : TextMap ℕ)
      → s.capped ≡ false
      → s.distinct ≡ some m
      → Counts xs m
      → length m ≤ max
      → IsCounted max xs s
  kept-IsCounted max xs s m c d h le =
      (c ∙ ground (arith, Counts-length xs m h, le), (λ e. cc (c, e)), (λ e. (m, d, h)))

  -- A state under the cap has no more values than the cap.
  pub IsCounted-le :
      (max : ℕ) (xs : List Text) (s : FieldState F) (m : TextMap ℕ)
      → IsCounted max xs s
      → s.capped ≡ false
      → Counts xs m
      → length m ≤ max
  IsCounted-le max xs s m (over, _, _) e h = ground (arith, over, e, Counts-length xs m h)

  pub IsCounted-more :
      (max : ℕ) (xs : List Text) (s : FieldState F)
      → IsCounted max xs s
      → s.capped ≡ true
      → suc max ≤ kinds (λ t. true) xs
  IsCounted-more max xs s (over, _, _) e = ground (arith, over, e)

module _ {F : Type 0} (fl : Float64 F) (formats : Formats F) where
  pub new_field_state-IsProfile :
      (cfg : FieldConfig) (max : ℕ) → IsProfile cfg max 0 [] (new_field_state fl cfg)
  unfolding new_field_state
  new_field_state-IsProfile cfg max = (
    (refl, refl, refl, refl, refl, refl, refl),
    (ground arith, (λ e. cc e), (λ e. ([], refl, Counts-none))),
  )

  -- The numbers change only the fields for numbers.
  pub observe_numbers-rest :
      (o : Option (F × F)) (s : FieldState F)
      → (a : F) × (b : F) × (c : Bool) × (d : Bool) × (observe_numbers fl formats o s
          ≡ record s { num_min = a; num_max = b; has_numeric = c; all_numeric = d })
  unfolding observe_numbers
  observe_numbers-rest none s = (s.num_min, s.num_max, s.has_numeric, false, refl)
  observe_numbers-rest (some (low, high)) s = elim (Bool-cases s.has_numeric) [
    | inl e ↦ (
      if fl.lt low s.num_min then low else s.num_min,
      if fl.lt s.num_max high then high else s.num_max,
      s.has_numeric,
      s.all_numeric,
      rw (observe_numbers, e) refl,
    )
    | inr e ↦ (low, high, true, s.all_numeric, rw (observe_numbers, e) refl)
  ]

  -- What holds of a state with its lengths updated, whatever its numbers and its shape are.
  observe_text-elim :
      (P : FieldState F → Type 0) (x : Text) (raw : Value F) (s : FieldState F)
      → ((a b : F) (c d : Bool) (sh : ShapeAccumulator)
          → P (record s {
            saw_non_empty = true;
            len_min = if ltb (length x) s.len_min then length x else s.len_min;
            len_max = if ltb s.len_max (length x) then length x else s.len_max;
            len_sum = s.len_sum + length x;
            len_n = suc s.len_n;
            num_min = a;
            num_max = b;
            has_numeric = c;
            all_numeric = d;
            shape = sh;
          }))
      → P (observe_text fl formats x raw s)
  unfolding observe_text
  observe_text-elim P x raw s h =
      let o : Option (F × F) = elim (to_float fl formats raw) [
        | none ↦ none
        | some f ↦ some (f, f)
      ] in
      let t = record s {
        saw_non_empty = true;
        len_min = if ltb (length x) s.len_min then length x else s.len_min;
        len_max = if ltb s.len_max (length x) then length x else s.len_max;
        len_sum = s.len_sum + length x;
        len_n = suc s.len_n;
      } in
      let (a, b, c, d, e) = observe_numbers-rest o t in
      subst (λ z. P (record z { shape = observe_shape fl formats z.shape x })) (sym e)
        (h a b c d (observe_shape fl formats s.shape x))

  observe_text-IsMeasured :
      (cfg : FieldConfig) (n : ℕ) (xs : List Text) (x : Text) (raw : Value F) (s : FieldState F)
      → IsMeasured cfg n xs s
      → IsMeasured cfg
          (suc n)
          (x ∷ xs)
          (observe_text fl formats x raw (record s { count = suc s.count }))
  observe_text-IsMeasured cfg n xs x raw s
        (config, counted, nulls, lengths, shortest, longest, all_lengths) =
      observe_text-elim (IsMeasured cfg (suc n) (x ∷ xs)) x raw (record s { count = suc s.count })
        (λ a b c d sh. (
          config,
          ap suc counted,
          omega (arith, nulls),
          ap suc lengths,
          ap (λ l. if ltb (length x) l then length x else l) shortest,
          ap (λ l. if ltb l (length x) then length x else l) longest,
          ap (λ l. l + length x) all_lengths,
        ))

  observe_distinct-IsCounted :
      (max : ℕ) (x : Text) (xs : List Text) (s : FieldState F)
      → IsCounted max xs s
      → IsCounted max (x ∷ xs) (observe_distinct fl formats max x s)
  unfolding observe_distinct
  observe_distinct-IsCounted max x xs s h = elim (Bool-cases s.capped) [
    | inl e ↦
        let same : observe_distinct fl formats max x s ≡ s = simp (observe_distinct, e) refl in
        subst (IsCounted max (x ∷ xs)) (sym same)
          (capped-IsCounted max (x ∷ xs) s e (h.1 e) (ground (arith, IsCounted-more max xs s h e)))
    | inr e ↦
        let (m, d, c) = h.2 e in
        let le = IsCounted-le max xs s m h e c in
        let put_one = Counts-put x xs m c in
        elim (Option-cases (lookup x m)) [
          | inr (v, found) ↦
              let same : observe_distinct fl formats max x s
                  ≡ record s { distinct = some (put x (suc v) m) } =
                rw (observe_distinct, e, d, found, d, e) refl in
              subst (IsCounted max (x ∷ xs)) (sym same) (
                kept-IsCounted max (x ∷ xs) (record s { distinct = some (put x (suc v) m) })
                  (put x (suc v) m) e refl (rw found at put_one)
                  (ground (arith, size_put x (suc v) m, found, le)))
          | inl absent ↦ elim (Bool-cases (leb max (length m))) [
            | inl full ↦
                let same : observe_distinct fl formats max x s
                    ≡ record s { capped = true; distinct = none } =
                  rw (observe_distinct, e, d, absent, d, full) refl in
                subst (IsCounted max (x ∷ xs)) (sym same) (
                  capped-IsCounted max (x ∷ xs) (record s { capped = true; distinct = none }) refl
                    refl
                    (ground (arith, Counts-is_some xs m x c, absent, Counts-length xs m c, full)))
            | inr room ↦
                let same : observe_distinct fl formats max x s
                    ≡ record s { distinct = some (put x 1 m) } =
                  rw (observe_distinct, e, d, absent, d, room, e) refl in
                subst (IsCounted max (x ∷ xs)) (sym same) (
                  kept-IsCounted max (x ∷ xs) (record s { distinct = some (put x 1 m) }) (put x 1 m)
                    e refl (rw absent at put_one) (ground (arith, size_put x 1 m, absent, room)))
          ]
        ]
  ]

  observe_distinct-rest :
      (max : ℕ) (x : Text) (s : FieldState F)
      → (d : Option (TextMap ℕ)) × (c : Bool) × (observe_distinct fl formats max x s
          ≡ record s { distinct = d; capped = c })
  unfolding observe_distinct
  observe_distinct-rest max x s = elim (Bool-cases s.capped) [
    | inl e ↦
        let same : observe_distinct fl formats max x s ≡ s = simp (observe_distinct, e) refl in
        (s.distinct, s.capped, same)
    | inr e ↦ elim (Option-cases (s.distinct >>= λ m. lookup x m)) [
      | inr (v, f) ↦
          (s.distinct >>= λ m. some (put x (suc v) m), s.capped, simp (observe_distinct, e, f) refl)
      | inl f ↦ elim (Bool-cases (leb max (size_of s.distinct))) [
        | inl full ↦ (none, true, simp (observe_distinct, e, f, full) refl)
        | inr room ↦ (
          s.distinct >>= λ m. some (put x 1 m),
          s.capped,
          simp (observe_distinct, e, f, room) refl,
        )
      ]
    ]
  ]

  observe_distinct-IsMeasured :
      (cfg : FieldConfig) (max n : ℕ) (x : Text) (xs : List Text) (s : FieldState F)
      → IsMeasured cfg n xs s
      → IsMeasured cfg n xs (observe_distinct fl formats max x s)
  observe_distinct-IsMeasured cfg max n x xs s h =
      let (d, c, e) = observe_distinct-rest max x s in subst (IsMeasured cfg n xs) (sym e) h

  -- A round of observeDataInto for a field that is found.
  pub observe_value-IsProfile :
      (cfg : FieldConfig) (max n : ℕ) (x : Text) (raw : Value F) (xs : List Text) (s : FieldState F)
      → IsProfile cfg max n xs s
      → IsProfile cfg max
          (suc n)
          (x ∷ xs)
          (observe_value fl formats max x raw (record s { count = suc s.count }))
  unfolding observe_value
  observe_value-IsProfile cfg max n x raw xs s (measured, counted) =
      let t = observe_text fl formats x raw (record s { count = suc s.count }) in
      let counted_still : IsCounted max xs t =
        observe_text-elim (IsCounted max xs) x raw (record s { count = suc s.count })
          (λ a b c d sh. counted) in
      (
        observe_distinct-IsMeasured cfg max (suc n) x (x ∷ xs) t
            (observe_text-IsMeasured cfg n xs x raw s measured),
        observe_distinct-IsCounted max x xs t counted_still,
      )
