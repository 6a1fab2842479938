-- ===== src/ValueProfile/Collector/Holds.antt =====
-- The states of all fields, as they are looked up by name, after an observation and a commit.
use sumpter.Base.{
  ℕ, suc, ◌+◌, ◌≡◌, refl, sym, ap, ◌∙◌, Option, none, some, List, [], ◌∷◌, ◌++◌, length,
  length-append, arith, Bool-cases, inl, inr, Option-cases,
}
use sumpter.TextMap.{TextMap, lookup, put, lookup-put, eq_text_iff}
use sumpter.Dsl.{Text}
use sumpter.Dsl.Text.{eq_text}
use sumpter.Dsl.Value.{Float64, Value, Fields, get_field}
use sumpter.ValueProfile.{FieldConfig}
use sumpter.ValueProfile.Collector.{
  Formats, FieldState, new_field_states, stringify_value, present, observe_field, observe_data_into,
}
use sumpter.ValueProfile.Collector.Merging.{merge_from, merge_all}
use sumpter.ValueProfile.Collector.Observe.{IsProfile, observe_value-IsProfile}
use sumpter.ValueProfile.Collector.Merge.{merge_from-IsProfile}
use sumpter.ValueProfile.Collector.History.{
  add_text, texts, texts-append, Matches, Holds, new_field_states-AllNew,
}
use sumpter.ValueProfile.Counts.{Unique, put-Unique}

module _ {F : Type 0} (fl : Float64 F) (formats : Formats F) where
  observe_field-IsProfile :
      (cfg : FieldConfig) (max n : ℕ) (found : Option (Value F)) (xs : List Text) (s : FieldState F)
      → IsProfile cfg max n xs s
      → IsProfile cfg max
          (suc n)
          (add_text fl formats (present fl formats found) xs)
          (observe_field fl formats max found s)
  unfolding observe_field
  observe_field-IsProfile cfg max n found xs s h = elim (Option-cases (present fl formats found)) [
    | inr (raw, e) ↦
        rw (observe_field, e)
          (observe_value-IsProfile fl formats cfg max n (stringify_value fl formats raw) raw xs s h)
    | inl e ↦
        let ((config, counted, nulls, lengths, shortest, longest, all_lengths), values) = h in
        rw (observe_field, e)
          (
            (config, ap suc counted, omega (arith, nulls), lengths, shortest, longest, all_lengths),
            values,
          )
  ]

  abbrev observed : ℕ → Option (Value F) → Option (FieldState F) → Option (FieldState F)
  observed max found none = none
  observed max found (some s) = some (observe_field fl formats max found s)

  lookup-observe_data_into :
      (name : Text) (m : TextMap (FieldState F)) (d : Fields F) (max : ℕ)
      → lookup name (observe_data_into fl formats m d max)
        ≡ observed max (get_field name d) (lookup name m)
  unfolding lookup observe_data_into
  lookup-observe_data_into name [] d max = refl
  lookup-observe_data_into name ((j, s) ∷ m) d max = elim (Bool-cases (eq_text j name)) [
    | inl e ↦ let same : j ≡ name = (eq_text_iff j name).0 e in rw (e, same) refl
    | inr e ↦ rw e (lookup-observe_data_into name m d max)
  ]

  observe_data_into-Unique :
      (m : TextMap (FieldState F)) (d : Fields F) (max : ℕ)
      → Unique m
      → Unique (observe_data_into fl formats m d max)
  unfolding observe_data_into
  observe_data_into-Unique [] d max u = tt
  observe_data_into-Unique ((j, s) ∷ m) d max (e, u) =
      (lookup-observe_data_into j m d max ∙ rw e refl, observe_data_into-Unique m d max u)

  observed-Matches :
      (max : ℕ) (name : Text) (ds : List (Fields F)) (d : Fields F) (o o' : Option (FieldState F))
      → Matches fl formats max name ds o o'
      → Matches fl formats max name (d ∷ ds) o (observed max (get_field name d) o')
  observed-Matches max name ds d none none h = h
  observed-Matches max name ds d none (some t) h = h
  observed-Matches max name ds d (some s) none h = h
  observed-Matches max name ds d (some s) (some t) h =
      observe_field-IsProfile s.cfg max (length ds) (get_field name d) (texts fl formats name ds) t
        h

  pub observe_data_into-Holds :
      (max : ℕ) (base : TextMap (FieldState F)) (ds : List (Fields F)) (m : TextMap (FieldState F))
      (d : Fields F)
      → Holds fl formats max base ds m
      → Holds fl formats max base (d ∷ ds) (observe_data_into fl formats m d max)
  observe_data_into-Holds max base ds m d (u, h) = (
    observe_data_into-Unique m d max u,
    λ name.
        rw (lookup-observe_data_into name m d max)
          (observed-Matches max name ds d (lookup name base) (lookup name m) (h name)),
  )

  abbrev merged : ℕ → Option (FieldState F) → Option (FieldState F) → Option (FieldState F)
  merged max none p = none
  merged max (some s) none = some s
  merged max (some s) (some p) = some (merge_from fl formats max s p)

  merged-none : (max : ℕ) (o : Option (FieldState F)) → o ≡ merged max o none
  merged-none max none = refl
  merged-none max (some s) = refl

  lookup-merge_all :
      (name : Text) (max : ℕ) (m staged : TextMap (FieldState F))
      → Unique staged
      → lookup name (merge_all fl formats max m staged)
        ≡ merged max (lookup name m) (lookup name staged)
  unfolding lookup merge_all
  lookup-merge_all name max m [] u = merged-none max (lookup name m)
  lookup-merge_all name max m ((j, p) ∷ staged) (e, u) = elim (Option-cases (lookup j m)) [
    | inl f ↦ elim (Bool-cases (eq_text j name)) [
      | inl k ↦
          let same : j ≡ name = (eq_text_iff j name).0 k in
          let gone : lookup name m ≡ none = ap (λ x. lookup x m) (sym same) ∙ f in
          rw (merge_all, f, k) (lookup-merge_all name max m staged u ∙ rw gone refl)
      | inr k ↦ rw (merge_all, f, k) (lookup-merge_all name max m staged u)
    ]
    | inr (s, f) ↦
        let v = merge_from fl formats max s p in
        let rest = lookup-merge_all name max (put j v m) staged u in
        elim (Bool-cases (eq_text j name)) [
          | inl k ↦
              let same : j ≡ name = (eq_text_iff j name).0 k in
              let gone : lookup name staged ≡ none = ap (λ x. lookup x staged) (sym same) ∙ e in
              let found : lookup name m ≡ some s = ap (λ x. lookup x m) (sym same) ∙ f in
              rw (merge_all, f, k) (rest ∙ rw (lookup-put name j v m, k, gone, found) refl)
          | inr k ↦ rw (merge_all, f, k) (rest ∙ rw (lookup-put name j v m, k) refl)
        ]
  ]

  merge_all-Unique :
      (max : ℕ) (m staged : TextMap (FieldState F))
      → Unique m
      → Unique (merge_all fl formats max m staged)
  unfolding merge_all
  merge_all-Unique max m [] u = u
  merge_all-Unique max m ((j, p) ∷ staged) u = elim (Option-cases (lookup j m)) [
    | inl f ↦ rw (merge_all, f) (merge_all-Unique max m staged u)
    | inr (s, f) ↦
        let v = merge_from fl formats max s p in
        rw (merge_all, f) (merge_all-Unique max (put j v m) staged (put-Unique j v m u))
  ]

  merged-Matches :
      (max : ℕ) (name : Text) (ds es : List (Fields F)) (o p q : Option (FieldState F))
      → Matches fl formats max name ds o p
      → Matches fl formats max name es o q
      → Matches fl formats max name (es ++ ds) o (merged max p q)
  merged-Matches max name ds es none none q h g = h
  merged-Matches max name ds es none (some s) q h g = absurd h
  merged-Matches max name ds es (some b) none q h g = absurd h
  merged-Matches max name ds es (some b) (some s) none h g = absurd g
  merged-Matches max name ds es (some b) (some s) (some p) h g =
      let size : length ds + length es ≡ length (es ++ ds) = omega (arith, length-append es ds) in
      rw (texts-append fl formats name es ds, sym size)
        (merge_from-IsProfile fl formats b.cfg max (length ds) (length es)
          (texts fl formats name ds) (texts fl formats name es) s p h g)

  pub merge_all-Holds :
      (max : ℕ) (base : TextMap (FieldState F)) (ds es : List (Fields F))
      (m staged : TextMap (FieldState F))
      → Holds fl formats max base ds m
      → Holds fl formats max base es staged
      → Holds fl formats max base (es ++ ds) (merge_all fl formats max m staged)
  merge_all-Holds max base ds es m staged (u, h) (v, g) = (
    merge_all-Unique max m staged u,
    λ name. rw (lookup-merge_all name max m staged v) (
        merged-Matches max name ds es (lookup name base) (lookup name m) (lookup name staged)
          (h name) (g name)),
  )

  new-Matches :
      (max : ℕ) (name : Text) (m : TextMap (FieldState F)) (o : Option (FieldState F))
      → ((s : FieldState F) → o ≡ some s → IsProfile s.cfg max 0 [] s)
      → Matches fl formats max name [] o o
  new-Matches max name m none h = tt
  new-Matches max name m (some s) h = h s refl

  pub new-Holds :
      (max : ℕ) (fields : List FieldConfig)
      → Holds fl formats max (new_field_states fl fields []) [] (new_field_states fl fields [])
  unfolding lookup
  new-Holds max fields =
      let base = new_field_states fl fields [] in
      let (u, h) = new_field_states-AllNew fl formats max fields [] (tt, λ name s e. cc e) in
      (u, λ name. new-Matches max name base (lookup name base) (h name))
