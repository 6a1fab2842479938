-- ===== src/ValueProfile/Snapshot/Guard.antt =====
-- What a profile shows of a field's values.
use mathlib.Core.Path.{subst}
use sumpter.Base.{
  ℕ, ◌≤◌, ◌≡◌, ◌⊎◌, refl, sym, ap, ◌∙◌, Bool, true, false, some, List, [], ◌∷◌, arith, leb,
  if◌then◌else◌, Bool-cases, inl, inr,
}
use sumpter.TextMap.{TextMap, lookup, eq_text_iff}
use sumpter.Dsl.{Text}
use sumpter.Dsl.Text.{eq_text}
use sumpter.Dsl.Value.{Float64}
use sumpter.ValueProfile.{Normalized}
use sumpter.ValueProfile.Collector.{Formats, FieldState, new_field_states}
use sumpter.ValueProfile.Collector.Inputs.{new_collector}
use sumpter.ValueProfile.Collector.History.{Call, history, no_history, perform_all, texts}
use sumpter.ValueProfile.Collector.Runs.{ValuesOf, run-IsStateOf, run-cfg}
use sumpter.ValueProfile.Counts.{tally, member, Unique, Counts}
use sumpter.ValueProfile.Snapshot.{
  FieldResult, allows_tier_a, is_quasi, large_cells, suppress_small_cells, tier_a, tier_b, result,
  results, snapshot,
}

-- The cells that stay are those of the map, and large.
lookup-large_cells :
    (threshold : ℕ) (m : TextMap ℕ) (t : Text) (n : ℕ)
    → Unique m
    → lookup t (large_cells threshold m) ≡ some n
    → (lookup t m ≡ some n) × (threshold ≤ n)
unfolding large_cells lookup
lookup-large_cells threshold [] t n u e = cc e
lookup-large_cells threshold ((k, v) ∷ m) t n (h, u) e = elim (Bool-cases (leb threshold v)) [
  | inl large ↦ elim (Bool-cases (eq_text k t)) [
    | inl same ↦
        let found : v ≡ n = cc (rw (large_cells, large, same) at e) in
        (rw same (ap some found), ground (arith, large, found))
    | inr other ↦
        let rest = lookup-large_cells threshold m t n u (rw (large_cells, large, other) at e) in
        (rw other rest.0, rest.1)
  ]
  | inr small ↦
      let (found, le) = lookup-large_cells threshold m t n u (rw (large_cells, small) at e) in
      elim (Bool-cases (eq_text k t)) [
        | inl same ↦
            let key : k ≡ t = (eq_text_iff k t).0 same in
            cc (ap (λ x. lookup x m) (sym key) ∙ h, found)
        | inr other ↦ (rw other found, le)
      ]
]

tally-member : (t : Text) (xs : List Text) → member t xs ≡ true → 1 ≤ tally t xs
tally-member t [] h = cc h
tally-member t (x ∷ xs) h = ground (arith, tally-member t xs, h)

Counts-some :
    (xs : List Text) (m : TextMap ℕ) (t : Text) (n : ℕ)
    → Counts xs m
    → lookup t m ≡ some n
    → (n ≡ tally t xs) × (1 ≤ n)
Counts-some xs m t n h e = elim (Bool-cases (member t xs)) [
  | inl k ↦
      let found : tally t xs ≡ n = cc (rw k at (h.tallied t), e) in
      (sym found, omega (arith, found, tally-member t xs k))
  | inr k ↦ cc (rw k at (h.tallied t), e)
]

lookup-shown :
    (quasi : Bool) (threshold : ℕ) (xs : List Text) (m : TextMap ℕ) (t : Text) (n : ℕ)
    → Counts xs m
    → lookup t (if quasi then suppress_small_cells threshold m else m) ≡ some n
    → (n ≡ tally t xs) × ((quasi ≡ false) ⊎ (threshold ≤ n))
unfolding suppress_small_cells
lookup-shown false threshold xs m t n h e = ((Counts-some xs m t n h e).0, inl refl)
lookup-shown true threshold xs m t n h e = elim (Bool-cases (leb threshold 1)) [
  | inl one ↦
      let (k, le) = Counts-some xs m t n h (rw (suppress_small_cells, one) at e) in
      (k, inr (ground (arith, one, le)))
  | inr more ↦
      let (found, le) =
        lookup-large_cells threshold m t n h.unique (rw (suppress_small_cells, more) at e) in
      ((Counts-some xs m t n h found).0, inr le)
]

module _ {F : Type 0} (fl : Float64 F) (formats : Formats F) where
  result-shown :
      (cfg : Normalized) (s : FieldState F) (xs : List Text) (m : TextMap ℕ) (t : Text) (n : ℕ)
      → ValuesOf fl formats s.capped xs s.distinct
      → (result fl cfg s).distinct ≡ some m
      → lookup t m ≡ some n
      → (allows_tier_a s.cfg ≡ true)
        × (s.capped ≡ false)
        × (n ≡ tally t xs)
        × ((is_quasi s.cfg ≡ false) ⊎ (cfg.small_cell_threshold ≤ n))
  unfolding result tier_a tier_b
  result-shown cfg s xs m t n values r e = elim (Bool-cases (allows_tier_a s.cfg)) [
    | inr no_tier ↦ cc (rw (result, no_tier) at r)
    | inl tier ↦ elim (Bool-cases s.capped) [
      | inl c ↦ cc (rw (result, tier, c) at r)
      | inr c ↦
          let kept : ValuesOf fl formats false xs s.distinct =
            subst (λ b. ValuesOf fl formats b xs s.distinct) c values in
          let (all, d, counts) = kept in
          let quasi = is_quasi s.cfg in
          let shown : (if quasi then suppress_small_cells cfg.small_cell_threshold all else all)
              ≡ m =
            cc (rw (result, tier, c, d) at r) in
          let (count, large) =
            lookup-shown quasi cfg.small_cell_threshold xs all t n counts
              (ap (lookup t) shown ∙ e) in
          (tier, c, count, large)
    ]
  ]

  lookup-results :
      (cfg : Normalized) (name : Text) (m : TextMap (FieldState F)) (r : FieldResult F)
      → lookup name (results fl cfg m) ≡ some r
      → (s : FieldState F) × (lookup name m ≡ some s) × (result fl cfg s ≡ r)
  unfolding lookup results
  lookup-results cfg name [] r e = cc e
  lookup-results cfg name ((j, s) ∷ m) r e = elim (Bool-cases (eq_text j name)) [
    | inl k ↦ (s, rw k refl, cc (rw (results, k) at e))
    | inr k ↦
        let (t, found, same) = lookup-results cfg name m r (rw (results, k) at e) in
        (t, rw k found, same)
  ]

  -- Whatever the calls of a new collector were: if its snapshot shows a value of a field, the field's
  -- configuration allows it (it is safe to profile, public or internal, and has no tag that forbids
  -- it), the number shown is that of the value in the committed data, and where the field is a quasi
  -- identifier or a linkage key, the number is not below the threshold for small cells.
  pub snapshot-shown :
      (cfg : Normalized) (calls : List (Call F)) (name : Text) (r : FieldResult F) (m : TextMap ℕ)
      (t : Text) (n : ℕ)
      → lookup name
          (snapshot fl (perform_all fl formats calls (new_collector fl formats cfg))).fields
        ≡ some r
      → r.distinct ≡ some m
      → lookup t m ≡ some n
      → (b : FieldState F) × (lookup name (new_field_states fl cfg.fields []) ≡ some b)
        × (allows_tier_a b.cfg ≡ true)
        × (n ≡ tally t (texts fl formats name (history calls no_history).durable))
        × ((is_quasi b.cfg ≡ false) ⊎ (cfg.small_cell_threshold ≤ n))
  unfolding snapshot
  snapshot-shown cfg calls name r m t n found shows e =
      let c = perform_all fl formats calls (new_collector fl formats cfg) in
      let (s, is, same) = lookup-results c.cfg name c.committed r found in
      let (b, o, measured, over, values) = run-IsStateOf fl formats cfg calls name s is in
      let own : s.cfg ≡ b.cfg = measured.0 in
      let xs = texts fl formats name (history calls no_history).durable in
      let of_result : (result fl cfg s).distinct ≡ some m =
        ap (λ k. (result fl k s).distinct) (sym (run-cfg fl formats cfg calls))
        ∙ ap (λ x. x.distinct) same
        ∙ shows in
      let (tier, _, count, large) = result-shown cfg s xs m t n values of_result e in
      (
        b,
        o,
        ap allows_tier_a (sym own) ∙ tier,
        count,
        subst (λ g. (is_quasi g ≡ false) ⊎ (cfg.small_cell_threshold ≤ n)) own large,
      )
