-- ===== src/ValueProfile/Collector/Runs.antt =====
-- Every call keeps the states in step with the history.
use mathlib.Core.Path.{subst}
use sumpter.Base.{
  ℕ, ◌≡◌, refl, sym, ap, ◌∙◌, Bool, true, false, Option, none, some, List, [], ◌∷◌, length, ltb,
}
use sumpter.TextMap.{TextMap, lookup}
use sumpter.Dsl.{Text}
use sumpter.Dsl.Value.{Float64, Fields}
use sumpter.ValueProfile.{Normalized}
use sumpter.ValueProfile.Collector.{Formats, FieldState, new_field_states, observe_data_into}
use sumpter.ValueProfile.Collector.Inputs.{
  Collector, new_collector, begin_input, begin_input_if_needed, commit_input, discard_input,
  observe_data,
}
use sumpter.ValueProfile.Collector.Observe.{IsMeasured, IsCounted}
use sumpter.ValueProfile.Collector.History.{
  Call, begin, begin_if_needed, observe, commit, discard, History, after, history, no_history,
  perform, perform_all, texts, Matches, Holds,
}
use sumpter.ValueProfile.Collector.Holds.{observe_data_into-Holds, merge_all-Holds, new-Holds}
use sumpter.ValueProfile.Counts.{kinds, Counts}

module _ {F : Type 0} (fl : Float64 F) (formats : Formats F) where
  -- The open input's states, if one is open.
  abbrev StagedHolds :
      ℕ
      → TextMap (FieldState F)
      → Option (List (Fields F))
      → Option (TextMap (FieldState F))
      → Type 0
  StagedHolds max base none none = Unit
  StagedHolds max base none (some m) = ⊥
  StagedHolds max base (some ds) none = ⊥
  StagedHolds max base (some ds) (some m) = Holds fl formats max base ds m

  abbrev InStep : Normalized → History F → Collector F → Type 0
  InStep cfg h c =
      let base = new_field_states fl cfg.fields [] in
      (c.cfg ≡ cfg)
      × Holds fl formats cfg.max_distinct base h.durable c.committed
      × StagedHolds cfg.max_distinct base h.pending c.staged

  -- One call, by what is pending and what is staged.
  step-InStep :
      (cfg : Normalized) (call : Call F) (durable : List (Fields F))
      (pending : Option (List (Fields F))) (committed : TextMap (FieldState F))
      (staged : Option (TextMap (FieldState F)))
      → InStep cfg
          (record { durable = durable; pending = pending })
          (record { cfg = cfg; committed = committed; staged = staged })
      → InStep cfg
          (after call (record { durable = durable; pending = pending }))
          (perform fl formats call (record { cfg = cfg; committed = committed; staged = staged }))
  unfolding perform begin_input begin_input_if_needed observe_data commit_input discard_input
  step-InStep cfg begin durable pending committed staged (e, h, g) =
      (refl, h, new-Holds fl formats cfg.max_distinct cfg.fields)
  step-InStep cfg begin_if_needed durable none committed none (e, h, g) =
      (refl, h, new-Holds fl formats cfg.max_distinct cfg.fields)
  step-InStep cfg begin_if_needed durable none committed (some m) (e, h, g) = absurd g
  step-InStep cfg begin_if_needed durable (some ds) committed none (e, h, g) = absurd g
  step-InStep cfg begin_if_needed durable (some ds) committed (some m) (e, h, g) = (refl, h, g)
  step-InStep cfg (observe d) durable none committed none (e, h, g) = (
    refl,
    observe_data_into-Holds fl formats cfg.max_distinct (new_field_states fl cfg.fields []) durable
        committed d h,
    tt,
  )
  step-InStep cfg (observe d) durable none committed (some m) (e, h, g) = absurd g
  step-InStep cfg (observe d) durable (some ds) committed none (e, h, g) = absurd g
  step-InStep cfg (observe d) durable (some ds) committed (some m) (e, h, g) = (
    refl,
    h,
    observe_data_into-Holds fl formats cfg.max_distinct (new_field_states fl cfg.fields []) ds m d
        g,
  )
  step-InStep cfg commit durable none committed none (e, h, g) = (refl, h, g)
  step-InStep cfg commit durable none committed (some m) (e, h, g) = absurd g
  step-InStep cfg commit durable (some ds) committed none (e, h, g) = absurd g
  step-InStep cfg commit durable (some ds) committed (some m) (e, h, g) = (
    refl,
    merge_all-Holds fl formats cfg.max_distinct (new_field_states fl cfg.fields []) durable ds
        committed m h g,
    tt,
  )
  step-InStep cfg discard durable pending committed staged (e, h, g) = (refl, h, tt)

  perform-InStep :
      (cfg : Normalized) (call : Call F) (h : History F) (c : Collector F)
      → InStep cfg h c
      → InStep cfg (after call h) (perform fl formats call c)
  perform-InStep cfg call h c s =
      subst (λ k. InStep k h c → InStep k (after call h) (perform fl formats call c)) s.0
        (step-InStep c.cfg call h.durable h.pending c.committed c.staged) s

  run-InStep :
      (cfg : Normalized) (calls : List (Call F)) (h : History F) (c : Collector F)
      → InStep cfg h c
      → InStep cfg (history calls h) (perform_all fl formats calls c)
  unfolding perform_all
  run-InStep cfg [] h c s = s
  run-InStep cfg (call ∷ calls) h c s =
      run-InStep cfg calls (after call h) (perform fl formats call c)
        (perform-InStep cfg call h c s)

  -- The values of a field: none are left where the cap is reached, and each is counted where it is not.
  abbrev pub ValuesOf : Bool → List Text → Option (TextMap ℕ) → Type 0
  ValuesOf true xs distinct = distinct ≡ none
  ValuesOf false xs distinct = (m : TextMap ℕ) × (distinct ≡ some m) × Counts xs m

  IsCounted-ValuesOf :
      (max : ℕ) (xs : List Text) (s : FieldState F)
      → IsCounted max xs s
      → ValuesOf s.capped xs s.distinct
  IsCounted-ValuesOf max xs s (over, dropped, kept) = by_cap s.capped dropped kept
    where
      by_cap :
          (b : Bool)
          → (b ≡ true → s.distinct ≡ none)
          → (b ≡ false → (m : TextMap ℕ) × (s.distinct ≡ some m) × Counts xs m)
          → ValuesOf b xs s.distinct
      by_cap true d k = d refl
      by_cap false d k = k refl

  -- A state that was `o` at the start is that of the data `ds`.
  abbrev pub IsStateOf : Option (FieldState F) → ℕ → Text → List (Fields F) → FieldState F → Type 0
  IsStateOf o max name ds s =
      let xs = texts fl formats name ds in
      (b : FieldState F) × (o ≡ some b)
      × IsMeasured b.cfg (length ds) xs s
      × (s.capped ≡ ltb max (kinds (λ t. true) xs))
      × ValuesOf s.capped xs s.distinct

  Matches-IsStateOf :
      (max : ℕ) (name : Text) (ds : List (Fields F)) (o o' : Option (FieldState F))
      (s : FieldState F)
      → Matches fl formats max name ds o o'
      → o' ≡ some s
      → IsStateOf o max name ds s
  Matches-IsStateOf max name ds none none s h e = cc e
  Matches-IsStateOf max name ds none (some t) s h e = absurd h
  Matches-IsStateOf max name ds (some b) none s h e = absurd h
  Matches-IsStateOf max name ds (some b) (some t) s (measured, counted) e =
      let same : t ≡ s = cc e in
      subst (IsStateOf (some b) max name ds) same
        (b, refl, measured, counted.0, IsCounted-ValuesOf max (texts fl formats name ds) t counted)

  -- Whatever the calls of a new collector were, the committed state of a field is that of the data of
  -- the committed inputs, and of those observed with no input open: it counts them, those in which the
  -- field is null or missing, and the lengths of the texts in the others; it has reached the cap exactly
  -- if there are more different texts than the cap allows; and if it has not, each text is counted.
  pub run-IsStateOf :
      (cfg : Normalized) (calls : List (Call F)) (name : Text) (s : FieldState F)
      → lookup name (perform_all fl formats calls (new_collector fl formats cfg)).committed ≡ some s
      → IsStateOf
          (lookup name (new_field_states fl cfg.fields []))
          cfg.max_distinct
          name
          (history calls no_history).durable
          s
  unfolding new_collector
  run-IsStateOf cfg calls name s e =
      let c = perform_all fl formats calls (new_collector fl formats cfg) in
      let step =
        run-InStep cfg calls no_history (new_collector fl formats cfg)
          (refl, new-Holds fl formats cfg.max_distinct cfg.fields, tt) in
      Matches-IsStateOf cfg.max_distinct name (history calls no_history).durable
        (lookup name (new_field_states fl cfg.fields [])) (lookup name c.committed) s
        (step.1.1 name) e

  -- The configuration is that of the collector's start.
  pub run-cfg :
      (cfg : Normalized) (calls : List (Call F))
      → (perform_all fl formats calls (new_collector fl formats cfg)).cfg ≡ cfg
  unfolding new_collector
  run-cfg cfg calls =
      (run-InStep cfg calls no_history (new_collector fl formats cfg)
        (refl, new-Holds fl formats cfg.max_distinct cfg.fields, tt)).0

  -- The observations of an open input, and then its end.
  abbrev pub observe_then : List (Fields F) → Call F → List (Call F)
  observe_then [] last = last ∷ []
  observe_then (d ∷ ds) last = observe d ∷ observe_then ds last

  pending_discard :
      (ds : List (Fields F)) (c : Collector F) (m : TextMap (FieldState F))
      → c.staged ≡ some m
      → perform_all fl formats (observe_then ds discard) c ≡ record c { staged = none }
  unfolding perform_all perform observe_data discard_input
  pending_discard [] c m e = refl
  pending_discard (d ∷ ds) c m e =
      let next = record c { staged = some (observe_data_into fl formats m d c.cfg.max_distinct) } in
      let same : observe_data fl formats d c ≡ next = rw (observe_data, e) refl in
      ap (perform_all fl formats (observe_then ds discard)) same
      ∙ (pending_discard ds next (observe_data_into fl formats m d c.cfg.max_distinct) refl)

  -- An input that is begun, observed and discarded leaves a collector with no open input as it was.
  pub discard-restores :
      (ds : List (Fields F)) (c : Collector F)
      → c.staged ≡ none
      → perform_all fl formats (begin ∷ observe_then ds discard) c ≡ c
  unfolding perform_all perform begin_input
  discard-restores ds c e =
      pending_discard ds (begin_input fl formats c) (new_field_states fl c.cfg.fields []) refl
      ∙ ap (λ o. record { cfg = c.cfg; committed = c.committed; staged = o }) (sym e)
