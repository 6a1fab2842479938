-- ===== src/ValueProfile/Collector/History.antt =====
-- The committed states of a collector against what was given to it, whatever its calls are.
use mathlib.Core.Path.{subst}
use sumpter.Base.{
  ℕ, ◌≡◌, refl, sym, ap, ◌∙◌, Option, none, some, List, [], ◌∷◌, ◌++◌, length, Bool-cases, inl, inr,
  Option-cases,
}
use sumpter.TextMap.{TextMap, lookup, put, lookup-put}
use sumpter.Dsl.{Text}
use sumpter.Dsl.Text.{eq_text}
use sumpter.Dsl.Value.{Float64, Value, Fields, get_field}
use sumpter.ValueProfile.{FieldConfig}
use sumpter.ValueProfile.Collector.{
  Formats, FieldState, new_field_state, new_field_states, stringify_value, present,
}
use sumpter.ValueProfile.Collector.Inputs.{
  Collector, begin_input, begin_input_if_needed, commit_input, discard_input, observe_data,
}
use sumpter.ValueProfile.Collector.Observe.{IsProfile, new_field_state-IsProfile}
use sumpter.ValueProfile.Counts.{Unique, put-Unique}

-- The calls of a collector.
pub data Call (F : Type 0) : Type 0 where
  begin : Call F
  begin_if_needed : Call F
  observe : Fields F → Call F
  commit : Call F
  discard : Call F

-- The data that count, and those of the open input, the last one first.
pub record History (F : Type 0) : Type 0 where
  pub durable : List (Fields F)
  pub pending : Option (List (Fields F))

module _ {F : Type 0} where
  abbrev after_observe : Fields F → History F → History F
  after_observe d h = elim h.pending [
    | none ↦ record h { durable = d ∷ h.durable }
    | some ds ↦ record h { pending = some (d ∷ ds) }
  ]

  abbrev after_commit : History F → History F
  after_commit h = elim h.pending [
    | none ↦ h
    | some ds ↦ record { durable = ds ++ h.durable; pending = none }
  ]

  abbrev after_begin : History F → History F
  after_begin h = elim h.pending [ none ↦ record h { pending = some [] } | some ds ↦ h ]

  -- An input's data count once it is committed, and never if it is discarded or begun again.
  abbrev pub after : Call F → History F → History F
  after begin h = record h { pending = some [] }
  after begin_if_needed h = after_begin h
  after (observe d) h = after_observe d h
  after commit h = after_commit h
  after discard h = record h { pending = none }

  abbrev pub history : List (Call F) → History F → History F
  history [] h = h
  history (c ∷ cs) h = history cs (after c h)

  abbrev pub no_history : History F
  no_history = record { durable = []; pending = none }

module _ {F : Type 0} (fl : Float64 F) (formats : Formats F) where
  unfoldable pub perform : Call F → Collector F → Collector F
  perform begin c = begin_input fl formats c
  perform begin_if_needed c = begin_input_if_needed fl formats c
  perform (observe d) c = observe_data fl formats d c
  perform commit c = commit_input fl formats c
  perform discard c = discard_input fl formats c

  unfoldable pub perform_all : List (Call F) → Collector F → Collector F
  perform_all [] c = c
  perform_all (call ∷ calls) c = perform_all calls (perform call c)

  abbrev pub add_text : Option (Value F) → List Text → List Text
  add_text none xs = xs
  add_text (some raw) xs = stringify_value fl formats raw ∷ xs

  -- The texts of a field in the data, without those that count as null.
  abbrev pub texts : Text → List (Fields F) → List Text
  texts name [] = []
  texts name (d ∷ ds) = add_text (present fl formats (get_field name d)) (texts name ds)

  pub texts-append :
      (name : Text) (ds es : List (Fields F))
      → texts name (ds ++ es) ≡ texts name ds ++ texts name es
  texts-append name [] es = refl
  texts-append name (d ∷ ds) es = elim (Option-cases (present fl formats (get_field name d))) [
    | inl e ↦ rw e (texts-append name ds es)
    | inr (raw, e) ↦ rw e (ap (λ xs. stringify_value fl formats raw ∷ xs) (texts-append name ds es))
  ]

  -- A field's state at the start, and its state now, after the data `ds`.
  abbrev pub Matches :
      ℕ → Text → List (Fields F) → Option (FieldState F) → Option (FieldState F) → Type 0
  Matches max name ds none none = Unit
  Matches max name ds none (some s) = ⊥
  Matches max name ds (some s) none = ⊥
  Matches max name ds (some s) (some t) = IsProfile s.cfg max (length ds) (texts name ds) t

  abbrev pub Holds : ℕ → TextMap (FieldState F) → List (Fields F) → TextMap (FieldState F) → Type 0
  Holds max base ds m =
      Unique m × ((name : Text) → Matches max name ds (lookup name base) (lookup name m))

  abbrev pub AllNew : ℕ → TextMap (FieldState F) → Type 0
  AllNew max m =
      Unique m
      × ((name : Text) (s : FieldState F) → lookup name m ≡ some s → IsProfile s.cfg max 0 [] s)

  pub new_field_states-AllNew :
      (max : ℕ) (fields : List FieldConfig) (out : TextMap (FieldState F))
      → AllNew max out
      → AllNew max (new_field_states fl fields out)
  unfolding new_field_states new_field_state
  new_field_states-AllNew max [] out h = h
  new_field_states-AllNew max (f ∷ fields) out (u, h) =
      new_field_states-AllNew max fields (put f.field (new_field_state fl f) out) (
        put-Unique f.field (new_field_state fl f) out u,
        λ name s e. elim (Bool-cases (eq_text f.field name)) [
          | inl k ↦
              let same : new_field_state fl f ≡ s =
                cc (rw k at (sym (lookup-put name f.field (new_field_state fl f) out) ∙ e)) in
              subst (λ z. IsProfile z.cfg max 0 [] z) same
                (new_field_state-IsProfile fl formats f max)
          | inr k ↦
              h name s (rw k at (sym (lookup-put name f.field (new_field_state fl f) out) ∙ e))
        ],
      )
