-- ===== src/Dsl/References/Total.antt =====
-- ReferenceTableNames fails only where a reference call has no literal table name.
use sumpter.Base.{
  ◌≡◌, refl, inl, inr, true, Option, none, some, List, [], ◌∷◌, ◌++◌, ◌>>=◌, Bool-cases,
}
use sumpter.Dsl.{
  Text, Expression, variable, constant, binary, unary, function, ternary, Arguments, no_more,
  argument,
}
use sumpter.Dsl.References.{
  is_reference, table_name, note_table, walk_reference_calls, walk_arguments, reference_table_names,
}
use sumpter.Dsl.References.Calls.{HasCall, HaveCall}

abbrev Returns : Option (List Text) → Type 0
Returns o = (names : List Text) × (o ≡ some names)

bind-Returns :
    (o : Option (List Text)) (f : List Text → Option (List Text))
    → Returns o
    → ((names : List Text) → Returns (f names))
    → Returns (o >>= f)
bind-Returns none f (names, e) h = cc
bind-Returns (some names) f r h = h names

module _ {F : Type 0} where
  -- Each reference call has a literal table name.
  abbrev AreLiteral : (Text → Arguments F → Type 0) → Type 0
  AreLiteral Has =
      (name : Text) (args : Arguments F)
      → Has name args
      → is_reference name ≡ true
      → (t : Text) × (table_name args ≡ some t)

  note_table-Returns :
      (f : Text) (bs : Arguments F) (names : List Text)
      → (is_reference f ≡ true → (t : Text) × (table_name bs ≡ some t))
      → Returns (note_table f bs names)
  unfolding note_table
  note_table-Returns f bs names h = elim (Bool-cases (is_reference f)) [
    | inl r ↦ let (t, e) = h r in (names ++ t ∷ [], rw (note_table, r, e) refl)
    | inr r ↦ (names, rw (note_table, r) refl)
  ]

  mutual
    unfolding walk_reference_calls HasCall

    walk-Returns :
        (e : Expression F) (names : List Text)
        → AreLiteral (HasCall e)
        → Returns (walk_reference_calls e names)
    walk-Returns (variable x) names h = (names, refl)
    walk-Returns (constant v) names h = (names, refl)
    walk-Returns (binary a op b) names h =
        bind-Returns (walk_reference_calls a names) (λ n. walk_reference_calls b n)
          (walk-Returns a names (λ f bs c. h f bs (inl c)))
          (λ n. walk-Returns b n (λ f bs c. h f bs (inr c)))
    walk-Returns (unary op a) names h = walk-Returns a names h
    walk-Returns (ternary a b c) names h =
        bind-Returns (walk_reference_calls a names)
          (λ n. walk_reference_calls b n >>= λ n'. walk_reference_calls c n')
          (walk-Returns a names (λ f bs k. h f bs (inl k)))
          (λ n.
            bind-Returns (walk_reference_calls b n) (λ n'. walk_reference_calls c n')
              (walk-Returns b n (λ f bs k. h f bs (inr (inl k))))
              (λ n'. walk-Returns c n' (λ f bs k. h f bs (inr (inr k)))))
    walk-Returns (function f bs) names h =
        bind-Returns (note_table f bs names) (λ n. walk_arguments bs n)
          (note_table-Returns f bs names (λ r. h f bs (inl (refl, refl)) r))
          (λ n. arguments-Returns bs n (λ g cs k. h g cs (inr k)))

    arguments-Returns :
        (bs : Arguments F) (names : List Text)
        → AreLiteral (HaveCall bs)
        → Returns (walk_arguments bs names)
    arguments-Returns no_more names h = (names, refl)
    arguments-Returns (argument e rest) names h =
        bind-Returns (walk_reference_calls e names) (λ n. walk_arguments rest n)
          (walk-Returns e names (λ f bs k. h f bs (inl k)))
          (λ n. arguments-Returns rest n (λ f bs k. h f bs (inr k)))

  -- Where every call of a reference function in the expression has a literal table name,
  -- ReferenceTableNames returns names.
  reference_table_names-total :
      (e : Expression F)
      → AreLiteral (HasCall e)
      → (names : List Text) × (reference_table_names e ≡ some names)
  unfolding reference_table_names
  reference_table_names-total e h = walk-Returns e [] h
