-- ===== src/Dsl/Evaluator/Tables.antt =====
-- An evaluation asks only for the tables that the checks before the run have named.
use mathlib.Core.List.{Memᴰ}
use sumpter.Base.{
  ◌≡◌, refl, ap, ◌∙◌, true, false, Option, none, some, List, [], ◌∷◌, map, ◌>>=◌, Bool-cases, inl,
  inr, Option-cases,
}
use sumpter.Dsl.{
  Text, Expression, variable, constant, binary, unary, function, ternary, Arguments, no_more,
  argument,
}
use sumpter.Dsl.Text.{codes, eq_text}
use sumpter.Dsl.References.{lower_byte, is_reference, table_name, reference_table_names}
use sumpter.Dsl.References.Calls.{HasCall, HaveCall, reference_table_names-named}
use sumpter.Dsl.Value.{Float64, Value, boolean, Fields, to_bool}
use sumpter.Dsl.Functions.{
  ReferenceLookup, Results, in_reference, lookup_reference, string_or_nil, default_value, found_or,
}
use sumpter.Dsl.Evaluator.{
  Letters, Evaluator, plain_function, reference_function, call_function, evaluate_expression,
  evaluate_arguments,
}

-- Both lookups give the same answers for a table.
abbrev pub AgreeOn : ReferenceLookup → ReferenceLookup → Text → Type 0
AgreeOn r r' t =
    ((key : Text) → r.contains t key ≡ r'.contains t key)
    × ((key : Text) → r.lookup t key ≡ r'.lookup t key)

module _ {F : Type 0} (r r' : ReferenceLookup) where
  -- The reference calls among those that `Has` tells are for tables on which the lookups agree.
  abbrev pub AgreeOnCalls : (Text → Arguments F → Type 0) → Type 0
  AgreeOnCalls Has =
      (name : Text) (args : Arguments F)
      → Has name args
      → is_reference name ≡ true
      → (t : Text) × (table_name args ≡ some t) × AgreeOn r r' t

  in_reference-agree :
      (args : Arguments F) (rs : Results F) (t : Text)
      → table_name args ≡ some t
      → AgreeOn r r' t
      → in_reference (some r) args rs ≡ in_reference (some r') args rs
  unfolding in_reference
  in_reference-agree args [] t e h = refl
  in_reference-agree args (_ ∷ []) t e h = refl
  in_reference-agree args (_ ∷ x ∷ []) t e h = elim (Option-cases (string_or_nil x)) [
    | inl s ↦ rw (e, s) refl
    | inr (none, s) ↦ rw (e, s) refl
    | inr (some [], s) ↦ rw (e, s) refl
    | inr (some (c ∷ k), s) ↦ rw (e, s) (ap (λ o. o >>= λ b. some (boolean b)) (h.0 (c ∷ k)))
  ]
  in_reference-agree args (_ ∷ x ∷ _ ∷ _) t e h = refl

  lookup_reference-agree :
      (args : Arguments F) (rs : Results F) (t : Text)
      → table_name args ≡ some t
      → AgreeOn r r' t
      → lookup_reference (some r) args rs ≡ lookup_reference (some r') args rs
  unfolding lookup_reference
  lookup_reference-agree args [] t e h = refl
  lookup_reference-agree args (_ ∷ []) t e h = refl
  lookup_reference-agree args (_ ∷ x ∷ []) t e h = refl
  lookup_reference-agree args (_ ∷ x ∷ d ∷ []) t e h = elim (Option-cases (default_value d)) [
    | inl w ↦ elim (Option-cases (string_or_nil x)) [
      | inl s ↦ rw (e, s) refl
      | inr (k, s) ↦ rw (e, s, w) refl
    ]
    | inr (v, w) ↦ elim (Option-cases (string_or_nil x)) [
      | inl s ↦ rw (e, s) refl
      | inr (none, s) ↦ rw (e, s, w) refl
      | inr (some [], s) ↦ rw (e, s, w) refl
      | inr (some (c ∷ k), s) ↦
          rw (e, s, w) (ap (λ o. o >>= λ u. some (found_or v u)) (h.1 (c ∷ k)))
    ]
  ]
  lookup_reference-agree args (_ ∷ x ∷ d ∷ _ ∷ _) t e h = refl

-- The last cases of the switch: they are reached with the same result.
module _ {F : Type 0} (fl : Float64 F) (letters : Letters) (vars : Fields F)
    (r r' : ReferenceLookup) where
  abbrev before : Evaluator F
  before = record { variables = vars; references = some r }

  abbrev after : Evaluator F
  after = record { variables = vars; references = some r' }

  reference_function-agree :
      (name : Text) (args : Arguments F) (rs : Results F)
      → (is_reference name ≡ true → (t : Text) × (table_name args ≡ some t) × AgreeOn r r' t)
      → reference_function fl letters before (map lower_byte name) args rs
        ≡ reference_function fl letters after (map lower_byte name) args rs
  unfolding reference_function is_reference
  reference_function-agree name args rs h =
      elim (Bool-cases (eq_text (map lower_byte name) (codes "in_reference"))) [
        | inl i ↦
            let (t, e, agree) = h (rw i refl) in rw i (in_reference-agree r r' args rs t e agree)
        | inr i ↦ elim (Bool-cases (eq_text (map lower_byte name) (codes "lookup_reference"))) [
          | inl l ↦
              let (t, e, agree) = h (rw (i, l) refl) in
              rw (i, l) (lookup_reference-agree r r' args rs t e agree)
          | inr l ↦ rw (i, l) refl
        ]
      ]

  plain_function-same :
      (f : Text) (rs : Results F) (rest : Option (Value F))
      → plain_function fl letters before f rs rest ≡ plain_function fl letters after f rs rest
  unfolding plain_function
  plain_function-same f rs rest = refl

  call_function-agree :
      (name : Text) (args : Arguments F) (rs : Results F)
      → (is_reference name ≡ true → (t : Text) × (table_name args ≡ some t) × AgreeOn r r' t)
      → call_function fl letters before name args rs ≡ call_function fl letters after name args rs
  unfolding call_function
  call_function-agree name args rs h =
      ap (plain_function fl letters before (map lower_byte name) rs)
        (reference_function-agree name args rs h)
      ∙ plain_function-same (map lower_byte name) rs
          (reference_function fl letters after (map lower_byte name) args rs)

  abbrev choose : Option (Value F) → Option (Value F) → Option (Value F) → Option (Value F)
  choose p q o = o >>= λ v. to_bool v >>= λ t. elim t [ true ↦ p | false ↦ q ]

  mutual
    unfolding evaluate_expression HasCall

    evaluate_expression-agree :
        (e : Expression F)
        → AgreeOnCalls r r' (HasCall e)
        → evaluate_expression fl letters before e ≡ evaluate_expression fl letters after e
    evaluate_expression-agree (variable x) h = refl
    evaluate_expression-agree (constant v) h = refl
    evaluate_expression-agree (binary a op b) h =
        rw
          (
            evaluate_expression-agree a (λ name args c. h name args (inl c)),
            evaluate_expression-agree b (λ name args c. h name args (inr c)),
          )
          refl
    evaluate_expression-agree (unary op a) h = rw (evaluate_expression-agree a h) refl
    evaluate_expression-agree (function name args) h =
        ap (call_function fl letters before name args)
          (evaluate_arguments-agree args (λ name' args' c. h name' args' (inr c)))
        ∙ call_function-agree name args (evaluate_arguments fl letters after args)
            (h name args (inl (refl, refl)))
    evaluate_expression-agree (ternary c a b) h =
        ap
          (choose (evaluate_expression fl letters before a)
            (evaluate_expression fl letters before b))
          (evaluate_expression-agree c (λ name args k. h name args (inl k)))
        ∙ ap
            (λ p.
              choose p (evaluate_expression fl letters before b)
                (evaluate_expression fl letters after c))
            (evaluate_expression-agree a (λ name args k. h name args (inr (inl k))))
        ∙ ap
            (λ p.
              choose (evaluate_expression fl letters after a) p
                (evaluate_expression fl letters after c))
            (evaluate_expression-agree b (λ name args k. h name args (inr (inr k))))

    evaluate_arguments-agree :
        (args : Arguments F)
        → AgreeOnCalls r r' (HaveCall args)
        → evaluate_arguments fl letters before args ≡ evaluate_arguments fl letters after args
    evaluate_arguments-agree no_more h = refl
    evaluate_arguments-agree (argument e rest) h =
        rw
          (
            evaluate_expression-agree e (λ name args c. h name args (inl c)),
            evaluate_arguments-agree rest (λ name args c. h name args (inr c)),
          )
          refl

-- The tables that ReferenceTableNames returns for an expression are all that its evaluation asks for:
-- with the same variables, two lookups that give the same answers for each of those tables give the
-- same value, or both an error.
pub evaluate-tables :
    {F : Type 0} (fl : Float64 F) (letters : Letters) (vars : Fields F) (r r' : ReferenceLookup)
    (e : Expression F) (names : List Text)
    → reference_table_names e ≡ some names
    → ((t : Text) → Memᴰ t names → AgreeOn r r' t)
    → evaluate_expression fl letters (record { variables = vars; references = some r }) e
      ≡ evaluate_expression fl letters (record { variables = vars; references = some r' }) e
evaluate-tables fl letters vars r r' e names k h =
    evaluate_expression-agree fl letters vars r r' e (λ name args call is.
      let (t, s, m) = reference_table_names-named e names name args k call is in (t, s, h t m))
