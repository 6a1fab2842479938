-- ===== src/Dsl/Evaluator/Sound.antt =====
-- The evaluation of a typed expression.
use sumpter.Base.{
  ℕ, zero, suc, ◌≡◌, refl, Bool, true, false, Option, none, some, List, [], ◌∷◌, replicate, ◌>>=◌,
  inl, inr, ◌⊎◌, Option-cases, ◌&&◌, ◌||◌,
}
use sumpter.Dsl.{Text, Expression, Arguments}
use sumpter.Dsl.Text.{codes, eq_text}
use sumpter.Dsl.References.{table_name}
use sumpter.Dsl.Value.{
  Float64, Value, boolean, Fields, get_field, to_bool, to_float64, arithmetic, compare_values,
  compare_others, compare_floats,
}
use sumpter.Dsl.Functions.{
  Results, string_or_nil, string_list, string_function, string_length, list_function, variable_or,
  in_reference, lookup_reference, default_value, found_or, numbers, abs_function, round_function,
  round_to, extreme_function,
}
use sumpter.Dsl.Evaluator.{
  Letters, Evaluator, logical_operator, apply_binary, apply_unary, plain_function, call_function,
  reference_function, evaluate_expression, evaluate_arguments,
}
use sumpter.Dsl.Evaluator.Typing.{
  Kind, truth, number, text, list, HasKind, a_boolean, an_int, an_int64, a_float, a_null, a_string,
  a_list, Operator, plus, minus, times, both, either, equal, differs, above, above_or_equal, below,
  below_or_equal, Function, abs, round, round_at, min, max, count, sum, lower, upper,
  normalize_space, starts_with_any, value_in, Typed, reads, flag, whole, real, literal, applies,
  negates, calls, chooses, TypedArguments, none_left, one_more, Context, IsTypedBy, asks, looks_up,
}

-- No error, and a value of the kind.
pub data Returns {F : Type 0} (k : Kind) : Option (Value F) → Type 0 where
  returns : {v : Value F} → HasKind v k → Returns k (some v)

module _ {F : Type 0} (fl : Float64 F) where
  number-to_float64 : (v : Value F) → HasKind v number → (x : F) × (to_float64 fl v ≡ some x)
  number-to_float64 _ an_int = (_, refl)
  number-to_float64 _ an_int64 = (_, refl)
  number-to_float64 _ a_float = (_, refl)

  arithmetic-Returns :
      (f : F → F → F) (a b : Value F)
      → HasKind a number
      → HasKind b number
      → Returns number (arithmetic fl f a b)
  unfolding arithmetic
  arithmetic-Returns f a b h k =
      let (x, p) = number-to_float64 a h in
      let (y, q) = number-to_float64 b k in rw (arithmetic, p, q) (returns a_float)

  logical_operator-Returns :
      (f : Bool → Bool → Bool) (a b : Value F)
      → HasKind a truth
      → HasKind b truth
      → Returns truth (logical_operator fl f a b)
  unfolding logical_operator
  logical_operator-Returns f _ _ a_boolean a_boolean = returns a_boolean

  -- A comparison that gives a Boolean
  compared :
      (o : Option Bool)
      → (b : Bool) × (o ≡ some b)
      → Returns {F = F} truth (o >>= λ r. some (boolean r))
  compared o (b, e) = rw e (returns a_boolean)

  -- Two values of any kind are compared by == and !=.
  compares-any :
      (op : Text) (a b : Value F)
      → ((x y : F) → (r : Bool) × (compare_floats fl x op y ≡ some r))
      → ((r : Bool) × (compare_others fl a op b ≡ some r))
      → (r : Bool) × (compare_values fl a op b ≡ some r)
  unfolding compare_values
  compares-any op a b f g = elim (Option-cases (to_float64 fl a)) [
    | inl p ↦ rw (compare_values, p) g
    | inr (x, p) ↦ elim (Option-cases (to_float64 fl b)) [
      | inl q ↦ rw (compare_values, p, q) g
      | inr (y, q) ↦ rw (compare_values, p, q) (f x y)
    ]
  ]

  -- Two numbers are compared by an operator of compareFloats.
  compares-numbers :
      (op : Text) (a b : Value F)
      → HasKind a number
      → HasKind b number
      → ((x y : F) → (r : Bool) × (compare_floats fl x op y ≡ some r))
      → (r : Bool) × (compare_values fl a op b ≡ some r)
  unfolding compare_values
  compares-numbers op a b h k f =
      let (x, p) = number-to_float64 a h in
      let (y, q) = number-to_float64 b k in rw (compare_values, p, q) (f x y)

  apply_binary-Returns :
      {op : Text} {i j k : Kind} (a b : Value F)
      → Operator op i j k
      → HasKind a i
      → HasKind b j
      → Returns k (apply_binary fl op a b)
  unfolding apply_binary eq_text compare_floats compare_others
  apply_binary-Returns a b plus h k = arithmetic-Returns fl.add a b h k
  apply_binary-Returns a b minus h k = arithmetic-Returns fl.sub a b h k
  apply_binary-Returns a b times h k = arithmetic-Returns fl.mul a b h k
  apply_binary-Returns a b both h k = logical_operator-Returns (◌&&◌) a b h k
  apply_binary-Returns a b either h k = logical_operator-Returns (◌||◌) a b h k
  apply_binary-Returns a b equal h k =
      compared _ (compares-any (codes "==") a b (λ x y. (_, refl)) (_, refl))
  apply_binary-Returns a b differs h k =
      compared _ (compares-any (codes "!=") a b (λ x y. (_, refl)) (_, refl))
  apply_binary-Returns a b above h k =
      compared _ (compares-numbers (codes ">") a b h k (λ x y. (_, refl)))
  apply_binary-Returns a b above_or_equal h k =
      compared _ (compares-numbers (codes ">=") a b h k (λ x y. (_, refl)))
  apply_binary-Returns a b below h k =
      compared _ (compares-numbers (codes "<") a b h k (λ x y. (_, refl)))
  apply_binary-Returns a b below_or_equal h k =
      compared _ (compares-numbers (codes "<=") a b h k (λ x y. (_, refl)))

  bind-Returns :
      {j k : Kind} {o : Option (Value F)} {f : Value F → Option (Value F)}
      → Returns j o
      → ((v : Value F) → HasKind v j → Returns k (f v))
      → Returns k (o >>= f)
  bind-Returns (returns h) g = g _ h

  apply_unary-Returns :
      (a : Value F) → HasKind a truth → Returns truth (apply_unary fl (codes "!") a)
  unfolding apply_unary eq_text
  apply_unary-Returns _ a_boolean = returns a_boolean

  choose-Returns :
      {k : Kind} {a b : Option (Value F)} (v : Value F)
      → HasKind v truth
      → Returns k a
      → Returns k b
      → Returns k (to_bool v >>= λ t. elim t [ true ↦ a | false ↦ b ])
  choose-Returns _ (a_boolean {b = true}) h k = h
  choose-Returns _ (a_boolean {b = false}) h k = k

  -- The arguments of a call
  data AllReturn : List Kind → Results F → Type 0 where
    nil : AllReturn [] []
    cons :
        {k : Kind} {ks : List Kind} {r : Option (Value F)} {rs : Results F}
        → Returns k r
        → AllReturn ks rs
        → AllReturn (k ∷ ks) (r ∷ rs)

  numbers-Returns :
      (n : ℕ) (rs : Results F)
      → AllReturn (replicate n number) rs
      → (xs : List F) × (numbers fl rs ≡ some xs)
  unfolding numbers
  numbers-Returns zero [] nil = ([], refl)
  numbers-Returns zero (_ ∷ rs) h = elim h [ ]
  numbers-Returns (suc n) [] h = elim h [ ]
  numbers-Returns (suc n) (_ ∷ rs) (cons (returns {v} h) hs) =
      let (x, p) = number-to_float64 v h in
      let (xs, q) = numbers-Returns n rs hs in (x ∷ xs, rw (numbers, p, q) refl)

  extreme-Returns :
      (better : F → F → Bool) (n : ℕ) (rs : Results F)
      → AllReturn (number ∷ replicate n number) rs
      → Returns number (extreme_function fl better rs)
  unfolding extreme_function numbers
  extreme-Returns better n [] h = elim h [ ]
  extreme-Returns better n (_ ∷ rs) (cons (returns {v} h) hs) =
      let (x, p) = number-to_float64 v h in
      let (xs, q) = numbers-Returns n rs hs in
      rw (extreme_function, numbers, p, q) (returns a_float)

  string_function-Returns :
      (f : Text → Text) (v : Value F)
      → HasKind v text
      → Returns text (string_function f (some v ∷ []))
  unfolding string_function string_or_nil
  string_function-Returns f _ a_null = returns a_null
  string_function-Returns f _ a_string = returns a_string

  list_function-Returns :
      (p : Text → Text → Bool) (v w : Value F)
      → HasKind v text
      → HasKind w list
      → Returns truth (list_function p (some v ∷ some w ∷ []))
  unfolding list_function string_or_nil string_list
  list_function-Returns p _ _ a_null (a_list e) =
      rw (list_function, string_list, e) (returns a_boolean)
  list_function-Returns p _ _ a_string (a_list e) =
      rw (list_function, string_list, e) (returns a_boolean)

  variable_or-Returns :
      (variables : Fields F) (name : Text) (zero_ v : Value F) (k : Kind)
      → get_field name variables ≡ some v
      → HasKind v k
      → Returns k (variable_or variables name zero_ [])
  unfolding variable_or
  variable_or-Returns variables name zero_ v k e h = rw (variable_or, e) (returns h)

  default_value-text : (v : Value F) → HasKind v text → default_value (some v) ≡ some v
  unfolding default_value
  default_value-text _ a_null = refl
  default_value-text _ a_string = refl

  found_or-text :
      (v : Value F) (found : Option Text) → HasKind v text → HasKind (found_or v found) text
  found_or-text v none h = h
  found_or-text v (some s) h = a_string

  -- Calls of the reference functions skip the cases before them.
  reference-Returns :
      (letters : Letters) (e : Evaluator F) {f : Text} {k : Kind} (args : Arguments F)
      (rs : Results F)
      → (f ≡ codes "in_reference") × Returns k (in_reference e.references args rs)
        ⊎ (f ≡ codes "lookup_reference") × Returns k (lookup_reference e.references args rs)
      → Returns k (plain_function fl letters e f rs (reference_function fl letters e f args rs))
  unfolding plain_function reference_function eq_text
  reference-Returns letters e args rs (inl (p, h)) = rw p h
  reference-Returns letters e args rs (inr (p, h)) = rw p h

  module _ (letters : Letters) (e : Evaluator F) (context : Context)
      (typed : IsTypedBy context e) where
    plain_function-Returns :
        {f : Text} {ks : List Kind} {k : Kind} (rs : Results F) (rest : Option (Value F))
        → Function context f ks k
        → AllReturn ks rs
        → Returns k (plain_function fl letters e f rs rest)
    unfolding plain_function eq_text abs_function round_function round_to string_length
        string_or_nil
    plain_function-Returns _ rest abs (cons (returns {v} h) nil) =
        let (x, p) = number-to_float64 v h in rw (abs_function, p) (returns a_float)
    plain_function-Returns _ rest round (cons (returns {v} h) nil) =
        let (x, p) = number-to_float64 v h in rw (round_function, p) (returns a_float)
    plain_function-Returns _ rest round_at (cons (returns {v} h) (cons (returns {v = w} k) nil)) =
        let (x, p) = number-to_float64 v h in
        let (y, q) = number-to_float64 w k in rw (round_function, p, q) (returns a_float)
    plain_function-Returns rs rest (min n) hs = extreme-Returns _ n rs hs
    plain_function-Returns rs rest (max n) hs = extreme-Returns _ n rs hs
    plain_function-Returns _ rest (count c) nil =
        let (v, q, h) = typed.variable_kinds (codes "count") number c in
        variable_or-Returns e.variables (codes "count") _ v number q h
    plain_function-Returns _ rest (sum c) nil =
        let (v, q, h) = typed.variable_kinds (codes "sum") number c in
        variable_or-Returns e.variables (codes "sum") _ v number q h
    plain_function-Returns _ rest lower (cons (returns {v} h) nil) = string_function-Returns _ v h
    plain_function-Returns _ rest upper (cons (returns {v} h) nil) = string_function-Returns _ v h
    plain_function-Returns _ rest normalize_space (cons (returns {v} h) nil) =
        string_function-Returns _ v h
    plain_function-Returns _ rest Function.string_length (cons (returns a_null) nil) =
        returns an_int
    plain_function-Returns _ rest Function.string_length (cons (returns a_string) nil) =
        returns an_int
    plain_function-Returns _ rest starts_with_any
          (cons (returns {v} h) (cons (returns {v = w} k) nil)) =
        list_function-Returns _ v w h k
    plain_function-Returns _ rest value_in (cons (returns {v} h) (cons (returns {v = w} k) nil)) =
        list_function-Returns _ v w h k

    in_reference-Returns :
        (table : Text) (args : Arguments F) (r s : Option (Value F))
        → table_name args ≡ some table
        → context.memberships table ≡ true
        → Returns text s
        → Returns truth (in_reference e.references args (r ∷ s ∷ []))
    unfolding in_reference string_or_nil
    in_reference-Returns table args r _ n m (returns a_null) =
        let (refs, p, f) = typed.answers_contains table m in
        rw (in_reference, n, p) (returns a_boolean)
    in_reference-Returns table args r _ n m (returns (a_string {s = []})) =
        let (refs, p, f) = typed.answers_contains table m in
        rw (in_reference, n, p) (returns a_boolean)
    in_reference-Returns table args r _ n m (returns (a_string {s = c ∷ k})) =
        let (refs, p, f) = typed.answers_contains table m in
        let (b, q) = f (c ∷ k) in rw (in_reference, n, p, q) (returns a_boolean)

    lookup_reference-Returns :
        (table : Text) (args : Arguments F) (r s d : Option (Value F))
        → table_name args ≡ some table
        → context.lookups table ≡ true
        → Returns text s
        → Returns text d
        → Returns text (lookup_reference e.references args (r ∷ s ∷ d ∷ []))
    unfolding lookup_reference string_or_nil default_value
    lookup_reference-Returns table args r _ _ n m (returns a_null) (returns {v} h) =
        let (refs, p, f) = typed.answers_lookup table m in
        rw (lookup_reference, n, p, default_value-text v h) (returns h)
    lookup_reference-Returns table args r _ _ n m (returns (a_string {s = []})) (returns {v} h) =
        let (refs, p, f) = typed.answers_lookup table m in
        rw (lookup_reference, n, p, default_value-text v h) (returns h)
    lookup_reference-Returns table args r _ _ n m (returns (a_string {s = c ∷ k})) (returns {v} h) =
        let (refs, p, f) = typed.answers_lookup table m in
        let (found, q) = f (c ∷ k) in
        rw (lookup_reference, n, p, default_value-text v h, q) (returns (found_or-text v found h))

    mutual
      unfolding evaluate_expression evaluate_arguments call_function table_name

      typed-Returns :
          {x : Expression F} {k : Kind}
          → Typed context x k
          → Returns k (evaluate_expression fl letters e x)
      typed-Returns (reads {x} {k} c) =
          let (v, q, h) = typed.variable_kinds x k c in rw q (returns h)
      typed-Returns flag = returns a_boolean
      typed-Returns whole = returns an_int64
      typed-Returns real = returns a_float
      typed-Returns literal = returns a_string
      typed-Returns (applies op s t) =
          bind-Returns (typed-Returns s)
            λ x h. bind-Returns (typed-Returns t) λ y l. apply_binary-Returns x y op h l
      typed-Returns (negates s) = bind-Returns (typed-Returns s) apply_unary-Returns
      typed-Returns (calls f ts) = plain_function-Returns _ _ f (arguments-Return ts)
      typed-Returns (asks {table} {key} p m t) =
          reference-Returns letters e _ _
            (inl (p, in_reference-Returns table _ _ _ refl m (typed-Returns t)))
      typed-Returns (looks_up {table} {key} {default} p m t d) = reference-Returns letters e _ _ (
          inr
            (p, lookup_reference-Returns table _ _ _ _ refl m (typed-Returns t) (typed-Returns d)))
      typed-Returns (chooses c s t) =
          bind-Returns (typed-Returns c)
            λ v h. choose-Returns v h (typed-Returns s) (typed-Returns t)

      arguments-Return :
          {xs : Arguments F} {ks : List Kind}
          → TypedArguments context xs ks
          → AllReturn ks (evaluate_arguments fl letters e xs)
      arguments-Return none_left = nil
      arguments-Return (one_more t ts) = cons (typed-Returns t) (arguments-Return ts)

Returns-some :
    {F : Type 0} {k : Kind} (o : Option (Value F))
    → Returns k o
    → (v : Value F) × (o ≡ some v) × HasKind v k
Returns-some _ (returns h) = (_, refl, h)

-- Let each variable that a context declares be there with a value of its kind, and the lookup answer
-- for each table that it declares. Then an expression that is typed in the context, whose operators
-- and functions have operands of their kinds, with no division and no masks, is evaluated with no
-- error, and its value has the expression's kind.
pub evaluate_expression-typed :
    {F : Type 0} (fl : Float64 F) (letters : Letters) (e : Evaluator F) (context : Context)
    (x : Expression F) (k : Kind)
    → IsTypedBy context e
    → Typed context x k
    → (v : Value F) × (evaluate_expression fl letters e x ≡ some v) × HasKind v k
evaluate_expression-typed fl letters e context x k h t =
    Returns-some _ (typed-Returns fl letters e context h t)
