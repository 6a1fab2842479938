-- ===== src/Dsl/References/Calls.antt =====
-- The names that are returned are those of the tables in the calls of the expression, and of no others.
use mathlib.Core.List.{Memᴰ}
use mathlib.Core.List.Memᴰ
use mathlib.Core.Path.{subst}
use mathlib.Core.Bool.{false≢true}
use sumpter.Base.{
  bind-some, ◌≡◌, refl, sym, ap, ◌∙◌, ◌⊎◌, inl, inr, true, some, List, [], ◌∷◌, ◌++◌, ◌>>=◌,
  Bool-cases, Option-cases,
}
use sumpter.Dsl.{
  Text, Expression, variable, constant, binary, unary, function, ternary, Arguments, no_more,
  argument,
}
use sumpter.Dsl.References.{
  is_reference, table_name, note_table, walk_reference_calls, walk_arguments, reference_table_names,
}

-- A call of a function with arguments stands somewhere in an expression.
unfoldable mutual
  pub HasCall : {F : Type 0} → Expression F → Text → Arguments F → Type 0
  HasCall (variable x) name args = ⊥
  HasCall (constant v) name args = ⊥
  HasCall (binary a op b) name args = HasCall a name args ⊎ HasCall b name args
  HasCall (unary op a) name args = HasCall a name args
  HasCall (ternary a b c) name args =
      HasCall a name args ⊎ (HasCall b name args ⊎ HasCall c name args)
  HasCall (function f bs) name args = ((f ≡ name) × (bs ≡ args)) ⊎ HaveCall bs name args

  pub HaveCall : {F : Type 0} → Arguments F → Text → Arguments F → Type 0
  HaveCall no_more name args = ⊥
  HaveCall (argument e rest) name args = HasCall e name args ⊎ HaveCall rest name args

Memᴰ-one : {t u : Text} → Memᴰ u (t ∷ []) → u ≡ t
Memᴰ-one (Memᴰ.head e) = e
Memᴰ-one (Memᴰ.tail m) = elim m [ ]

module _ {F : Type 0} where
  -- `after` is `before` and the tables of the reference calls among those that `Has` tells.
  pub record Noted (Has : Text → Arguments F → Type 0) (before after : List Text) : Type 0 where
    pub kept : (t : Text) → Memᴰ t before → Memᴰ t after
    pub named :
        (name : Text) (args : Arguments F)
        → Has name args
        → is_reference name ≡ true
        → (t : Text) × (table_name args ≡ some t) × Memᴰ t after
    pub only :
        (t : Text)
        → Memᴰ t after
        → Memᴰ t before
          ⊎ ((name : Text) × (args : Arguments F) × Has name args
              × (is_reference name ≡ true)
              × (table_name args ≡ some t))

  Noted-none : (names : List Text) → Noted (λ name args. ⊥) names names
  Noted-none names = record {
    kept = λ t m. m;
    named = λ name args h. elim h [ ];
    only = λ t m. inl m;
  }

  Noted-both :
      (Has Has' : Text → Arguments F → Type 0) (a b c : List Text)
      → Noted Has a b
      → Noted Has' b c
      → Noted (λ name args. Has name args ⊎ Has' name args) a c
  Noted-both Has Has' a b c p q = record {
    kept = λ t m. q.kept t (p.kept t m);
    named = λ name args h r. elim h [
      | inl h' ↦ let (t, e, m) = p.named name args h' r in (t, e, q.kept t m)
      | inr h' ↦ q.named name args h' r
    ];
    only = λ t m. elim (q.only t m) [
      | inl m' ↦ elim (p.only t m') [
        | inl m'' ↦ inl m''
        | inr (name, args, h, r, e) ↦ inr (name, args, inl h, r, e)
      ]
      | inr (name, args, h, r, e) ↦ inr (name, args, inr h, r, e)
    ];
  }

  note_table-Noted :
      (f : Text) (bs : Arguments F) (names after : List Text)
      → note_table f bs names ≡ some after
      → Noted (λ name args. (f ≡ name) × (bs ≡ args)) names after
  unfolding note_table
  note_table-Noted f bs names after h = elim (Bool-cases (is_reference f)) [
    | inl r ↦ elim (Option-cases (table_name bs)) [
      | inl e ↦ cc (rw (r, e) at h)
      | inr (t, e) ↦
          let same : names ++ t ∷ [] ≡ after = cc (rw (r, e) at h) in
          subst (Noted (λ name args. (f ≡ name) × (bs ≡ args)) names) same (record {
            kept = λ u m. Memᴰ.append_left (t ∷ []) m;
            named = λ name args (_, k) r'. (
              t,
              subst (λ x. table_name x ≡ some t) k e,
              Memᴰ.append_right names (Memᴰ.head refl),
            );
            only = λ u m. elim (Memᴰ.append_cases names m) [
              | inl m' ↦ inl m'
              | inr m' ↦ inr (f, bs, (refl, refl), r, e ∙ ap some (sym (Memᴰ-one m')))
            ];
          })
    ]
    | inr r ↦
        let same : names ≡ after = cc (rw r at h) in
        subst (Noted (λ name args. (f ≡ name) × (bs ≡ args)) names) same (record {
          kept = λ u m. m;
          named = λ name args (k, _) r'. absurd (false≢true (sym r ∙ ap is_reference k ∙ r'));
          only = λ u m. inl m;
        })
  ]

module _ {F : Type 0} where
  mutual
    unfolding walk_reference_calls HasCall

    pub walk-Noted :
        (e : Expression F) (names after : List Text)
        → walk_reference_calls e names ≡ some after
        → Noted (HasCall e) names after
    walk-Noted (variable x) names after h =
        subst (Noted (λ name args. ⊥) names) (cc h) (Noted-none names)
    walk-Noted (constant v) names after h =
        subst (Noted (λ name args. ⊥) names) (cc h) (Noted-none names)
    walk-Noted (binary a op b) names after h =
        let (mid, p, q) =
          bind-some (walk_reference_calls a names) (λ n. walk_reference_calls b n) after h in
        Noted-both (HasCall a) (HasCall b) names mid after (walk-Noted a names mid p)
          (walk-Noted b mid after q)
    walk-Noted (unary op a) names after h = walk-Noted a names after h
    walk-Noted (ternary a b c) names after h =
        let (mid, p, q) =
          bind-some (walk_reference_calls a names)
            (λ n. walk_reference_calls b n >>= λ n'. walk_reference_calls c n') after h in
        let (mid', p', q') =
          bind-some (walk_reference_calls b mid) (λ n. walk_reference_calls c n) after q in
        Noted-both (HasCall a) (λ name args. HasCall b name args ⊎ HasCall c name args) names mid
          after (walk-Noted a names mid p)
          (Noted-both (HasCall b) (HasCall c) mid mid' after (walk-Noted b mid mid' p')
            (walk-Noted c mid' after q'))
    walk-Noted (function f bs) names after h =
        let (mid, p, q) = bind-some (note_table f bs names) (λ n. walk_arguments bs n) after h in
        Noted-both (λ name args. (f ≡ name) × (bs ≡ args)) (HaveCall bs) names mid after
          (note_table-Noted f bs names mid p) (arguments-Noted bs mid after q)

    pub arguments-Noted :
        (bs : Arguments F) (names after : List Text)
        → walk_arguments bs names ≡ some after
        → Noted (HaveCall bs) names after
    arguments-Noted no_more names after h =
        subst (Noted (λ name args. ⊥) names) (cc h) (Noted-none names)
    arguments-Noted (argument e rest) names after h =
        let (mid, p, q) =
          bind-some (walk_reference_calls e names) (λ n. walk_arguments rest n) after h in
        Noted-both (HasCall e) (HaveCall rest) names mid after (walk-Noted e names mid p)
          (arguments-Noted rest mid after q)

  -- Where ReferenceTableNames returns names: each call of a reference function that stands anywhere in
  -- the expression has a literal table name, which is among them.
  pub reference_table_names-named :
      (e : Expression F) (names : List Text) (name : Text) (args : Arguments F)
      → reference_table_names e ≡ some names
      → HasCall e name args
      → is_reference name ≡ true
      → (t : Text) × (table_name args ≡ some t) × Memᴰ t names
  unfolding reference_table_names
  reference_table_names-named e names name args h call r =
      (walk-Noted e [] names h).named name args call r

  -- Where ReferenceTableNames returns names, each of them is the literal table name of a call of a
  -- reference function in the expression.
  reference_table_names-only :
      (e : Expression F) (names : List Text) (t : Text)
      → reference_table_names e ≡ some names
      → Memᴰ t names
      → (name : Text) × (args : Arguments F) × HasCall e name args
        × (is_reference name ≡ true)
        × (table_name args ≡ some t)
  unfolding reference_table_names
  reference_table_names-only e names t h m = elim ((walk-Noted e [] names h).only t m) [
    | inl m' ↦ elim m' [ ]
    | inr found ↦ found
  ]
