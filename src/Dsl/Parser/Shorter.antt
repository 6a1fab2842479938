-- ===== src/Dsl/Parser/Shorter.antt =====
-- The body of ParseExpression, part by part, uses its calls of itself on shorter strings only.
use mathlib.Core.Path.{ap₂, subst}
use sumpter.Base.{
  ℕ, suc, ◌+◌, ◌-◌, ◌≤◌, ◌<◌, ◌≡◌, refl, ap, true, Option, none, some, List, [], ◌∷◌, take, drop,
  length, length-take, length-drop, arith, if◌then◌else◌, Bool-cases, Option-cases, inl, inr,
}
use sumpter.Base.Members.{All, All-mono}
use sumpter.Dsl.{Text, Expression}
use sumpter.Dsl.Text.{codes, has_prefix, index_of, trim_space, length-trim_space}
use sumpter.Dsl.Scan.{
  leftmost_first, rightmost_first, idx_valid_split_point, find_ternary_colon, has_enclosing_parens,
}
use sumpter.Dsl.Scan.Bounds.{idx_valid_split_point-bound}
use sumpter.Dsl.Calls.{is_function_call, split_args_outside_strings}
use sumpter.Dsl.Calls.Bounds.{index_of-lt, AreShort, split_args-AreShort}
use sumpter.Dsl.Parser.{
  found, or_next, inner, logical, comparisons, sums, products, parse_operands, try_parse_binary_op,
  parse_ternary, try_parse_ternary, parse_arguments, parse_function, parse_unary, parse_grouped,
  parse_operand, parse_trimmed,
}

module _ {F : Type 0} (f g : Text → Option (Expression F)) (n : ℕ)
    (same : (t : Text) → length t < n → f t ≡ g t) where
  parse_operands-cong :
      (op l r : Text)
      → length l < n
      → length r < n
      → parse_operands f op l r ≡ parse_operands g op l r
  unfolding parse_operands
  parse_operands-cong op l r hl hr = rw (same l hl, same r hr)

  parse_ternary-cong :
      (a b c : Text)
      → length a < n
      → length b < n
      → length c < n
      → parse_ternary f a b c ≡ parse_ternary g a b c
  unfolding parse_ternary
  parse_ternary-cong a b c ha hb hc = rw (same a ha, same b hb, same c hc)

  parse_arguments-cong :
      (args : List Text)
      → All (λ a. length a < n) args
      → parse_arguments f args ≡ parse_arguments g args
  unfolding parse_arguments
  parse_arguments-cong [] h = refl
  parse_arguments-cong (a ∷ args) h =
      rw (
        same (trim_space a) (omega (arith, length-trim_space a, h.0)),
        parse_arguments-cong args h.1,
      )

  -- Trimmed parts before and after a position.
  before-short :
      (i : ℕ) (s : Text) → length s ≤ n → i < length s → length (trim_space (take i s)) < n
  before-short i s h k = omega (arith, length-trim_space (take i s), length-take i s)

  after-short :
      (i : ℕ) (s : Text) → length s ≤ n → 0 < i → 0 < length s → length (trim_space (drop i s)) < n
  after-short i s h k l = omega (arith, length-trim_space (drop i s), length-drop i s)

  try_parse_binary_op-cong :
      (s : Text) (ops : List Text)
      → length s ≤ n
      → try_parse_binary_op f s ops ≡ try_parse_binary_op g s ops
  unfolding try_parse_binary_op
  try_parse_binary_op-cong s [] h = refl
  try_parse_binary_op-cong s (op ∷ ops) h =
      elim (Option-cases (idx_valid_split_point s op rightmost_first)) [
        | inl e ↦ rw (try_parse_binary_op, e) refl
        | inr (none, e) ↦ rw (try_parse_binary_op, e) (try_parse_binary_op-cong s ops h)
        | inr (some i, e) ↦
            let (room, len) = idx_valid_split_point-bound s op rightmost_first i e in
            rw
              (
                try_parse_binary_op,
                e,
                parse_operands-cong op (trim_space (take i s)) (trim_space (drop (i + length op) s))
                    (before-short i s h (omega arith))
                    (after-short (i + length op) s h (omega arith) (omega arith)),
              )
              (ap
                (λ rest.
                  elim (parse_operands g op (trim_space (take i s))
                    (trim_space (drop (i + length op) s))) [ some e' ↦ found e' | none ↦ rest ])
                (try_parse_binary_op-cong s ops h))
      ]

  try_parse_ternary-cong : (s : Text) → length s ≤ n → try_parse_ternary f s ≡ try_parse_ternary g s
  unfolding try_parse_ternary
  try_parse_ternary-cong s h =
      elim (Option-cases (idx_valid_split_point s (codes "?") leftmost_first)) [
        | inl e ↦ rw (try_parse_ternary, e) refl
        | inr (none, e) ↦ rw (try_parse_ternary, e) refl
        | inr (some q, e) ↦
            let (room, len) = idx_valid_split_point-bound s (codes "?") leftmost_first q e in
            elim (Option-cases (find_ternary_colon s q)) [
              | inl e' ↦ rw (try_parse_ternary, e, e') refl
              | inr (none, e') ↦ rw (try_parse_ternary, e, e') refl
              | inr (some c, e') ↦
                  rw
                    (
                      try_parse_ternary,
                      e,
                      e',
                      parse_ternary-cong (trim_space (take q s))
                          (trim_space (take (c - (q + 1)) (drop (q + 1) s)))
                          (trim_space (drop (c + 1) s)) (before-short q s h (omega arith))
                          (omega (
                            arith,
                            length-trim_space (take (c - (q + 1)) (drop (q + 1) s)),
                            length-take (c - (q + 1)) (drop (q + 1) s),
                            length-drop (q + 1) s,
                          ))
                          (after-short (c + 1) s h (omega arith) (omega arith)),
                    )
                    refl
            ]
      ]

  All-short :
      (args : List Text) (m : ℕ)
      → m < n
      → All (λ a. length a ≤ m) args
      → All (λ a. length a < n) args
  All-short args m h k =
      All-mono (λ a. length a ≤ m) (λ a. length a < n) (λ a l. omega arith) args k

  parse_function-cong : (s : Text) → length s ≤ n → parse_function f s ≡ parse_function g s
  unfolding parse_function
  parse_function-cong s h = elim (Option-cases (index_of b'(' s)) [
    | inl e ↦ rw (parse_function, e) refl
    | inr (o, e) ↦
        let lt = index_of-lt b'(' s o e in
        let t : Text = trim_space (take (length s - 1 - (o + 1)) (drop (o + 1) s)) in
        let short : length t < n = omega (
          arith,
          length-trim_space (take (length s - 1 - (o + 1)) (drop (o + 1) s)),
          length-take (length s - 1 - (o + 1)) (drop (o + 1) s),
          length-drop (o + 1) s,
        ) in
        elim (Option-cases (split_args_outside_strings t)) [
          | inl e' ↦ rw (parse_function, e, e') refl
          | inr (args, e') ↦
              rw
                (
                  parse_function,
                  e,
                  e',
                  parse_arguments-cong args (
                      All-short args (length t) short
                        (subst (AreShort (length t)) e' (split_args-AreShort t))),
                )
                refl
        ]
  ]

  parse_unary-cong :
      (s : Text)
      → length s ≤ n
      → has_prefix s (codes "!") ≡ true
      → parse_unary f s ≡ parse_unary g s
  unfolding parse_unary has_prefix
  parse_unary-cong [] h p = cc
  parse_unary-cong (c ∷ s) h p = rw (same (trim_space s) (omega (arith, length-trim_space s))) refl

  parse_grouped-cong :
      (s : Text)
      → length s ≤ n
      → has_enclosing_parens s ≡ true
      → parse_grouped f s ≡ parse_grouped g s
  unfolding parse_grouped has_enclosing_parens inner
  parse_grouped-cong [] h p = cc
  parse_grouped-cong (c ∷ s) h p =
      rw
        (same (trim_space (take (suc (length s) - 2) s)) (
          omega (
            arith,
            length-trim_space (take (suc (length s) - 2) s),
            length-take (suc (length s) - 2) s,
          )))
        refl

  atom-cong :
      (s : Text) (last : Option (Expression F))
      → length s ≤ n
      → (if has_prefix s (codes "!")
          then parse_unary f s
          else if has_enclosing_parens s
          then parse_grouped f s
          else last)
        ≡ (if has_prefix s (codes "!")
            then parse_unary g s
            else if has_enclosing_parens s
            then parse_grouped g s
            else last)
  atom-cong s last h = elim (Bool-cases (has_prefix s (codes "!"))) [
    | inl e ↦ rw e (parse_unary-cong s h e)
    | inr e ↦ elim (Bool-cases (has_enclosing_parens s)) [
      | inl e' ↦ rw (e, e') (parse_grouped-cong s h e')
      | inr e' ↦ rw (e, e') refl
    ]
  ]

  pub parse_trimmed-cong :
      (parse_float : Text → Option F) (s : Text)
      → length s ≤ n
      → parse_trimmed parse_float f s ≡ parse_trimmed parse_float g s
  unfolding parse_trimmed
  parse_trimmed-cong parse_float s h =
      ap₂ (λ x y. if is_function_call s then x else y) (parse_function-cong s h)
        (ap₂ or_next (try_parse_ternary-cong s h) (
          ap₂ or_next (try_parse_binary_op-cong s logical h) (
            ap₂ or_next (try_parse_binary_op-cong s comparisons h) (
              ap₂ or_next (try_parse_binary_op-cong s sums h) (
                ap₂ or_next (try_parse_binary_op-cong s products h)
                  (atom-cong s (parse_operand parse_float s) h))))))
