-- ===== src/Dsl/Parser/Fuel.antt =====
-- ParseExpression calls itself on shorter strings only, so the length is fuel enough.
use sumpter.Base.{ℕ, zero, suc, ◌<◌, ◌≡◌, sym, ap, ◌∙◌, Option, none, length, arith, if◌then◌else◌}
use sumpter.Dsl.{Text, Expression}
use sumpter.Dsl.Text.{trim_space, length-trim_space}
use sumpter.Dsl.Scan.{is_empty}
use sumpter.Dsl.Parser.Shorter.{parse_trimmed-cong}
use sumpter.Dsl.Parser.{parse_with, parse, parse_expression}

module _ {F : Type 0} (parse_float : Text → Option F) where
  parse_with-cong :
      (f g : Text → Option (Expression F)) (s : Text)
      → ((t : Text) → length t < length s → f t ≡ g t)
      → parse_with parse_float f s ≡ parse_with parse_float g s
  unfolding parse_with
  parse_with-cong f g s same =
      ap (λ x. if is_empty s then none else x)
        (parse_trimmed-cong f g (length s) same parse_float (trim_space s) (length-trim_space s))

  parse-enough :
      (m n : ℕ) (s : Text)
      → length s < m
      → length s < n
      → parse parse_float m s ≡ parse parse_float n s
  unfolding parse
  parse-enough zero n s h k = absurd (omega arith)
  parse-enough (suc m) zero s h k = absurd (omega arith)
  parse-enough (suc m) (suc n) s h k =
      parse_with-cong (parse parse_float m) (parse parse_float n) s
        (λ t l. parse-enough m n t (omega arith) (omega arith))

  -- The equation of the source holds, and every fuel above the length gives the result.
  parse_expression-fixed :
      (s : Text) (fuel : ℕ)
      → length s < fuel
      → (parse_expression parse_float s ≡ parse_with parse_float (parse_expression parse_float) s)
        × (parse parse_float fuel s ≡ parse_expression parse_float s)
  unfolding parse_expression parse
  parse_expression-fixed s fuel h = (
    parse_with-cong (parse parse_float (length s)) (λ t. parse parse_float (suc (length t)) t) s
        (λ t l. parse-enough (length s) (suc (length t)) t l (omega arith)),
    parse-enough fuel (suc (length s)) s h (omega arith),
  )

  -- The body of ParseExpression calls it on shorter strings only: with any function in its place that
  -- agrees with it on the strings that are shorter than `s`, the body gives the same result on `s`.
  parse_with-shorter :
      (s : Text) (f : Text → Option (Expression F))
      → ((t : Text) → length t < length s → f t ≡ parse_expression parse_float t)
      → parse_with parse_float f s ≡ parse_expression parse_float s
  parse_with-shorter s f same =
      parse_with-cong f (parse_expression parse_float) s same
      ∙ sym (parse_expression-fixed s (suc (length s)) (omega arith)).0

  -- A solution of the source's equation agrees with the model on the strings of length at most `n`.
  agrees :
      (f : Text → Option (Expression F))
      → ((t : Text) → f t ≡ parse_with parse_float f t)
      → (n : ℕ) (s : Text) → length s < n
      → f s ≡ parse_expression parse_float s
  agrees f h zero s l = absurd (omega arith)
  agrees f h (suc n) s l = h s ∙ parse_with-shorter s f (λ t k. agrees f h n t (omega arith))

  -- For every strconv.ParseFloat and every string: the body of ParseExpression calls it on shorter
  -- strings only, so that with any function in place of these calls that agrees with ParseExpression on
  -- the strings shorter than this one, the body gives ParseExpression's result; and ParseExpression is
  -- the one function that solves the equation of its source, in which it calls itself: any function
  -- that solves it gives ParseExpression's result.
  pub parse_expression_unique :
      (f g : Text → Option (Expression F)) (s : Text)
      → ((t : Text) → length t < length s → g t ≡ parse_expression parse_float t)
      → ((t : Text) → f t ≡ parse_with parse_float f t)
      → (parse_with parse_float g s ≡ parse_expression parse_float s)
        × (f s ≡ parse_expression parse_float s)
  parse_expression_unique f g s same h =
      (parse_with-shorter s g same, agrees f h (suc (length s)) s (omega arith))

  -- ParseExpression solves the equation of its source.
  pub parse_expression_solves :
      (s : Text)
      → parse_expression parse_float s ≡ parse_with parse_float (parse_expression parse_float) s
  parse_expression_solves s = (parse_expression-fixed s (suc (length s)) (omega arith)).0
