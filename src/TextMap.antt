-- ===== src/TextMap.antt =====
-- A Go map whose keys are strings, as an association list with one entry for each key.
use sumpter.Base.{
  ◌≡◌, ◌↔◌, refl, true, Option, none, some, List, [], ◌∷◌, arith, ◌==◌, ==_iff, &&-eq-true,
  if◌then◌else◌,
}
use sumpter.Dsl.{Text}
use sumpter.Dsl.Text.{eq_text}

abbrev pub TextMap : Type 0 → Type 0
TextMap V = List (Text × V)

eq_text_sound : (a b : Text) → eq_text a b ≡ true → a ≡ b
unfolding eq_text
eq_text_sound [] [] e = refl
eq_text_sound [] (y ∷ ys) e = cc
eq_text_sound (x ∷ xs) [] e = cc
eq_text_sound (x ∷ xs) (y ∷ ys) e =
    let (p, q) = &&-eq-true (x == y) (eq_text xs ys) e in
    cc ((==_iff x y).0 p, eq_text_sound xs ys q)

pub eq_text_refl : (a : Text) → eq_text a a ≡ true
unfolding eq_text
eq_text_refl [] = refl
eq_text_refl (x ∷ xs) = ground (arith, eq_text_refl xs)

pub eq_text_iff : (a b : Text) → (eq_text a b ≡ true) ↔ (a ≡ b)
eq_text_iff a b = (eq_text_sound a b, λ e. rw e (eq_text_refl b))

module _ {V : Type 0} where
  -- m[k], with whether it is there
  unfoldable pub lookup : Text → TextMap V → Option V
  lookup k [] = none
  lookup k ((j, v) ∷ m) = let rest = lookup k m in if eq_text j k then some v else rest

  -- m[k] = v
  unfoldable pub put : Text → V → TextMap V → TextMap V
  put k v [] = (k, v) ∷ []
  put k v ((j, w) ∷ m) = let rest = put k v m in if eq_text j k then (k, v) ∷ m else (j, w) ∷ rest

  pub lookup-put :
      (j k : Text) (v : V) (m : TextMap V)
      → lookup j (put k v m) ≡ (if eq_text k j then some v else lookup j m)
  unfolding lookup put
  lookup-put j k v [] = refl
  lookup-put j k v ((i, w) ∷ m) =
      ground (arith, lookup-put j k v m, eq_text_iff i k, eq_text_iff k j, eq_text_iff i j)
