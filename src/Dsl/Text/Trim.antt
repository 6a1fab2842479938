-- ===== src/Dsl/Text/Trim.antt =====
-- What strings.TrimSpace returns has no white space at its ends.
use mathlib.Core.List.{reverse, reverse-append, reverse-reverse}
use mathlib.Core.Path.{subst}
use sumpter.Base.{ℕ, zero, suc, ◌≡◌, refl, sym, ap, ◌∙◌, [], ◌∷◌, ◌++◌, arith}
use sumpter.Dsl.{Text}
use sumpter.Dsl.Text.{strip, trim_space, space_width, space_width_back}

module _ (width : Text → ℕ) where
  -- Nothing is left to strip.
  abbrev IsStripped : Text → Type 0
  IsStripped [] = Unit
  IsStripped (c ∷ s) = width (c ∷ s) ≡ 0

  strip-IsStripped : (k : ℕ) (s : Text) → IsStripped (strip width k s)
  unfolding strip
  strip-IsStripped k [] = tt
  strip-IsStripped (suc k) (c ∷ s) = strip-IsStripped k s
  strip-IsStripped zero (c ∷ s) = go (λ v. strip-IsStripped v s) (width (c ∷ s)) refl
    where
      go :
          ((v : ℕ) → IsStripped (strip width v s))
          → (w : ℕ) → width (c ∷ s) ≡ w
          → IsStripped (elim w [ zero ↦ c ∷ s | suc v ↦ strip width v s ])
      go ih zero e = e
      go ih (suc v) e = ih v

  strip-stripped : (s : Text) → IsStripped s → strip width 0 s ≡ s
  unfolding strip
  strip-stripped [] h = refl
  strip-stripped (c ∷ s) h = rw (strip, h) refl

  strip-suffix : (k : ℕ) (s : Text) → (p : Text) × (s ≡ p ++ strip width k s)
  unfolding strip
  strip-suffix k [] = ([], refl)
  strip-suffix (suc k) (c ∷ s) = let (p, e) = strip-suffix k s in (c ∷ p, ap (λ x. c ∷ x) e)
  strip-suffix zero (c ∷ s) = go (λ v. strip-suffix v s) (width (c ∷ s))
    where
      go :
          ((v : ℕ) → (p : Text) × (s ≡ p ++ strip width v s))
          → (w : ℕ) → (p : Text) × (c ∷ s ≡ p ++ elim w [ zero ↦ c ∷ s | suc v ↦ strip width v s ])
      go ih zero = ([], refl)
      go ih (suc v) = let (p, e) = ih v in (c ∷ p, ap (λ x. c ∷ x) e)

-- A prefix shows no white space that the whole text does not.
space_width-prefix : (a b : Text) → space_width (a ++ b) ≡ 0 → space_width a ≡ 0
unfolding space_width
space_width-prefix [] b h = refl
space_width-prefix (x ∷ []) [] h = h
space_width-prefix (x ∷ []) (y ∷ []) h = ground arith
space_width-prefix (x ∷ []) (y ∷ z ∷ b) h = ground arith
space_width-prefix (x ∷ y ∷ []) [] h = h
space_width-prefix (x ∷ y ∷ []) (z ∷ b) h = ground arith
space_width-prefix (x ∷ y ∷ z ∷ a) b h = h

IsStripped-prefix : (a b : Text) → IsStripped space_width (a ++ b) → IsStripped space_width a
IsStripped-prefix [] b h = tt
IsStripped-prefix (x ∷ a) b h = space_width-prefix (x ∷ a) b h

-- Trimming a trimmed text changes nothing.
pub trim_space-trim_space : (s : Text) → trim_space (trim_space s) ≡ trim_space s
unfolding trim_space
trim_space-trim_space s =
    let t : Text = strip space_width 0 s in
    let u : Text = strip space_width_back 0 (reverse t) in
    let (p, e) = strip-suffix space_width_back 0 (reverse t) in
    let parts : t ≡ reverse u ++ reverse p =
      sym (reverse-reverse t) ∙ ap reverse e ∙ reverse-append p u in
    let front : IsStripped space_width (reverse u) =
      IsStripped-prefix (reverse u) (reverse p)
        (subst (IsStripped space_width) parts (strip-IsStripped space_width 0 s)) in
    ap (λ x. reverse (strip space_width_back 0 (reverse x)))
      (strip-stripped space_width (reverse u) front)
    ∙ ap (λ x. reverse (strip space_width_back 0 x)) (reverse-reverse u)
    ∙ ap reverse
        (strip-stripped space_width_back u (strip-IsStripped space_width_back 0 (reverse t)))
