-- ===== src/Transforms/Mask.antt =====
-- How much of a value a masked one shows.
use sumpter.Base.{
  ℕ, zero, suc, ◌+◌, ◌-◌, ◌≤◌, ◌≡◌, refl, sym, ap, ◌∙◌, none, some, List, [], ◌∷◌, ◌++◌, take, drop,
  length, replicate, arith, leb, if◌then◌else◌, Bool-cases, ◌⊎◌, inl, inr,
}
use mathlib.Core.List.{append_assoc}
use sumpter.Base.Int.{pos}
use sumpter.Dsl.{Text}
use sumpter.Dsl.Text.{codes, eq_text, trim_space}
use sumpter.Dsl.Runes.{runes, concat}
use sumpter.Transforms.{
  BlindParams, Blinded, blinded, trim_transform, keep_first, keep_last, last_at, keep_domain,
  blind_string_transform,
}

-- Each piece of the second list stands for the rune at its place in the first: it is the mask or that
-- rune, the latter at most `k` times.
abbrev pub Masks : ℕ → ℕ → List Text → List Text → Type 0
Masks mask k [] [] = Unit
Masks mask zero (r ∷ rs) (w ∷ ws) = (w ≡ mask ∷ []) × Masks mask zero rs ws
Masks mask (suc k) (r ∷ rs) (w ∷ ws) =
    ((w ≡ mask ∷ []) × Masks mask (suc k) rs ws) ⊎ ((w ≡ r) × Masks mask k rs ws)
Masks mask k _ _ = ⊥

module _ (mask : ℕ) where
  abbrev stars : ℕ → List Text
  stars n = replicate n (mask ∷ [])

  Masks-star :
      (k : ℕ) (r : Text) (rs ws : List Text)
      → Masks mask k rs ws
      → Masks mask k (r ∷ rs) ((mask ∷ []) ∷ ws)
  Masks-star zero r rs ws h = (refl, h)
  Masks-star (suc k) r rs ws h = inl (refl, h)

  Masks-stars : (k : ℕ) (rs : List Text) → Masks mask k rs (stars (length rs))
  Masks-stars k [] = tt
  Masks-stars k (r ∷ rs) = Masks-star k r rs (stars (length rs)) (Masks-stars k rs)

  Masks-same : (k : ℕ) (rs : List Text) → length rs ≤ k → Masks mask k rs rs
  Masks-same k [] h = tt
  Masks-same zero (r ∷ rs) h = absurd (omega arith)
  Masks-same (suc k) (r ∷ rs) h = inr (refl, Masks-same k rs (omega arith))

  Masks-take :
      (k m : ℕ) (rs : List Text) → length rs ≡ k + m → Masks mask k rs (take k rs ++ stars m)
  Masks-take zero m rs h = let e : m ≡ length rs = omega arith in rw e (Masks-stars zero rs)
  Masks-take (suc k) m [] h = absurd (omega arith)
  Masks-take (suc k) m (r ∷ rs) h = inr (refl, Masks-take k m rs (omega arith))

  Masks-drop :
      (k m : ℕ) (rs : List Text) → length rs ≡ m + k → Masks mask k rs (stars m ++ drop m rs)
  Masks-drop k zero rs h = Masks-same k rs (omega arith)
  Masks-drop k (suc m) [] h = absurd (omega arith)
  Masks-drop k (suc m) (r ∷ rs) h =
      Masks-star k r rs (stars m ++ drop m rs) (Masks-drop k m rs (omega arith))

  concat-stars : (n : ℕ) → concat (stars n) ≡ replicate n mask
  unfolding concat
  concat-stars zero = refl
  concat-stars (suc n) = ap (◌∷◌ mask) (concat-stars n)

  concat-append : (rs ss : List Text) → concat (rs ++ ss) ≡ concat rs ++ concat ss
  unfolding concat
  concat-append [] ss = refl
  concat-append (r ∷ rs) ss =
      ap (λ t. r ++ t) (concat-append rs ss) ∙ sym (append_assoc r (concat rs) (concat ss))

-- What is masked is made of a piece for each rune: at most `n` of them are the rune, and none is if
-- there are no more than `n` runes.
abbrev pub IsMasked : ℕ → ℕ → Text → Blinded → Type 0
IsMasked n mask value result =
    (ws : List Text) × (result ≡ blinded (concat ws))
    × Masks mask (if leb (length (runes value)) n then 0 else n) (runes value) ws

all-IsMasked :
    (n mask : ℕ) (value : Text)
    → IsMasked n mask value (blinded (replicate (length (runes value)) mask))
all-IsMasked n mask value = (
  stars mask (length (runes value)),
  ap blinded (sym (concat-stars mask (length (runes value)))),
  Masks-stars mask (if leb (length (runes value)) n then 0 else n) (runes value),
)

keep_first-IsMasked :
    (n mask : ℕ) (value : Text) → IsMasked n mask value (keep_first (pos n) mask value)
unfolding keep_first
keep_first-IsMasked n mask value =
    let rs : List Text = runes value in
    elim (Bool-cases (leb (length rs) n)) [
      | inl e ↦
          rw (keep_first, e)
            (
              stars mask (length rs),
              ap blinded (sym (concat-stars mask (length rs))),
              Masks-stars mask 0 rs,
            )
      | inr e ↦
          rw (keep_first, e)
            (
              take n rs ++ stars mask (length rs - n),
              ap blinded (
                  sym (
                    concat-append mask (take n rs) (stars mask (length rs - n))
                    ∙ ap (λ t. concat (take n rs) ++ t) (concat-stars mask (length rs - n)))),
              Masks-take mask n (length rs - n) rs (ground arith),
            )
    ]

keep_last-IsMasked :
    (n mask : ℕ) (value : Text) → IsMasked n mask value (keep_last (pos n) mask value)
unfolding keep_last
keep_last-IsMasked n mask value =
    let rs : List Text = runes value in
    elim (Bool-cases (leb (length rs) n)) [
      | inl e ↦
          rw (keep_last, e)
            (
              stars mask (length rs),
              ap blinded (sym (concat-stars mask (length rs))),
              Masks-stars mask 0 rs,
            )
      | inr e ↦
          rw (keep_last, e)
            (
              stars mask (length rs - n) ++ drop (length rs - n) rs,
              ap blinded (
                  sym (
                    concat-append mask (stars mask (length rs - n)) (drop (length rs - n) rs)
                    ∙ ap (λ t. t ++ concat (drop (length rs - n) rs))
                        (concat-stars mask (length rs - n)))),
              Masks-drop mask n (length rs - n) rs (ground arith),
            )
    ]

abbrev pub with_mode : Text → ℕ → ℕ → BlindParams
with_mode mode n mask = record {
  mode = some mode;
  count = some (pos n);
  mask_char = some (mask ∷ []);
}

-- For a value of valid UTF-8 that is not empty, in the modes that keep the first or the last runes, or
-- none, with a count that is not negative: the result is made of one piece for each rune of the value,
-- in order, which is the mask or that rune; at most as many pieces as the count are the rune, and none
-- is where the value has no more runes than the count.
pub blind_string_transform-IsMasked :
    (c : ℕ) (s : Text) (n mask : ℕ)
    → IsMasked n mask
        (c ∷ s)
        (blind_string_transform (c ∷ s) (with_mode (codes "keep_first") n mask))
      × IsMasked n mask
          (c ∷ s)
          (blind_string_transform (c ∷ s) (with_mode (codes "keep_last") n mask))
      × IsMasked n mask
          (c ∷ s)
          (blind_string_transform (c ∷ s) (with_mode (codes "mask_all") n mask))
unfolding blind_string_transform eq_text
blind_string_transform-IsMasked c s n mask = (
  keep_first-IsMasked n mask (c ∷ s),
  keep_last-IsMasked n mask (c ∷ s),
  all-IsMasked n mask (c ∷ s),
)

-- In the mode that keeps the domain, a value with no at sign after its first byte is returned trimmed,
-- and in no way masked, whatever the count and the mask are.
blind_string_transform-unmasked :
    (c : ℕ) (s : Text) (n mask : ℕ)
    → ((last_at (c ∷ s) ≡ none) ⊎ (last_at (c ∷ s) ≡ some 0))
    → blind_string_transform (c ∷ s) (with_mode (codes "keep_domain") n mask)
      ≡ blinded (trim_space (c ∷ s))
unfolding blind_string_transform eq_text keep_domain trim_transform
blind_string_transform-unmasked c s n mask (inl e) = rw (keep_domain, e) refl
blind_string_transform-unmasked c s n mask (inr e) = rw (keep_domain, e) refl
