-- ===== src/Transforms.antt =====
-- internal/extract/transforms/string_transforms.go: trimming, and the masking of sensitive strings, on
-- values of valid UTF-8. A parameter that is missing, or has another type than the one that is read,
-- is `none`; a float64 count is given as the int it is converted to.
pub mod Mask
mod Tests
use sumpter.Base.{
  ℕ, zero, suc, ◌-◌, Bool, true, false, ◌||◌, Option, none, some, List, [], ◌∷◌, ◌++◌, take, drop,
  length, replicate, leb, ltb, ◌==◌, if◌then◌else◌,
}
use mathlib.Core.List.{reverse}
use sumpter.Base.Int.{ℤ, pos, negsuc}
use sumpter.Dsl.{Text}
use sumpter.Dsl.Runes.{runes, concat}
use sumpter.Dsl.Text.{codes, eq_text, trim_space}

-- The cutset " \t\n\r"
unfoldable pub in_cutset : ℕ → Bool
in_cutset c = c == b' ' || c == 9 || c == 10 || c == 13

-- strings.TrimLeft(value, " \t\n\r")
unfoldable pub ltrim_transform : Text → Text
ltrim_transform [] = []
ltrim_transform (c ∷ s) = let rest = ltrim_transform s in if in_cutset c then rest else c ∷ s

unfoldable pub rtrim_transform : Text → Text
rtrim_transform s = reverse (ltrim_transform (reverse s))

unfoldable pub trim_transform : Text → Text
trim_transform value = trim_space value

pub record BlindParams : Type 0 where
  pub mode : Option Text
  pub count : Option ℤ
  pub mask_char : Option Text

-- A value, an error, a panic on a slice bound, or a slice of the runes past their number, of which the
-- capacity of the slice decides whether it panics.
pub data Blinded : Type 0 where
  blinded : Text → Blinded
  unknown_mode panics past_end : Blinded

abbrev pub or_default {ℓ} : {A : Type ℓ} → Option A → A → A
or_default none d = d
or_default (some a) d = a

-- The first byte of a mask that is not empty, or else '*'.
abbrev pub mask_of : Option Text → ℕ
mask_of none = b'*'
mask_of (some []) = b'*'
mask_of (some (c ∷ s)) = c

unfoldable pub keep_first : ℤ → ℕ → Text → Blinded
keep_first (negsuc k) mask value = panics
keep_first (pos n) mask value =
    let rs = runes value in
    if leb (length rs) n
    then blinded (replicate (length rs) mask)
    else blinded (concat (take n rs) ++ replicate (length rs - n) mask)

unfoldable pub keep_last : ℤ → ℕ → Text → Blinded
keep_last (negsuc k) mask value = panics
keep_last (pos n) mask value =
    let rs = runes value in
    if leb (length rs) n
    then blinded (replicate (length rs) mask)
    else blinded (replicate (length rs - n) mask ++ concat (drop (length rs - n) rs))

-- strings.LastIndex(value, "@")
unfoldable pub last_at : Text → Option ℕ
last_at [] = none
last_at (c ∷ s) = elim (last_at s) [
  | some i ↦ some (suc i)
  | none ↦ if c == b'@' then some 0 else none
]

-- The value is cut before its rune `at_index`, which is the place of a byte.
unfoldable pub mask_local : ℤ → ℕ → ℕ → List Text → Blinded
mask_local (negsuc k) mask at_index rs = panics
mask_local (pos n) mask at_index rs =
    let before = concat (take at_index rs) in
    let domain = concat (drop at_index rs) in
    if ltb (length rs) at_index
    then panics
    else if leb (length before) n
    then blinded (replicate (length before) mask ++ domain)
    else if ltb (length rs) n
    then past_end
    else blinded (concat (take n rs) ++ replicate (length before - n) mask ++ domain)

unfoldable pub keep_domain : ℤ → ℕ → Text → Blinded
keep_domain count mask value = elim (last_at value) [
  | some (suc i) ↦ mask_local count mask (suc i) (runes value)
  | some zero ↦ blinded (trim_transform value)
  | none ↦ blinded (trim_transform value)
]

unfoldable pub blind_string_transform : Text → BlindParams → Blinded
blind_string_transform [] params = blinded []
blind_string_transform (c ∷ s) params =
    let mode = or_default params.mode (codes "keep_first") in
    let count = or_default params.count (pos 4) in
    let mask = mask_of params.mask_char in
    if eq_text mode (codes "keep_first")
    then keep_first count mask (c ∷ s)
    else if eq_text mode (codes "keep_last")
    then keep_last count mask (c ∷ s)
    else if eq_text mode (codes "keep_domain")
    then keep_domain count mask (c ∷ s)
    else if eq_text mode (codes "mask_all")
    then blinded (replicate (length (runes (c ∷ s))) mask)
    else unknown_mode
