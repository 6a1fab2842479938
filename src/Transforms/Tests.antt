-- ===== src/Transforms/Tests.antt =====
-- Tests and instances for internal/extract/transforms/string_transforms.go.
use sumpter.Base.{◌≡◌, refl, none, some, [], ◌∷◌, ◌++◌}
use sumpter.Base.Int.{negsuc}
use sumpter.Dsl.{Text}
use sumpter.Dsl.Text.{codes, eq_text}
use sumpter.Dsl.Runes.{runes, concat}
use sumpter.Transforms.{
  blinded, panics, keep_first, last_at, mask_local, keep_domain, blind_string_transform,
  ltrim_transform, in_cutset, rtrim_transform,
}
use sumpter.Transforms.Mask.{IsMasked, with_mode, blind_string_transform-IsMasked}

trimmed_left : ltrim_transform (codes " \t a ") ≡ codes "a "
unfolding ltrim_transform in_cutset
trimmed_left = refl

trimmed_right : rtrim_transform (codes " a \n") ≡ codes " a"
unfolding rtrim_transform ltrim_transform in_cutset
trimmed_right = refl

first_two :
    blind_string_transform (codes "secret") (with_mode (codes "keep_first") 2 b'*')
    ≡ blinded (codes "se****")
unfolding blind_string_transform eq_text keep_first runes concat
first_two = refl

address :
    blind_string_transform (codes "joan@x.org") (with_mode (codes "keep_domain") 1 b'#')
    ≡ blinded (codes "j###@x.org")
unfolding blind_string_transform eq_text keep_domain last_at mask_local runes concat
address = refl

abbrev e_acute : Text
e_acute = 195 ∷ 169 ∷ []

-- Of a value that is not ASCII, runes are kept and counted; here the first has two bytes.
two_bytes :
    blind_string_transform (e_acute ++ codes "ab") (with_mode (codes "keep_first") 1 b'*')
    ≡ blinded (e_acute ++ codes "**")
unfolding blind_string_transform eq_text keep_first runes concat
two_bytes = refl

-- The at sign is the rune 2 of 3, and the byte 4: the cut is out of range.
cut_too_far :
    blind_string_transform
      (e_acute ++ e_acute ++ codes "@")
      (with_mode (codes "keep_domain") 1 b'*')
    ≡ panics
unfolding blind_string_transform eq_text keep_domain last_at mask_local runes concat
cut_too_far = refl

-- The slice has a bound below 0.
negative_count :
    blind_string_transform
      (codes "secret")
      (record { mode = none; count = some (negsuc 0); mask_char = none })
    ≡ panics
unfolding blind_string_transform eq_text keep_first
negative_count = refl

blind_string_transform-IsMasked_example :
    IsMasked 2 b'*'
      (195 ∷ 169 ∷ codes "cole")
      (blind_string_transform (195 ∷ 169 ∷ codes "cole") (with_mode (codes "keep_first") 2 b'*'))
    × IsMasked 2 b'*'
        (195 ∷ 169 ∷ codes "cole")
        (blind_string_transform (195 ∷ 169 ∷ codes "cole") (with_mode (codes "keep_last") 2 b'*'))
    × IsMasked 2 b'*'
        (195 ∷ 169 ∷ codes "cole")
        (blind_string_transform (195 ∷ 169 ∷ codes "cole") (with_mode (codes "mask_all") 2 b'*'))
blind_string_transform-IsMasked_example =
    blind_string_transform-IsMasked 195 (169 ∷ codes "cole") 2 b'*'
