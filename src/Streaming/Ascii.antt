-- ===== src/Streaming/Ascii.antt =====
-- internal/extract/streaming/ascii.go: the reader for documents that are declared to be ASCII. What the
-- input's Read returns is an argument: its bytes, and whether there is an error with them.
use mathlib.Core.List.{append-nil}
use sumpter.Base.{
  ◌≡◌, refl, sym, ap, ◌∙◌, Bool, true, false, ◌&&◌, ◌||◌, List, [], ◌∷◌, ◌++◌, map, arith, ltb,
  if◌then◌else◌, inl, inr, Bool-cases,
}
use sumpter.Dsl.{Text}
use sumpter.Dsl.Text.{codes, eq_text}
use sumpter.Dsl.References.{lower_byte}

unfoldable pub all_ascii : Text → Bool
all_ascii [] = true
all_ascii (b ∷ s) = if ltb 127 b then false else all_ascii s

-- isASCIIEncoding; on ASCII labels strings.EqualFold compares the lower-case bytes
unfoldable pub is_ascii_encoding : Text → Bool
is_ascii_encoding label =
    all_ascii label
    && (eq_text (map lower_byte label) (codes "ascii")
        || eq_text (map lower_byte label) (codes "us-ascii"))

-- The bytes in front of the first one that is not ASCII
unfoldable pub ascii_prefix : Text → Text
ascii_prefix [] = []
ascii_prefix (b ∷ s) = let rest = ascii_prefix s in if ltb 127 b then [] else b ∷ rest

-- Read, when the reader has failed or not: the bytes, whether it returns an error, and whether it has
-- failed for good.
unfoldable pub ascii_read : Bool → Text → Bool → Text × Bool × Bool
ascii_read true chunk failed = ([], true, true)
ascii_read false chunk failed =
    if all_ascii chunk then (chunk, failed, false) else (ascii_prefix chunk, true, true)

-- The bytes of calls of Read, one after another, whatever they return
unfoldable pub read_on : Bool → List (Text × Bool) → Text
read_on failed [] = []
read_on failed ((chunk, e) ∷ chunks) =
    let r = ascii_read failed chunk e in r.0 ++ read_on r.2 chunks

abbrev pub bytes_of : List (Text × Bool) → Text
bytes_of [] = []
bytes_of ((chunk, e) ∷ chunks) = chunk ++ bytes_of chunks

read_on-failed : (chunks : List (Text × Bool)) → read_on true chunks ≡ []
unfolding read_on ascii_read
read_on-failed [] = refl
read_on-failed ((chunk, e) ∷ chunks) = read_on-failed chunks

ascii_prefix-all_ascii :
    (a b : Text) → all_ascii a ≡ true → ascii_prefix (a ++ b) ≡ a ++ ascii_prefix b
unfolding all_ascii ascii_prefix
ascii_prefix-all_ascii [] b h = refl
ascii_prefix-all_ascii (x ∷ a) b h = ground (arith, ascii_prefix-all_ascii a b)

ascii_prefix-append : (a b : Text) → all_ascii a ≡ false → ascii_prefix (a ++ b) ≡ ascii_prefix a
unfolding all_ascii ascii_prefix
ascii_prefix-append [] b h = cc
ascii_prefix-append (x ∷ a) b h = ground (arith, ascii_prefix-append a b)

-- However the input is cut into reads: what the reader hands on, over any calls, is what the input
-- returned up to the first byte that is not ASCII.
pub read_on-ascii_prefix :
    (chunks : List (Text × Bool)) → read_on false chunks ≡ ascii_prefix (bytes_of chunks)
unfolding read_on ascii_read ascii_prefix
read_on-ascii_prefix [] = refl
read_on-ascii_prefix ((chunk, e) ∷ chunks) = elim (Bool-cases (all_ascii chunk)) [
  | inl fine ↦
      rw (read_on, ascii_read, fine)
        (ap (λ x. chunk ++ x) (read_on-ascii_prefix chunks)
          ∙ sym (ascii_prefix-all_ascii chunk (bytes_of chunks) fine))
  | inr foreign ↦
      rw (read_on, ascii_read, foreign, read_on-failed chunks)
        (append-nil (ascii_prefix chunk)
          ∙ sym (ascii_prefix-append chunk (bytes_of chunks) foreign))
]
