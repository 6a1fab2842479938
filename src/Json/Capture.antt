-- ===== src/Json/Capture.antt =====
-- internal/docnode/json/scanner.go: captureBuf, the bytes handed to the decoder from an offset on.
pub mod Laws
use sumpter.Base.{
  ℕ, zero, suc, ◌+◌, ◌-◌, ◌≤◌, ◌<◌, ◌≡◌, refl, ap, ◌∙◌, Bool, true, false, ◌||◌, Option, none, some,
  List, [], ◌∷◌, ◌++◌, length, take, drop, arith, ◌==◌, ltb, leb, if◌then◌else◌,
}
use sumpter.Dsl.{Text}
use sumpter.Dsl.Scan.{is_empty}

pub record CaptureBuf : Type 0 where
  pub buf : Text
  pub base : ℕ

abbrev pub empty_capture : CaptureBuf
empty_capture = record { buf = []; base = 0 }

unfoldable pub write : CaptureBuf → Text → ℕ → CaptureBuf
write c p at = record { buf = c.buf ++ p; base = if is_empty c.buf then at else c.base }

unfoldable pub discard_before : CaptureBuf → ℕ → CaptureBuf
discard_before c off =
    if leb off c.base
    then c
    else if leb (length c.buf) (off - c.base)
    then record { buf = []; base = off }
    else record { buf = drop (off - c.base) c.buf; base = off }

abbrev pub get_elem? : Text → ℕ → Option ℕ
get_elem? [] i = none
get_elem? (b ∷ s) zero = some b
get_elem? (b ∷ s) (suc i) = get_elem? s i

unfoldable pub byte_at : CaptureBuf → ℕ → Option ℕ
byte_at c off = if ltb off c.base then none else get_elem? c.buf (off - c.base)

-- slice; the code panics where the range is not in the buffer.
unfoldable pub slice : CaptureBuf → ℕ → ℕ → Option Text
slice c start end =
    if ltb start c.base || ltb end start || ltb (c.base + length c.buf) end
    then none
    else some (take (end - start) (drop (start - c.base) c.buf))

-- isSpace
unfoldable pub is_space : ℕ → Bool
is_space b = b == b' ' || b == 9 || b == 10 || b == 13

unfoldable pub separates : ℕ → Bool
separates b = is_space b || b == b',' || b == b':'

-- valueStart: how many of the bytes separate, if one follows that does not
unfoldable pub separators : Text → Option ℕ
separators [] = none
separators (b ∷ s) =
    let rest = separators s in
    if separates b then elim rest [ none ↦ none | some n ↦ some (suc n) ] else some 0

unfoldable pub value_start : CaptureBuf → ℕ → Option ℕ
value_start c pre =
    if ltb pre c.base
    then none
    else elim (separators (drop (pre - c.base) c.buf)) [ none ↦ none | some n ↦ some (pre + n) ]

-- The bytes of an input from an offset on
abbrev pub bytes_from : (ℕ → ℕ) → ℕ → ℕ → Text
bytes_from input a zero = []
bytes_from input a (suc n) = input a ∷ bytes_from input (a + 1) n
