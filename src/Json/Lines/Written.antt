-- ===== src/Json/Lines/Written.antt =====
-- The line scanner against lines that are written from an object, or from nothing, in white space.
use mathlib.Core.Path.{subst}
use mathlib.Core.List.{append-nil, reverse, reverse-append, reverse-cons, reverse-reverse}
use sumpter.Base.{
  ℕ, suc, ◌+◌, ◌==◌, ◌≡◌, refl, sym, ap, ◌∙◌, Bool, true, false, none, List, [], ◌∷◌, ◌++◌, map,
  length, length-append, replicate, arith, if◌then◌else◌, ◌⊎◌,
}
use sumpter.Base.Members.{All}
use sumpter.Dsl.{Text}
use sumpter.Streaming.{Record}
use sumpter.Json.{Event, DecoderError}
use sumpter.Json.Document.Numbers.{All-append}
use sumpter.Json.Capture.{is_space}
use sumpter.Json.Walk.{walk}
use sumpter.Json.Lines.{
  LineError, end_of_lines, no_value, at_eof, found, stopped, leading, value_of, skip_spaces,
  line_fault, line_record, calls, new_line_scanner,
}
use sumpter.Json.Lines.Records.{
  with_line, no_records, line_records, IsGood, AreGood, end_error, lines-Says,
}

-- A line of white space, or one in which a value, of a first byte and others, stands in white space
pub data Line : Type 0 where
  blank : Text → Line
  holds : Text → ℕ → Text → Text → Line

abbrev pub written : Line → Text
written (blank s) = s
written (holds front c value behind) = front ++ ((c ∷ value) ++ behind)

-- A space, a tab, a line feed or a carriage return
abbrev pub IsBlank : ℕ → Type 0
IsBlank c = (c ≡ 32) ⊎ (c ≡ 9) ⊎ (c ≡ 10) ⊎ (c ≡ 13)

abbrev pub last_of : ℕ → Text → ℕ
last_of c [] = c
last_of c (d ∷ s) = last_of d s

-- What is between the white space is all of the value, which is an object in which the walk finds no
-- fault.
abbrev pub IsLine : (Text → List Event × DecoderError) → Line → Type 0
IsLine decode (blank s) = All IsBlank s
IsLine decode (holds front c value behind) =
    All IsBlank front
    × All IsBlank behind
    × (c ≡ b'{')
    × (IsBlank (last_of c value) → ⊥)
    × (walk (decode (c ∷ value)).1 (decode (c ∷ value)).0 ≡ none)

-- The records of lines, of which the first begins at an offset, behind a number of records
abbrev pub written_records : Bool → List Line → ℕ → ℕ → List Record
written_records size_only [] off count = []
written_records size_only (blank s ∷ lines) off count =
    written_records size_only lines (off + length s) count
written_records size_only (holds front c value behind ∷ lines) off count =
    let start = off + length front in
    let size = length (c ∷ value) in
    (record {
      raw = if size_only then [] else c ∷ value;
      num = count + 1;
      start_offset = start;
      end_offset = start + size;
      size_bytes = size;
      depth = 1;
      context = [];
    })
    ∷ written_records size_only lines (start + size + length behind) (count + 1)

-- The error that every call returns behind the records
abbrev pub at_end : List Record → LineError
at_end [] = no_value
at_end (r ∷ rs) = end_of_lines

IsBlank-is_space : (c : ℕ) → IsBlank c → is_space c ≡ true
unfolding is_space
IsBlank-is_space c h = ground (arith, h)

other-is_space : (c : ℕ) → (IsBlank c → ⊥) → is_space c ≡ false
unfolding is_space
other-is_space c h = ground (arith, h)

skip_spaces-blank : (s t : Text) → All IsBlank s → skip_spaces (s ++ t) ≡ skip_spaces t
unfolding skip_spaces
skip_spaces-blank [] t h = refl
skip_spaces-blank (c ∷ s) t (b, h) =
    rw (skip_spaces, IsBlank-is_space c b) (skip_spaces-blank s t h)

skip_spaces-other : (c : ℕ) (s : Text) → is_space c ≡ false → skip_spaces (c ∷ s) ≡ c ∷ s
unfolding skip_spaces
skip_spaces-other c s h = rw (skip_spaces, h) refl

leading-blank :
    (s : Text) (c : ℕ) (t : Text)
    → All IsBlank s
    → is_space c ≡ false
    → leading (s ++ c ∷ t) ≡ length s
unfolding leading
leading-blank [] c t h e = rw (leading, e) refl
leading-blank (d ∷ s) c t (b, h) e =
    rw (leading, IsBlank-is_space d b) (ap suc (leading-blank s c t h e))

reverse-last : (c : ℕ) (s : Text) → (w : Text) × (reverse (c ∷ s) ≡ last_of c s ∷ w)
reverse-last c [] = ([], refl)
reverse-last c (d ∷ s) =
    let (w, e) = reverse-last d s in (w ++ c ∷ [], reverse-cons c (d ∷ s) ∙ ap (λ x. x ++ c ∷ []) e)

reverse-IsBlank : (s : Text) → All IsBlank s → All IsBlank (reverse s)
reverse-IsBlank [] h = tt
reverse-IsBlank (c ∷ s) (b, h) =
    rw (reverse-cons c s) (All-append IsBlank (reverse s) (c ∷ []) (reverse-IsBlank s h) (b, tt))

value_of-blank : (s : Text) → All IsBlank s → value_of s ≡ []
unfolding value_of skip_spaces
value_of-blank s h =
    ap (λ x. reverse (skip_spaces (reverse x)))
      (ap skip_spaces (sym (append-nil s)) ∙ skip_spaces-blank s [] h)

value_of-written :
    (front : Text) (c : ℕ) (value behind : Text)
    → All IsBlank front
    → All IsBlank behind
    → is_space c ≡ false
    → (IsBlank (last_of c value) → ⊥)
    → value_of (front ++ ((c ∷ value) ++ behind)) ≡ c ∷ value
unfolding value_of
value_of-written front c value behind f b e l =
    let (w, r) = reverse-last c value in
    let same : skip_spaces (reverse (c ∷ value)) ≡ reverse (c ∷ value) =
      ap skip_spaces r
      ∙ skip_spaces-other (last_of c value) w (other-is_space (last_of c value) l)
      ∙ sym r in
    ap (λ x. reverse (skip_spaces (reverse x)))
      (skip_spaces-blank front ((c ∷ value) ++ behind) f ∙ skip_spaces-other c (value ++ behind) e)
    ∙ ap (λ x. reverse (skip_spaces x)) (reverse-append (c ∷ value) behind)
    ∙ ap reverse
        (skip_spaces-blank (reverse behind) (reverse (c ∷ value)) (reverse-IsBlank behind b) ∙ same)
    ∙ reverse-reverse (c ∷ value)

brace-is_space : (c : ℕ) → c ≡ b'{' → is_space c ≡ false
unfolding is_space
brace-is_space c h = ground (arith, h)

length-written :
    (front : Text) (c : ℕ) (value behind : Text) (off : ℕ)
    → off + length (front ++ ((c ∷ value) ++ behind))
      ≡ off + length front + length (c ∷ value) + length behind
length-written front c value behind off =
    omega (arith, length-append front ((c ∷ value) ++ behind), length-append (c ∷ value) behind)

module _ (decode : Text → List Event × DecoderError) (size_only : Bool) (last_line : Text) where
  -- A line's record in front of those behind it
  abbrev written_with : Line → ℕ → ℕ → (ℕ → List Record) → List Record
  written_with (blank s) off count rest = rest count
  written_with (holds front c value behind) off count rest =
      line_record decode size_only (count + 1) (off + length front) (c ∷ value) ∷ rest (count + 1)

  with_line-written :
      (line : Line) (off count : ℕ) (rest : ℕ → List Record)
      → IsLine decode line
      → with_line decode size_only last_line (value_of (written line)) off (written line) count rest
        ≡ written_with line off count rest
  with_line-written (blank s) off count rest h =
      ap (λ v. with_line decode size_only last_line v off s count rest) (value_of-blank s h)
  with_line-written (holds front c value behind) off count rest (f, b, brace, l, good) =
      let e = brace-is_space c brace in
      ap
        (λ v.
          with_line decode size_only last_line v off (front ++ ((c ∷ value) ++ behind)) count rest)
        (value_of-written front c value behind f b e l)
      ∙ ap (λ n. line_record decode size_only (count + 1) (off + n) (c ∷ value) ∷ rest (count + 1))
          (leading-blank front c (value ++ behind) f e)

  written_with-last :
      (line : Line) (off count : ℕ)
      → written_with line off count (no_records decode size_only last_line)
        ≡ written_records size_only (line ∷ []) off count
  written_with-last (blank s) off count = refl
  written_with-last (holds front c value behind) off count = refl

  line-IsGood :
      (line : Line)
      → IsLine decode line
      → IsGood decode size_only last_line (value_of (written line))
  line-IsGood (blank s) h = subst (IsGood decode size_only last_line) (sym (value_of-blank s h)) tt
  line-IsGood (holds front c value behind) (f, b, brace, l, good) =
      let begins : (c == b'{') ≡ true = ground (arith, brace) in
      let fine : line_fault decode (c ∷ value) ≡ none = rw (begins, good) refl in
      subst (IsGood decode size_only last_line)
        (sym (value_of-written front c value behind f b (brace-is_space c brace) l)) fine

  end_error-at_end :
      (rs : List Record) → end_error decode size_only last_line (0 + length rs) ≡ at_end rs
  end_error-at_end [] = refl
  end_error-at_end (r ∷ rs) =
      let e : 0 + suc (length rs) ≡ suc (length rs) = omega arith in
      ap (end_error decode size_only last_line) e

module _ (decode : Text → List Event × DecoderError) (size_only : Bool) (last_line : Line) where
  lines-AreGood :
      (lines : List Line)
      → All (IsLine decode) lines
      → IsLine decode last_line
      → AreGood decode size_only (written last_line) (map written lines)
  lines-AreGood [] h l = line-IsGood decode size_only (written last_line) last_line l
  lines-AreGood (line ∷ lines) (k, h) l =
      (line-IsGood decode size_only (written last_line) line k, lines-AreGood lines h l)

  line_records-written :
      (lines : List Line) (off count : ℕ)
      → All (IsLine decode) lines
      → IsLine decode last_line
      → line_records decode size_only (written last_line) (map written lines) off count
        ≡ written_records size_only (lines ++ last_line ∷ []) off count
  line_records-written [] off count h l =
      with_line-written decode size_only (written last_line) last_line off count
        (no_records decode size_only (written last_line)) l
      ∙ written_with-last decode size_only (written last_line) last_line off count
  line_records-written (blank s ∷ lines) off count (k, h) l =
      with_line-written decode size_only (written last_line) (blank s) off count _ k
      ∙ line_records-written lines (off + length s) count h l
  line_records-written (holds front c value behind ∷ lines) off count (k, h) l =
      with_line-written decode size_only (written last_line) (holds front c value behind) off count
        _ k
      ∙ ap (λ rs. line_record decode size_only (count + 1) (off + length front) (c ∷ value) ∷ rs)
          (line_records-written lines (off + length (front ++ ((c ∷ value) ++ behind))) (count + 1)
              h l
            ∙ ap (λ o. written_records size_only (lines ++ last_line ∷ []) o (count + 1))
                (length-written front c value behind off))

-- For lines, and bytes behind the last one, each of which is white space or holds one object in which
-- the walk finds no fault, in white space: the calls of Next return a record for each object in order,
-- numbered from 1, of depth 1, with the range of the object's bytes in the input, behind a byte order
-- mark or none, and, unless only sizes are wanted, these bytes; from then on, io.EOF if there was a
-- record, and the error for an input without a value if there was none.
pub calls-written_records :
    (decode : Text → List Event × DecoderError) (size_only : Bool) (base : ℕ) (lines : List Line)
    (last_line : Line) (n : ℕ)
    → All (IsLine decode) lines
    → IsLine decode last_line
    → calls decode
        (length (written_records size_only (lines ++ last_line ∷ []) base 0) + n)
        (new_line_scanner size_only base (map written lines) (at_eof (written last_line)))
      ≡ map found (written_records size_only (lines ++ last_line ∷ []) base 0)
        ++ replicate n
            (stopped (at_end (written_records size_only (lines ++ last_line ∷ []) base 0)))
unfolding new_line_scanner
calls-written_records decode size_only base lines last_line n h l =
    let says =
      lines-Says decode size_only (written last_line) (map written lines) base 0 n
        (lines-AreGood decode size_only last_line lines h l) in
    let rs : List Record = written_records size_only (lines ++ last_line ∷ []) base 0 in
    (rw (line_records-written decode size_only last_line lines base 0 h l) at says)
    ∙ ap (λ e. map found rs ++ replicate n (stopped e))
        (end_error-at_end decode size_only (written last_line) rs)
