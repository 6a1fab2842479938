-- ===== src/Json/Lines/Records.antt =====
-- The calls of the line scanner, by what it finds in each line.
use sumpter.Base.{
  ℕ, zero, suc, ◌+◌, ◌≡◌, refl, ap, ◌∙◌, Bool, none, some, List, [], ◌∷◌, ◌++◌, map, length,
  replicate, arith,
}
use sumpter.Dsl.{Text}
use sumpter.Streaming.{Record}
use sumpter.Json.{Event, DecoderError}
use sumpter.Json.Lines.{
  LineError, end_of_lines, no_value, at_eof, LineScanner, Outcome, found, stopped, leading,
  value_of, skip_spaces, with_value, with_fault, end_with, line_fault, line_record, record_line,
  line_loop, next, calls,
}

value_of-nil : value_of [] ≡ []
unfolding value_of skip_spaces
value_of-nil = refl

module _ (decode : Text → List Event × DecoderError) (size_only : Bool) (last_line : Text) where
  -- A line's record in front of those behind it, which are given the count
  abbrev pub with_line : Text → ℕ → Text → ℕ → (ℕ → List Record) → List Record
  with_line [] off line count rest = rest count
  with_line (c ∷ value) off line count rest =
      line_record decode size_only (count + 1) (off + leading line) (c ∷ value) ∷ rest (count + 1)

  abbrev pub no_records : ℕ → List Record
  no_records count = []

  -- The records of the lines and of what is behind the last one
  abbrev pub line_records : List Text → ℕ → ℕ → List Record
  line_records [] off count = with_line (value_of last_line) off last_line count no_records
  line_records (line ∷ lines) off count =
      with_line (value_of line) off line count (λ n. line_records lines (off + length line) n)

  -- A line without a value, or with one that is an object and in which the walk finds no fault
  abbrev pub IsGood : Text → Type 0
  IsGood [] = Unit
  IsGood (c ∷ value) = line_fault decode (c ∷ value) ≡ none

  abbrev pub AreGood : List Text → Type 0
  AreGood [] = IsGood (value_of last_line)
  AreGood (line ∷ lines) = IsGood (value_of line) × AreGood lines

  abbrev pub reading : List Text → Text → ℕ → ℕ → LineScanner
  reading lines behind off count = record {
    lines = lines;
    final = at_eof behind;
    size_only = size_only;
    off = off;
    count = count;
    err = none;
  }

  abbrev pub end_error : ℕ → LineError
  end_error zero = no_value
  end_error (suc n) = end_of_lines

  calls-stopped :
      (n : ℕ) (s : LineScanner) (e : LineError)
      → s.err ≡ some e
      → calls decode n s ≡ replicate n (stopped e)
  unfolding calls next
  calls-stopped zero s e h = refl
  calls-stopped (suc n) s e h =
      let again : next decode s ≡ (stopped e, s) = simp (next, h) refl in
      ap (λ (r : Outcome × LineScanner). r.0 ∷ calls decode n r.1) again
      ∙ ap (λ x. stopped e ∷ x) (calls-stopped n s e h)

  abbrev says : ℕ → Outcome × LineScanner → List Outcome
  says m r = r.0 ∷ calls decode m r.1

  -- A blank line is passed over.
  calls-blank :
      (m : ℕ) (line : Text) (lines : List Text) (off count : ℕ)
      → value_of line ≡ []
      → calls decode m (reading (line ∷ lines) last_line off count)
        ≡ calls decode m (reading lines last_line (off + length line) count)
  unfolding calls next line_loop
  calls-blank zero line lines off count h = refl
  calls-blank (suc m) line lines off count h =
      let s : LineScanner = reading lines last_line (off + length line) count in
      ap (λ v. says m (with_value decode v (off + leading line) s (line_loop decode lines s))) h

  calls-line :
      (m : ℕ) (line : Text) (lines : List Text) (off count c : ℕ) (value : Text)
      → value_of line ≡ c ∷ value
      → line_fault decode (c ∷ value) ≡ none
      → calls decode (suc m) (reading (line ∷ lines) last_line off count)
        ≡ found (line_record decode size_only (count + 1) (off + leading line) (c ∷ value))
          ∷ calls decode m (reading lines last_line (off + length line) (count + 1))
  unfolding calls next line_loop record_line
  calls-line m line lines off count c value h good =
      let s : LineScanner = reading lines last_line (off + length line) count in
      ap (λ v. says m (with_value decode v (off + leading line) s (line_loop decode lines s))) h
      ∙ ap (λ v. says m (with_fault decode v (c ∷ value) (off + leading line) s)) good

  -- The bytes behind the last line
  abbrev at_last : Text → LineScanner → Outcome × LineScanner
  at_last v s =
      let (o, s') = end_with decode v last_line s in
      (o, record s' { off = s.off + length last_line; final = at_eof [] })

  calls-last :
      (m : ℕ) (off count c : ℕ) (value : Text)
      → value_of last_line ≡ c ∷ value
      → line_fault decode (c ∷ value) ≡ none
      → calls decode (suc m) (reading [] last_line off count)
        ≡ found (line_record decode size_only (count + 1) (off + leading last_line) (c ∷ value))
          ∷ calls decode m (reading [] [] (off + length last_line) (count + 1))
  unfolding calls next line_loop record_line
  calls-last m off count c value h good =
      let s : LineScanner = reading [] last_line off count in
      ap (λ v. says m (at_last v s)) h
      ∙ ap
          (λ v.
            let (o, s') = with_fault decode v (c ∷ value) (off + leading last_line) s in
            says m (o, record s' { off = off + length last_line; final = at_eof [] }))
          good

  abbrev behind_with : Text → Text → LineScanner → Outcome × LineScanner
  behind_with v behind s =
      let (o, s') = end_with decode v behind s in
      (o, record s' { off = s.off + length behind; final = at_eof [] })

  calls-end :
      (m : ℕ) (behind : Text) (off count : ℕ)
      → value_of behind ≡ []
      → calls decode m (reading [] behind off count) ≡ replicate m (stopped (end_error count))
  unfolding calls next line_loop
  calls-end zero behind off count h = refl
  calls-end (suc m) behind off zero h =
      ap (λ v. says m (behind_with v behind (reading [] behind off 0))) h
      ∙ ap (λ x. stopped no_value ∷ x) (calls-stopped m _ no_value refl)
  calls-end (suc m) behind off (suc count) h =
      ap (λ v. says m (behind_with v behind (reading [] behind off (suc count)))) h
      ∙ ap (λ x. stopped end_of_lines ∷ x) (calls-stopped m _ end_of_lines refl)

  abbrev pub rest_says : List Record → ℕ → ℕ → List Outcome
  rest_says rs count n = map found rs ++ replicate n (stopped (end_error (count + length rs)))

  -- The record of one line, and the others
  calls-cons :
      (r : Record) (rs : List Record) (count n : ℕ) (s s' : LineScanner)
      → calls decode (suc (length rs + n)) s ≡ found r ∷ calls decode (length rs + n) s'
      → calls decode (length rs + n) s' ≡ rest_says rs (count + 1) n
      → calls decode (suc (length rs) + n) s ≡ rest_says (r ∷ rs) count n
  calls-cons r rs count n s s' e f =
      let a : suc (length rs) + n ≡ suc (length rs + n) = omega arith in
      let b : count + 1 + length rs ≡ count + suc (length rs) = omega arith in
      ap (λ m. calls decode m s) a
      ∙ e
      ∙ ap (λ x. found r ∷ x) f
      ∙ ap (λ m. found r ∷ (map found rs ++ replicate n (stopped (end_error m)))) b

  abbrev pub Says : List Record → LineScanner → ℕ → ℕ → Type 0
  Says rs s count n = calls decode (length rs + n) s ≡ rest_says rs count n

  last-Says :
      (off count n : ℕ) (v : Text)
      → value_of last_line ≡ v
      → IsGood v
      → Says (with_line v off last_line count no_records) (reading [] last_line off count) count n
  last-Says off count n [] h good =
      let a : 0 + n ≡ n = omega arith in
      let b : count ≡ count + 0 = omega arith in
      ap (λ m. calls decode m (reading [] last_line off count)) a
      ∙ calls-end n last_line off count h
      ∙ ap (λ m. replicate n (stopped (end_error m))) b
  last-Says off count n (c ∷ value) h good =
      let a : 0 + n ≡ n = omega arith in
      let b : count + 1 ≡ count + 1 + 0 = omega arith in
      calls-cons (line_record decode size_only (count + 1) (off + leading last_line) (c ∷ value)) []
        count n (reading [] last_line off count)
        (reading [] [] (off + length last_line) (count + 1))
        (calls-last (0 + n) off count c value h good)
        (ap (λ m. calls decode m (reading [] [] (off + length last_line) (count + 1))) a
          ∙ calls-end n [] (off + length last_line) (count + 1) value_of-nil
          ∙ ap (λ m. replicate n (stopped (end_error m))) b)

  line-Says :
      (line : Text) (lines : List Text) (off count n : ℕ) (v : Text)
      → value_of line ≡ v
      → IsGood v
      → ((k : ℕ)
          → Says
              (line_records lines (off + length line) k)
              (reading lines last_line (off + length line) k)
              k
              n)
      → Says
          (with_line v off line count (λ k. line_records lines (off + length line) k))
          (reading (line ∷ lines) last_line off count)
          count
          n
  line-Says line lines off count n [] h good ih =
      calls-blank (length (line_records lines (off + length line) count) + n) line lines off count h
      ∙ ih count
  line-Says line lines off count n (c ∷ value) h good ih =
      let rs : List Record = line_records lines (off + length line) (count + 1) in
      calls-cons (line_record decode size_only (count + 1) (off + leading line) (c ∷ value)) rs
        count n (reading (line ∷ lines) last_line off count)
        (reading lines last_line (off + length line) (count + 1))
        (calls-line (length rs + n) line lines off count c value h good) (ih (count + 1))

  pub lines-Says :
      (lines : List Text) (off count n : ℕ)
      → AreGood lines
      → Says (line_records lines off count) (reading lines last_line off count) count n
  lines-Says [] off count n good = last-Says off count n (value_of last_line) refl good
  lines-Says (line ∷ lines) off count n good =
      line-Says line lines off count n (value_of line) refl good.0
        (λ k. lines-Says lines (off + length line) k n good.1)
