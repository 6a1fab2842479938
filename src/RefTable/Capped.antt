-- ===== src/RefTable/Capped.antt =====
-- internal/reftable/parse.go: cappedReader. A call of the underlying reader gives a number of bytes and
-- whether it has an error, io.EOF included; the counts stay far below 2^63.
use sumpter.Base.{
  ℕ, ◌+◌, ◌≤◌, ◌<◌, ◌≡◌, refl, ap, ◌∙◌, Bool, true, false, List, [], ◌∷◌, arith, ltb, if◌then◌else◌,
  inl, inr, Bool-cases, Option, none, some,
}

pub data ReadResult : Type 0 where
  got : ℕ → Bool → ReadResult
  over_bytes : ℕ → ReadResult

-- Read: the new count, and what is returned. `n` and `failed` are what c.r.Read returns.
unfoldable pub capped_read : ℕ → ℕ → ℕ → Bool → ℕ × ReadResult
capped_read limit count n failed =
    if ltb limit count
    then (count, over_bytes 0)
    else if ltb limit (count + n)
    then (count + n, over_bytes n)
    else (count + n, got n failed)

-- The calls of a loader that reads on as long as no call has an error: the bytes it got.
unfoldable pub read_all : ℕ → ℕ → List ℕ → Option ℕ
read_all limit count [] = some count
read_all limit count (n ∷ ns) =
    let (count', result) = capped_read limit count n false in
    elim result [ got _ _ ↦ read_all limit count' ns | over_bytes _ ↦ none ]

abbrev pub total : List ℕ → ℕ
total [] = 0
total (n ∷ ns) = n + total ns

capped_read-got :
    (limit count n : ℕ)
    → count + n ≤ limit
    → capped_read limit count n false ≡ (count + n, got n false)
unfolding capped_read
capped_read-got limit count n h =
    let fine : ltb limit count ≡ false = ground arith in
    let more : ltb limit (count + n) ≡ false = ground arith in rw (capped_read, fine, more) refl

capped_read-over :
    (limit count n : ℕ)
    → count ≤ limit
    → limit < count + n
    → capped_read limit count n false ≡ (count + n, over_bytes n)
unfolding capped_read
capped_read-over limit count n h k =
    let fine : ltb limit count ≡ false = ground arith in
    let over : ltb limit (count + n) ≡ true = ground arith in rw (capped_read, fine, over) refl

-- The rest of the reads, after one.
abbrev after : ℕ → List ℕ → ℕ × ReadResult → Option ℕ
after limit ns (count, got n failed) = read_all limit count ns
after limit ns (count, over_bytes n) = none

read_all-after :
    (limit count n : ℕ) (ns : List ℕ)
    → read_all limit count (n ∷ ns) ≡ after limit ns (capped_read limit count n false)
unfolding read_all
read_all-after limit count n ns = go (capped_read limit count n false)
  where
    go :
        (x : ℕ × ReadResult)
        → (elim x.1 [ got _ _ ↦ read_all limit x.0 ns | over_bytes _ ↦ none ]) ≡ after limit ns x
    go (c, got m failed) = refl
    go (c, over_bytes m) = refl

read_all-over :
    (limit count : ℕ) (ns : List ℕ)
    → count ≤ limit
    → limit < count + total ns
    → read_all limit count ns ≡ none
unfolding read_all
read_all-over limit count [] h k = absurd (omega arith)
read_all-over limit count (n ∷ ns) h k = elim (Bool-cases (ltb limit (count + n))) [
  | inl over ↦
      read_all-after limit count n ns
      ∙ ap (after limit ns) (capped_read-over limit count n h (ground arith))
  | inr more ↦
      read_all-after limit count n ns
      ∙ ap (after limit ns) (capped_read-got limit count n (ground arith))
      ∙ (read_all-over limit (count + n) ns (ground arith) (omega arith))
]

read_all-within :
    (limit count : ℕ) (ns : List ℕ)
    → count + total ns ≤ limit
    → read_all limit count ns ≡ some (count + total ns)
unfolding read_all
read_all-within limit count [] h = ap some (omega arith)
read_all-within limit count (n ∷ ns) h =
    read_all-after limit count n ns
    ∙ ap (after limit ns) (capped_read-got limit count n (omega arith))
    ∙ (read_all-within limit (count + n) ns (omega arith) ∙ ap some (omega arith))

-- A loader that reads on through the capped reader, whatever the sizes of the reads are: it gets all
-- bytes if they are no more than the limit, and otherwise the error.
pub read_all-limit :
    (limit : ℕ) (ns : List ℕ)
    → read_all limit 0 ns ≡ (if ltb limit (total ns) then none else some (total ns))
read_all-limit limit ns = elim (Bool-cases (ltb limit (total ns))) [
  | inl over ↦ rw over (read_all-over limit 0 ns (omega arith) (ground arith))
  | inr fits ↦ rw fits (read_all-within limit 0 ns (ground arith) ∙ ap some (omega arith))
]
