-- ===== src/Streaming/Records.antt =====
-- The scanner against the records of the tree.
use mathlib.Core.List.{append_assoc, append-nil, map-append}
use sumpter.Base.{
  ℕ, zero, suc, ◌+◌, ◌≡◌, refl, sym, ap, ◌∙◌, Bool, Option, some, List, [], ◌∷◌, ◌++◌, map, length,
  replicate, arith, inl, inr, Bool-cases, length-append,
}
use sumpter.Dsl.{Text}
use sumpter.Dsl.Text.{eq_text}
use sumpter.TextMap.{TextMap}
use sumpter.Streaming.{
  Token, end_element, Record, RecordScanner, ScanError, eof, Outcome, found, stopped,
  declare_attributes, top, next_loop, next, calls, new_record_scanner,
}
use sumpter.Streaming.Forest.{Forest, done, content, element, events, bytes, records, CanWrite}
use sumpter.Streaming.Between.{
  between, between-content, between-open, between-close, outer, between-record,
}

module _ (encode : List Token → Option Text) (size_only : Bool) (name : Text)
    (final : ScanError) where
  abbrev all : Forest → List (TextMap Text) → ℕ → ℕ → ℕ → List Record
  all f stack d count offset = records encode size_only name f (top stack) d count offset

  between-events :
      (f : Forest) (k : ℕ) (tail : List (Token × ℕ)) (offset d count : ℕ)
      (stack : List (TextMap Text))
      → CanWrite encode size_only name f
      → between encode size_only name final
          (length (all f stack d count offset) + k)
          (events f ++ tail)
          offset
          d
          count
          stack
        ≡ map found (all f stack d count offset)
          ++ between encode size_only name final k tail
              (offset + bytes f)
              d
              (count + length (all f stack d count offset))
              stack
  between-events done k tail offset d count stack h =
      let a : 0 + k ≡ k = omega arith in
      let b : offset + 0 ≡ offset = omega arith in
      let c : count + 0 ≡ count = omega arith in rw (a, b, c) refl
  between-events (content c w rest) k tail offset d count stack h =
      let rs : List Record = all rest stack d count (offset + w) in
      let a : offset + (w + bytes rest) ≡ offset + w + bytes rest = omega arith in
      between-content encode size_only name final (length rs + k) c w (events rest ++ tail) offset d
        count stack
      ∙ between-events rest k tail (offset + w) d count stack h
      ∙ ap
          (λ x.
            map found rs
            ++ between encode size_only name final k tail x d (count + length rs) stack)
          (sym a)
  between-events (element n attrs v children w rest) k tail offset d count stack h =
      let after : List (Token × ℕ) = (end_element n, w) ∷ (events rest ++ tail) in
      let parts : (events children ++ (end_element n, w) ∷ events rest) ++ tail
          ≡ events children ++ after =
        append_assoc (events children) ((end_element n, w) ∷ events rest) tail in
      let size : ℕ = v + bytes children + w in
      let m : TextMap Text = declare_attributes (top stack) attrs in
      elim (Bool-cases (eq_text n name)) [
        | inl same ↦
            let rs : List Record = all rest stack d (count + 1) (offset + size) in
            let a : suc (length rs) + k ≡ suc (length rs + k) = omega arith in
            let b : offset + size + bytes rest ≡ offset + (size + bytes rest) = omega arith in
            let c : count + 1 + length rs ≡ count + suc (length rs) = omega arith in
            let hw = rw same at h in
            rw
              (
                same,
                a,
                parts,
                between-record encode size_only name final (length rs + k) n attrs v children w
                    (events rest ++ tail) offset d count stack same hw.0,
              )
              (ap
                (λ x.
                  found (
                    outer encode size_only name final n attrs v children w (top stack) d count
                      offset)
                  ∷ x)
                (between-events rest k tail (offset + size) d (count + 1) stack h.1
                  ∙ rw (b, c) refl))
        | inr other ↦
            let is : List Record = all children (m ∷ stack) (d + 1) count (offset + v) in
            let rs : List Record = all rest stack d (count + length is) (offset + size) in
            let hw = rw other at h in
            let a : length is + length rs + k ≡ length is + (length rs + k) = omega arith in
            let b : offset + size + bytes rest ≡ offset + (size + bytes rest) = omega arith in
            let c : count + (length is + length rs) ≡ count + length is + length rs = omega arith in
            let o : offset + v + bytes children + w ≡ offset + size = omega arith in
            rw (other, length-append is rs, map-append found is rs, a, c, parts)
              (between-open encode size_only name final (length is + (length rs + k)) n attrs v
                  (events children ++ after) offset d count stack other
                ∙ between-events children (length rs + k) after (offset + v) (d + 1) count
                    (m ∷ stack) hw.0
                ∙ ap (λ x. map found is ++ x)
                    (between-close encode size_only name final (length rs + k) n w
                        (events rest ++ tail) (offset + v + bytes children) d (count + length is) m
                        stack
                      ∙ ap
                          (λ x.
                            between encode size_only name final (length rs + k)
                              (events rest ++ tail) x d (count + length is) stack)
                          o
                      ∙ between-events rest k tail (offset + size) d (count + length is) stack h.1
                      ∙ ap
                          (λ x.
                            map found rs
                            ++ between encode size_only name final k tail x d
                                (count + length is + length rs) stack)
                          b)
                ∙ sym (append_assoc (map found is) (map found rs) _))
      ]

-- After the end of the input
calls-eof :
    (encode : List Token → Option Text) (n : ℕ) (s : RecordScanner)
    → s.err ≡ some eof
    → calls encode n s ≡ replicate n (stopped eof)
unfolding calls next
calls-eof encode zero s e = refl
calls-eof encode (suc n) s e =
    let again : next encode s ≡ (stopped eof, s) = simp (next, e) refl in
    ap (λ (r : Outcome × RecordScanner). r.0 ∷ calls encode n r.1) again
    ∙ ap (λ x. stopped eof ∷ x) (calls-eof encode n s e)

between-eof :
    (encode : List Token → Option Text) (size_only : Bool) (name : Text) (n offset count : ℕ)
    → between encode size_only name eof n [] offset 0 count [] ≡ replicate n (stopped eof)
unfolding next_loop
between-eof encode size_only name zero offset count = refl
between-eof encode size_only name (suc n) offset count =
    ap (λ x. stopped eof ∷ x) (calls-eof encode n _ refl)

calls-start :
    (encode : List Token → Option Text) (size_only : Bool) (name : Text) (n : ℕ)
    (tokens : List (Token × ℕ))
    → calls encode n (new_record_scanner (some name) size_only tokens eof)
      ≡ between encode size_only name eof n tokens 0 0 0 []
unfolding calls next new_record_scanner
calls-start encode size_only name zero tokens = refl
calls-start encode size_only name (suc n) tokens = refl

-- For a document whose tags match, every record of which can be written: the calls of Next return
-- the outermost elements of the name in document order, numbered from 1, each with the range of its
-- bytes, its depth, its namespaces and, unless only sizes are wanted, the text of its tokens, and
-- io.EOF from then on.
pub calls-records :
    (encode : List Token → Option Text) (size_only : Bool) (name : Text) (f : Forest) (n : ℕ)
    → CanWrite encode size_only name f
    → calls encode
        (length (records encode size_only name f [] 0 0 0) + n)
        (new_record_scanner (some name) size_only (events f) eof)
      ≡ map found (records encode size_only name f [] 0 0 0) ++ replicate n (stopped eof)
unfolding new_record_scanner
calls-records encode size_only name f n h =
    let rs : List Record = records encode size_only name f [] 0 0 0 in
    calls-start encode size_only name (length rs + n) (events f)
    ∙ ap (λ t. between encode size_only name eof (length rs + n) t 0 0 0 [])
        (sym (append-nil (events f)))
    ∙ between-events encode size_only name eof f n [] 0 0 0 [] h
    ∙ ap (λ x. map found rs ++ x)
        (between-eof encode size_only name n (0 + bytes f) (0 + length rs))
