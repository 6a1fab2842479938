-- ===== src/Streaming/Sizes.antt =====
-- The scanner that keeps no text, NewRecordScannerSizeOnly, against the one that does.
use mathlib.Core.List.{map-append}
use sumpter.Base.{
  ℕ, zero, suc, ◌+◌, ◌≡◌, refl, sym, ap, ◌∙◌, true, false, Option, some, List, [], ◌∷◌, map, length,
  replicate, inl, inr, Bool-cases,
}
use sumpter.Dsl.{Text}
use sumpter.Dsl.Text.{eq_text}
use sumpter.TextMap.{TextMap}
use sumpter.Streaming.{
  Token, Record, eof, Outcome, found, stopped, calls, new_record_scanner, declare_attributes,
}
use sumpter.Streaming.Forest.{Forest, done, content, element, events, bytes, records, CanWrite}
use sumpter.Streaming.Records.{calls-records}

abbrev pub without_text : Record → Record
without_text r = record r { raw = [] }

abbrev pub sizes : Outcome → Outcome
sizes (found r) = found (without_text r)
sizes (stopped e) = stopped e

length-map : {A B : Type 0} (f : A → B) (xs : List A) → length (map f xs) ≡ length xs
length-map f [] = refl
length-map f (x ∷ xs) = ap suc (length-map f xs)

map-sizes_found : (rs : List Record) → map sizes (map found rs) ≡ map found (map without_text rs)
map-sizes_found [] = refl
map-sizes_found (r ∷ rs) = ap (λ x. found (without_text r) ∷ x) (map-sizes_found rs)

map-sizes_stopped : (n : ℕ) → map sizes (replicate n (stopped eof)) ≡ replicate n (stopped eof)
map-sizes_stopped zero = refl
map-sizes_stopped (suc n) = ap (λ x. stopped eof ∷ x) (map-sizes_stopped n)

module _ (encode : List Token → Option Text) (name : Text) where
  records-sizes :
      (f : Forest) (m : TextMap Text) (d count offset : ℕ)
      → records encode true name f m d count offset
        ≡ map without_text (records encode false name f m d count offset)
  records-sizes done m d count offset = refl
  records-sizes (content c w rest) m d count offset = records-sizes rest m d count (offset + w)
  records-sizes (element n attrs v children w rest) m d count offset =
      let size : ℕ = v + bytes children + w in
      let m' : TextMap Text = declare_attributes m attrs in
      elim (Bool-cases (eq_text n name)) [
        | inl same ↦ rw (same, records-sizes rest m d (count + 1) (offset + size)) refl
        | inr other ↦
            let is : List Record =
              records encode false name children m' (d + 1) count (offset + v) in
            rw
              (
                other,
                records-sizes children m' (d + 1) count (offset + v),
                length-map without_text is,
                records-sizes rest m d (count + length is) (offset + size),
              )
              (sym (map-append without_text is _))
      ]

  CanWrite-sizes : (f : Forest) → CanWrite encode true name f
  CanWrite-sizes done = tt
  CanWrite-sizes (content c w rest) = CanWrite-sizes rest
  CanWrite-sizes (element n attrs v children w rest) = elim (Bool-cases (eq_text n name)) [
    | inl same ↦ rw same (refl, CanWrite-sizes rest)
    | inr other ↦ rw other (CanWrite-sizes children, CanWrite-sizes rest)
  ]

-- For a document whose tags match, every record of which can be written: the calls of a scanner
-- that keeps no text return what those of one that keeps it return, apart from the records' bytes.
pub calls-sizes :
    (encode : List Token → Option Text) (name : Text) (f : Forest) (n : ℕ)
    → CanWrite encode false name f
    → calls encode
        (length (records encode false name f [] 0 0 0) + n)
        (new_record_scanner (some name) true (events f) eof)
      ≡ map sizes (
          calls encode
            (length (records encode false name f [] 0 0 0) + n)
            (new_record_scanner (some name) false (events f) eof))
calls-sizes encode name f n h =
    let rs : List Record = records encode false name f [] 0 0 0 in
    let same : records encode true name f [] 0 0 0 ≡ map without_text rs =
      records-sizes encode name f [] 0 0 0 in
    let as_many : length (records encode true name f [] 0 0 0) ≡ length rs =
      ap length same ∙ length-map without_text rs in
    ap (λ k. calls encode (k + n) (new_record_scanner (some name) true (events f) eof))
      (sym as_many)
    ∙ calls-records encode true name f n (CanWrite-sizes encode name f)
    ∙ rw (same, calls-records encode false name f n h)
        (sym (
          map-append sizes (map found rs) (replicate n (stopped eof))
          ∙ rw (map-sizes_found rs, map-sizes_stopped n) refl))
