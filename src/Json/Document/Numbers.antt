-- ===== src/Json/Document/Numbers.antt =====
-- The numbers of a document's records, and what closing a value does to the open records.
use mathlib.Core.List.{append_assoc}
use sumpter.Base.{
  ℕ, ◌+◌, ◌≤◌, ◌≡◌, refl, ap, ◌∙◌, Bool, true, false, Option, none, some, List, [], ◌∷◌, ◌++◌,
  length, length-append, arith, ◌==◌,
}
use sumpter.Base.Members.{All, All-mono}
use sumpter.Dsl.{Text}
use sumpter.Json.Scanner.{OpenRecord, mark_done, mark_record}
use sumpter.Json.Scanner.States.{undone}
use sumpter.Json.Document.{
  Value, scalar, object, array, Members, end_members, member, Items, end_items, item, first_mark,
  size, value_size, is_record, inner_depth, own_record, whole, value_records, member_records,
  item_records,
}

pub All-append :
    {A : Type 0} (P : A → Type 0) (xs ys : List A) → All P xs → All P ys → All P (xs ++ ys)
All-append P [] ys h k = k
All-append P (x ∷ xs) ys h k = (h.0, All-append P xs ys h.1 k)

-- The records have numbers up to the count.
abbrev pub UpTo : ℕ → List OpenRecord → Type 0
UpTo count rs = All (λ r. r.num ≤ count) rs

pub UpTo-le : (a b : ℕ) (rs : List OpenRecord) → a ≤ b → UpTo a rs → UpTo b rs
UpTo-le a b rs h = All-mono _ _ (λ r k. omega arith) rs

-- The count, and the open records, with one for the value or without
abbrev pub counted : Bool → ℕ → ℕ
counted true count = count + 1
counted false count = count

abbrev pub owner : Bool → ℕ → Option ℕ
owner true count = some (count + 1)
owner false count = none

abbrev pub with_own : Bool → OpenRecord → List OpenRecord → List OpenRecord
with_own true r rs = rs ++ r ∷ []
with_own false r rs = rs

pub length-own_record :
    (b : Bool) (v : Value) (depth count offset : ℕ) (inner : ℕ → List OpenRecord)
    → count + length (own_record b v depth count offset inner)
      ≡ counted b count + length (inner (counted b count))
length-own_record true v depth count offset inner = omega arith
length-own_record false v depth count offset inner = refl

UpTo-own_record :
    (b : Bool) (v : Value) (depth count offset : ℕ) (inner : ℕ → List OpenRecord)
    → UpTo (counted b count + length (inner (counted b count))) (inner (counted b count))
    → UpTo
        (count + length (own_record b v depth count offset inner))
        (own_record b v depth count offset inner)
UpTo-own_record true v depth count offset inner h =
    (omega arith, UpTo-le _ _ (inner (count + 1)) (omega arith) h)
UpTo-own_record false v depth count offset inner h = h

UpTo-both :
    (count : ℕ) (xs ys : List OpenRecord)
    → UpTo (count + length xs) xs
    → UpTo (count + length xs + length ys) ys
    → UpTo (count + length (xs ++ ys)) (xs ++ ys)
UpTo-both count xs ys h k =
    let n : count + length (xs ++ ys) ≡ count + length xs + length ys =
      omega (arith, length-append xs ys) in
    All-append _ xs ys (UpTo-le _ _ xs (omega (arith, n)) h) (UpTo-le _ _ ys (omega (arith, n)) k)

module _ (name : Text) (anywhere : Bool) where
  mutual
    pub UpTo-value_records :
        (v : Value) (n : Text) (in_array : Bool) (depth count offset : ℕ)
        → UpTo
            (count + length (value_records name anywhere v n in_array depth count offset))
            (value_records name anywhere v n in_array depth count offset)
    UpTo-value_records (scalar s m) n in_array depth count offset =
        UpTo-own_record (is_record name anywhere n in_array depth (scalar s m)) (scalar s m) depth
          count offset (λ c. []) tt
    UpTo-value_records (object m ms) n in_array depth count offset =
        UpTo-own_record (is_record name anywhere n in_array depth (object m ms)) (object m ms) depth
          count offset (λ c. member_records name anywhere ms (depth + 1) c (offset + size m))
          (UpTo-member_records ms (depth + 1) _ (offset + size m))
    UpTo-value_records (array m is) n in_array depth count offset =
        UpTo-own_record (is_record name anywhere n in_array depth (array m is)) (array m is) depth
          count offset
          (λ c.
            item_records name anywhere is n (inner_depth in_array (array m is) depth) c
              (offset + size m))
          (UpTo-item_records is n (inner_depth in_array (array m is) depth) _ (offset + size m))

    UpTo-member_records :
        (ms : Members) (depth count offset : ℕ)
        → UpTo
            (count + length (member_records name anywhere ms depth count offset))
            (member_records name anywhere ms depth count offset)
    UpTo-member_records (end_members m) depth count offset = tt
    UpTo-member_records (member k m v ms) depth count offset =
        UpTo-both count (value_records name anywhere v k false depth count (offset + size m))
          (member_records name anywhere ms depth
            (count + length (value_records name anywhere v k false depth count (offset + size m)))
            (offset + size m + value_size v))
          (UpTo-value_records v k false depth count (offset + size m))
          (UpTo-member_records ms depth _ (offset + size m + value_size v))

    UpTo-item_records :
        (is : Items) (n : Text) (depth count offset : ℕ)
        → UpTo
            (count + length (item_records name anywhere is n depth count offset))
            (item_records name anywhere is n depth count offset)
    UpTo-item_records (end_items m) n depth count offset = tt
    UpTo-item_records (item v is) n depth count offset =
        UpTo-both count (value_records name anywhere v n true depth count offset)
          (item_records name anywhere is n depth
            (count + length (value_records name anywhere v n true depth count offset))
            (offset + value_size v))
          (UpTo-value_records v n true depth count offset)
          (UpTo-item_records is n depth _ (offset + value_size v))

mark_done-own :
    (rs inner : List OpenRecord) (count start end depth : ℕ)
    → UpTo count rs
    → mark_done (count + 1) end (rs ++ undone (count + 1) start depth ∷ inner)
      ≡ rs ++ whole (count + 1) start end depth ∷ inner
unfolding mark_done
mark_done-own [] inner count start end depth h =
    let e : (count + 1 == count + 1) ≡ true = ground arith in rw (mark_done, e) refl
mark_done-own (r ∷ rs) inner count start end depth h =
    let e : (r.num == count + 1) ≡ false = ground (arith, h.0) in
    simp (mark_done, e) (ap (λ x. r ∷ x) (mark_done-own rs inner count start end depth h.1))

-- Closing the value marks its record.
pub mark_record-own :
    (b : Bool) (v : Value) (depth count offset : ℕ) (inner : ℕ → List OpenRecord)
    (rs : List OpenRecord)
    → UpTo count rs
    → mark_record (owner b count) (offset + value_size v) (
        with_own b (undone (count + 1) (offset + (first_mark v).gap) depth) rs
        ++ inner (counted b count))
      ≡ rs ++ own_record b v depth count offset inner
mark_record-own true v depth count offset inner rs h =
    ap (mark_done (count + 1) (offset + value_size v)) (
      append_assoc rs (undone (count + 1) (offset + (first_mark v).gap) depth ∷ [])
        (inner (count + 1)))
    ∙ mark_done-own rs (inner (count + 1)) count _ _ depth h
mark_record-own false v depth count offset inner rs h = refl
