-- ===== src/Json/Document/Ranges.antt =====
-- The ranges of a document's records.
use sumpter.Base.{ℕ, ◌+◌, ◌≤◌, ◌≡◌, refl, Bool, true, false, List, [], length, arith}
use sumpter.Base.Members.{All, All-mono}
use sumpter.Dsl.{Text}
use sumpter.Json.Scanner.{OpenRecord}
use sumpter.Json.Document.{
  Value, scalar, object, array, Members, end_members, member, Items, end_items, item, first_mark,
  size, value_size, members_size, items_size, is_record, inner_depth, own_record, value_records,
  member_records, item_records,
}
use sumpter.Json.Document.Numbers.{All-append, counted}

-- The records are done and lie between the offsets.
abbrev pub Within : ℕ → ℕ → List OpenRecord → Type 0
Within lo hi rs = All (λ r. (r.done ≡ true) × (lo ≤ r.start) × (r.start ≤ r.end) × (r.end ≤ hi)) rs

pub Within-mono :
    (lo hi lo' hi' : ℕ) (rs : List OpenRecord)
    → lo' ≤ lo
    → hi ≤ hi'
    → Within lo hi rs
    → Within lo' hi' rs
Within-mono lo hi lo' hi' rs h k =
    All-mono _ _ (λ r w. (w.0, omega (arith, w.1), w.2, omega (arith, w.3))) rs

-- From the first byte of the value on
pub Within-own_record :
    (b : Bool) (v : Value) (depth count offset : ℕ) (inner : ℕ → List OpenRecord)
    → (first_mark v).gap ≤ value_size v
    → Within (offset + (first_mark v).gap) (offset + value_size v) (inner (counted b count))
    → Within
        (offset + (first_mark v).gap)
        (offset + value_size v)
        (own_record b v depth count offset inner)
Within-own_record true v depth count offset inner h w =
    ((refl, omega arith, omega arith, omega arith), w)
Within-own_record false v depth count offset inner h w = w

module _ (name : Text) (anywhere : Bool) where
  mutual
    pub Within-value_records :
        (v : Value) (n : Text) (in_array : Bool) (depth count offset : ℕ)
        → Within
            (offset + (first_mark v).gap)
            (offset + value_size v)
            (value_records name anywhere v n in_array depth count offset)
    Within-value_records (scalar s m) n in_array depth count offset =
        Within-own_record (is_record name anywhere n in_array depth (scalar s m)) (scalar s m) depth
          count offset (λ c. []) (omega arith) tt
    Within-value_records (object m ms) n in_array depth count offset =
        Within-own_record (is_record name anywhere n in_array depth (object m ms)) (object m ms)
          depth count offset (λ c. member_records name anywhere ms (depth + 1) c (offset + size m))
          (omega arith)
          (Within-mono (offset + size m) (offset + size m + members_size ms) _ _ _ (omega arith)
            (omega arith) (Within-member_records ms (depth + 1) _ (offset + size m)))
    Within-value_records (array m is) n in_array depth count offset =
        Within-own_record (is_record name anywhere n in_array depth (array m is)) (array m is) depth
          count offset
          (λ c.
            item_records name anywhere is n (inner_depth in_array (array m is) depth) c
              (offset + size m))
          (omega arith)
          (Within-mono (offset + size m) (offset + size m + items_size is) _ _ _ (omega arith)
            (omega arith)
            (Within-item_records is n (inner_depth in_array (array m is) depth) _
              (offset + size m)))

    pub Within-member_records :
        (ms : Members) (depth count offset : ℕ)
        → Within offset
            (offset + members_size ms)
            (member_records name anywhere ms depth count offset)
    Within-member_records (end_members m) depth count offset = tt
    Within-member_records (member k m v ms) depth count offset =
        let vs : List OpenRecord =
          value_records name anywhere v k false depth count (offset + size m) in
        All-append _ vs
          (member_records name anywhere ms depth (count + length vs)
            (offset + size m + value_size v))
          (Within-mono (offset + size m + (first_mark v).gap) (offset + size m + value_size v) _ _
            vs (omega arith) (omega arith)
            (Within-value_records v k false depth count (offset + size m)))
          (Within-mono (offset + size m + value_size v)
            (offset + size m + value_size v + members_size ms) _ _ _ (omega arith) (omega arith)
            (Within-member_records ms depth (count + length vs) (offset + size m + value_size v)))

    pub Within-item_records :
        (is : Items) (n : Text) (depth count offset : ℕ)
        → Within offset
            (offset + items_size is)
            (item_records name anywhere is n depth count offset)
    Within-item_records (end_items m) n depth count offset = tt
    Within-item_records (item v is) n depth count offset =
        let vs : List OpenRecord = value_records name anywhere v n true depth count offset in
        All-append _ vs
          (item_records name anywhere is n depth (count + length vs) (offset + value_size v))
          (Within-mono (offset + (first_mark v).gap) (offset + value_size v) _ _ vs (omega arith)
            (omega arith) (Within-value_records v n true depth count offset))
          (Within-mono (offset + value_size v) (offset + value_size v + items_size is) _ _ _
            (omega arith) (omega arith)
            (Within-item_records is n depth (count + length vs) (offset + value_size v)))
