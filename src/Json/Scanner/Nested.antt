-- ===== src/Json/Scanner/Nested.antt =====
-- The scanner inside of a record: it reads values, and their records wait behind the outer one.
use mathlib.Core.List.{append-nil, append_assoc}
use sumpter.Base.{
  ℕ, ◌+◌, ◌≡◌, refl, sym, ap, ◌∙◌, Bool, true, false, Option, List, [], ◌∷◌, ◌++◌, length,
  length-append, arith,
}
use sumpter.Dsl.{Text}
use sumpter.Json.{
  open_object, close_object, open_array, close_array, string, Event, DecoderError, Walker,
  read_token,
}
use sumpter.Json.Scanner.{Frame, OpenRecord, RecordScanner, Outcome, mark_record, loop}
use sumpter.Json.Scanner.States.{
  Inv, read_token-position, read_token-depth, read_token-Inv, freed, undone,
}
use sumpter.Json.Document.{
  Value, scalar, object, array, Members, end_members, member, Items, end_items, item, event, size,
  member_events, item_events, value_size, members_size, items_size, is_record, inner_depth,
  value_records, member_records, item_records, ValueFits, MembersFit, ItemsFit,
}
use sumpter.Json.Document.Numbers.{
  UpTo, UpTo-le, All-append, counted, owner, with_own, length-own_record, UpTo-value_records,
}
use sumpter.Json.Scanner.Rounds.{
  on, Leads, Leads-from, Leads-to, at_value, frame, deeper, loop-end_members, loop-end_items,
  loop-item, loop-member,
}
use sumpter.Json.Scanner.Entered.{scalar-entered, object-entered, array-entered}
use sumpter.Json.Scanner.Inner.{
  freed-front-Inv, closed, with_own-front, UpTo-with_own, value-closed,
}

module _ (input : ℕ → ℕ) (name : Text) (anywhere size_only : Bool) (last : DecoderError)
    (outer : Option Text) (at num low top_depth : ℕ) where
  -- The outer record, which is not done
  abbrev front : OpenRecord
  front = undone num low top_depth

  abbrev inside : List Event → Walker → List Frame → List OpenRecord → ℕ → RecordScanner
  inside es w stack rs count =
      on input name anywhere size_only last outer at es w stack (front ∷ rs) count

  abbrev LeadsTo :
      Outcome × RecordScanner → List Event → List Frame → List OpenRecord → ℕ → ℕ → ℕ → Type 0
  LeadsTo x tail stack rs count pos nesting =
      Leads input name anywhere size_only last outer at x tail stack rs count pos nesting low

  abbrev values : Value → Text → Bool → ℕ → ℕ → ℕ → List OpenRecord
  values = value_records name anywhere

  abbrev members : Members → ℕ → ℕ → ℕ → List OpenRecord
  members = member_records name anywhere

  abbrev items : Items → Text → ℕ → ℕ → ℕ → List OpenRecord
  items = item_records name anywhere

  abbrev no_records : ℕ → List OpenRecord
  no_records c = []

  mutual
    pub value-nested :
        (v : Value) (tail : List Event) (n : Text) (in_array : Bool) (depth : ℕ) (w : Walker)
        (stack : List Frame) (rs : List OpenRecord) (count pos nesting : ℕ)
        → w.position ≡ pos
        → w.depth ≡ nesting
        → Inv input w low
        → UpTo count (front ∷ rs)
        → ValueFits input v nesting pos
        → LeadsTo
            (at_value input name anywhere size_only last outer at v tail n in_array depth w stack
              (front ∷ rs)
              count)
            tail
            stack
            (front ∷ (rs ++ values v n in_array depth count pos))
            (count + length (values v n in_array depth count pos))
            (pos + value_size v)
            nesting
    value-nested (scalar sc m) tail n in_array depth w stack rs count pos nesting p d inv up fits =
        let b : Bool = is_record name anywhere n in_array depth (scalar sc m) in
        Leads-to input name anywhere size_only last outer at _ tail stack _ _ _ _ _ _ nesting low
          refl (omega (arith, length-own_record b (scalar sc m) depth count pos no_records)) refl
          (scalar-entered input name anywhere size_only last outer at b sc m tail n in_array depth w
            stack (front ∷ rs) count pos nesting low refl p d inv fits.0 fits.1 up)
    value-nested (object m ms) tail n in_array depth w stack rs count pos nesting p d inv up fits =
        let b : Bool = is_record name anywhere n in_array depth (object m ms) in
        let w' : Walker = read_token input (event open_object m) w in
        let es : List Event = member_events ms tail in
        let own : OpenRecord = undone (count + 1) (pos + m.gap) depth in
        let f : Frame = frame true n [] (owner b count) (depth + 1) in
        value-closed input name anywhere size_only last outer at num low top_depth b (object m ms)
          (λ c. members ms (depth + 1) c (pos + size m)) _ tail stack rs depth count pos
          (pos + size m + members_size ms) nesting (omega arith) up
          (Leads-from input name anywhere size_only last outer at _ _ tail stack _ _ _ nesting low
            (object-entered input name anywhere size_only last outer at b m ms tail n in_array depth
                w stack (front ∷ rs) count pos low refl p (omega (arith, fits.2)) inv fits.0 fits.1
              ∙ ap
                  (λ y. loop input es (
                    on input name anywhere size_only last outer at es (deeper w') (f ∷ stack) y
                      (counted b count)))
                  (with_own-front input name anywhere size_only last outer at num low top_depth b
                    own rs))
            (members-nested ms tail n [] (owner b count) (depth + 1) (deeper w') stack
              (with_own b own rs) (counted b count) (pos + size m) nesting
              (read_token-position input open_object m w ∙ ap (λ x. x + size m) p)
              (omega (arith, read_token-depth input open_object m w))
              (read_token-Inv input open_object m w low inv)
              (UpTo-with_own input name anywhere size_only last outer at num low top_depth b
                (pos + m.gap) depth count rs up)
              fits.3))
    value-nested (array m is) tail n in_array depth w stack rs count pos nesting p d inv up fits =
        let b : Bool = is_record name anywhere n in_array depth (array m is) in
        let w' : Walker = read_token input (event open_array m) w in
        let es : List Event = item_events is tail in
        let own : OpenRecord = undone (count + 1) (pos + m.gap) depth in
        let inner : ℕ = inner_depth in_array (array m is) depth in
        let f : Frame = frame false n [] (owner b count) inner in
        value-closed input name anywhere size_only last outer at num low top_depth b (array m is)
          (λ c. items is n inner c (pos + size m)) _ tail stack rs depth count pos
          (pos + size m + items_size is) nesting (omega arith) up
          (Leads-from input name anywhere size_only last outer at _ _ tail stack _ _ _ nesting low
            (array-entered input name anywhere size_only last outer at b m is tail n in_array depth
                w stack (front ∷ rs) count pos low refl p (omega (arith, fits.2)) inv fits.0 fits.1
              ∙ ap
                  (λ y. loop input es (
                    on input name anywhere size_only last outer at es (deeper w') (f ∷ stack) y
                      (counted b count)))
                  (with_own-front input name anywhere size_only last outer at num low top_depth b
                    own rs))
            (items-nested is tail n [] (owner b count) inner (deeper w') stack (with_own b own rs)
              (counted b count) (pos + size m) nesting
              (read_token-position input open_array m w ∙ ap (λ x. x + size m) p)
              (omega (arith, read_token-depth input open_array m w))
              (read_token-Inv input open_array m w low inv)
              (UpTo-with_own input name anywhere size_only last outer at num low top_depth b
                (pos + m.gap) depth count rs up)
              fits.3))

    pub members-nested :
        (ms : Members) (tail : List Event) (n : Text) (seen : List Text) (rec : Option ℕ)
        (depth : ℕ) (w : Walker) (stack : List Frame) (rs : List OpenRecord) (count pos nesting : ℕ)
        → w.position ≡ pos
        → w.depth ≡ nesting + 1
        → Inv input w low
        → UpTo count (front ∷ rs)
        → MembersFit input ms seen (nesting + 1) pos
        → LeadsTo
            (loop input
              (member_events ms tail)
              (inside (member_events ms tail) w (frame true n seen rec depth ∷ stack) rs count))
            tail
            stack
            (mark_record rec (pos + members_size ms) (front ∷ (rs ++ members ms depth count pos)))
            (count + length (members ms depth count pos))
            (pos + members_size ms)
            nesting
    members-nested (end_members m) tail n seen rec depth w stack rs count pos nesting p d inv up
          fits =
        let w' : Walker = read_token input (event close_object m) (freed input (front ∷ rs) w) in
        Leads-to input name anywhere size_only last outer at _ tail stack _ _ _ _ _ _ nesting low
          (ap (λ y. mark_record rec (pos + size m) (front ∷ y)) (sym (append-nil rs))) (omega arith)
          refl
          (closed input name anywhere size_only last outer at num low top_depth _ w w' tail stack
            rec (front ∷ rs) count pos nesting m
            (read_token-Inv input close_object m (freed input (front ∷ rs) w) low (
              freed-front-Inv input name anywhere size_only last outer at num low top_depth rs w
                inv))
            (read_token-position input close_object m (freed input (front ∷ rs) w)
              ∙ ap (λ x. x + size m) p)
            (read_token-depth input close_object m (freed input (front ∷ rs) w) ∙ d)
            (loop-end_members input name anywhere size_only last outer at m tail w n seen rec depth
              stack (front ∷ rs) count refl))
    members-nested (member k mk v ms) tail n seen rec depth w stack rs count pos nesting p d inv up
          fits =
        let w0 : Walker = freed input (front ∷ rs) w in
        let w' : Walker = read_token input (event (string k) mk) w0 in
        let f : Frame = frame true n (k ∷ seen) rec depth in
        let vs : List OpenRecord = values v k false depth count (pos + size mk) in
        let us : List OpenRecord =
          members ms depth (count + length vs) (pos + size mk + value_size v) in
        let n_vs : count + length (vs ++ us) ≡ count + length vs + length us =
          omega (arith, length-append vs us) in
        let (w2, inv2, p2, d2, e2) =
          value-nested v (member_events ms tail) k false depth w' (f ∷ stack) rs count
            (pos + size mk) (nesting + 1)
            (read_token-position input (string k) mk w0 ∙ ap (λ x. x + size mk) p)
            (read_token-depth input (string k) mk w0 ∙ d)
            (read_token-Inv input (string k) mk w0 low (
              freed-front-Inv input name anywhere size_only last outer at num low top_depth rs w
                inv))
            up fits.1 in
        let up2 : UpTo (count + length vs) (front ∷ (rs ++ vs)) =
          let up' = UpTo-le count (count + length vs) (front ∷ rs) (omega arith) up in
          (
            up'.0,
            All-append _ rs vs up'.1
                (UpTo-value_records name anywhere v k false depth count (pos + size mk)),
          ) in
        Leads-to input name anywhere size_only last outer at _ tail stack _ _ _ _ _ _ nesting low
          (ap (λ y. mark_record rec (pos + size mk + value_size v + members_size ms) (front ∷ y))
              (append_assoc rs vs us)
            ∙ ap (λ y. mark_record rec y (front ∷ (rs ++ (vs ++ us)))) (omega arith))
          (sym n_vs) (omega arith)
          (Leads-from input name anywhere size_only last outer at _ _ tail stack _ _ _ nesting low
            (loop-member input name anywhere size_only last outer at k mk v (member_events ms tail)
                w n seen rec depth stack (front ∷ rs) count refl fits.0
              ∙ e2)
            (members-nested ms tail n (k ∷ seen) rec depth w2 stack (rs ++ vs) (count + length vs)
              (pos + size mk + value_size v) nesting p2 d2 inv2 up2 fits.2))

    pub items-nested :
        (is : Items) (tail : List Event) (n : Text) (seen : List Text) (rec : Option ℕ) (depth : ℕ)
        (w : Walker) (stack : List Frame) (rs : List OpenRecord) (count pos nesting : ℕ)
        → w.position ≡ pos
        → w.depth ≡ nesting + 1
        → Inv input w low
        → UpTo count (front ∷ rs)
        → ItemsFit input is (nesting + 1) pos
        → LeadsTo
            (loop input
              (item_events is tail)
              (inside (item_events is tail) w (frame false n seen rec depth ∷ stack) rs count))
            tail
            stack
            (mark_record rec (pos + items_size is) (front ∷ (rs ++ items is n depth count pos)))
            (count + length (items is n depth count pos))
            (pos + items_size is)
            nesting
    items-nested (end_items m) tail n seen rec depth w stack rs count pos nesting p d inv up fits =
        let w' : Walker = read_token input (event close_array m) (freed input (front ∷ rs) w) in
        Leads-to input name anywhere size_only last outer at _ tail stack _ _ _ _ _ _ nesting low
          (ap (λ y. mark_record rec (pos + size m) (front ∷ y)) (sym (append-nil rs))) (omega arith)
          refl
          (closed input name anywhere size_only last outer at num low top_depth _ w w' tail stack
            rec (front ∷ rs) count pos nesting m
            (read_token-Inv input close_array m (freed input (front ∷ rs) w) low (
              freed-front-Inv input name anywhere size_only last outer at num low top_depth rs w
                inv))
            (read_token-position input close_array m (freed input (front ∷ rs) w)
              ∙ ap (λ x. x + size m) p)
            (read_token-depth input close_array m (freed input (front ∷ rs) w) ∙ d)
            (loop-end_items input name anywhere size_only last outer at m tail w n seen rec depth
              stack (front ∷ rs) count refl))
    items-nested (item v is) tail n seen rec depth w stack rs count pos nesting p d inv up fits =
        let w0 : Walker = freed input (front ∷ rs) w in
        let f : Frame = frame false n seen rec depth in
        let vs : List OpenRecord = values v n true depth count pos in
        let us : List OpenRecord = items is n depth (count + length vs) (pos + value_size v) in
        let n_vs : count + length (vs ++ us) ≡ count + length vs + length us =
          omega (arith, length-append vs us) in
        let (w2, inv2, p2, d2, e2) =
          value-nested v (item_events is tail) n true depth w0 (f ∷ stack) rs count pos
            (nesting + 1) p d
            (freed-front-Inv input name anywhere size_only last outer at num low top_depth rs w inv)
            up fits.0 in
        let up2 : UpTo (count + length vs) (front ∷ (rs ++ vs)) =
          let up' = UpTo-le count (count + length vs) (front ∷ rs) (omega arith) up in
          (
            up'.0,
            All-append _ rs vs up'.1 (UpTo-value_records name anywhere v n true depth count pos),
          ) in
        Leads-to input name anywhere size_only last outer at _ tail stack _ _ _ _ _ _ nesting low
          (ap (λ y. mark_record rec (pos + value_size v + items_size is) (front ∷ y))
              (append_assoc rs vs us)
            ∙ ap (λ y. mark_record rec y (front ∷ (rs ++ (vs ++ us)))) (omega arith))
          (sym n_vs) (omega arith)
          (Leads-from input name anywhere size_only last outer at _ _ tail stack _ _ _ nesting low
            (loop-item input name anywhere size_only last outer at v (item_events is tail) w n seen
                rec depth stack (front ∷ rs) count refl
              ∙ e2)
            (items-nested is tail n seen rec depth w2 stack (rs ++ vs) (count + length vs)
              (pos + value_size v) nesting p2 d2 inv2 up2 fits.1))
