-- ===== src/Parallel/Aggregator/Order.antt =====
-- Whatever the order in which the results arrive, they are sent on in the order of their numbers.
use mathlib.Core.List.{append-nil, append_assoc}
use sumpter.Base.{
  ℕ, zero, suc, ◌+◌, ◌-◌, ◌≤◌, ◌<◌, ◌≡◌, ◌≢◌, refl, sym, ap, ◌∙◌, inl, inr, none, some, List, [],
  ◌∷◌, ◌++◌, length, arith, ltb, ◌==◌, if◌then◌else◌, Option-cases,
}
use sumpter.Parallel.{WorkResult}
use sumpter.Parallel.Aggregator.{
  ResultAggregator, new_result_aggregator, find, store, emit, emit_consecutive, add, add_all,
}
use sumpter.Parallel.Aggregator.Find.{
  find-delete, find-store, find-append, length-delete-lt, gather, gather-cong, gather-suc, to_list,
  IsNumbered, IsNumbered-middle,
}

module _ {D : Type 0} where
  -- All below the next number has arrived and is sent; the buffer holds the rest of what arrived.
  pub record Inv (past : List (WorkResult D)) (ra : ResultAggregator D) : Type 0 where
    pub next_pos : 0 < ra.next_expected
    pub left : (j : ℕ) → find j ra.results ≡ (if ltb j ra.next_expected then none else find j past)
    pub sent : (j : ℕ) → 0 < j → j < ra.next_expected → find j past ≢ none
    pub output : ra.output ≡ gather (ra.next_expected - 1) 1 past
    pub released : ra.released + 1 ≡ ra.next_expected

  gather-next :
      (rs : List (WorkResult D)) (m : ℕ) (r : WorkResult D)
      → 0 < m
      → find m rs ≡ some r
      → gather (m + 1 - 1) 1 rs ≡ gather (m - 1) 1 rs ++ r ∷ []
  gather-next rs m r h f =
      let e : m + 1 - 1 ≡ suc (m - 1) = omega arith in
      let e' : 1 + (m - 1) ≡ m = omega arith in
      ap (λ k. gather k 1 rs) e
      ∙ gather-suc (m - 1) 1 rs
      ∙ ap (λ k. gather (m - 1) 1 rs ++ to_list (find k rs)) e'
      ∙ ap (λ o. gather (m - 1) 1 rs ++ to_list o) f

  emit-Inv :
      (past : List (WorkResult D)) (ra : ResultAggregator D) (res : WorkResult D)
      → find ra.next_expected ra.results ≡ some res
      → Inv past ra
      → Inv past (emit ra res)
  unfolding emit
  emit-Inv past ra res f i =
      let here : find ra.next_expected past ≡ some res = ground (arith, i.left ra.next_expected) in
      record {
        next_pos = omega arith;
        left = λ j. ground (arith, find-delete j ra.next_expected ra.results, i.left j);
        sent = λ j a b. ground (arith, i.sent j, here);
        output =
            ap (λ o. o ++ res ∷ []) i.output
            ∙ sym (gather-next past ra.next_expected res i.next_pos here);
        released = omega (arith, i.released);
      }

  shorter :
      (ra : ResultAggregator D) (res : WorkResult D) (fuel : ℕ)
      → find ra.next_expected ra.results ≡ some res
      → length ra.results < suc fuel
      → length (emit ra res).results < fuel
  unfolding emit
  shorter ra res fuel e h = omega (arith, length-delete-lt ra.next_expected ra.results res e)

  emit_consecutive-Inv :
      (past : List (WorkResult D)) (fuel : ℕ) (ra : ResultAggregator D)
      → length ra.results < fuel
      → Inv past ra
      → Inv past (emit_consecutive fuel ra)
        × (find (emit_consecutive fuel ra).next_expected (emit_consecutive fuel ra).results ≡ none)
  unfolding emit_consecutive
  emit_consecutive-Inv past zero ra h i = elim h [ ]
  emit_consecutive-Inv past (suc fuel) ra h i =
      elim (Option-cases (find ra.next_expected ra.results)) [
        | inl e ↦ rw (e, emit_consecutive) (i, e)
        | inr (res, e) ↦
            rw (e, emit_consecutive)
              (emit_consecutive-Inv past fuel (emit ra res) (shorter ra res fuel e h)
                (emit-Inv past ra res e i))
      ]

  pub find-one :
      (j : ℕ) (r : WorkResult D) → find j (r ∷ []) ≡ (if r.record_num == j then some r else none)
  unfolding find
  find-one j r = refl

  -- The result is new, and the ones sent before it have other numbers.
  store-Inv :
      (past : List (WorkResult D)) (ra : ResultAggregator D) (r : WorkResult D)
      → 0 < r.record_num
      → find r.record_num past ≡ none
      → Inv past ra
      → Inv (past ++ r ∷ []) (record ra { results = store r ra.results })
  store-Inv past ra r p fresh i =
      let above : ra.next_expected ≤ r.record_num = ground (arith, i.sent r.record_num) in
      record {
        next_pos = i.next_pos;
        left = λ j. ground (
          arith,
          find-store j r ra.results,
          i.left j,
          find-append j past (r ∷ []),
          find-one j r,
          fresh,
        );
        sent = λ j a b e. ground (arith, i.sent j, find-append j past (r ∷ []));
        output =
            i.output
            ∙ gather-cong (ra.next_expected - 1) 1 past (past ++ r ∷ [])
                (λ j a b. ground (arith, i.sent j, find-append j past (r ∷ [])));
        released = i.released;
      }

  pub add-Inv :
      (past : List (WorkResult D)) (ra : ResultAggregator D) (r : WorkResult D)
      → 0 < r.record_num
      → find r.record_num past ≡ none
      → Inv past ra
      → Inv (past ++ r ∷ []) (add ra r)
  unfolding add
  add-Inv past ra r p fresh i =
      (emit_consecutive-Inv (past ++ r ∷ []) _ _ (omega arith) (store-Inv past ra r p fresh i)).0

  -- Nothing is left that could be sent.
  pub add-drained :
      (past : List (WorkResult D)) (ra : ResultAggregator D) (r : WorkResult D)
      → 0 < r.record_num
      → find r.record_num past ≡ none
      → Inv past ra
      → find (add ra r).next_expected (add ra r).results ≡ none
  unfolding add
  add-drained past ra r p fresh i =
      (emit_consecutive-Inv (past ++ r ∷ []) _ _ (omega arith) (store-Inv past ra r p fresh i)).1

  pub add_all-Inv :
      (past rs : List (WorkResult D)) (ra : ResultAggregator D)
      → IsNumbered (past ++ rs)
      → Inv past ra
      → Inv (past ++ rs) (add_all ra rs)
  unfolding add_all
  add_all-Inv past [] ra h i = rw append-nil i
  add_all-Inv past (r ∷ rs) ra h i =
      let (p, fresh) = IsNumbered-middle past r rs h in
      rw (append_assoc past (r ∷ []) rs) at (
        add_all-Inv (past ++ r ∷ []) rs (add ra r) (rw (append_assoc past (r ∷ []) rs) h)
          (add-Inv past ra r p fresh i))

  pub new-Inv : Inv [] (new_result_aggregator D)
  unfolding new_result_aggregator find gather
  new-Inv = record {
    next_pos = omega arith;
    left = λ j. ground arith;
    sent = λ j a b. absurd (omega arith);
    output = refl;
    released = refl;
  }
