-- ===== src/Parallel/Aggregator/Collect.antt =====
-- What the consumer of the aggregator reads, for every order of arrival.
use mathlib.Core.List.{append-nil}
use sumpter.Base.{
  ℕ, zero, suc, ◌+◌, ◌-◌, ◌≤◌, ◌<◌, ◌≡◌, refl, sym, ap, ◌∙◌, inl, inr, true, Option, none, some,
  List, [], ◌∷◌, ◌++◌, arith, Bool-cases, Option-cases,
}
use sumpter.Parallel.{WorkResult}
use sumpter.Parallel.Orchestrator.{extract_results}
use sumpter.Parallel.Aggregator.{
  ResultAggregator, new_result_aggregator, find, emit, add_all, contains, drain_step, drain,
  collect,
}
use sumpter.Parallel.Aggregator.Find.{
  find-delete, gather, gather-cong, gather-suc, to_list, IsNumbered,
}
use sumpter.Parallel.Aggregator.Order.{Inv, add_all-Inv, new-Inv}

module _ {D : Type 0} where
  extract_results-append :
      (xs ys : List (WorkResult D))
      → extract_results (xs ++ ys) ≡ extract_results xs ++ extract_results ys
  unfolding extract_results
  extract_results-append [] ys = refl
  extract_results-append (x ∷ xs) ys = ground (arith, extract_results-append xs ys)

  -- Every number in the snapshot has a skipped result, or none.
  abbrev pub IsSkipped : List ℕ → List (WorkResult D) → Type 0
  IsSkipped skipped rs =
      (j : ℕ) (r : WorkResult D) → contains j skipped ≡ true → find j rs ≡ some r → r.skipped ≡ true

  -- What holds between the rounds of the final loop.
  record Draining (past : List (WorkResult D)) (ra : ResultAggregator D) : Type 0 where
    next_pos : 0 < ra.next_expected
    left : (j : ℕ) → ra.next_expected ≤ j → find j ra.results ≡ find j past
    output : extract_results ra.output ≡ extract_results (gather (ra.next_expected - 1) 1 past)

  gather-next :
      (rs : List (WorkResult D)) (m : ℕ)
      → 0 < m
      → gather (m + 1 - 1) 1 rs ≡ gather (m - 1) 1 rs ++ to_list (find m rs)
  gather-next rs m h =
      let e : m + 1 - 1 ≡ suc (m - 1) = omega arith in
      let e' : 1 + (m - 1) ≡ m = omega arith in
      ap (λ k. gather k 1 rs) e
      ∙ gather-suc (m - 1) 1 rs
      ∙ ap (λ k. gather (m - 1) 1 rs ++ to_list (find k rs)) e'

  extract_results-skipped :
      (o : Option (WorkResult D))
      → ((r : WorkResult D) → o ≡ some r → r.skipped ≡ true)
      → extract_results (to_list o) ≡ []
  unfolding extract_results
  extract_results-skipped none h = refl
  extract_results-skipped (some r) h = rw (h r refl)

  output-next :
      (rs : List (WorkResult D)) (m : ℕ)
      → 0 < m
      → extract_results (gather (m + 1 - 1) 1 rs)
        ≡ extract_results (gather (m - 1) 1 rs) ++ extract_results (to_list (find m rs))
  output-next rs m h = ap extract_results (gather-next rs m h) ∙ extract_results-append _ _

  next-drain_step :
      (skipped : List ℕ) (ra : ResultAggregator D)
      → (drain_step skipped ra).next_expected ≡ ra.next_expected + 1
  unfolding drain_step emit
  next-drain_step skipped ra = ground arith

  module _ (skipped : List ℕ) (past : List (WorkResult D)) (fits : IsSkipped skipped past) where
    -- Passing over a number whose result adds nothing.
    pass-Draining :
        (ra : ResultAggregator D) (released : ℕ)
        → extract_results (to_list (find ra.next_expected past)) ≡ []
        → Draining past ra
        → Draining past (record ra { next_expected = ra.next_expected + 1; released = released })
    pass-Draining ra n e d = record {
      next_pos = omega arith;
      left = λ j h. d.left j (omega arith);
      output =
          d.output
          ∙ sym (
              output-next past ra.next_expected d.next_pos
              ∙ ap (λ o. extract_results (gather (ra.next_expected - 1) 1 past) ++ o) e
              ∙ append-nil _);
    }

    emit-Draining :
        (ra : ResultAggregator D) (res : WorkResult D)
        → find ra.next_expected past ≡ some res
        → Draining past ra
        → Draining past (emit ra res)
    unfolding emit
    emit-Draining ra res e d = record {
      next_pos = omega arith;
      left = λ j h. find-delete j ra.next_expected ra.results ∙ ground (arith, d.left j);
      output =
          extract_results-append ra.output (res ∷ [])
          ∙ ap (λ o. o ++ extract_results (res ∷ [])) d.output
          ∙ sym (
              output-next past ra.next_expected d.next_pos
              ∙ ap
                  (λ o.
                    extract_results (gather (ra.next_expected - 1) 1 past)
                    ++ extract_results (to_list o))
                  e);
    }

    drain_step-Draining :
        (ra : ResultAggregator D) → Draining past ra → Draining past (drain_step skipped ra)
    unfolding drain_step
    drain_step-Draining ra d = elim (Bool-cases (contains ra.next_expected skipped)) [
      | inl skip ↦
          rw (drain_step, skip)
            (pass-Draining ra (ra.released + 1)
              (extract_results-skipped (find ra.next_expected past)
                (λ r e. fits ra.next_expected r skip e))
              d)
      | inr keep ↦ elim (Option-cases (find ra.next_expected ra.results)) [
        | inl e ↦
            rw (drain_step, keep, e)
              (pass-Draining ra ra.released
                (unfold extract_results in
                  ap (λ o. extract_results (to_list o))
                    (sym (d.left ra.next_expected (omega arith)) ∙ e))
                d)
        | inr (res, e) ↦
            rw (drain_step, keep, e)
              (emit-Draining ra res (sym (d.left ra.next_expected (omega arith)) ∙ e) d)
      ]
    ]

    drain-Draining :
        (n : ℕ) (ra : ResultAggregator D)
        → Draining past ra
        → Draining past (drain n skipped ra)
          × ((drain n skipped ra).next_expected ≡ ra.next_expected + n)
    unfolding drain
    drain-Draining zero ra d = (d, omega arith)
    drain-Draining (suc n) ra d =
        let (d', e) = drain-Draining n (drain_step skipped ra) (drain_step-Draining ra d) in
        (d', omega (arith, next-drain_step skipped ra))

  -- No result has a number above the total.
  abbrev pub IsWithin : ℕ → List (WorkResult D) → Type 0
  IsWithin total rs = (j : ℕ) → total < j → find j rs ≡ none

  next-le :
      (total : ℕ) (rs : List (WorkResult D)) (ra : ResultAggregator D)
      → IsWithin total rs
      → Inv rs ra
      → ra.next_expected ≤ total + 1
  next-le total rs ra within i =
      ground (arith, within (ra.next_expected - 1), i.sent (ra.next_expected - 1), i.next_pos)

  Inv-Draining : (rs : List (WorkResult D)) (ra : ResultAggregator D) → Inv rs ra → Draining rs ra
  Inv-Draining rs ra i = record {
    next_pos = i.next_pos;
    left = λ j h. ground (arith, i.left j);
    output = ap extract_results i.output;
  }

  -- Let the arrivals have positive and distinct record numbers, none above the total, and let each
  -- number in the snapshot of skipped records belong to a skipped result or to none. Then, in whatever
  -- order they arrive, the aggregator advances past the total, and the records that the consumer
  -- collects are those of the numbers 1 to the total, in order.
  pub collect-gather :
      (arrivals : List (WorkResult D)) (skipped : List ℕ) (total : ℕ)
      → IsNumbered arrivals
      → IsWithin total arrivals
      → IsSkipped skipped arrivals
      → (extract_results (collect arrivals skipped total).output
          ≡ extract_results (gather total 1 arrivals))
        × ((collect arrivals skipped total).next_expected ≡ total + 1)
  unfolding collect
  collect-gather arrivals skipped total numbered within fits =
      let ra = add_all (new_result_aggregator D) arrivals in
      let i : Inv arrivals ra =
        add_all-Inv [] arrivals (new_result_aggregator D) numbered new-Inv in
      let below : ra.next_expected ≤ total + 1 = next-le total arrivals ra within i in
      let n : ℕ = total + 1 - ra.next_expected in
      let (d, e) = drain-Draining skipped arrivals fits n ra (Inv-Draining arrivals ra i) in
      let done : (drain n skipped ra).next_expected ≡ total + 1 = omega arith in
      let count : (drain n skipped ra).next_expected - 1 ≡ total = omega arith in
      (d.output ∙ ap (λ k. extract_results (gather k 1 arrivals)) count, done)

  -- Two orders of arrival, and two snapshots of the skipped records, that satisfy these conditions for
  -- one total: if they hold the same result, or none, under each number, the consumer collects the
  -- same records in the same order.
  pub collect_order :
      (rs rs' : List (WorkResult D)) (ks ks' : List ℕ) (total : ℕ)
      → IsNumbered rs
      → IsNumbered rs'
      → IsWithin total rs
      → IsSkipped ks rs
      → IsSkipped ks' rs'
      → ((j : ℕ) → find j rs ≡ find j rs')
      → extract_results (collect rs ks total).output
        ≡ extract_results (collect rs' ks' total).output
  collect_order rs rs' ks ks' total n n' w s s' same =
      (collect-gather rs ks total n w s).0
      ∙ ap extract_results (gather-cong total 1 rs rs' (λ j _ _. same j))
      ∙ sym (collect-gather rs' ks' total n' (λ j h. sym (same j) ∙ w j h) s').0
