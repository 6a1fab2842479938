-- ===== src/Parallel/Aggregator.antt =====
-- internal/extract/parallel/aggregator.go. A map from record numbers is an association list; what is
-- sent on `outputChan` is appended to `output`, and `released` counts the calls of `releaseSlot`.
pub mod Find
pub mod Order
pub mod Collect
use sumpter.Base.{
  ℕ, zero, suc, ◌+◌, ◌-◌, Bool, false, ◌||◌, Option, none, some, List, [], ◌∷◌, ◌++◌, length, ◌==◌,
  if◌then◌else◌,
}
use sumpter.Parallel.{WorkResult}

module _ {D : Type 0} where
  -- ra.results[num]
  unfoldable pub find : ℕ → List (WorkResult D) → Option (WorkResult D)
  find num [] = none
  find num (r ∷ rs) = if r.record_num == num then some r else find num rs

  -- delete(ra.results, num)
  unfoldable pub delete : ℕ → List (WorkResult D) → List (WorkResult D)
  delete num [] = []
  delete num (r ∷ rs) = let rest = delete num rs in if r.record_num == num then rest else r ∷ rest

  -- ra.results[result.RecordNum] = result
  unfoldable pub store : WorkResult D → List (WorkResult D) → List (WorkResult D)
  store r rs = r ∷ delete r.record_num rs

-- skipped[num]
unfoldable pub contains : ℕ → List ℕ → Bool
contains num [] = false
contains num (k ∷ ks) = k == num || contains num ks

pub record ResultAggregator (D : Type 0) : Type 0 where
  pub results : List (WorkResult D)
  pub next_expected : ℕ
  pub output : List (WorkResult D)
  pub released : ℕ

unfoldable pub new_result_aggregator : (D : Type 0) → ResultAggregator D
new_result_aggregator D = record { results = []; next_expected = 1; output = []; released = 0 }

module _ {D : Type 0} where
  -- Send `res`, release its slot, delete it and advance.
  unfoldable pub emit : ResultAggregator D → WorkResult D → ResultAggregator D
  emit ra res = record {
    results = delete ra.next_expected ra.results;
    next_expected = ra.next_expected + 1;
    output = ra.output ++ res ∷ [];
    released = ra.released + 1;
  }

  -- The loop of `Add`.
  unfoldable pub emit_consecutive : ℕ → ResultAggregator D → ResultAggregator D
  emit_consecutive zero ra = ra
  emit_consecutive (suc fuel) ra = elim (find ra.next_expected ra.results) [
    | some res ↦ emit_consecutive fuel (emit ra res)
    | none ↦ ra
  ]

  -- Each round deletes an entry, so the number of entries is fuel enough.
  unfoldable pub add : ResultAggregator D → WorkResult D → ResultAggregator D
  add ra result =
      let results = store result ra.results in
      emit_consecutive (suc (length results)) (record ra { results = results })

  unfoldable pub add_all : ResultAggregator D → List (WorkResult D) → ResultAggregator D
  add_all ra [] = ra
  add_all ra (r ∷ rs) = add_all (add ra r) rs

  -- One round of the loop of `Collect` over the record numbers left.
  unfoldable pub drain_step : List ℕ → ResultAggregator D → ResultAggregator D
  drain_step skipped ra =
      if contains ra.next_expected skipped
      then record ra { next_expected = ra.next_expected + 1; released = ra.released + 1 }
      else elim (find ra.next_expected ra.results) [
        | some res ↦ emit ra res
        | none ↦ record ra { next_expected = ra.next_expected + 1 }
      ]

  unfoldable pub drain : ℕ → List ℕ → ResultAggregator D → ResultAggregator D
  drain zero skipped ra = ra
  drain (suc n) skipped ra = drain n skipped (drain_step skipped ra)

  -- `Collect`: add each result that arrives, then drain up to the expected total.
  unfoldable pub collect : List (WorkResult D) → List ℕ → ℕ → ResultAggregator D
  collect arrivals skipped total_expected =
      let ra = add_all (new_result_aggregator D) arrivals in
      drain (total_expected + 1 - ra.next_expected) skipped ra
