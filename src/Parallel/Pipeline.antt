-- ===== src/Parallel/Pipeline.antt =====
-- The scheduler, the workers and the aggregator at work together, for an index of `total` records
-- numbered 1 to `total` and a reorder window of `window` slots, with no cancellation. A step gives out
-- the next record, if a slot is free, or brings the result of a record that was given out to the
-- aggregator. The channels' buffers hold less than the window and are left out: what a worker does
-- between receiving a record and sending its result is part of being in flight.
pub mod Progress
pub mod Runs
use sumpter.Base.{ℕ, suc, ◌-◌, ◌<◌, ◌≡◌, List, [], ◌∷◌}
use sumpter.Base.Members.{Pick}
use sumpter.Parallel.{WorkResult}
use sumpter.Parallel.Aggregator.{ResultAggregator, new_result_aggregator, add}

pub record Pipeline (D : Type 0) : Type 0 where
  pub scheduled : ℕ
  pub in_flight : List ℕ
  pub aggregator : ResultAggregator D

pub data Step {D : Type 0} (window total : ℕ) : Pipeline D → Pipeline D → Type 0 where
  schedule :
      {k : ℕ} {fl : List ℕ} {ra : ResultAggregator D}
      → k < total
      → k - ra.released < window
      → Step window total
          (record { scheduled = k; in_flight = fl; aggregator = ra })
          (record { scheduled = suc k; in_flight = suc k ∷ fl; aggregator = ra })
  deliver :
      {k : ℕ} {fl fl' : List ℕ} {ra : ResultAggregator D} (r : WorkResult D)
      → Pick r.record_num fl fl'
      → Step window total
          (record { scheduled = k; in_flight = fl; aggregator = ra })
          (record { scheduled = k; in_flight = fl'; aggregator = add ra r })

unfoldable pub start : (D : Type 0) → Pipeline D
start D = record { scheduled = 0; in_flight = []; aggregator = new_result_aggregator D }

-- `n` steps lead from `s` to the state.
pub data Reach {D : Type 0} (window total : ℕ) (s : Pipeline D) : ℕ → Pipeline D → Type 0 where
  stop : Reach window total s 0 s
  next :
      {n : ℕ} {t u : Pipeline D}
      → Reach window total s n t
      → Step window total t u
      → Reach window total s (suc n) u
