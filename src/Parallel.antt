-- ===== src/Parallel.antt =====
-- internal/extract/parallel: records are extracted by workers in any order and emitted in theirs.
-- types.go is here; scheduler.go is Scheduler, aggregator.go is Aggregator, the loops of
-- orchestrator.go over the ordered results are Orchestrator, and Pipeline is all of them at work.
pub mod Aggregator
pub mod Orchestrator
pub mod Scheduler
pub mod Pipeline
mod Tests
use sumpter.Base.{ℕ, Bool, Option}

-- Why a result carries an error.
pub data Failure : Type 0 where
  read_failed : Failure
  too_large : Failure
  extraction_failed : Failure

-- WorkResult; `D` is the type of the extracted record, map[string]interface{} in the program.
pub record WorkResult (D : Type 0) : Type 0 where
  pub record_num : ℕ
  pub payload : Option D
  pub error : Option Failure
  pub skipped : Bool
