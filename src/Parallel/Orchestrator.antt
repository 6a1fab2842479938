-- ===== src/Parallel/Orchestrator.antt =====
-- internal/extract/parallel/orchestrator.go: what is done with the ordered results. `Extract`
-- collects the records; `ExtractToSink` gives them to a sink, which is not part of the package and is
-- a parameter: `on_record` says of the records it was given before, and of the next one, whether
-- `OnRecord` fails. A record is `Option D`: none is the nil map of a result without data.
pub mod Sink
use sumpter.Base.{
  ℕ, suc, ◌+◌, Bool, true, false, Option, none, some, List, [], ◌∷◌, ◌++◌, ltb, if◌then◌else◌,
}
use sumpter.Parallel.{WorkResult, Failure}

module _ {D : Type 0} where
  -- The loop of `Extract` over the output channel.
  unfoldable pub extract_results : List (WorkResult D) → List (Option D)
  extract_results [] = []
  extract_results (r ∷ rs) =
      let rest = extract_results rs in
      if r.skipped then rest else elim r.error [ some e ↦ rest | none ↦ r.payload ∷ rest ]

pub data Disposition : Type 0 where
  applied failed : Disposition

-- The variables of the loop of `ExtractToSink`; `given` are the records that the sink took.
pub record SinkRun (D : Type 0) : Type 0 where
  pub given : List (Option D)
  pub record_count : ℕ
  pub first_extraction_err : Option Failure
  pub sink_err : Bool

unfoldable pub start_run : (D : Type 0) → SinkRun D
start_run D = record { given = []; record_count = 0; first_extraction_err = none; sink_err = false }

module _ {D : Type 0} (on_record : List (Option D) → Option D → Bool) where
  -- `OnRecord`, and the count or the failure.
  unfoldable pub give : SinkRun D → Option D → SinkRun D
  give run x =
      if run.sink_err
      then run
      else if on_record run.given x
      then record run { sink_err = true }
      else record run { given = run.given ++ x ∷ []; record_count = run.record_count + 1 }

  unfoldable pub sink_step : SinkRun D → WorkResult D → SinkRun D
  sink_step run r = if r.skipped then run else elim r.error [
    | some e ↦ record run {
      first_extraction_err = elim run.first_extraction_err [ none ↦ some e | some e' ↦ some e' ];
    }
    | none ↦ give run r.payload
  ]

  unfoldable pub sink_results : SinkRun D → List (WorkResult D) → SinkRun D
  sink_results run [] = run
  sink_results run (r ∷ rs) = sink_results (sink_step run r) rs

-- The disposition of the file, from the loop's variables and the count of failed records.
unfoldable pub disposition : {D : Type 0} → SinkRun D → ℕ → Disposition
disposition run failures =
    if run.sink_err then failed else if ltb 0 failures then failed else applied
