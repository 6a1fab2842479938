-- ===== src/Parallel/Scheduler/Legacy.antt =====
-- internal/extract/parallel/scheduler.go: scheduleWorkLegacy, the path over a slice of records. A
-- record's number is taken as it is, and only the wait for a slot can be given up.
pub mod Streaming
use sumpter.Base.{
  ℕ, suc, ◌+◌, ◌≡◌, refl, ap, Bool, true, false, Option, none, some, List, [], ◌∷◌, ◌++◌, map,
  if◌then◌else◌, inl, inr, Bool-cases,
}
use sumpter.Base.Int.{ℤ, pos}
use sumpter.Parallel.{WorkResult}
use sumpter.Parallel.Scheduler.{
  RecordMetadata, WorkItem, Item, record_item, Interrupt, go_on, Options, Sent, result, work,
  Scheduling, start_scheduling, record_number, is_oversized, offer, note_skipped, increment_failed,
  schedule_item, schedule_round, schedule_work,
}

-- What goes to the result channel, for a record that is skipped or too large, or to the work
-- channel.
pub data LegacySent : Type 0 where
  skipped_result : ℤ → LegacySent
  failed_result : ℤ → LegacySent
  work_item : RecordMetadata → LegacySent

pub record LegacyScheduling : Type 0 where
  pub skipped_records : List ℤ
  pub skipped_count : ℕ
  pub failed_count : ℕ
  pub slots : ℕ
  pub sent : List LegacySent

unfoldable pub start_legacy : LegacyScheduling
start_legacy = record {
  skipped_records = [];
  skipped_count = 0;
  failed_count = 0;
  slots = 0;
  sent = [];
}

-- A slot is held, and `s` is sent.
abbrev pub sends : LegacySent → LegacyScheduling → LegacyScheduling
sends s st = record st { slots = st.slots + 1; sent = st.sent ++ s ∷ [] }

unfoldable pub legacy_record : Options → RecordMetadata → LegacyScheduling → LegacyScheduling
legacy_record opts r st =
    if is_oversized opts r.size_bytes
    then (if opts.skip_large_records
        then sends (skipped_result r.record_num) (record st {
          skipped_records = st.skipped_records ++ r.record_num ∷ [];
          skipped_count = st.skipped_count + 1;
        })
        else (let st' = sends (failed_result r.record_num) st in
            record st' { failed_count = st'.failed_count + 1 }))
    else sends (work_item r) st

-- The flag of a record is whether the context ends while a slot is waited for.
unfoldable pub legacy_work :
    Options → List (RecordMetadata × Bool) → LegacyScheduling → LegacyScheduling
legacy_work opts [] st = st
legacy_work opts ((r, cut) ∷ rest) st =
    let later = legacy_work opts rest (legacy_record opts r st) in if cut then st else later
