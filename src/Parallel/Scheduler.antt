-- ===== src/Parallel/Scheduler.antt =====
-- internal/extract/parallel/scheduler.go: the goroutine that hands out the records of an index
-- (the streaming path). What blocks is a place where the context may be found done: `Interrupt` says
-- of each round of the loop whether, and where. Logging is left out.
pub mod Rounds
pub mod Numbers
pub mod ZeroBased
pub mod Legacy
use sumpter.Base.{
  ℕ, zero, suc, ◌+◌, ◌-◌, ◌*◌, ◌%◌, Bool, true, false, ◌&&◌, none, some, List, [], ◌∷◌, ◌++◌, ltb,
  if◌then◌else◌,
}
use sumpter.Base.Int.{ℤ, pos, negsuc, of_bits, to_bits, two64, ltb_ℤ, leb_ℤ}
use sumpter.Parallel.{WorkResult, read_failed, too_large}

-- x * y on int64
abbrev mul64 : ℤ → ℕ → ℤ
mul64 x y = of_bits (to_bits x * y % two64)

-- capWorkerCount; `cpus` is runtime.NumCPU().
unfoldable pub cap_worker_count : ℕ → ℤ → ℤ
cap_worker_count cpus requested =
    let workers = if leb_ℤ requested (pos 0) then pos cpus else requested in
    let max_workers = pos (cpus * 2) in if ltb_ℤ max_workers workers then max_workers else workers

unfoldable pub cap_reorder_window : ℤ → ℤ → ℤ
cap_reorder_window requested workers =
    if ltb_ℤ (pos 0) requested
    then requested
    else let w = if leb_ℤ workers (pos 0) then pos 1 else workers in mul64 w 2

-- A record of the index: index.RecordMetadata, as far as it is used here.
pub record RecordMetadata : Type 0 where
  pub record_num : ℤ
  pub start_offset : ℤ
  pub end_offset : ℤ
  pub size_bytes : ℤ
  pub namespace_context_ref : ℤ

pub record WorkItem : Type 0 where
  pub record_num : ℕ
  pub start_offset : ℤ
  pub end_offset : ℤ
  pub size_bytes : ℤ
  pub namespace_context_ref : ℤ

-- What `iter.Next()` returns before io.EOF.
pub data Item : Type 0 where
  record_item : RecordMetadata → Item
  read_error : Item

-- Where the context is found done in a round, if it is.
pub data Interrupt : Type 0 where
  go_on at_head at_acquire at_send : Interrupt

pub record Options : Type 0 where
  pub max_record_size_mb : ℤ
  pub skip_large_records : Bool

-- What goes to the result channel or to the work channel.
pub data Sent (D : Type 0) : Type 0 where
  result : WorkResult D → Sent D
  work : WorkItem → Sent D

-- The goroutine's variables, the statistics, the slots that it holds and what it has sent.
pub record Scheduling (D : Type 0) : Type 0 where
  pub local_counter : ℕ
  pub skipped_records : List ℕ
  pub skipped_count : ℕ
  pub failed_count : ℕ
  pub slots : ℕ
  pub sent : List (Sent D)

unfoldable pub start_scheduling : (D : Type 0) → Scheduling D
start_scheduling D = record {
  local_counter = 0;
  skipped_records = [];
  skipped_count = 0;
  failed_count = 0;
  slots = 0;
  sent = [];
}

-- `recordNum := record.RecordNum; if recordNum <= 0 { recordNum = localCounter }`
unfoldable pub record_number : ℤ → ℕ → ℕ
record_number (pos zero) counter = counter
record_number (pos (suc n)) counter = suc n
record_number (negsuc n) counter = counter

-- `ws.opts.MaxRecordSizeMB > 0 && record.SizeBytes > maxRecordBytes`
unfoldable pub is_oversized : Options → ℤ → Bool
is_oversized opts size =
    ltb_ℤ (pos 0) opts.max_record_size_mb
    && ltb_ℤ (mul64 (mul64 opts.max_record_size_mb 1024) 1024) size

module _ {D : Type 0} where
  -- Acquire a slot, apply `before`, send; `after` follows a send. The flag is whether the loop goes
  -- on; a send that is given up releases the slot.
  unfoldable pub offer :
      Interrupt
      → (Scheduling D → Scheduling D)
      → Sent D
      → (Scheduling D → Scheduling D)
      → Scheduling D
      → Scheduling D × Bool
  offer go_on before s after st =
      let st' = before (record st { slots = st.slots + 1 }) in
      (after (record st' { sent = st'.sent ++ s ∷ [] }), true)
  offer at_send before s after st =
      let st' = before (record st { slots = st.slots + 1 }) in
      (record st' { slots = st'.slots - 1 }, false)
  offer at_head before s after st = (st, false)
  offer at_acquire before s after st = (st, false)

  unfoldable pub increment_failed : Scheduling D → Scheduling D
  increment_failed st = record st { failed_count = st.failed_count + 1 }

  unfoldable pub note_skipped : ℕ → Scheduling D → Scheduling D
  note_skipped num st = record st {
    skipped_records = st.skipped_records ++ num ∷ [];
    skipped_count = st.skipped_count + 1;
  }

  -- The round after the counter is advanced, for a record that was read.
  unfoldable pub schedule_item :
      Options → Interrupt → RecordMetadata → Scheduling D → Scheduling D × Bool
  schedule_item opts cut r st =
      let num = record_number r.record_num st.local_counter in
      if is_oversized opts r.size_bytes
      then (if opts.skip_large_records
          then offer cut (note_skipped num)
              (result (record { record_num = num; payload = none; error = none; skipped = true }))
              (λ s. s) st
          else offer cut (λ s. s)
              (result (record {
                record_num = num;
                payload = none;
                error = some too_large;
                skipped = false;
              }))
              increment_failed st)
      else offer cut (λ s. s)
          (work (record {
            record_num = num;
            start_offset = r.start_offset;
            end_offset = r.end_offset;
            size_bytes = r.size_bytes;
            namespace_context_ref = r.namespace_context_ref;
          }))
          (λ s. s) st

  -- One round of the loop; a done context is seen at its head.
  unfoldable pub schedule_round : Options → Interrupt → Item → Scheduling D → Scheduling D × Bool
  schedule_round opts at_head item st = (st, false)
  schedule_round opts cut read_error st =
      let st' = record st { local_counter = st.local_counter + 1 } in
      offer cut (λ s. s)
        (result (record {
          record_num = st'.local_counter;
          payload = none;
          error = some read_failed;
          skipped = false;
        }))
        increment_failed st'
  schedule_round opts cut (record_item r) st =
      schedule_item opts cut r (record st { local_counter = st.local_counter + 1 })

  unfoldable pub schedule_work : Options → List (Item × Interrupt) → Scheduling D → Scheduling D
  schedule_work opts [] st = st
  schedule_work opts ((item, cut) ∷ rest) st =
      let (st', again) = schedule_round opts cut item st in
      let later = schedule_work opts rest st' in if again then later else st'
