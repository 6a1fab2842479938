-- ===== src/Parallel/Scheduler/Legacy/Streaming.antt =====
-- The path over a slice of records against that over a stream.
use mathlib.Core.List.{map-append}
use mathlib.Core.Path.{subst}
use sumpter.Base.{
  ℕ, suc, ◌+◌, ◌≡◌, refl, sym, ap, ◌∙◌, Bool, true, false, List, [], ◌∷◌, map, if◌then◌else◌, inl,
  inr, Bool-cases,
}
use sumpter.Base.Int.{pos}
use sumpter.Parallel.Scheduler.{
  RecordMetadata, Item, record_item, Interrupt, go_on, at_acquire, Options, Sent, result, work,
  Scheduling, start_scheduling, record_number, is_oversized, offer, note_skipped, increment_failed,
  schedule_item, schedule_round, schedule_work,
}
use sumpter.Parallel.Scheduler.Rounds.{go_on-again}
use sumpter.Parallel.Scheduler.Legacy.{
  LegacySent, skipped_result, failed_result, work_item, LegacyScheduling, start_legacy,
  legacy_record, legacy_work,
}

-- Every record has a number above 0.
abbrev pub AreNumbered : List (RecordMetadata × Bool) → Type 0
AreNumbered [] = Unit
AreNumbered ((r, cut) ∷ rest) = ((n : ℕ) × (r.record_num ≡ pos (suc n))) × AreNumbered rest

-- The same records in a stream, with the same waits given up.
abbrev pub streamed : RecordMetadata × Bool → Item × Interrupt
streamed (r, cut) = (record_item r, if cut then at_acquire else go_on)

module _ {D : Type 0} where
  -- What the streaming path sends and notes, as the other path's
  abbrev pub as_legacy : Sent D → LegacySent
  as_legacy (result w) =
      if w.skipped then skipped_result (pos w.record_num) else failed_result (pos w.record_num)
  as_legacy (work w) = work_item (record {
    record_num = pos w.record_num;
    start_offset = w.start_offset;
    end_offset = w.end_offset;
    size_bytes = w.size_bytes;
    namespace_context_ref = w.namespace_context_ref;
  })

  abbrev pub legacy_of : Scheduling D → LegacyScheduling
  legacy_of st = record {
    skipped_records = map pos st.skipped_records;
    skipped_count = st.skipped_count;
    failed_count = st.failed_count;
    slots = st.slots;
    sent = map as_legacy st.sent;
  }

  numbered_round :
      (opts : Options) (r : RecordMetadata) (n : ℕ) (st : Scheduling D)
      → (let r' : RecordMetadata = record r { record_num = pos (suc n) } in
          legacy_of (schedule_round opts go_on (record_item r') st).0
          ≡ legacy_record opts r' (legacy_of st))
  unfolding schedule_round schedule_item record_number offer note_skipped increment_failed
      legacy_record
  numbered_round opts r n st = elim (Bool-cases (is_oversized opts r.size_bytes)) [
    | inl big ↦ elim (Bool-cases opts.skip_large_records) [
      | inl skip ↦
          rw
            (
              schedule_item,
              legacy_record,
              big,
              skip,
              map-append pos st.skipped_records,
              map-append as_legacy st.sent,
            )
            refl
      | inr fail ↦ rw (schedule_item, legacy_record, big, fail, map-append as_legacy st.sent) refl
    ]
    | inr small ↦ rw (schedule_item, legacy_record, small, map-append as_legacy st.sent) refl
  ]

  -- The wait for a slot is given up.
  stopped_round :
      (opts : Options) (r : RecordMetadata) (st : Scheduling D)
      → schedule_round opts at_acquire (record_item r) st
        ≡ (record st { local_counter = st.local_counter + 1 }, false)
  unfolding schedule_round schedule_item offer
  stopped_round opts r st = elim (Bool-cases (is_oversized opts r.size_bytes)) [
    | inl big ↦ elim (Bool-cases opts.skip_large_records) [
      | inl skip ↦ rw (schedule_round, schedule_item, big, skip) refl
      | inr fail ↦ rw (schedule_round, schedule_item, big, fail) refl
    ]
    | inr small ↦ rw (schedule_round, schedule_item, small) refl
  ]

  legacy_work-from :
      (opts : Options) (items : List (RecordMetadata × Bool)) (st : Scheduling D)
      → AreNumbered items
      → legacy_work opts items (legacy_of st)
        ≡ legacy_of (schedule_work opts (map streamed items) st)
  unfolding legacy_work schedule_work
  legacy_work-from opts [] st h = refl
  legacy_work-from opts ((r, true) ∷ rest) st h = rw (stopped_round opts r st) refl
  legacy_work-from opts ((r, false) ∷ rest) st ((n, e), h) =
      let st' : Scheduling D = (schedule_round opts go_on (record_item r) st).0 in
      let round : legacy_record opts r (legacy_of st) ≡ legacy_of st' =
        subst
          (λ (x : RecordMetadata).
            legacy_record opts x (legacy_of st)
            ≡ legacy_of (schedule_round opts go_on (record_item x) st).0)
          (sym (ap (λ z. record r { record_num = z }) e)) (sym (numbered_round opts r n st)) in
      let again : (schedule_round opts go_on (record_item r) st).1 ≡ true =
        go_on-again opts (record_item r) st in
      rw again (ap (legacy_work opts rest) round ∙ legacy_work-from opts rest st' h)

-- For records that all have numbers above 0, and the same waits for a slot given up: the path over a
-- slice sends what the streaming path sends, in its order, and ends with its slots, its counts and
-- its skipped records.
pub legacy_work-streaming :
    (D : Type 0) (opts : Options) (items : List (RecordMetadata × Bool))
    → AreNumbered items
    → legacy_work opts items start_legacy
      ≡ legacy_of (schedule_work opts (map streamed items) (start_scheduling D))
unfolding start_legacy start_scheduling
legacy_work-streaming D opts items h = legacy_work-from opts items (start_scheduling D) h
