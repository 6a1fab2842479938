-- ===== src/Parallel/Tests.antt =====
-- Tests and instances for internal/extract/parallel: three records, the third of them skipped.
use sumpter.Base.{
  ℕ, ◌+◌, ◌≤◌, ◌<◌, ◌≡◌, refl, ◌*◌, true, false, none, some, List, [], ◌∷◌, map, length, arith,
  Bool, Option, ltb,
}
use sumpter.Base.Int.{pos, negsuc}
use sumpter.Base.Members.{here, there}
use sumpter.Parallel.{WorkResult}
use sumpter.Parallel.Aggregator.{
  collect, find, contains, new_result_aggregator, add, emit_consecutive, emit, store, delete,
  add_all, drain, drain_step,
}
use sumpter.Parallel.Aggregator.Find.{gather, IsNumbered}
use sumpter.Parallel.Aggregator.Collect.{IsWithin, IsSkipped, collect-gather, collect_order}
use sumpter.Parallel.Orchestrator.{extract_results, sink_results, start_run}
use sumpter.Parallel.Orchestrator.Sink.{Took, sink_results-prefix}
use sumpter.Parallel.Scheduler.{
  RecordMetadata, Item, record_item, read_error, Interrupt, go_on, at_send, Options, schedule_work,
  start_scheduling, cap_worker_count, cap_reorder_window,
}
use sumpter.Parallel.Scheduler.Legacy.{start_legacy, legacy_work}
use sumpter.Parallel.Scheduler.Legacy.Streaming.{streamed, legacy_of, legacy_work-streaming}
use sumpter.Parallel.Scheduler.Rounds.{numbers}
use sumpter.Parallel.Scheduler.Numbers.{up_from, IsInPlace, schedule_work-numbers}
use sumpter.Parallel.Scheduler.ZeroBased.{IsNumberedFrom, zero_based-numbers}
use sumpter.Parallel.Pipeline.{Pipeline, Step, schedule, deliver, start, Reach, stop, next}
use sumpter.Parallel.Pipeline.Runs.{Reach-window, Reach-live, Reach-output}

abbrev extracted : ℕ → WorkResult ℕ
extracted n = record { record_num = n; payload = some (n * 10); error = none; skipped = false }

abbrev passed_over : ℕ → WorkResult ℕ
passed_over n = record { record_num = n; payload = none; error = none; skipped = true }

-- Two orders of arrival.
abbrev one_way : List (WorkResult ℕ)
one_way = extracted 2 ∷ passed_over 3 ∷ extracted 1 ∷ []

abbrev other_way : List (WorkResult ℕ)
other_way = extracted 1 ∷ extracted 2 ∷ passed_over 3 ∷ []

one_way-IsNumbered : IsNumbered one_way
unfolding find
one_way-IsNumbered = (omega arith, refl, (omega arith, refl, (omega arith, refl, tt)))

other_way-IsNumbered : IsNumbered other_way
unfolding find
other_way-IsNumbered = (omega arith, refl, (omega arith, refl, (omega arith, refl, tt)))

one_way-IsWithin : IsWithin 3 one_way
unfolding find
one_way-IsWithin j h = ground arith

none-IsSkipped : IsSkipped [] one_way
unfolding contains
none-IsSkipped j r e f = cc

three-IsSkipped : IsSkipped (3 ∷ []) other_way
unfolding contains find
three-IsSkipped j r e f = ground arith

same_results : (j : ℕ) → find j one_way ≡ find j other_way
unfolding find
same_results j = ground arith

collected : extract_results (collect one_way [] 3).output ≡ some 10 ∷ some 20 ∷ []
unfolding collect extract_results add_all add store emit_consecutive emit find delete drain
    drain_step new_result_aggregator contains
collected = refl

collect-gather_example :
    (extract_results (collect one_way [] 3).output ≡ extract_results (gather 3 1 one_way))
    × ((collect one_way [] 3).next_expected ≡ 4)
collect-gather_example =
    collect-gather one_way [] 3 one_way-IsNumbered one_way-IsWithin none-IsSkipped

collect_order_example :
    extract_results (collect one_way [] 3).output
    ≡ extract_results (collect other_way (3 ∷ []) 3).output
collect_order_example =
    collect_order one_way other_way [] (3 ∷ []) 3 one_way-IsNumbered other_way-IsNumbered
      one_way-IsWithin none-IsSkipped three-IsSkipped same_results

-- A sink that takes one record.
abbrev on_record : List (Option ℕ) → Option ℕ → Bool
on_record given x = ltb 0 (length given)

sink_results-prefix_example :
    Took on_record (extract_results other_way) [] (sink_results on_record (start_run ℕ) other_way)
sink_results-prefix_example = sink_results-prefix on_record other_way

abbrev opts : Options
opts = record { max_record_size_mb = pos 1; skip_large_records = true }

abbrev sized : ℕ → ℕ → Item
sized n size = record_item (record {
  record_num = pos n;
  start_offset = pos 0;
  end_offset = pos size;
  size_bytes = pos size;
  namespace_context_ref = pos 0;
})

-- The second record has no number, the third is too large, and the context is done at the fourth.
abbrev entries : List (Item × Interrupt)
entries =
    (sized 1 100, go_on)
    ∷ (sized 0 100, go_on)
    ∷ (sized 3 2_000_000, go_on)
    ∷ (read_error, at_send)
    ∷ []

entries-IsInPlace : IsInPlace 1 entries
entries-IsInPlace = ((λ n e. cc), ((λ n e. cc), ((λ n e. cc), tt)))

schedule_work-numbers_example :
    (numbers (schedule_work opts entries (start_scheduling ℕ)) ≡ 1 ∷ 2 ∷ 3 ∷ [])
    × ((schedule_work opts entries (start_scheduling ℕ)).slots ≡ 3)
    × ((schedule_work opts entries (start_scheduling ℕ)).local_counter ≡ 4)
schedule_work-numbers_example = schedule_work-numbers ℕ opts entries entries-IsInPlace

abbrev numbered : ℕ → ℕ → RecordMetadata
numbered n size = record {
  record_num = pos n;
  start_offset = pos 0;
  end_offset = pos size;
  size_bytes = pos size;
  namespace_context_ref = pos 0;
}

-- The second record is too large, and the wait for a slot is given up at the fourth.
abbrev sliced : List (RecordMetadata × Bool)
sliced =
    (numbered 1 100, false)
    ∷ (numbered 2 2_000_000, false)
    ∷ (numbered 5 100, false)
    ∷ (numbered 6 100, true)
    ∷ []

legacy_work-streaming_example :
    legacy_work opts sliced start_legacy
    ≡ legacy_of (schedule_work opts (map streamed sliced) (start_scheduling ℕ))
legacy_work-streaming_example =
    legacy_work-streaming ℕ opts sliced ((0, refl), ((1, refl), ((4, refl), ((5, refl), tt))))

abbrev zero_based : List (Item × Interrupt)
zero_based = (sized 1 100, go_on) ∷ (sized 2 100, go_on) ∷ []

zero_based-IsNumberedFrom : IsNumberedFrom 0 ((sized 0 100, go_on) ∷ zero_based)
zero_based-IsNumberedFrom = (refl, refl, (refl, refl, (refl, refl, tt)))

zero_based-numbers_example :
    numbers (schedule_work opts ((sized 0 100, go_on) ∷ zero_based) (start_scheduling ℕ))
    ≡ 1 ∷ 1 ∷ 2 ∷ []
zero_based-numbers_example =
    zero_based-numbers ℕ opts (sized 0 100, go_on) zero_based zero_based-IsNumberedFrom

workers : cap_worker_count 4 (pos 20) ≡ pos 8
unfolding cap_worker_count
workers = refl

window : cap_reorder_window (negsuc 0) (pos 8) ≡ pos 16
unfolding cap_reorder_window
window = refl

-- Two records are out in a window of two, of three records.
abbrev two_out : Pipeline ℕ
two_out = record { scheduled = 2; in_flight = 2 ∷ 1 ∷ []; aggregator = new_result_aggregator ℕ }

Reach-two_out : Reach 2 3 (start ℕ) 2 two_out
unfolding start new_result_aggregator
Reach-two_out =
    next (next stop (schedule (omega arith) (omega arith))) (schedule (omega arith) (omega arith))

not_all : two_out.aggregator.released < 3
unfolding new_result_aggregator
not_all = omega arith

Reach-window_example :
    (two_out.aggregator.next_expected ≤ 1)
    × (1 < two_out.aggregator.next_expected + 2)
    × (two_out.scheduled ≤ 3)
Reach-window_example =
    Reach-window {window = 2} {total = 3} {p = two_out} (omega arith) Reach-two_out (there here)

Reach-live_example : (q : Pipeline ℕ) × Step 2 3 two_out q
Reach-live_example =
    Reach-live {window = 2} {total = 3} {p = two_out} (omega arith) Reach-two_out not_all

-- The second record's result comes before the first one's.
abbrev all_in : Pipeline ℕ
all_in = record {
  scheduled = 2;
  in_flight = [];
  aggregator = add (add (new_result_aggregator ℕ) (extracted 2)) (extracted 1);
}

Reach-all_in : Reach 2 2 (start ℕ) 4 all_in
unfolding start new_result_aggregator
Reach-all_in =
    next
      (next
        (next (next stop (schedule (omega arith) (omega arith)))
          (schedule (omega arith) (omega arith)))
        (deliver (extracted 2) here))
      (deliver (extracted 1) here)

Reach-output_example :
    (map (λ r. r.record_num) all_in.aggregator.output ≡ up_from 1 all_in.aggregator.released)
    × (4 ≤ 4)
    × (◌≡◌ {A = ℕ} 4 4 → all_in.aggregator.released ≡ 2)
Reach-output_example = Reach-output {window = 2} {total = 2} {p = all_in} (omega arith) Reach-all_in

first_two : map (λ r. r.record_num) all_in.aggregator.output ≡ 1 ∷ 2 ∷ []
unfolding add store emit_consecutive emit find delete new_result_aggregator
first_two = refl
