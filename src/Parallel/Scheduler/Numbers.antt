-- ===== src/Parallel/Scheduler/Numbers.antt =====
-- The record numbers that are handed out, and the slots that are held for them.
use mathlib.Core.Path.{ap₂}
use mathlib.Core.List.{append-nil, append_assoc}
use sumpter.Base.{ℕ, zero, suc, ◌+◌, ◌≡◌, ◌≢◌, refl, sym, ◌∙◌, List, [], ◌∷◌, ◌++◌, arith}
use sumpter.Base.Int.{ℤ, pos, negsuc}
use sumpter.Parallel.Scheduler.{
  Item, record_item, read_error, Interrupt, go_on, at_head, at_acquire, at_send, Options,
  Scheduling, start_scheduling, record_number, schedule_round, schedule_work,
}
use sumpter.Parallel.Scheduler.Rounds.{
  reads_one, numbers, Round, record_round, error_round, go_on-again, schedule_round-IsGivenUp,
}

-- k, k + 1, ..., n numbers in all.
abbrev pub up_from : ℕ → ℕ → List ℕ
up_from k zero = []
up_from k (suc n) = k ∷ up_from (suc k) n

-- Each record's number is not set, or is its place: the first has `k`.
abbrev pub IsInPlace : ℕ → List (Item × Interrupt) → Type 0
IsInPlace k [] = Unit
IsInPlace k ((read_error, _) ∷ rest) = IsInPlace (suc k) rest
IsInPlace k ((record_item r, _) ∷ rest) =
    ((n : ℕ) → r.record_num ≡ pos (suc n) → suc n ≡ k) × IsInPlace (suc k) rest

-- The rounds that end before the context is found done.
abbrev pub rounds : List (Item × Interrupt) → ℕ
rounds [] = 0
rounds ((_, go_on) ∷ rest) = suc (rounds rest)
rounds ((_, at_head) ∷ rest) = 0
rounds ((_, at_acquire) ∷ rest) = 0
rounds ((_, at_send) ∷ rest) = 0

-- The entries that are read: a context found done at the head of a round keeps it from reading one.
abbrev pub reads : List (Item × Interrupt) → ℕ
reads [] = 0
reads ((_, go_on) ∷ rest) = suc (reads rest)
reads ((_, at_head) ∷ rest) = 0
reads ((_, at_acquire) ∷ rest) = 1
reads ((_, at_send) ∷ rest) = 1

record_number-place :
    (z : ℤ) (k : ℕ) → ((n : ℕ) → z ≡ pos (suc n) → suc n ≡ k) → record_number z k ≡ k
unfolding record_number
record_number-place (pos zero) k h = refl
record_number-place (pos (suc n)) k h = h n refl
record_number-place (negsuc n) k h = refl

module _ {D : Type 0} where
  place_round :
      (opts : Options) (cut : Interrupt) (item : Item) (rest : List (Item × Interrupt))
      (st : Scheduling D)
      → IsInPlace (suc st.local_counter) ((item, cut) ∷ rest)
      → Round (suc st.local_counter) st (schedule_round opts cut item st)
        × IsInPlace (suc (suc st.local_counter)) rest
  place_round opts cut read_error rest st h =
      let e : st.local_counter + 1 ≡ suc st.local_counter = omega arith in
      (rw e at (error_round opts cut st), h)
  place_round opts cut (record_item r) rest st h =
      let e : st.local_counter + 1 ≡ suc st.local_counter = omega arith in
      let e' = record_number-place r.record_num (suc st.local_counter) h.0 in
      (rw e' at (rw e at (record_round opts cut r st)), h.1)

  schedule_work_given_up :
      (opts : Options) (cut : Interrupt) (item : Item) (rest : List (Item × Interrupt))
      (st : Scheduling D)
      → IsInPlace (suc st.local_counter) ((item, cut) ∷ rest)
      → cut ≢ go_on
      → (numbers (schedule_work opts ((item, cut) ∷ rest) st) ≡ numbers st ++ [])
        × ((schedule_work opts ((item, cut) ∷ rest) st).slots ≡ st.slots + 0)
        × ((schedule_work opts ((item, cut) ∷ rest) st).local_counter
            ≡ st.local_counter + reads_one cut)
  unfolding schedule_work
  schedule_work_given_up opts cut item rest st h ne =
      let ((a, b, c), later) = place_round opts cut item rest st h in
      let (e, k) = schedule_round-IsGivenUp opts cut item st ne in
      (rw e ((rw e at a) ∙ sym (append-nil _)), rw e (omega (arith, rw e at b)), rw e k)

  schedule_work-from :
      (opts : Options) (items : List (Item × Interrupt)) (st : Scheduling D)
      → IsInPlace (suc st.local_counter) items
      → (numbers (schedule_work opts items st)
          ≡ numbers st ++ up_from (suc st.local_counter) (rounds items))
        × ((schedule_work opts items st).slots ≡ st.slots + rounds items)
        × ((schedule_work opts items st).local_counter ≡ st.local_counter + reads items)
  unfolding schedule_work
  schedule_work-from opts [] st h = (sym (append-nil _), omega arith, omega arith)
  schedule_work-from opts ((item, go_on) ∷ rest) st h =
      let ((a, b, c), later) = place_round opts go_on item rest st h in
      let e = go_on-again opts item st in
      let (n, s, k) =
        schedule_work-from opts rest (schedule_round opts go_on item st).0 (rw (c e) later) in
      (
        rw e (
            n
            ∙ ap₂ (λ x y. x ++ up_from (suc y) (rounds rest)) (rw e at a) (c e)
            ∙ append_assoc (numbers st) (suc st.local_counter ∷ []) _),
        rw e (omega (arith, s, rw e at b)),
        rw e (omega (arith, k, c e)),
      )
  schedule_work-from opts ((item, at_head) ∷ rest) st h =
      schedule_work_given_up opts at_head item rest st h (λ e. cc)
  schedule_work-from opts ((item, at_acquire) ∷ rest) st h =
      schedule_work_given_up opts at_acquire item rest st h (λ e. cc)
  schedule_work-from opts ((item, at_send) ∷ rest) st h =
      schedule_work_given_up opts at_send item rest st h (λ e. cc)

-- For an index whose records have no number or that of their place, 1 for the first, and whatever
-- cannot be read or is too large: the goroutine sends the numbers 1, 2, 3, ... in order and holds one
-- slot for each, as many as there are rounds before the one in which its context is found done, if
-- there is one; it reads the entry of that round too, unless the context was found done at its head.
pub schedule_work-numbers :
    (D : Type 0) (opts : Options) (items : List (Item × Interrupt))
    → IsInPlace 1 items
    → (numbers (schedule_work opts items (start_scheduling D)) ≡ up_from 1 (rounds items))
      × ((schedule_work opts items (start_scheduling D)).slots ≡ rounds items)
      × ((schedule_work opts items (start_scheduling D)).local_counter ≡ reads items)
unfolding start_scheduling
schedule_work-numbers D opts items h =
    let (n, s, k) = schedule_work-from opts items (start_scheduling D) h in
    (n, omega arith, omega arith)
