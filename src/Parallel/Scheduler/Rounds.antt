-- ===== src/Parallel/Scheduler/Rounds.antt =====
-- What a round of the scheduler's loop sends, holds and counts.
use mathlib.Core.List.{map-append}
use sumpter.Base.{
  ℕ, suc, ◌+◌, ◌≡◌, ◌≢◌, refl, ap, ◌∙◌, inl, inr, Bool, true, false, List, [], ◌∷◌, ◌++◌, map,
  arith, if◌then◌else◌, Bool-cases,
}
use sumpter.Parallel.Scheduler.{
  RecordMetadata, Item, record_item, read_error, Interrupt, go_on, at_head, at_acquire, at_send,
  Options, Sent, result, work, Scheduling, record_number, is_oversized, offer, increment_failed,
  note_skipped, schedule_item, schedule_round,
}

-- What a round that is given up reads
abbrev pub reads_one : Interrupt → ℕ
reads_one at_head = 0
reads_one at_acquire = 1
reads_one at_send = 1
reads_one go_on = 1

module _ {D : Type 0} where
  abbrev pub sent_number : Sent D → ℕ
  sent_number (result r) = r.record_num
  sent_number (work w) = w.record_num

  abbrev pub numbers : Scheduling D → List ℕ
  numbers st = map sent_number st.sent

  -- A round that goes on has sent the number `n` and holds one more slot; one that stops has not.
  abbrev pub Effect : ℕ → Scheduling D → Scheduling D × Bool → Type 0
  Effect n st (st', again) =
      (numbers st' ≡ (if again then numbers st ++ n ∷ [] else numbers st))
      × (st'.slots ≡ (if again then st.slots + 1 else st.slots))
      × (again ≡ true → st'.local_counter ≡ st.local_counter)

  -- `f` leaves alone what is sent, the slots and the counter.
  record Keeps (f : Scheduling D → Scheduling D) : Type 0 where
    sent : (st : Scheduling D) → (f st).sent ≡ st.sent
    slots : (st : Scheduling D) → (f st).slots ≡ st.slots
    counter : (st : Scheduling D) → (f st).local_counter ≡ st.local_counter

  id-Keeps : Keeps (λ s. s)
  id-Keeps = record { sent = λ s. refl; slots = λ s. refl; counter = λ s. refl }

  increment_failed-Keeps : Keeps increment_failed
  unfolding increment_failed
  increment_failed-Keeps = record { sent = λ s. refl; slots = λ s. refl; counter = λ s. refl }

  note_skipped-Keeps : (n : ℕ) → Keeps (note_skipped n)
  unfolding note_skipped
  note_skipped-Keeps n = record { sent = λ s. refl; slots = λ s. refl; counter = λ s. refl }

  offer-Effect :
      (cut : Interrupt) (before after : Scheduling D → Scheduling D) (s : Sent D)
      (st : Scheduling D)
      → Keeps before
      → Keeps after
      → Effect (sent_number s) st (offer cut before s after st)
  unfolding offer
  offer-Effect go_on before after s st kb ka =
      let st' = before (record st { slots = st.slots + 1 }) in
      let st'' = record st' { sent = st'.sent ++ s ∷ [] } in
      (
        ap (map sent_number) (ka.sent st'' ∙ ap (λ x. x ++ s ∷ []) (kb.sent _))
            ∙ map-append sent_number st.sent (s ∷ []),
        ka.slots st'' ∙ kb.slots _,
        λ _. ka.counter st'' ∙ kb.counter _,
      )
  offer-Effect at_send before after s st kb ka = (
    ap (map sent_number) (kb.sent _),
    omega (arith, kb.slots (record st { slots = st.slots + 1 })),
    λ e. cc,
  )
  offer-Effect at_head before after s st kb ka = (refl, refl, λ e. cc)
  offer-Effect at_acquire before after s st kb ka = (refl, refl, λ e. cc)

  pub schedule_item-Effect :
      (opts : Options) (cut : Interrupt) (r : RecordMetadata) (st : Scheduling D)
      → Effect (record_number r.record_num st.local_counter) st (schedule_item opts cut r st)
  unfolding schedule_item
  schedule_item-Effect opts cut r st = elim (Bool-cases (is_oversized opts r.size_bytes)) [
    | inl big ↦ elim (Bool-cases opts.skip_large_records) [
      | inl skip ↦
          rw (schedule_item, big, skip) (offer-Effect cut _ _ _ st (note_skipped-Keeps _) id-Keeps)
      | inr fail ↦
          rw (schedule_item, big, fail) (offer-Effect cut _ _ _ st id-Keeps increment_failed-Keeps)
    ]
    | inr small ↦ rw (schedule_item, small) (offer-Effect cut _ _ _ st id-Keeps id-Keeps)
  ]

  -- A round of the loop: the number `n` is sent, and the counter advances.
  abbrev pub Round : ℕ → Scheduling D → Scheduling D × Bool → Type 0
  Round n st (st', again) =
      (numbers st' ≡ (if again then numbers st ++ n ∷ [] else numbers st))
      × (st'.slots ≡ (if again then st.slots + 1 else st.slots))
      × (again ≡ true → st'.local_counter ≡ suc st.local_counter)

  abbrev advance : Scheduling D → Scheduling D
  advance st = record st { local_counter = st.local_counter + 1 }

  pub record_round :
      (opts : Options) (cut : Interrupt) (r : RecordMetadata) (st : Scheduling D)
      → Round
          (record_number r.record_num (st.local_counter + 1))
          st
          (schedule_round opts cut (record_item r) st)
  unfolding schedule_round
  record_round opts at_head r st = (refl, refl, λ e. cc)
  record_round opts go_on r st =
      let (a, b, c) = schedule_item-Effect opts go_on r (advance st) in
      (a, b, λ e. omega (arith, c e))
  record_round opts at_acquire r st =
      let (a, b, c) = schedule_item-Effect opts at_acquire r (advance st) in
      (a, b, λ e. omega (arith, c e))
  record_round opts at_send r st =
      let (a, b, c) = schedule_item-Effect opts at_send r (advance st) in
      (a, b, λ e. omega (arith, c e))

  pub error_round :
      (opts : Options) (cut : Interrupt) (st : Scheduling D)
      → Round (st.local_counter + 1) st (schedule_round opts cut read_error st)
  unfolding schedule_round
  error_round opts at_head st = (refl, refl, λ e. cc)
  error_round opts go_on st =
      let (a, b, c) = offer-Effect go_on _ _ _ (advance st) id-Keeps increment_failed-Keeps in
      (a, b, λ e. omega (arith, c e))
  error_round opts at_acquire st =
      let (a, b, c) = offer-Effect at_acquire _ _ _ (advance st) id-Keeps increment_failed-Keeps in
      (a, b, λ e. omega (arith, c e))
  error_round opts at_send st =
      let (a, b, c) = offer-Effect at_send _ _ _ (advance st) id-Keeps increment_failed-Keeps in
      (a, b, λ e. omega (arith, c e))

  pub go_on-again :
      (opts : Options) (item : Item) (st : Scheduling D)
      → (schedule_round opts go_on item st).1 ≡ true
  unfolding schedule_round schedule_item offer
  go_on-again opts read_error st = refl
  go_on-again opts (record_item r) st = ground arith

  -- A round that is given up, and has read `n` entries
  abbrev pub IsGivenUp : ℕ → Scheduling D → Scheduling D × Bool → Type 0
  IsGivenUp n st (st', again) = (again ≡ false) × (st'.local_counter ≡ st.local_counter + n)

  offer-IsGivenUp :
      (cut : Interrupt) (before after : Scheduling D → Scheduling D) (s : Sent D)
      (st : Scheduling D)
      → Keeps before
      → cut ≢ go_on
      → IsGivenUp 0 st (offer cut before s after st)
  unfolding offer
  offer-IsGivenUp go_on before after s st kb ne = absurd (ne refl)
  offer-IsGivenUp at_head before after s st kb ne = (refl, omega arith)
  offer-IsGivenUp at_acquire before after s st kb ne = (refl, omega arith)
  offer-IsGivenUp at_send before after s st kb ne =
      (refl, omega (arith, kb.counter (record st { slots = st.slots + 1 })))

  schedule_item-IsGivenUp :
      (opts : Options) (cut : Interrupt) (r : RecordMetadata) (st : Scheduling D)
      → cut ≢ go_on
      → IsGivenUp 0 st (schedule_item opts cut r st)
  unfolding schedule_item
  schedule_item-IsGivenUp opts cut r st ne = elim (Bool-cases (is_oversized opts r.size_bytes)) [
    | inl big ↦ elim (Bool-cases opts.skip_large_records) [
      | inl skip ↦
          rw (schedule_item, big, skip) (offer-IsGivenUp cut _ _ _ st (note_skipped-Keeps _) ne)
      | inr fail ↦ rw (schedule_item, big, fail) (offer-IsGivenUp cut _ _ _ st id-Keeps ne)
    ]
    | inr small ↦ rw (schedule_item, small) (offer-IsGivenUp cut _ _ _ st id-Keeps ne)
  ]

  pub schedule_round-IsGivenUp :
      (opts : Options) (cut : Interrupt) (item : Item) (st : Scheduling D)
      → cut ≢ go_on
      → IsGivenUp (reads_one cut) st (schedule_round opts cut item st)
  unfolding schedule_round
  schedule_round-IsGivenUp opts go_on item st ne = absurd (ne refl)
  schedule_round-IsGivenUp opts at_head read_error st ne = (refl, omega arith)
  schedule_round-IsGivenUp opts at_head (record_item r) st ne = (refl, omega arith)
  schedule_round-IsGivenUp opts at_acquire read_error st ne =
      let (e, k) = offer-IsGivenUp at_acquire _ _ _ (advance st) id-Keeps ne in
      (e, omega (arith, k))
  schedule_round-IsGivenUp opts at_acquire (record_item r) st ne =
      let (e, k) = schedule_item-IsGivenUp opts at_acquire r (advance st) ne in
      (e, omega (arith, k))
  schedule_round-IsGivenUp opts at_send read_error st ne =
      let (e, k) = offer-IsGivenUp at_send _ _ _ (advance st) id-Keeps ne in (e, omega (arith, k))
  schedule_round-IsGivenUp opts at_send (record_item r) st ne =
      let (e, k) = schedule_item-IsGivenUp opts at_send r (advance st) ne in (e, omega (arith, k))
  -- The loop ends with a round that is given up.
