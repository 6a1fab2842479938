-- ===== src/Parallel/Pipeline/Runs.antt =====
-- The runs of the pipeline: how far ahead they are, that they do not block, where they end.
use sumpter.Base.{
  ℕ, zero, suc, ◌+◌, ◌-◌, ◌*◌, ◌≤◌, ◌<◌, ◌≡◌, ◌≢◌, refl, ap, ◌∙◌, inl, inr, false, none, some, List,
  [], ◌∷◌, length, arith, ltb, map, Bool-cases, ◌&&◌, Option-cases,
}
use sumpter.Base.Members.{All-Pick, Pick, Pick-length}
use sumpter.Parallel.{WorkResult}
use sumpter.Parallel.Aggregator.{ResultAggregator, find}
use sumpter.Parallel.Aggregator.Find.{gather}
use sumpter.Parallel.Scheduler.Numbers.{up_from}
use sumpter.Parallel.Pipeline.{Pipeline, Step, schedule, deliver, start, Reach, stop, next}
use sumpter.Parallel.Pipeline.Progress.{IsOut, Good, next-missing, Reach-Good}

length-zero : (xs : List ℕ) → length xs ≡ 0 → xs ≡ []
length-zero [] e = refl
length-zero (x ∷ xs) e = absurd (omega arith)

module _ {D : Type 0} where
  record_num-find :
      (j : ℕ) (rs : List (WorkResult D)) (r : WorkResult D) → find j rs ≡ some r → r.record_num ≡ j
  unfolding find
  record_num-find j [] r e = cc
  record_num-find j (x ∷ xs) r e = ground (arith, record_num-find j xs r)

  map-gather :
      (n i : ℕ) (rs : List (WorkResult D))
      → ((j : ℕ) → i ≤ j → j < i + n → find j rs ≢ none)
      → map (λ r. r.record_num) (gather n i rs) ≡ up_from i n
  unfolding gather
  map-gather zero i rs h = refl
  map-gather (suc n) i rs h = elim (Option-cases (find i rs)) [
    | inl e ↦ absurd (h i (omega arith) (omega arith) e)
    | inr (r, e) ↦
        let rest = map-gather n (suc i) rs (λ j a b. h j (omega arith) (omega arith)) in
        rw (e, record_num-find i rs r e, rest)
  ]

  out-Good :
      (window total : ℕ) (p : Pipeline D) (past : List (WorkResult D)) (j : ℕ)
      → IsOut p.scheduled past j
      → Good window total p past
      → p.aggregator.next_expected ≤ j
  out-Good window total p past j (a, b, e) g = ground (arith, g.inv.sent j)

  -- With a window of at least one slot, in every state that a run reaches, a record in flight is not
  -- before the next one to be emitted and less than the window after it, and no more records were given
  -- out than there are.
  pub Reach-window :
      {window total n j : ℕ} {p : Pipeline D} {rest : List ℕ}
      → 0 < window
      → Reach window total (start D) n p
      → Pick j p.in_flight rest
      → (p.aggregator.next_expected ≤ j)
        × (j < p.aggregator.next_expected + window)
        × (p.scheduled ≤ total)
  Reach-window {window} {total} {n} {j} {p} h run pick =
      let (past, g) = Reach-Good h run in
      let (out, others) = All-Pick (IsOut p.scheduled past) pick g.flying in
      (out-Good window total p past j out g, omega (arith, out.1, g.ahead), g.bounded)

  move :
      (window total : ℕ) (p : Pipeline D) (past : List (WorkResult D))
      → 0 < window
      → p.aggregator.released < total
      → Good window total p past
      → (q : Pipeline D) × Step window total p q
  move window total p past h more g =
      elim (Bool-cases
        (ltb p.scheduled total && ltb (p.scheduled - p.aggregator.released) window)) [
          | inl e ↦ (
            _,
            schedule {k = p.scheduled} {fl = p.in_flight} {ra = p.aggregator} (ground arith)
                (ground arith),
          )
          | inr e ↦
              let m : ℕ = p.aggregator.next_expected in
              let le : m ≤ p.scheduled = ground (arith, g.inv.released, g.bounded) in
              let (rest, pick) =
                g.missing m (g.inv.next_pos, le, next-missing past p.aggregator g.inv g.drained) in
              (
                _,
                deliver {k = p.scheduled} {fl = p.in_flight} {fl' = rest} {ra = p.aggregator}
                    (record { record_num = m; payload = none; error = none; skipped = false }) pick,
              )
        ]

  -- With a window of at least one slot, in every state that a run reaches, while fewer slots were
  -- released than there are records, some step is possible.
  pub Reach-live :
      {window total n : ℕ} {p : Pipeline D}
      → 0 < window
      → Reach window total (start D) n p
      → p.aggregator.released < total
      → (q : Pipeline D) × Step window total p q
  Reach-live {window} {total} {n} {p} h run more =
      let (past, g) = Reach-Good h run in move window total p past h more g

  steps_count :
      {window total n : ℕ} {p : Pipeline D}
      → Reach window total (start D) n p
      → n + length p.in_flight ≡ 2 * p.scheduled
  unfolding start
  steps_count stop = refl
  steps_count (next run (schedule h room)) = omega (arith, steps_count run)
  steps_count (next run (deliver r pick)) = omega (arith, steps_count run, Pick-length pick)

  nothing_out :
      (window total : ℕ) (p : Pipeline D) (past : List (WorkResult D))
      → Good window total p past
      → p.in_flight ≡ []
      → p.scheduled ≤ p.aggregator.released
  nothing_out window total p past g e = elim (Bool-cases (ltb p.aggregator.released p.scheduled)) [
    | inl more ↦
        let m : ℕ = p.aggregator.next_expected in
        let le : m ≤ p.scheduled = ground (arith, g.inv.released) in
        let (rest, pick) =
          g.missing m (g.inv.next_pos, le, next-missing past p.aggregator g.inv g.drained) in
        omega (arith, Pick-length pick, ap length e)
    | inr less ↦ ground arith
  ]

  released-le :
      (window total : ℕ) (p : Pipeline D) (past : List (WorkResult D))
      → Good window total p past
      → p.aggregator.released ≤ p.scheduled
  released-le window total p past g =
      let r : ℕ = p.aggregator.released in ground (arith, g.inv.released, g.inv.sent r, g.arrived r)

  end :
      (window total n : ℕ) (p : Pipeline D) (past : List (WorkResult D))
      → Good window total p past
      → n + length p.in_flight ≡ 2 * p.scheduled
      → n ≡ 2 * total
      → p.aggregator.released ≡ total
  end window total n p past g count e =
      let none_out : p.in_flight ≡ [] = length-zero p.in_flight (omega (arith, g.bounded)) in
      omega (
        arith,
        g.bounded,
        released-le window total p past g,
        nothing_out window total p past g none_out,
        ap length none_out,
      )

  -- With a window of at least one slot: what was emitted after a run of `n` steps has the record
  -- numbers 1, 2, … in order, one for each released slot; `n` is at most twice the number of records;
  -- and when it is that number, a slot was released for each record.
  pub Reach-output :
      {window total n : ℕ} {p : Pipeline D}
      → 0 < window
      → Reach window total (start D) n p
      → (map (λ r. r.record_num) p.aggregator.output ≡ up_from 1 p.aggregator.released)
        × (n ≤ 2 * total)
        × (n ≡ 2 * total → p.aggregator.released ≡ total)
  Reach-output {window} {total} {n} {p} h run =
      let (past, g) = Reach-Good h run in
      let count = steps_count run in
      let ra : ResultAggregator D = p.aggregator in
      let same : ra.next_expected - 1 ≡ ra.released = omega (arith, g.inv.released) in
      (
        ap (map (λ r. r.record_num)) g.inv.output
            ∙ map-gather (ra.next_expected - 1) 1 past
                (λ j a b. g.inv.sent j a (omega (arith, g.inv.next_pos)))
            ∙ ap (up_from 1) same,
        omega (arith, g.bounded, count),
        end window total n p past g count,
      )
