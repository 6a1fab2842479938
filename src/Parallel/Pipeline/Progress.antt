-- ===== src/Parallel/Pipeline/Progress.antt =====
-- What every state of the pipeline satisfies, with the results that have arrived.
use sumpter.Base.{
  ℕ, suc, ◌+◌, ◌-◌, ◌≤◌, ◌<◌, ◌≡◌, ◌≢◌, refl, inl, inr, none, some, List, [], ◌∷◌, ◌++◌, arith,
  ◌==◌, if◌then◌else◌, Bool-cases,
}
use sumpter.Base.Members.{
  All, All-Pick, All-mono, All-and, IsDistinct, IsDistinct-Pick, Pick, here, there, Pick-other,
}
use sumpter.Parallel.{WorkResult}
use sumpter.Parallel.Aggregator.{ResultAggregator, new_result_aggregator, find, add}
use sumpter.Parallel.Aggregator.Find.{find-append}
use sumpter.Parallel.Aggregator.Order.{Inv, add-Inv, add-drained, find-one, new-Inv}
use sumpter.Parallel.Pipeline.{Pipeline, Step, schedule, deliver, start, Reach, stop, next}

module _ {D : Type 0} where
  -- The number was given out and its result is still to come.
  abbrev pub IsOut : ℕ → List (WorkResult D) → ℕ → Type 0
  IsOut k past j = (0 < j) × (j ≤ k) × (find j past ≡ none)

  -- What has arrived, and what the aggregator and the records in flight have to do with it.
  pub record Good (window total : ℕ) (p : Pipeline D) (past : List (WorkResult D)) : Type 0 where
    pub inv : Inv past p.aggregator
    pub drained : find p.aggregator.next_expected p.aggregator.results ≡ none
    pub flying : All (IsOut p.scheduled past) p.in_flight
    pub distinct : IsDistinct p.in_flight
    pub missing : (j : ℕ) → IsOut p.scheduled past j → (rest : List ℕ) × Pick j p.in_flight rest
    pub arrived : (j : ℕ) → p.scheduled < j → find j past ≡ none
    pub ahead : p.scheduled < p.aggregator.next_expected + window
    pub bounded : p.scheduled ≤ total

  find-snoc :
      (j : ℕ) (past : List (WorkResult D)) (r : WorkResult D)
      → find j past ≡ none
      → find j (past ++ r ∷ []) ≡ (if r.record_num == j then some r else none)
  find-snoc j past r e = ground (arith, find-append j past (r ∷ []), find-one j r)

  -- The number that comes next has not arrived.
  pub next-missing :
      (past : List (WorkResult D)) (ra : ResultAggregator D)
      → Inv past ra
      → find ra.next_expected ra.results ≡ none
      → find ra.next_expected past ≡ none
  next-missing past ra i e = ground (arith, i.left ra.next_expected)

  next_expected_mono :
      (past : List (WorkResult D)) (r : WorkResult D) (ra ra' : ResultAggregator D)
      → Inv past ra
      → Inv (past ++ r ∷ []) ra'
      → find ra'.next_expected ra'.results ≡ none
      → ra.next_expected ≤ ra'.next_expected
  next_expected_mono past r ra ra' i i' e = ground (
    arith,
    next-missing (past ++ r ∷ []) ra' i' e,
    i.sent ra'.next_expected,
    i'.next_pos,
    find-append ra'.next_expected past (r ∷ []),
  )

  IsOut-other :
      (k : ℕ) (past : List (WorkResult D)) (r : WorkResult D) (j : ℕ)
      → IsOut k past j × (j ≢ r.record_num)
      → IsOut k (past ++ r ∷ []) j
  IsOut-other k past r j (o, ne) = (o.0, o.1, ground (arith, find-snoc j past r o.2))

  IsOut-before :
      (k : ℕ) (past : List (WorkResult D)) (r : WorkResult D) (j : ℕ)
      → IsOut k (past ++ r ∷ []) j
      → IsOut k past j × (j ≢ r.record_num)
  IsOut-before k past r j (p, q, e) = (
    (p, q, ground (arith, find-append j past (r ∷ []))),
    ground (arith, find-append j past (r ∷ []), find-one j r),
  )

  deliver-Good :
      (window total k : ℕ) (fl fl' : List ℕ) (ra : ResultAggregator D) (past : List (WorkResult D))
      (r : WorkResult D)
      → Pick r.record_num fl fl'
      → Good window total (record { scheduled = k; in_flight = fl; aggregator = ra }) past
      → Good window total
          (record { scheduled = k; in_flight = fl'; aggregator = add ra r })
          (past ++ r ∷ [])
  deliver-Good window total k fl fl' ra past r pick g =
      let ((p, q, fresh), rest) = All-Pick (IsOut k past) pick g.flying in
      let (others, distinct') = IsDistinct-Pick pick g.distinct in
      let i' = add-Inv past ra r p fresh g.inv in
      let e' = add-drained past ra r p fresh g.inv in
      record {
        inv = i';
        drained = e';
        flying =
            All-mono (λ j. IsOut k past j × (j ≢ r.record_num)) (IsOut k (past ++ r ∷ []))
              (IsOut-other k past r) fl'
              (All-and (IsOut k past) (λ j. j ≢ r.record_num) fl' rest others);
        distinct = distinct';
        missing = λ j o.
            let (o', ne) = IsOut-before k past r j o in
            let (rest', pick') = g.missing j o' in Pick-other pick' pick ne;
        arrived = λ j h. ground (arith, find-snoc j past r (g.arrived j h));
        ahead = omega (arith, g.ahead, next_expected_mono past r ra (add ra r) g.inv i' e');
        bounded = g.bounded;
      }

  schedule-missing :
      (k : ℕ) (fl : List ℕ) (past : List (WorkResult D))
      → ((j : ℕ) → IsOut k past j → (rest : List ℕ) × Pick j fl rest)
      → (j : ℕ) → IsOut (suc k) past j
      → (rest : List ℕ) × Pick j (suc k ∷ fl) rest
  schedule-missing k fl past h j (p, q, e) = elim (Bool-cases (j == suc k)) [
    | inl same ↦ let at : j ≡ suc k = ground arith in rw at (fl, here)
    | inr other ↦ let (rest, pick) = h j (p, ground arith, e) in (suc k ∷ rest, there pick)
  ]

  schedule-Good :
      (window total k : ℕ) (fl : List ℕ) (ra : ResultAggregator D) (past : List (WorkResult D))
      → k < total
      → k - ra.released < window
      → Good window total (record { scheduled = k; in_flight = fl; aggregator = ra }) past
      → Good window total
          (record { scheduled = suc k; in_flight = suc k ∷ fl; aggregator = ra })
          past
  schedule-Good window total k fl ra past h room g = record {
    inv = g.inv;
    drained = g.drained;
    flying = (
      (omega arith, omega arith, g.arrived (suc k) (omega arith)),
      All-mono (IsOut k past) (IsOut (suc k) past) (λ j o. (o.0, omega (arith, o.1), o.2)) fl
          g.flying,
    );
    distinct = (
      All-mono (IsOut k past) (λ j. j ≢ suc k) (λ j o e. omega (arith, o.1)) fl g.flying,
      g.distinct,
    );
    missing = schedule-missing k fl past g.missing;
    arrived = λ j a. g.arrived j (omega arith);
    ahead = omega (arith, g.inv.released);
    bounded = omega arith;
  }

  start-Good : (window total : ℕ) → 0 < window → Good window total (start D) []
  unfolding start new_result_aggregator find
  start-Good window total h = record {
    inv = new-Inv;
    drained = refl;
    flying = tt;
    distinct = tt;
    missing = λ j o. absurd (omega (arith, o.0, o.1));
    arrived = λ j a. refl;
    ahead = omega arith;
    bounded = omega arith;
  }

  Step-Good :
      (window total : ℕ) (s t : Pipeline D) (past : List (WorkResult D))
      → Step window total s t
      → Good window total s past
      → (past' : List (WorkResult D)) × Good window total t past'
  Step-Good window total _ _ past (schedule {k} {fl} {ra} h room) g =
      (past, schedule-Good window total k fl ra past h room g)
  Step-Good window total _ _ past (deliver {k} {fl} {fl'} {ra} r pick) g =
      (past ++ r ∷ [], deliver-Good window total k fl fl' ra past r pick g)

  pub Reach-Good :
      {window total n : ℕ} {p : Pipeline D}
      → 0 < window
      → Reach window total (start D) n p
      → (past : List (WorkResult D)) × Good window total p past
  Reach-Good {window} {total} h stop = ([], start-Good window total h)
  Reach-Good {window} {total} h (next {n} {t} {u} run step) =
      let (past, g) = Reach-Good h run in Step-Good window total t u past step g
