-- ===== src/Parallel/Orchestrator/Sink.antt =====
-- What a sink is given, when it fails and when it does not.
use sumpter.Base.{
  ◌≡◌, refl, ◌∙◌, Bool, true, false, Option, List, [], ◌∷◌, ◌++◌, length, length-append, ◌⊎◌, inl,
  inr, Bool-cases, Option-cases, arith,
}
use mathlib.Core.List.{append_assoc}
use sumpter.Parallel.{WorkResult}
use sumpter.Parallel.Orchestrator.{
  SinkRun, start_run, give, sink_step, sink_results, extract_results,
}

module _ {D : Type 0} (on_record : List (Option D) → Option D → Bool) where
  -- The sink took all records so far, or it took some, and failed on the next one.
  abbrev pub Took : List (Option D) → List (Option D) → SinkRun D → Type 0
  Took all left run =
      (run.record_count ≡ length run.given)
      × (((run.sink_err ≡ false) × (run.given ++ left ≡ all))
          ⊎ ((run.sink_err ≡ true)
              × ((x : Option D) × (rest : List (Option D)) × (run.given ++ x ∷ rest ≡ all)
                  × (on_record run.given x ≡ true))))

  give-Took :
      (all left : List (Option D)) (run : SinkRun D) (x : Option D)
      → Took all (x ∷ left) run
      → Took all left (give on_record run x)
  unfolding give
  give-Took all left run x (count, inr (e, found)) = rw e (count, inr (refl, found))
  give-Took all left run x (count, inl (e, same)) = elim (Bool-cases (on_record run.given x)) [
    | inl fails ↦ rw (e, fails) (count, inr (refl, (x, left, same, fails)))
    | inr takes ↦
        rw (e, takes)
          (
            omega (arith, length-append run.given (x ∷ [])),
            inl (refl, append_assoc run.given (x ∷ []) left ∙ same),
          )
  ]

  sink_step-Took :
      (all : List (Option D)) (rs : List (WorkResult D)) (run : SinkRun D) (r : WorkResult D)
      → Took all (extract_results (r ∷ rs)) run
      → Took all (extract_results rs) (sink_step on_record run r)
  unfolding sink_step extract_results
  sink_step-Took all rs run r t = elim (Bool-cases r.skipped) [
    | inl skip ↦ rw skip (rw skip at t)
    | inr keep ↦ elim (Option-cases r.error) [
      | inl fine ↦
          rw (keep, fine) (give-Took all (extract_results rs) run r.payload (rw (keep, fine) at t))
      | inr (f, e) ↦ rw (keep, e) (rw (keep, e) at t)
    ]
  ]

  sink_results-Took :
      (all : List (Option D)) (rs : List (WorkResult D)) (run : SinkRun D)
      → Took all (extract_results rs) run
      → Took all [] (sink_results on_record run rs)
  unfolding sink_results extract_results
  sink_results-Took all [] run t = t
  sink_results-Took all (r ∷ rs) run t =
      sink_results-Took all rs (sink_step on_record run r) (sink_step-Took all rs run r t)

  -- For every sink and all ordered results: the count is that of the records the sink took, and either
  -- the sink never failed and took exactly the records that `Extract` returns, in that order, or it
  -- failed, the records it took are an initial part of those, and it failed on the one that follows them.
  pub sink_results-prefix :
      (rs : List (WorkResult D))
      → Took (extract_results rs) [] (sink_results on_record (start_run D) rs)
  unfolding start_run
  sink_results-prefix rs =
      sink_results-Took (extract_results rs) rs (start_run D) (refl, inl (refl, refl))
