-- ===== src/Parallel/Scheduler/ZeroBased.antt =====
-- An index whose records are numbered from 0: the first two get one number.
use mathlib.Core.List.{append_assoc, append-nil}
use sumpter.Base.{ℕ, suc, ◌+◌, ◌≡◌, refl, sym, ap, ◌∙◌, List, [], ◌∷◌, ◌++◌, length}
use sumpter.Base.Int.{pos}
use sumpter.Parallel.Scheduler.{
  Item, record_item, read_error, Interrupt, go_on, Options, Scheduling, start_scheduling,
  record_number, schedule_round, schedule_work,
}
use sumpter.Parallel.Scheduler.Rounds.{numbers, record_round, go_on-again}
use sumpter.Parallel.Scheduler.Numbers.{up_from}

-- The entries are records numbered k, k + 1, ..., and no round is interrupted.
abbrev pub IsNumberedFrom : ℕ → List (Item × Interrupt) → Type 0
IsNumberedFrom k [] = Unit
IsNumberedFrom k ((read_error, cut) ∷ rest) = ⊥
IsNumberedFrom k ((record_item r, cut) ∷ rest) =
    (r.record_num ≡ pos k) × (cut ≡ go_on) × IsNumberedFrom (suc k) rest

module _ {D : Type 0} where
  -- One round at a record whose number is used.
  numbered_round :
      (opts : Options) (item : Item) (rest : List (Item × Interrupt)) (k : ℕ) (st : Scheduling D)
      → IsNumberedFrom k ((item, go_on) ∷ rest)
      → numbers (schedule_round opts go_on item st).0
        ≡ numbers st ++ record_number (pos k) (st.local_counter + 1) ∷ []
  numbered_round opts read_error rest k st h = elim h [ ]
  numbered_round opts (record_item r) rest k st h =
      (rw (go_on-again opts (record_item r) st) at ((record_round opts go_on r st).0))
      ∙ ap (λ z. numbers st ++ record_number z (st.local_counter + 1) ∷ []) h.0

  schedule_work-numbered :
      (opts : Options) (items : List (Item × Interrupt)) (k : ℕ) (st : Scheduling D)
      → IsNumberedFrom (suc k) items
      → numbers (schedule_work opts items st) ≡ numbers st ++ up_from (suc k) (length items)
  unfolding schedule_work record_number
  schedule_work-numbered opts [] k st h = sym (append-nil _)
  schedule_work-numbered opts ((read_error, cut) ∷ rest) k st h = elim h [ ]
  schedule_work-numbered opts ((record_item r, cut) ∷ rest) k st h =
      rw (h.1, go_on-again opts (record_item r) st)
        (schedule_work-numbered opts rest (suc k) (schedule_round opts go_on (record_item r) st).0
            h.2
          ∙ ap (λ x. x ++ up_from (suc (suc k)) (length rest))
              (numbered_round opts (record_item r) rest (suc k) st (h.0, refl, h.2))
          ∙ append_assoc (numbers st) (suc k ∷ []) _)

-- For a non-empty index whose records are numbered from 0, read with no interrupt: the numbers sent
-- are 1 and then 1, 2, 3, ..., so the first two records share the number 1.
pub zero_based-numbers :
    (D : Type 0) (opts : Options) (first : Item × Interrupt) (items : List (Item × Interrupt))
    → IsNumberedFrom 0 (first ∷ items)
    → numbers (schedule_work opts (first ∷ items) (start_scheduling D))
      ≡ 1 ∷ up_from 1 (length items)
unfolding schedule_work record_number start_scheduling
zero_based-numbers D opts (read_error, cut) items h = elim h [ ]
zero_based-numbers D opts (record_item r, cut) items h =
    rw (h.1, go_on-again opts (record_item r) (start_scheduling D))
      (schedule_work-numbered opts items 0
          (schedule_round opts go_on (record_item r) (start_scheduling D)).0 h.2
        ∙ ap (λ x. x ++ up_from 1 (length items))
            (numbered_round opts (record_item r) items 0 (start_scheduling D) (h.0, refl, h.2)))
