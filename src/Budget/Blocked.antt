-- ===== src/Budget/Blocked.antt =====
-- Once the removal of a staged file has failed, nothing more is admitted, and nobody waits.
use sumpter.Base.{ℕ, ◌≤◌, ◌≡◌, refl, Bool, true, false, List, length, map, arith, if◌then◌else◌}
use sumpter.Base.Int.{ℤ, pos}
use sumpter.Base.Members.{All, All-Pick, All-map, Pick-length}
use sumpter.Budget.{
  StagingBudget, refused, canceled, cleanup_failed, admit_round, release, note_cleanup_failure,
  note_retry,
}
use sumpter.Budget.System.{
  Waiter, System, wake, Step, arrive, grant, refuse, sleep, free, cleanup_failure, retry, cancel,
  callback, Reach, stop, next,
}

-- A round of a budget that refuses, for any context and any size
refused-round :
    (b : StagingBudget) (d : Bool) (size : ℤ)
    → b.admit_blocked ≡ true
    → admit_round b d size ≡ refused (if d then canceled else cleanup_failed)
unfolding admit_round
refused-round b true size h = refl
refused-round b false size h = rw (admit_round, h) refl

-- The budget refuses, every call is awake, and no more objects are held.
record IsClosed (held : List ℕ) (s : System) : Type 0 where
  blocked : s.budget.admit_blocked ≡ true
  awake : All (λ (w : Waiter). w.asleep ≡ false) s.waiters
  fewer : length s.held ≤ length held

wake_again :
    (ws : List Waiter)
    → All (λ (w : Waiter). w.asleep ≡ false) ws
    → All (λ (w : Waiter). w.asleep ≡ false) (map wake ws)
wake_again ws h = All-map (λ w. w.asleep ≡ false) (λ w. w.asleep ≡ false) wake (λ w e. refl) ws h

Step-IsClosed : {held : List ℕ} {s t : System} → Step s t → IsClosed held s → IsClosed held t
unfolding release note_cleanup_failure note_retry
Step-IsClosed (arrive n d e) i = record {
  blocked = i.blocked;
  awake = (refl, i.awake);
  fewer = i.fewer;
}
Step-IsClosed (grant {b} {w = w} p a e) i = cc (refused-round b w.done (pos w.size) i.blocked, e)
Step-IsClosed (refuse p a e) i = record {
  blocked = i.blocked;
  awake = (All-Pick (λ w. w.asleep ≡ false) p i.awake).1;
  fewer = i.fewer;
}
Step-IsClosed (sleep {b} {w = w} p a e) i = cc (refused-round b w.done (pos w.size) i.blocked, e)
Step-IsClosed (free {ws = ws} p) i = record {
  blocked = i.blocked;
  awake = wake_again ws i.awake;
  fewer = omega (arith, i.fewer, Pick-length p);
}
Step-IsClosed (cleanup_failure {ws = ws}) i = record {
  blocked = refl;
  awake = wake_again ws i.awake;
  fewer = i.fewer;
}
Step-IsClosed (retry true) i = record { blocked = i.blocked; awake = i.awake; fewer = i.fewer }
Step-IsClosed (retry false) i = record { blocked = i.blocked; awake = i.awake; fewer = i.fewer }
Step-IsClosed (cancel p d) i =
    let (e, rest) = All-Pick (λ w. w.asleep ≡ false) p i.awake in
    record { blocked = i.blocked; awake = (e, rest); fewer = i.fewer }
Step-IsClosed (callback {ws' = ws'} p d) i =
    let (e, rest) = All-Pick (λ w. w.asleep ≡ false) p i.awake in
    record { blocked = i.blocked; awake = (refl, wake_again ws' rest); fewer = i.fewer }

-- The state after a failed removal: what NoteCleanupFailure does, and its broadcast
abbrev pub failing : System → System
failing s = record s { budget = note_cleanup_failure s.budget; waiters = map wake s.waiters }

wake_first : (ws : List Waiter) → All (λ (w : Waiter). w.asleep ≡ false) (map wake ws)
wake_first List.[] = tt
wake_first (List.◌∷◌ w ws) = (refl, wake_first ws)

Reach-IsClosed : (s : System) {t : System} → Reach (failing s) t → IsClosed s.held t
unfolding note_cleanup_failure
Reach-IsClosed s stop = record { blocked = refl; awake = wake_first s.waiters; fewer = omega arith }
Reach-IsClosed s (next r st) = Step-IsClosed st (Reach-IsClosed s r)

-- Whatever the state is in which a cleanup fails, and whatever happens later: every call in Admit is
-- awake, the next round of each, and of every call to come, returns an error, that of its context
-- where it has ended and else that of the failed cleanup, and no more objects are held than before.
pub Reach-blocked :
    (s : System) {t : System}
    → Reach (failing s) t
    → All (λ (w : Waiter). w.asleep ≡ false) t.waiters
      × ((done : Bool) (size : ℤ)
          → admit_round t.budget done size ≡ refused (if done then canceled else cleanup_failed))
      × (length t.held ≤ length s.held)
Reach-blocked s {t} r =
    let i = Reach-IsClosed s r in
    (i.awake, (λ d size. refused-round t.budget d size i.blocked), i.fewer)
