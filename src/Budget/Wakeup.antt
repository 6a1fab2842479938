-- ===== src/Budget/Wakeup.antt =====
-- The invariant of the goroutines around a budget: the counters are right, and nobody sleeps through
-- a state in which the call could go on.
use mathlib.Core.Bool.{false≢true}
use sumpter.Base.{
  ℕ, ◌^◌, ◌≤◌, ◌<◌, ◌≡◌, refl, sym, ◌∙◌, inl, inr, Bool-cases, Bool, true, false, List, [], ◌∷◌,
  map, arith,
}
use sumpter.Base.Int.{ℤ, pos}
use sumpter.Base.Members.{All, All-Pick, All-map, All-mono, Pick}
use sumpter.Budget.{
  StagingBudget, StagingBudgetConfig, new_staging_budget, granted, refused, waits, canceled,
  reserve, admit_round, release, note_cleanup_failure, note_retry,
}
use sumpter.Budget.System.{
  Waiter, System, wake, Step, arrive, grant, refuse, sleep, free, cleanup_failure, retry, cancel,
  callback, start, Reach, stop, next,
}
use sumpter.Budget.Caps.{
  Counts, has_room, admit_round-Counts, check_size-le, reserve-Counts, release-Counts,
  note_cleanup_failure-Counts, note_retry-Counts,
}

record IsAlert (cap fcap : ℕ) (b : StagingBudget) (held : List ℕ) (w : Waiter) : Type 0 where
  fits : w.size ≤ cap
  stuck : w.asleep ≡ true → (b.admit_blocked ≡ false) × (has_room cap fcap held w.size ≡ false)
  told : w.asleep ≡ true → w.done ≡ true → w.pending ≡ true

record Inv (cap fcap : ℕ) (s : System) : Type 0 where
  counts : Counts cap fcap s.budget s.held
  alert : All (IsAlert cap fcap s.budget s.held) s.waiters

-- Whoever is awake is alert.
awake-IsAlert :
    (cap fcap : ℕ) (b : StagingBudget) (held : List ℕ) (w : Waiter)
    → w.size ≤ cap
    → w.asleep ≡ false
    → IsAlert cap fcap b held w
awake-IsAlert cap fcap b held w h e = ground arith

admit_round-done : (b : StagingBudget) (size : ℤ) → admit_round b true size ≡ refused canceled
unfolding admit_round
admit_round-done b size = refl

module _ (cap fcap : ℕ) (cap_pos : 0 < cap) (cap_small : cap < 2 ^ 62) (fcap_pos : 0 < fcap)
    (fcap_small : fcap < 2 ^ 63) where
  wake-IsAlert :
      (b b' : StagingBudget) (held held' : List ℕ) (ws : List Waiter)
      → All (IsAlert cap fcap b held) ws
      → All (IsAlert cap fcap b' held') (map wake ws)
  wake-IsAlert b b' held held' =
      All-map (IsAlert cap fcap b held) (IsAlert cap fcap b' held') wake
        λ w h. awake-IsAlert cap fcap b' held' (wake w) h.fits refl

  -- A grant leaves those who wait with less room.
  reserve-IsAlert :
      (b : StagingBudget) (held : List ℕ) (n : ℕ) (w : Waiter)
      → IsAlert cap fcap b held w
      → IsAlert cap fcap (reserve b (pos n)) (n ∷ held) w
  unfolding reserve
  reserve-IsAlert b held n w h = record {
    fits = h.fits;
    stuck = λ e. let (h1, h2) = h.stuck e in (h1, ground arith);
    told = h.told;
  }

  note_retry-IsAlert :
      (b : StagingBudget) (held : List ℕ) (t : Bool) (w : Waiter)
      → IsAlert cap fcap b held w
      → IsAlert cap fcap (note_retry b t) held w
  unfolding note_retry
  note_retry-IsAlert b held true w h = record { fits = h.fits; stuck = h.stuck; told = h.told }
  note_retry-IsAlert b held false w h = record { fits = h.fits; stuck = h.stuck; told = h.told }

  room-empty : (n : ℕ) → n ≤ cap → has_room cap fcap [] n ≡ true
  room-empty n h = ground arith

  -- What each outcome of a round says.
  granted-inv :
      {b b' : StagingBudget} {held : List ℕ} (k : Counts cap fcap b held) (d : Bool) (n : ℕ)
      → n ≤ cap
      → admit_round b d (pos n) ≡ granted b'
      → (b.admit_blocked ≡ false) × (has_room cap fcap held n ≡ true) × (b' ≡ reserve b (pos n))
  granted-inv {b} k true n h e = cc (admit_round-done b (pos n))
  granted-inv k false n h e =
      ground (arith, admit_round-Counts cap_pos cap_small fcap_pos fcap_small k n h)

  waits-inv :
      {b : StagingBudget} {held : List ℕ} (k : Counts cap fcap b held) (d : Bool) (n : ℕ)
      → n ≤ cap
      → admit_round b d (pos n) ≡ waits
      → (d ≡ false) × (b.admit_blocked ≡ false) × (has_room cap fcap held n ≡ false)
  waits-inv {b} k true n h e = cc (admit_round-done b (pos n))
  waits-inv k false n h e =
      ground (arith, admit_round-Counts cap_pos cap_small fcap_pos fcap_small k n h)

  Step-Inv : {s t : System} → Step s t → Inv cap fcap s → Inv cap fcap t
  Step-Inv (arrive {b} {held} n d e) i = record {
    counts = i.counts;
    alert = (
      awake-IsAlert cap fcap b held _
          (check_size-le cap_pos cap_small fcap_pos fcap_small i.counts n e) refl,
      i.alert,
    );
  }
  Step-Inv (grant {b} {b'} {held} {ws} {ws'} {w} p a e) i =
      let (hw, rest) = All-Pick (IsAlert cap fcap b held) p i.alert in
      let (open_, room, eq) = granted-inv i.counts w.done w.size hw.fits e in
      rw eq (record {
        counts = reserve-Counts cap_pos cap_small fcap_pos fcap_small i.counts w.size room;
        alert =
            All-mono (IsAlert cap fcap b held)
              (IsAlert cap fcap (reserve b (pos w.size)) (w.size ∷ held))
              (reserve-IsAlert b held w.size) ws' rest;
      })
  Step-Inv (refuse {b} {held} p a e) i = record {
    counts = i.counts;
    alert = (All-Pick (IsAlert cap fcap b held) p i.alert).1;
  }
  Step-Inv (sleep {b} {held} {ws} {ws'} {w} p a e) i =
      let (hw, rest) = All-Pick (IsAlert cap fcap b held) p i.alert in
      let (live, open_, full) = waits-inv i.counts w.done w.size hw.fits e in
      record {
        counts = i.counts;
        alert = (record { fits = hw.fits; stuck = λ _. (open_, full); told = λ _ d. cc }, rest);
      }
  Step-Inv (free {b} {held} {held'} {ws} {n} p) i = record {
    counts = release-Counts cap_pos cap_small fcap_pos fcap_small i.counts p;
    alert = wake-IsAlert b (release b (pos n)) held held' ws i.alert;
  }
  Step-Inv (cleanup_failure {b} {held} {ws}) i = record {
    counts = note_cleanup_failure-Counts i.counts;
    alert = wake-IsAlert b (note_cleanup_failure b) held held ws i.alert;
  }
  Step-Inv (retry {b} {held} {ws} t) i = record {
    counts = note_retry-Counts t i.counts;
    alert =
        All-mono (IsAlert cap fcap b held) (IsAlert cap fcap (note_retry b t) held)
          (λ w h. note_retry-IsAlert b held t w h) ws i.alert;
  }
  Step-Inv (cancel {b} {held} {ws} {ws'} {w} p d) i =
      let (hw, rest) = All-Pick (IsAlert cap fcap b held) p i.alert in
      record {
        counts = i.counts;
        alert = (record { fits = hw.fits; stuck = hw.stuck; told = λ _ _. refl }, rest);
      }
  Step-Inv (callback {b} {held} {ws} {ws'} {w} p d) i =
      let (hw, rest) = All-Pick (IsAlert cap fcap b held) p i.alert in
      record {
        counts = i.counts;
        alert = (awake-IsAlert cap fcap b held _ hw.fits refl, wake-IsAlert b b held held ws' rest);
      }

  Reach-Inv : {s t : System} → Reach s t → Inv cap fcap s → Inv cap fcap t
  Reach-Inv stop i = i
  Reach-Inv (next r st) i = Step-Inv st (Reach-Inv r i)

  module _ (cfg : StagingBudgetConfig) (bytes : cfg.max_bytes ≡ pos cap)
      (files : cfg.max_files ≡ pos fcap) where
    start-Inv : Inv cap fcap (start cfg)
    unfolding new_staging_budget
    start-Inv = record {
      counts = record {
        bytes_cap = bytes;
        files_cap = files;
        bytes = refl;
        files = refl;
        bytes_le = omega arith;
        files_le = omega arith;
        peak = (0, refl, omega arith, omega arith);
        peak_count = (0, refl, omega arith, omega arith);
      };
      alert = tt;
    }

    -- Whatever the goroutines do, and in whatever order, from a new budget with a byte cap below 2^62
    -- and a file cap below 2^63: the counters are the size and the number of the held objects, both
    -- within their caps, and the recorded peaks lie between them and the caps.
    pub Reach-Counts : {s : System} → Reach (start cfg) s → Counts cap fcap s.budget s.held
    Reach-Counts r = (Reach-Inv r start-Inv).counts

    -- No wakeup is lost. From a new budget with a byte cap below 2^62 and a file cap below 2^63, in
    -- every reachable state, a call that sleeps in `cond.Wait` would only wait again if it ran with a
    -- live context; and if its context has ended, the callback that broadcasts is still to run.
    pub Reach-asleep :
        {s : System} {w : Waiter} {ws : List Waiter}
        → Reach (start cfg) s
        → Pick w s.waiters ws
        → w.asleep ≡ true
        → (admit_round s.budget false (pos w.size) ≡ waits) × (w.done ≡ true → w.pending ≡ true)
    Reach-asleep {s} {w} r p a =
        let i = Reach-Inv r start-Inv in
        let (hw, rest) = All-Pick (IsAlert cap fcap s.budget s.held) p i.alert in
        let (open_, full) = hw.stuck a in
        (
          rw (admit_round-Counts cap_pos cap_small fcap_pos fcap_small i.counts w.size hw.fits)
              (rw (open_, full)),
          hw.told a,
        )

    -- From a new budget with positive caps, a byte cap below 2^62 and a file cap below 2^63: in every
    -- reachable state in which nothing is held and no cleanup has failed, every call in `Admit` is
    -- awake, and if its context is live its next round is granted. Nobody is left behind.
    pub Reach-idle :
        {s : System} {w : Waiter} {ws : List Waiter}
        → Reach (start cfg) s
        → s.held ≡ []
        → s.budget.admit_blocked ≡ false
        → Pick w s.waiters ws
        → (w.asleep ≡ false)
          × (admit_round s.budget false (pos w.size) ≡ granted (reserve s.budget (pos w.size)))
    Reach-idle {s} {w} r empty open_ p =
        let i = Reach-Inv r start-Inv in
        let (hw, rest) = All-Pick (IsAlert cap fcap s.budget s.held) p i.alert in
        let room : has_room cap fcap s.held w.size ≡ true = rw empty (room-empty w.size hw.fits) in
        (
          elim (Bool-cases w.asleep) [
            | inl a ↦ absurd (false≢true (sym (hw.stuck a).1 ∙ room))
            | inr e ↦ e
          ],
          rw (admit_round-Counts cap_pos cap_small fcap_pos fcap_small i.counts w.size hw.fits)
              (rw (open_, room)),
        )
