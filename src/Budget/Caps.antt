-- ===== src/Budget/Caps.antt =====
-- One step at a time: what the methods do to counters that count the held objects.
use sumpter.Base.{
  ℕ, suc, ◌+◌, ◌-◌, ◌^◌, ◌≤◌, ◌<◌, ◌≡◌, refl, ap, ◌∙◌, Bool, true, false, ◌&&◌, none, List, [], ◌∷◌,
  length, arith, ltb, leb, if◌then◌else◌, &&-eq-true,
}
use sumpter.Base.Int.{ℤ, pos, add64, sub64, add64-pos, sub64-pos}
use sumpter.Base.Members.{Pick, Pick-length, here, there}
use sumpter.Budget.{
  StagingBudget, clamp_size, check_size, granted, refused, waits, cleanup_failed, raise_peak,
  reserve, admit_round, release, note_cleanup_failure, note_retry,
}

abbrev pub sum : List ℕ → ℕ
sum [] = 0
sum (x ∷ xs) = x + sum xs

pub Pick-sum : {n : ℕ} {xs ys : List ℕ} → Pick n xs ys → sum xs ≡ n + sum ys
Pick-sum here = refl
Pick-sum (there p) = omega (arith, Pick-sum p)

-- The counters count the held objects, within the caps, and the peaks stand above them.
pub record Counts (cap fcap : ℕ) (b : StagingBudget) (held : List ℕ) : Type 0 where
  pub bytes_cap : b.max_bytes ≡ pos cap
  pub files_cap : b.max_files ≡ pos fcap
  pub bytes : b.used_bytes ≡ pos (sum held)
  pub files : b.used_files ≡ pos (length held)
  pub bytes_le : sum held ≤ cap
  pub files_le : length held ≤ fcap
  pub peak : (p : ℕ) × (b.peak_bytes ≡ pos p) × (sum held ≤ p) × (p ≤ cap)
  pub peak_count : (p : ℕ) × (b.peak_files ≡ pos p) × (length held ≤ p) × (p ≤ fcap)

abbrev pub has_room : ℕ → ℕ → List ℕ → ℕ → Bool
has_room cap fcap held n = ltb (length held) fcap && leb (sum held + n) cap

raise_peak-pos :
    (u : ℕ) {v : ℤ} {p c : ℕ}
    → v ≡ pos p
    → p ≤ c
    → u ≤ c
    → (q : ℕ) × (raise_peak (pos u) v ≡ pos q) × (u ≤ q) × (q ≤ c)
unfolding raise_peak
raise_peak-pos u {p = p} e h h' =
    ((if ltb p u then u else p), rw e (ground arith), ground arith, ground arith)

clamp_size-pos : (n : ℕ) → clamp_size (pos n) ≡ pos n
unfolding clamp_size
clamp_size-pos n = ground arith

clamp_size-sub64 : (m n : ℕ) → n ≤ m → m < 2 ^ 63 → clamp_size (sub64 (pos m) (pos n)) ≡ pos (m - n)
clamp_size-sub64 m n h h' = rw (sub64-pos m n h h') (clamp_size-pos (m - n))

module _ {cap fcap : ℕ} {b : StagingBudget} {held : List ℕ} (cap_pos : 0 < cap)
    (cap_small : cap < 2 ^ 62) (fcap_pos : 0 < fcap) (fcap_small : fcap < 2 ^ 63)
    (k : Counts cap fcap b held) where
  -- A round of a call whose context is not done, on counters that count.
  pub admit_round-Counts :
      (n : ℕ)
      → n ≤ cap
      → admit_round b false (pos n) ≡ (
          if b.admit_blocked
          then refused cleanup_failed
          else if has_room cap fcap held n
          then granted (reserve b (pos n))
          else waits)
  unfolding admit_round
  admit_round-Counts n h =
      rw
        (
          k.bytes_cap,
          k.files_cap,
          k.bytes,
          k.files,
          add64-pos (sum held) n (omega (arith, k.bytes_le)),
        )
        (ground arith)

  pub check_size-le : (n : ℕ) → check_size b (pos n) ≡ none → n ≤ cap
  unfolding check_size
  check_size-le n h = ground (arith, k.bytes_cap)

  pub reserve-Counts :
      (n : ℕ) → has_room cap fcap held n ≡ true → Counts cap fcap (reserve b (pos n)) (n ∷ held)
  unfolding reserve
  reserve-Counts n h =
      let (h1, h2) = &&-eq-true (ltb (length held) fcap) (leb (sum held + n) cap) h in
      let few : suc (length held) ≤ fcap = ground arith in
      let fits : n + sum held ≤ cap = ground arith in
      let bytes : add64 b.used_bytes (pos n) ≡ pos (n + sum held) =
        rw k.bytes (add64-pos (sum held) n (omega arith) ∙ ap pos (omega arith)) in
      let files : add64 b.used_files (pos 1) ≡ pos (suc (length held)) =
        rw k.files (add64-pos (length held) 1 (omega arith) ∙ ap pos (omega arith)) in
      let (p, pe, pl, pc) = k.peak in
      let (q, qe, ql, qc) = k.peak_count in
      record {
        bytes_cap = k.bytes_cap;
        files_cap = k.files_cap;
        bytes = bytes;
        files = files;
        bytes_le = fits;
        files_le = few;
        peak = rw bytes (raise_peak-pos (n + sum held) pe pc fits);
        peak_count = rw files (raise_peak-pos (suc (length held)) qe qc few);
      }

  pub release-Counts :
      {n : ℕ} {held' : List ℕ} → Pick n held held' → Counts cap fcap (release b (pos n)) held'
  unfolding release
  release-Counts {n} {held'} r =
      let s : sum held ≡ n + sum held' = Pick-sum r in
      let l : length held ≡ suc (length held') = Pick-length r in
      let (p, pe, pl, pc) = k.peak in
      let (q, qe, ql, qc) = k.peak_count in
      record {
        bytes_cap = k.bytes_cap;
        files_cap = k.files_cap;
        bytes =
            rw (k.bytes, clamp_size-pos n)
              (clamp_size-sub64 (sum held) n (omega arith) (omega (arith, k.bytes_le))
                ∙ ap pos (omega arith));
        files = rw k.files (
            clamp_size-sub64 (length held) 1 (omega arith) (omega (arith, k.files_le))
            ∙ ap pos (omega arith));
        bytes_le = omega (arith, k.bytes_le);
        files_le = omega (arith, k.files_le);
        peak = (p, pe, omega arith, pc);
        peak_count = (q, qe, omega arith, qc);
      }

pub note_cleanup_failure-Counts :
    {cap fcap : ℕ} {b : StagingBudget} {held : List ℕ}
    → Counts cap fcap b held
    → Counts cap fcap (note_cleanup_failure b) held
unfolding note_cleanup_failure
note_cleanup_failure-Counts k = record {
  bytes_cap = k.bytes_cap;
  files_cap = k.files_cap;
  bytes = k.bytes;
  files = k.files;
  bytes_le = k.bytes_le;
  files_le = k.files_le;
  peak = k.peak;
  peak_count = k.peak_count;
}

pub note_retry-Counts :
    {cap fcap : ℕ} {b : StagingBudget} {held : List ℕ} (t : Bool)
    → Counts cap fcap b held
    → Counts cap fcap (note_retry b t) held
unfolding note_retry
note_retry-Counts true k = record {
  bytes_cap = k.bytes_cap;
  files_cap = k.files_cap;
  bytes = k.bytes;
  files = k.files;
  bytes_le = k.bytes_le;
  files_le = k.files_le;
  peak = k.peak;
  peak_count = k.peak_count;
}
note_retry-Counts false k = record {
  bytes_cap = k.bytes_cap;
  files_cap = k.files_cap;
  bytes = k.bytes;
  files = k.files;
  bytes_le = k.bytes_le;
  files_le = k.files_le;
  peak = k.peak;
  peak_count = k.peak_count;
}
