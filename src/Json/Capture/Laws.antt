-- ===== src/Json/Capture/Laws.antt =====
-- The capture holds the bytes of the input from its base to where the input was read.
use sumpter.Base.{
  ℕ, zero, suc, ◌+◌, ◌-◌, ◌≤◌, ◌<◌, ◌≡◌, refl, sym, ap, ◌∙◌, true, false, ◌||◌, some, [], ◌∷◌, ◌++◌,
  length, take, drop, arith, ltb, leb, inl, inr, Bool-cases, if-elim,
}
use sumpter.Dsl.{Text}
use sumpter.Dsl.Scan.{is_empty}
use sumpter.Json.Capture.{
  CaptureBuf, write, discard_before, slice, value_start, separators, separates, bytes_from,
}

module _ (input : ℕ → ℕ) where
  pub bytes_from-length : (a n : ℕ) → length (bytes_from input a n) ≡ n
  bytes_from-length a zero = refl
  bytes_from-length a (suc n) = ap suc (bytes_from-length (a + 1) n)

  bytes_from-append :
      (a n m : ℕ) → bytes_from input a n ++ bytes_from input (a + n) m ≡ bytes_from input a (n + m)
  bytes_from-append a zero m =
      let e : a + 0 ≡ a = omega arith in let f : 0 + m ≡ m = omega arith in rw (e, f) refl
  bytes_from-append a (suc n) m =
      let e : a + suc n ≡ a + 1 + n = omega arith in
      let f : suc n + m ≡ suc (n + m) = omega arith in
      rw (e, f) (ap (λ x. input a ∷ x) (bytes_from-append (a + 1) n m))

  pub drop-bytes_from :
      (k a n : ℕ) → drop k (bytes_from input a n) ≡ bytes_from input (a + k) (n - k)
  drop-bytes_from zero a n =
      let e : a + 0 ≡ a = omega arith in let f : n - 0 ≡ n = omega arith in rw (e, f) refl
  drop-bytes_from (suc k) a zero = let f : 0 - suc k ≡ 0 = omega arith in rw f refl
  drop-bytes_from (suc k) a (suc n) =
      let e : a + 1 + k ≡ a + suc k = omega arith in
      let f : suc n - suc k ≡ n - k = omega arith in drop-bytes_from k (a + 1) n ∙ rw (e, f) refl

  pub take-bytes_from : (k a n : ℕ) → k ≤ n → take k (bytes_from input a n) ≡ bytes_from input a k
  take-bytes_from zero a n h = refl
  take-bytes_from (suc k) a zero h = absurd (omega arith)
  take-bytes_from (suc k) a (suc n) h =
      ap (λ x. input a ∷ x) (take-bytes_from k (a + 1) n (omega arith))

  -- The bytes from the base to `off` are there.
  abbrev pub Holds : CaptureBuf → ℕ → Type 0
  Holds c off = (c.base ≤ off) × (c.buf ≡ bytes_from input c.base (off - c.base))

  pub write-empty :
      (c : CaptureBuf) (off to : ℕ)
      → off ≤ to
      → c.buf ≡ []
      → Holds (write c (bytes_from input off (to - off)) off) to
  unfolding write
  write-empty c off to le e = simp (write, e) (le, refl)

  write-more :
      (c : CaptureBuf) (off to : ℕ)
      → off ≤ to
      → c.base < off
      → c.buf ≡ bytes_from input c.base (off - c.base)
      → Holds (write c (bytes_from input off (to - off)) off) to
  unfolding write
  write-more c off to le b e =
      let n : off - c.base ≡ suc (off - c.base - 1) = omega arith in
      let some_bytes : is_empty c.buf ≡ false = ap is_empty (e ∙ ap (bytes_from input c.base) n) in
      let at : c.base + (off - c.base) ≡ off = omega arith in
      let joined : bytes_from input c.base (off - c.base) ++ bytes_from input off (to - off)
          ≡ bytes_from input c.base (to - c.base) =
        ap (λ x. bytes_from input c.base (off - c.base) ++ bytes_from input x (to - off)) (sym at)
        ∙ bytes_from-append c.base (off - c.base) (to - off)
        ∙ ap (bytes_from input c.base) (omega arith) in
      simp (write, some_bytes)
        (omega arith, ap (λ x. x ++ bytes_from input off (to - off)) e ∙ joined)

  -- Writing the bytes that follow
  pub write-Holds :
      (c : CaptureBuf) (off to : ℕ)
      → off ≤ to
      → Holds c off
      → Holds (write c (bytes_from input off (to - off)) off) to
  write-Holds c off to le (b, e) = elim (Bool-cases (ltb c.base off)) [
    | inl more ↦ write-more c off to le (ground arith) e
    | inr nothing ↦
        let n : off - c.base ≡ 0 = ground arith in
        write-empty c off to le (e ∙ ap (bytes_from input c.base) n)
  ]

  is_empty-length : (s : Text) → is_empty s ≡ true → length s ≡ 0
  is_empty-length [] h = refl
  is_empty-length (b ∷ s) h = cc

  pub write-base :
      (c : CaptureBuf) (p : Text) (off low : ℕ)
      → Holds c off
      → c.base ≤ low
      → (write c p off).base ≤ low
  unfolding write
  write-base c p off low (b, e) h =
      let len : length c.buf ≡ off - c.base =
        ap length e ∙ bytes_from-length c.base (off - c.base) in
      if-elim {x = off} {y = c.base} (λ x. x ≤ low) (is_empty c.buf)
        (λ nothing. omega (arith, len, is_empty-length c.buf nothing)) (λ _. h)

  pub discard_before-Holds :
      (c : CaptureBuf) (off pre : ℕ) → pre ≤ off → Holds c off → Holds (discard_before c pre) off
  unfolding discard_before
  discard_before-Holds c off pre le (b, e) =
      let len : length c.buf ≡ off - c.base =
        ap length e ∙ bytes_from-length c.base (off - c.base) in
      elim (Bool-cases (leb pre c.base)) [
        | inl early ↦ simp (discard_before, early) (b, e)
        | inr late ↦ elim (Bool-cases (leb (length c.buf) (pre - c.base))) [
          | inl all ↦
              let n : off - pre ≡ 0 = ground (arith, len) in
              simp (discard_before, late, all) (le, sym (ap (bytes_from input pre) n))
          | inr part ↦
              let at : c.base + (pre - c.base) ≡ pre = ground arith in
              let left : off - c.base - (pre - c.base) ≡ off - pre = ground arith in
              simp (discard_before, late, part)
                (
                  le,
                  ap (drop (pre - c.base)) e
                      ∙ drop-bytes_from (pre - c.base) c.base (off - c.base)
                      ∙ ap (λ x. bytes_from input x (off - c.base - (pre - c.base))) at
                      ∙ ap (bytes_from input pre) left,
                )
        ]
      ]

  pub discard_before-base :
      (c : CaptureBuf) (pre x : ℕ) → c.base ≤ x → pre ≤ x → (discard_before c pre).base ≤ x
  unfolding discard_before
  discard_before-base c pre x h k = ground arith

  pub slice-Holds :
      (c : CaptureBuf) (off start end : ℕ)
      → Holds c off
      → c.base ≤ start
      → start ≤ end
      → end ≤ off
      → slice c start end ≡ some (bytes_from input start (end - start))
  unfolding slice
  slice-Holds c off start end (b, e) h k l =
      let len : length c.buf ≡ off - c.base =
        ap length e ∙ bytes_from-length c.base (off - c.base) in
      let inside : (ltb start c.base || ltb end start || ltb (c.base + length c.buf) end) ≡ false =
        ground (arith, len) in
      let at : c.base + (start - c.base) ≡ start = omega arith in
      let bytes : take (end - start) (drop (start - c.base) c.buf)
          ≡ bytes_from input start (end - start) =
        ap (λ x. take (end - start) (drop (start - c.base) x)) e
        ∙ ap (take (end - start)) (drop-bytes_from (start - c.base) c.base (off - c.base))
        ∙ ap (λ x. take (end - start) (bytes_from input x (off - c.base - (start - c.base)))) at
        ∙ take-bytes_from (end - start) start (off - c.base - (start - c.base)) (omega arith) in
      simp (slice, inside) (ap some bytes)

  -- The bytes in front of the value separate, and its first one does not.
  abbrev pub Starts : ℕ → ℕ → Type 0
  Starts pre zero = separates (input pre) ≡ false
  Starts pre (suc gap) = (separates (input pre) ≡ true) × Starts (pre + 1) gap

  separators-Starts :
      (pre gap n : ℕ) → gap < n → Starts pre gap → separators (bytes_from input pre n) ≡ some gap
  unfolding separators
  separators-Starts pre gap zero h s = absurd (omega arith)
  separators-Starts pre zero (suc n) h s = rw (separators, s) refl
  separators-Starts pre (suc gap) (suc n) h s =
      rw (separators, s.0, separators-Starts (pre + 1) gap n (omega arith) s.1) refl

  pub value_start-Holds :
      (c : CaptureBuf) (off pre gap : ℕ)
      → Holds c off
      → c.base ≤ pre
      → pre + gap < off
      → Starts pre gap
      → value_start c pre ≡ some (pre + gap)
  unfolding value_start
  value_start-Holds c off pre gap (b, e) h k s =
      let test : ltb pre c.base ≡ false = ground arith in
      let at : c.base + (pre - c.base) ≡ pre = omega arith in
      let left : ℕ = off - c.base - (pre - c.base) in
      let bytes : drop (pre - c.base) c.buf ≡ bytes_from input pre (off - c.base - (pre - c.base)) =
        ap (drop (pre - c.base)) e
        ∙ drop-bytes_from (pre - c.base) c.base (off - c.base)
        ∙ ap (λ x. bytes_from input x (off - c.base - (pre - c.base))) at in
      simp (value_start, test, bytes, separators-Starts pre gap left (omega arith) s) refl
