-- ===== src/Streaming/Sticky.antt =====
-- An error of the scanner stays.
use sumpter.Base.{
  ℕ, zero, suc, ◌+◌, ◌≡◌, refl, ap, ◌∙◌, Option, none, some, List, [], ◌∷◌, replicate, arith, inl,
  inr, Option-cases, if-elim,
}
use sumpter.Dsl.{Text}
use sumpter.Streaming.{
  Token, start_element, end_element, char_data, comment, proc_inst, directive, RecordScanner,
  ScanError, eof, unexpected_eof, bad_token, bad_record, bad_selector, Outcome, stopped, next,
  next_loop, calls, finish_record, no_token, ends_record, record_xml, keep_token, close_element,
}

module _ (encode : List Token → Option Text) where
  abbrev KeepsErrors : Outcome × RecordScanner → Type 0
  KeepsErrors r = (e : ScanError) → r.0 ≡ stopped e → r.1.err ≡ some e

  no_token-KeepsErrors : (e : ScanError) (s : RecordScanner) → KeepsErrors (no_token encode e s)
  no_token-KeepsErrors eof s x h = ground arith
  no_token-KeepsErrors unexpected_eof s x h = ground arith
  no_token-KeepsErrors bad_token s x h = ground arith
  no_token-KeepsErrors bad_record s x h = ground arith
  no_token-KeepsErrors bad_selector s x h = ground arith

  finish_record-KeepsErrors :
      (start : ℕ) (raw : Option Text) (s : RecordScanner) → KeepsErrors (finish_record start raw s)
  finish_record-KeepsErrors start none s e h = ground arith
  finish_record-KeepsErrors start (some raw) s e h = ground arith

  next_loop-KeepsErrors :
      (tokens : List (Token × ℕ)) (start : ℕ) (s : RecordScanner)
      → KeepsErrors (next_loop encode tokens start s)
  unfolding next_loop
  next_loop-KeepsErrors [] start s = no_token-KeepsErrors s.token_error s
  next_loop-KeepsErrors ((start_element name attrs, w) ∷ tokens) start s =
      next_loop-KeepsErrors tokens _ _
  next_loop-KeepsErrors ((end_element name, w) ∷ tokens) start s =
      let s' : RecordScanner =
        keep_token (end_element name) (record s { tokens = tokens; offset = s.offset + w }) in
      if-elim {x = finish_record start (record_xml encode s') s'}
        {y = next_loop encode tokens start (close_element s')} KeepsErrors (ends_record s')
        (λ _. finish_record-KeepsErrors start (record_xml encode s') s')
        (λ _. next_loop-KeepsErrors tokens start (close_element s'))
  next_loop-KeepsErrors ((char_data t, w) ∷ tokens) start s = next_loop-KeepsErrors tokens start _
  next_loop-KeepsErrors ((comment t, w) ∷ tokens) start s = next_loop-KeepsErrors tokens start _
  next_loop-KeepsErrors ((proc_inst t u, w) ∷ tokens) start s = next_loop-KeepsErrors tokens start _
  next_loop-KeepsErrors ((directive t, w) ∷ tokens) start s = next_loop-KeepsErrors tokens start _

  next-KeepsErrors : (s : RecordScanner) → KeepsErrors (next encode s)
  unfolding next
  next-KeepsErrors s = elim (Option-cases s.err) [
    | inl fine ↦ simp (next, fine) (next_loop-KeepsErrors s.tokens 0 _)
    | inr (x, had) ↦ λ e h.
        let same : next encode s ≡ (stopped x, s) = simp (next, had) refl in
        let is : x ≡ e = ground (arith, same, h) in
        ap (λ (r : Outcome × RecordScanner). r.1.err) same ∙ had ∙ ap some is
  ]

  calls-stopped :
      (n : ℕ) (s : RecordScanner) (e : ScanError)
      → s.err ≡ some e
      → calls encode n s ≡ replicate n (stopped e)
  unfolding calls next
  calls-stopped zero s e h = refl
  calls-stopped (suc n) s e h =
      let again : next encode s ≡ (stopped e, s) = simp (next, h) refl in
      ap (λ (r : Outcome × RecordScanner). r.0 ∷ calls encode n r.1) again
      ∙ ap (λ x. stopped e ∷ x) (calls-stopped n s e h)

-- Whatever the tokens are, of a document or not: once a call of Next returns an error, io.EOF
-- included, all later calls return the same one.
pub next-stopped :
    (encode : List Token → Option Text) (s : RecordScanner) (e : ScanError) (n : ℕ)
    → (next encode s).0 ≡ stopped e
    → calls encode n (next encode s).1 ≡ replicate n (stopped e)
next-stopped encode s e n h =
    calls-stopped encode n (next encode s).1 e (next-KeepsErrors encode s e h)
