-- ===== src/Streaming/Between.antt =====
-- The scanner between records: one record, or what is no record.
use sumpter.Base.{
  ℕ, zero, suc, ◌+◌, ◌-◌, ◌≡◌, refl, ap, ◌∙◌, Bool, true, false, ◌||◌, Option, some, List, [], ◌∷◌,
  ◌++◌, arith, ◌==◌, if◌then◌else◌, inl, inr, Bool-cases, Option-cases,
}
use sumpter.Dsl.{Text}
use sumpter.Dsl.Text.{eq_text}
use sumpter.TextMap.{TextMap}
use sumpter.Streaming.{
  Attr, Token, start_element, end_element, Record, RecordScanner, ScanError, Outcome, found,
  declare_attributes, top, next_loop, next, calls, current_namespace_context, starts_record,
  ends_record, open_element, serialize_tokens, finish_record, close_element,
}
use sumpter.Streaming.Forest.{
  Forest, Content, text, remark, instruction, declaration, content_token, events, bytes, tokens_of,
  element_tokens, raw_of, is_some,
}
use sumpter.Streaming.Inside.{busy, idle, added, added-added, in_busy, in_busy-events}

cons-eq : {A : Type 0} {x y : A} {xs ys : List A} → x ≡ y → xs ≡ ys → x ∷ xs ≡ y ∷ ys
cons-eq p q = cc

module _ (encode : List Token → Option Text) (size_only : Bool) (name : Text)
    (final : ScanError) where
  -- What is returned from the end of a call on, and what is returned between records
  abbrev pub told : ℕ → Outcome × RecordScanner → List Outcome
  told k r = r.0 ∷ calls encode k r.1

  abbrev pub between : ℕ → List (Token × ℕ) → ℕ → ℕ → ℕ → List (TextMap Text) → List Outcome
  between zero tokens offset d count stack = []
  between (suc k) tokens offset d count stack =
      told k
        (next_loop encode tokens 0 (idle encode size_only name final tokens offset d count stack))

  pub between-content :
      (k : ℕ) (c : Content) (w : ℕ) (tail : List (Token × ℕ)) (offset d count : ℕ)
      (stack : List (TextMap Text))
      → between k ((content_token c, w) ∷ tail) offset d count stack
        ≡ between k tail (offset + w) d count stack
  unfolding next_loop
  between-content zero c w tail offset d count stack = refl
  between-content (suc k) (text t) w tail offset d count stack = refl
  between-content (suc k) (remark t) w tail offset d count stack = refl
  between-content (suc k) (instruction t u) w tail offset d count stack = refl
  between-content (suc k) (declaration t) w tail offset d count stack = refl

  pub between-open :
      (k : ℕ) (n : Text) (attrs : List Attr) (w : ℕ) (tail : List (Token × ℕ)) (offset d count : ℕ)
      (stack : List (TextMap Text))
      → eq_text n name ≡ false
      → between k ((start_element n attrs, w) ∷ tail) offset d count stack
        ≡ between k tail (offset + w) (d + 1) count (declare_attributes (top stack) attrs ∷ stack)
  unfolding next_loop open_element starts_record
  between-open zero n attrs w tail offset d count stack h = refl
  between-open (suc k) n attrs w tail offset d count stack h =
      rw (next_loop, open_element, starts_record, h) refl

  pub between-close :
      (k : ℕ) (n : Text) (w : ℕ) (tail : List (Token × ℕ)) (offset d count : ℕ) (m : TextMap Text)
      (stack : List (TextMap Text))
      → between k ((end_element n, w) ∷ tail) offset (d + 1) count (m ∷ stack)
        ≡ between k tail (offset + w) d count stack
  unfolding next_loop ends_record
  between-close zero n w tail offset d count m stack = refl
  between-close (suc k) n w tail offset d count m stack =
      let b : d + 1 - 1 ≡ d = omega arith in rw (next_loop, ends_record, b) refl

  -- The record of an element
  abbrev pub outer : Text → List Attr → ℕ → Forest → ℕ → TextMap Text → ℕ → ℕ → ℕ → Record
  outer n attrs v children w m depth count offset = record {
    raw = raw_of encode size_only name (element_tokens n attrs children);
    num = count + 1;
    start_offset = offset;
    end_offset = offset + (v + bytes children + w);
    size_bytes = v + bytes children + w;
    depth = depth + 1;
    context = current_namespace_context (declare_attributes m attrs);
  }

  between-start :
      (k : ℕ) (n : Text) (attrs : List Attr) (w : ℕ) (tail : List (Token × ℕ)) (offset d count : ℕ)
      (stack : List (TextMap Text))
      → eq_text n name ≡ true
      → between (suc k) ((start_element n attrs, w) ∷ tail) offset d count stack
        ≡ told k (
            in_busy encode size_only name final offset
              (count + 1)
              (d + 1)
              tail
              (added encode size_only name final [] (start_element n attrs ∷ []))
              (offset + w)
              (d + 1)
              (declare_attributes (top stack) attrs ∷ stack))
  unfolding next_loop open_element starts_record
  between-start k n attrs w tail offset d count stack h =
      rw (next_loop, open_element, starts_record, h) refl

  in_busy-end :
      (start count rd : ℕ) (n : Text) (w : ℕ) (tail : List (Token × ℕ)) (buffer : List Token)
      (offset : ℕ) (m : TextMap Text) (stack : List (TextMap Text))
      → in_busy encode size_only name final start count rd
          ((end_element n, w) ∷ tail)
          buffer
          offset
          rd
          (m ∷ stack)
        ≡ finish_record start
            (if size_only
              then some []
              else serialize_tokens encode
                  (added encode size_only name final buffer (end_element n ∷ [])))
            (busy encode size_only name final count rd tail
              (added encode size_only name final buffer (end_element n ∷ []))
              (offset + w)
              rd
              (m ∷ stack))
  unfolding next_loop ends_record
  in_busy-end start count rd n w tail buffer offset m stack =
      let e : (rd == rd) ≡ true = ground arith in rw (next_loop, ends_record, e) refl

  written-raw :
      (n : Text) (attrs : List Attr) (children : Forest) (buffer : List Token)
      → buffer ≡ added encode size_only name final [] (element_tokens n attrs children)
      → (size_only || is_some encode size_only name (encode (element_tokens n attrs children)))
        ≡ true
      → (if size_only then some [] else serialize_tokens encode buffer)
        ≡ some (raw_of encode size_only name (element_tokens n attrs children))
  unfolding serialize_tokens
  written-raw n attrs children buffer e h = elim (Bool-cases size_only) [
    | inl only ↦ rw only refl
    | inr full ↦ elim (Option-cases (encode (element_tokens n attrs children))) [
      | inl fails ↦ ground (arith, e, full, fails, h)
      | inr (t, writes) ↦ rw (e, full, serialize_tokens, writes) refl
    ]
  ]

  -- The next call starts between records.
  calls-between :
      (k count rd : ℕ) (tail : List (Token × ℕ)) (buffer : List Token) (o p d : ℕ)
      (m : TextMap Text) (stack : List (TextMap Text))
      → o ≡ p
      → calls encode k (
          close_element
            (busy encode size_only name final count rd tail buffer o (d + 1) (m ∷ stack)))
        ≡ between k tail p d count stack
  unfolding calls next
  calls-between zero count rd tail buffer o p d m stack e = refl
  calls-between (suc k) count rd tail buffer o p d m stack e =
      let b : d + 1 - 1 ≡ d = omega arith in rw (calls, next, b, e) refl

  finish_record-outer :
      (n : Text) (attrs : List Attr) (v : ℕ) (children : Forest) (w : ℕ) (tail : List (Token × ℕ))
      (buffer : List Token) (offset d count : ℕ) (stack : List (TextMap Text))
      → (finish_record offset
          (some (raw_of encode size_only name (element_tokens n attrs children)))
          (busy encode size_only name final
            (count + 1)
            (d + 1)
            tail
            buffer
            (offset + v + bytes children + w)
            (d + 1)
            (declare_attributes (top stack) attrs ∷ stack))).0
        ≡ found (outer n attrs v children w (top stack) d count offset)
  finish_record-outer n attrs v children w tail buffer offset d count stack =
      let a : offset + v + bytes children + w ≡ offset + (v + bytes children + w) = omega arith in
      let b : offset + (v + bytes children + w) - offset ≡ v + bytes children + w = omega arith in
      rw (a, b) refl

  pub between-record :
      (k : ℕ) (n : Text) (attrs : List Attr) (v : ℕ) (children : Forest) (w : ℕ)
      (tail : List (Token × ℕ)) (offset d count : ℕ) (stack : List (TextMap Text))
      → eq_text n name ≡ true
      → (size_only || is_some encode size_only name (encode (element_tokens n attrs children)))
        ≡ true
      → between
          (suc k)
          ((start_element n attrs, v) ∷ (events children ++ (end_element n, w) ∷ tail))
          offset
          d
          count
          stack
        ≡ found (outer n attrs v children w (top stack) d count offset)
          ∷ between k tail (offset + (v + bytes children + w)) d (count + 1) stack
  between-record k n attrs v children w tail offset d count stack h writes =
      let after : List (Token × ℕ) = (end_element n, w) ∷ tail in
      let m : TextMap Text = declare_attributes (top stack) attrs in
      let opened : List Token = added encode size_only name final [] (start_element n attrs ∷ []) in
      let kept : List Token = added encode size_only name final opened (tokens_of children) in
      let whole : List Token = added encode size_only name final kept (end_element n ∷ []) in
      let joined : whole ≡ added encode size_only name final [] (element_tokens n attrs children) =
        added-added encode size_only name final opened _ _
        ∙ added-added encode size_only name final [] _ _ in
      between-start k n attrs v (events children ++ after) offset d count stack h
      ∙ ap (told k) (
          in_busy-events encode size_only name final offset (count + 1) (d + 1) children after
            opened (offset + v) (d + 1) (m ∷ stack) (omega arith)
          ∙ in_busy-end offset (count + 1) (d + 1) n w tail kept (offset + v + bytes children) m
              stack
          ∙ ap
              (λ x. finish_record offset x (
                busy encode size_only name final (count + 1) (d + 1) tail whole
                  (offset + v + bytes children + w) (d + 1) (m ∷ stack)))
              (written-raw n attrs children whole joined writes))
      ∙ cons-eq (finish_record-outer n attrs v children w tail whole offset d count stack) (
          calls-between k (count + 1) (d + 1) tail whole _ (offset + (v + bytes children + w)) d m
            stack (omega arith))
