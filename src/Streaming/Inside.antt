-- ===== src/Streaming/Inside.antt =====
-- The scanner inside of a record: what it keeps of the tokens.
use mathlib.Core.List.{append_assoc, append-nil}
use sumpter.Base.{
  ℕ, ◌+◌, ◌-◌, ◌≤◌, ◌≡◌, refl, sym, ap, ◌∙◌, Bool, true, false, Option, none, some, List, [], ◌∷◌,
  ◌++◌, arith, ◌==◌, if◌then◌else◌, inl, inr, Bool-cases,
}
use sumpter.Dsl.{Text}
use sumpter.TextMap.{TextMap}
use sumpter.Streaming.{
  Attr, Token, start_element, end_element, RecordScanner, ScanError, Outcome, declare_attributes,
  top, next_loop, starts_record, ends_record, open_element,
}
use sumpter.Streaming.Forest.{
  Forest, done, content, element, Content, text, remark, instruction, declaration, content_token,
  events, bytes, tokens_of,
}

module _ (encode : List Token → Option Text) (size_only : Bool) (name : Text)
    (final : ScanError) where
  -- The scanner inside of a record, and between records
  abbrev pub busy :
      ℕ → ℕ → List (Token × ℕ) → List Token → ℕ → ℕ → List (TextMap Text) → RecordScanner
  busy count rd tokens buffer offset depth stack = record {
    tokens = tokens;
    token_error = final;
    offset = offset;
    buffer = buffer;
    depth = depth;
    record_depth = some rd;
    in_record = true;
    element_name = name;
    record_count = count;
    err = none;
    size_only = size_only;
    namespace_stack = stack;
  }

  abbrev pub idle : List (Token × ℕ) → ℕ → ℕ → ℕ → List (TextMap Text) → RecordScanner
  idle tokens offset depth count stack = record {
    tokens = tokens;
    token_error = final;
    offset = offset;
    buffer = [];
    depth = depth;
    record_depth = none;
    in_record = false;
    element_name = name;
    record_count = count;
    err = none;
    size_only = size_only;
    namespace_stack = stack;
  }

  abbrev pub added : List Token → List Token → List Token
  added buffer ts = if size_only then buffer else buffer ++ ts

  pub added-added :
      (buffer ts us : List Token) → added (added buffer ts) us ≡ added buffer (ts ++ us)
  added-added buffer ts us = elim (Bool-cases size_only) [
    | inl e ↦ rw e refl
    | inr e ↦ rw e (append_assoc buffer ts us)
  ]

  module _ (start count rd : ℕ) where
    abbrev pub in_busy :
        List (Token × ℕ) → List Token → ℕ → ℕ → List (TextMap Text) → Outcome × RecordScanner
    in_busy tokens buffer offset depth stack =
        next_loop encode tokens start (busy count rd tokens buffer offset depth stack)

    in_busy-content :
        (c : Content) (w : ℕ) (tail : List (Token × ℕ)) (buffer : List Token) (offset d : ℕ)
        (stack : List (TextMap Text))
        → in_busy ((content_token c, w) ∷ tail) buffer offset d stack
          ≡ in_busy tail (added buffer (content_token c ∷ [])) (offset + w) d stack
    unfolding next_loop
    in_busy-content (text t) w tail buffer offset d stack = refl
    in_busy-content (remark t) w tail buffer offset d stack = refl
    in_busy-content (instruction t u) w tail buffer offset d stack = refl
    in_busy-content (declaration t) w tail buffer offset d stack = refl

    in_busy-open :
        (n : Text) (attrs : List Attr) (w : ℕ) (tail : List (Token × ℕ)) (buffer : List Token)
        (offset d : ℕ) (stack : List (TextMap Text))
        → in_busy ((start_element n attrs, w) ∷ tail) buffer offset d stack
          ≡ in_busy tail
              (added buffer (start_element n attrs ∷ []))
              (offset + w)
              (d + 1)
              (declare_attributes (top stack) attrs ∷ stack)
    unfolding next_loop open_element starts_record
    in_busy-open n attrs w tail buffer offset d stack = refl

    in_busy-close :
        (n : Text) (w : ℕ) (tail : List (Token × ℕ)) (buffer : List Token) (offset d : ℕ)
        (m : TextMap Text) (stack : List (TextMap Text))
        → rd ≤ d
        → in_busy ((end_element n, w) ∷ tail) buffer offset (d + 1) (m ∷ stack)
          ≡ in_busy tail (added buffer (end_element n ∷ [])) (offset + w) d stack
    unfolding next_loop ends_record
    in_busy-close n w tail buffer offset d m stack h =
        let e : (d + 1 == rd) ≡ false = ground arith in
        let b : d + 1 - 1 ≡ d = omega arith in rw (next_loop, ends_record, e, b) refl

    in_busy-at :
        (tail : List (Token × ℕ)) (b c : List Token) (o p d : ℕ) (stack : List (TextMap Text))
        → b ≡ c
        → o ≡ p
        → in_busy tail b o d stack ≡ in_busy tail c p d stack
    in_busy-at tail b c o p d stack h k =
        ap (λ x. in_busy tail x o d stack) h ∙ ap (λ x. in_busy tail c x d stack) k

    added-nil : (buffer : List Token) → added buffer [] ≡ buffer
    added-nil buffer = elim (Bool-cases size_only) [
      | inl e ↦ rw e refl
      | inr e ↦ rw e (append-nil buffer)
    ]

    -- A part of the document inside of a record is kept as it is.
    pub in_busy-events :
        (f : Forest) (tail : List (Token × ℕ)) (buffer : List Token) (offset d : ℕ)
        (stack : List (TextMap Text))
        → rd ≤ d
        → in_busy (events f ++ tail) buffer offset d stack
          ≡ in_busy tail (added buffer (tokens_of f)) (offset + bytes f) d stack
    in_busy-events done tail buffer offset d stack h =
        in_busy-at tail _ _ _ _ d stack (sym (added-nil buffer)) (omega arith)
    in_busy-events (content c w rest) tail buffer offset d stack h =
        in_busy-content c w (events rest ++ tail) buffer offset d stack
        ∙ in_busy-events rest tail (added buffer (content_token c ∷ [])) (offset + w) d stack h
        ∙ in_busy-at tail _ _ _ _ d stack (added-added buffer _ (tokens_of rest)) (omega arith)
    in_busy-events (element n attrs v children w rest) tail buffer offset d stack h =
        let after : List (Token × ℕ) = (end_element n, w) ∷ (events rest ++ tail) in
        let whole : List (Token × ℕ) = events children ++ (end_element n, w) ∷ events rest in
        let opened : List Token = added buffer (start_element n attrs ∷ []) in
        let kept : List Token = added opened (tokens_of children) in
        let m : TextMap Text = declare_attributes (top stack) attrs in
        let joined : added (added kept (end_element n ∷ [])) (tokens_of rest)
            ≡ added buffer
                (start_element n attrs ∷ (tokens_of children ++ end_element n ∷ tokens_of rest)) =
          added-added kept _ _ ∙ added-added opened _ _ ∙ added-added buffer _ _ in
        in_busy-open n attrs v (whole ++ tail) buffer offset d stack
        ∙ ap (λ t. in_busy t opened (offset + v) (d + 1) (m ∷ stack))
            (append_assoc (events children) ((end_element n, w) ∷ events rest) tail)
        ∙ in_busy-events children after opened (offset + v) (d + 1) (m ∷ stack) (omega arith)
        ∙ in_busy-close n w (events rest ++ tail) kept (offset + v + bytes children) d m stack h
        ∙ in_busy-events rest tail (added kept (end_element n ∷ []))
            (offset + v + bytes children + w) d stack h
        ∙ in_busy-at tail _ _ _ _ d stack joined (omega arith)
