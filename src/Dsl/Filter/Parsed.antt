-- ===== src/Dsl/Filter/Parsed.antt =====
-- What the results of ParseFilter tell of its string.
use sumpter.Base.{
  ℕ, ◌+◌, ◌≡◌, ◌≢◌, sym, ap, true, false, ◌||◌, Option, none, some, List, [], ◌∷◌, ◌++◌, take, drop,
  length, arith, if◌then◌else◌, Bool-cases, Option-cases, inl, inr, ◌⊎◌, refl,
}
use sumpter.Base.Members.{All}
use sumpter.Dsl.{Text, Constant}
use sumpter.Dsl.Text.{codes, eq_text, trim_space}
use sumpter.Dsl.Scan.{
  is_empty, StringRange, quoted_string_ranges, leftmost_first, idx_valid_split_point,
}
use sumpter.Dsl.Scan.Leftmost.{IsFirst, idx_valid_split_point-IsFirst}
use sumpter.Base.Int.{pos}
use sumpter.Dsl.Parser.{comparisons, parse_value}
use sumpter.Dsl.Filter.{FilterExpression, filter_of, filter_by, parse_filter}

-- The operator is not empty and does not begin with a parenthesis.
abbrev HasHead : Text → Type 0
HasHead [] = ⊥
HasHead (o ∷ op) = (o ≢ b'(') × (o ≢ b')')

comparisons-HasHead : All HasHead comparisons
comparisons-HasHead = (
  ((λ e. omega arith), (λ e. omega arith)),
  (
    ((λ e. omega arith), (λ e. omega arith)),
    (
      ((λ e. omega arith), (λ e. omega arith)),
      (
        ((λ e. omega arith), (λ e. omega arith)),
        (((λ e. omega arith), (λ e. omega arith)), (((λ e. omega arith), (λ e. omega arith)), tt)),
      ),
    ),
  ),
)

module _ {F : Type 0} (parse_float : Text → Option F) where
  -- The filter is made of what stands around an operator of the list at its first position outside
  -- the ranges and parentheses, none of the operators that are listed before it has such a position,
  -- and neither part is empty.
  pub record IsFilterOf (ranges : List StringRange) (s : Text) (ops : List Text)
      (f : FilterExpression F) : Type 0 where
    pub before : List Text
    pub after : List Text
    pub position : ℕ
    pub listed : ops ≡ before ++ f.operator ∷ after
    pub first : All (λ o. IsFirst ranges o 0 (pos 0) s none) before
    pub split : IsFirst ranges f.operator 0 (pos 0) s (some position)
    pub left : f.field ≡ trim_space (take position s)
    pub right :
        let v = trim_space (drop (position + length f.operator) s) in
        (f.value ≡ (if eq_text v (codes "null") then none else some (parse_value parse_float v)))
        × (is_empty v ≡ false)
        × (f.is_null ≡ eq_text v (codes "null"))
    pub not_empty : is_empty f.field ≡ false

  -- The value of a filter on the text after the operator.
  abbrev value_of : Text → Option (Constant F)
  value_of v = if eq_text v (codes "null") then none else some (parse_value parse_float v)

  filter_of-parts :
      (field op v : Text) (f : FilterExpression F)
      → filter_of parse_float field op v ≡ some f
      → (f.field ≡ field)
        × (f.operator ≡ op)
        × (f.value ≡ value_of v)
        × (is_empty field ≡ false)
        × (is_empty v ≡ false)
        × (f.is_null ≡ eq_text v (codes "null"))
  unfolding filter_of
  filter_of-parts field op v f h = elim (Bool-cases (is_empty field)) [
    | inl e ↦ cc (rw e at h)
    | inr e ↦ elim (Bool-cases (is_empty v)) [
      | inl e' ↦ cc (rw (e, e') at h)
      | inr e' ↦ elim (Bool-cases (eq_text v (codes "null"))) [
        | inl n ↦
            let same : record { field = field; operator = op; value = none; is_null = true } ≡ f =
              cc (rw (e, e', n) at h) in
            (
              ap (λ g. g.field) (sym same),
              ap (λ g. g.operator) (sym same),
              rw n (ap (λ g. g.value) (sym same)),
              e,
              e',
              rw n (ap (λ g. g.is_null) (sym same)),
            )
        | inr n ↦
            let same : record {
              field = field;
              operator = op;
              value = some (parse_value parse_float v);
              is_null = false;
            }
                ≡ f =
              cc (rw (e, e', n) at h) in
            (
              ap (λ g. g.field) (sym same),
              ap (λ g. g.operator) (sym same),
              rw n (ap (λ g. g.value) (sym same)),
              e,
              e',
              rw n (ap (λ g. g.is_null) (sym same)),
            )
      ]
    ]
  ]

  -- The search succeeds, and its result is described without it.
  split_somewhere :
      (s op : Text) (ranges : List StringRange)
      → quoted_string_ranges s ≡ some ranges
      → HasHead op
      → (r : Option ℕ) × (idx_valid_split_point s op leftmost_first ≡ some r)
        × IsFirst ranges op 0 (pos 0) s r
  split_somewhere s [] ranges q h = absurd h
  split_somewhere s (o ∷ op) ranges q (a, b) = idx_valid_split_point-IsFirst s o op ranges a b q

  split-IsFirst :
      (s op : Text) (ranges : List StringRange) (r : Option ℕ)
      → quoted_string_ranges s ≡ some ranges
      → HasHead op
      → idx_valid_split_point s op leftmost_first ≡ some r
      → IsFirst ranges op 0 (pos 0) s r
  split-IsFirst s op ranges r q head e =
      let (r', e', h) = split_somewhere s op ranges q head in
      let same : r' ≡ r = cc (e, e') in rw (sym same) h

  filter_by-IsFilterOf :
      (s : Text) (ranges : List StringRange) (ops : List Text) (f : FilterExpression F)
      → quoted_string_ranges s ≡ some ranges
      → All HasHead ops
      → filter_by parse_float s ops ≡ some f
      → IsFilterOf ranges s ops f
  unfolding filter_by
  filter_by-IsFilterOf s ranges [] f q heads h = cc
  filter_by-IsFilterOf s ranges (op ∷ ops) f q (head, heads) h =
      elim (Option-cases (idx_valid_split_point s op leftmost_first)) [
        | inl e ↦ cc (rw (filter_by, e) at h)
        | inr (none, e) ↦
            let rest = filter_by-IsFilterOf s ranges ops f q heads (rw (filter_by, e) at h) in
            record {
              before = op ∷ rest.before;
              after = rest.after;
              position = rest.position;
              listed = ap (◌∷◌ op) rest.listed;
              first = (split-IsFirst s op ranges none q head e, rest.first);
              split = rest.split;
              left = rest.left;
              right = rest.right;
              not_empty = rest.not_empty;
            }
        | inr (some i, e) ↦
            let (a, b, c, d, d', n) =
              filter_of-parts (trim_space (take i s)) op (trim_space (drop (i + length op) s)) f
                (rw (filter_by, e) at h) in
            record {
              before = [];
              after = ops;
              position = i;
              listed = ap (λ o. o ∷ ops) (sym b);
              first = tt;
              split = rw b (split-IsFirst s op ranges (some i) q head e);
              left = a;
              right = rw b (c, d', n);
              not_empty = rw a d;
            }
      ]

  -- No operator of the list stands outside the ranges and parentheses, or the first in the list that
  -- does has nothing in front of its first position or behind it.
  pub record IsRejected (ranges : List StringRange) (s : Text) (ops : List Text) : Type 0 where
    pub before : List Text
    pub op : Text
    pub after : List Text
    pub position : ℕ
    pub listed : ops ≡ before ++ op ∷ after
    pub first : All (λ o. IsFirst ranges o 0 (pos 0) s none) before
    pub split : IsFirst ranges op 0 (pos 0) s (some position)
    pub empty :
        (is_empty (trim_space (take position s))
          || is_empty (trim_space (drop (position + length op) s)))
        ≡ true

  abbrev pub HasNoFilter : List StringRange → Text → List Text → Type 0
  HasNoFilter ranges s ops =
      All (λ o. IsFirst ranges o 0 (pos 0) s none) ops ⊎ IsRejected ranges s ops

  filter_of-none :
      (field op v : Text)
      → filter_of parse_float field op v ≡ none
      → (is_empty field || is_empty v) ≡ true
  unfolding filter_of
  filter_of-none field op v h = elim (Bool-cases (is_empty field || is_empty v)) [
    | inl e ↦ e
    | inr e ↦ elim (Bool-cases (eq_text v (codes "null"))) [
      | inl n ↦ cc (rw (e, n) at h)
      | inr n ↦ cc (rw (e, n) at h)
    ]
  ]

  HasNoFilter-cons :
      (ranges : List StringRange) (s op : Text) (ops : List Text)
      → IsFirst ranges op 0 (pos 0) s none
      → HasNoFilter ranges s ops
      → HasNoFilter ranges s (op ∷ ops)
  HasNoFilter-cons ranges s op ops h (inl all) = inl (h, all)
  HasNoFilter-cons ranges s op ops h (inr r) = inr (record {
    before = op ∷ r.before;
    op = r.op;
    after = r.after;
    position = r.position;
    listed = ap (◌∷◌ op) r.listed;
    first = (h, r.first);
    split = r.split;
    empty = r.empty;
  })

  filter_by-HasNoFilter :
      (s : Text) (ranges : List StringRange) (ops : List Text)
      → quoted_string_ranges s ≡ some ranges
      → All HasHead ops
      → filter_by parse_float s ops ≡ none
      → HasNoFilter ranges s ops
  unfolding filter_by
  filter_by-HasNoFilter s ranges [] q heads h = inl tt
  filter_by-HasNoFilter s ranges (op ∷ ops) q (head, heads) h =
      elim (Option-cases (idx_valid_split_point s op leftmost_first)) [
        | inl e ↦ let (r, e', found) = split_somewhere s op ranges q head in cc (e, e')
        | inr (none, e) ↦
            HasNoFilter-cons ranges s op ops (split-IsFirst s op ranges none q head e)
              (filter_by-HasNoFilter s ranges ops q heads (rw (filter_by, e) at h))
        | inr (some i, e) ↦ inr (record {
          before = [];
          op = op;
          after = ops;
          position = i;
          listed = refl;
          first = tt;
          split = split-IsFirst s op ranges (some i) q head e;
          empty =
              filter_of-none (trim_space (take i s)) op (trim_space (drop (i + length op) s))
                (rw (filter_by, e) at h);
        })
      ]

  -- What holds of a string of which ParseFilter gives the result
  abbrev pub IsParsed : Text → Option (Option (FilterExpression F)) → Type 0
  IsParsed filter_str none =
      (quoted_string_ranges (trim_space filter_str) ≡ none)
      ⊎ ((ranges : List StringRange) × (quoted_string_ranges (trim_space filter_str) ≡ some ranges)
          × HasNoFilter ranges (trim_space filter_str) comparisons)
  IsParsed filter_str (some none) = filter_str ≡ []
  IsParsed filter_str (some (some f)) =
      (ranges : List StringRange) × (quoted_string_ranges (trim_space filter_str) ≡ some ranges)
      × IsFilterOf ranges (trim_space filter_str) comparisons f

  -- For every string: where ParseFilter returns a filter, the string's quotes are closed, the filter is
  -- made of what stands around an operator of its list at the first position outside strings and
  -- parentheses where that operator stands, no operator listed earlier stands at any such position,
  -- neither part is empty, and the value is null exactly where the text after the operator is `null`;
  -- where it returns no filter and no error, the string is empty; and where it returns an error, a quote
  -- is not closed, or no operator of the list stands at such a position, or one of the two parts around
  -- the operator so chosen is empty.
  pub parse_filter-IsParsed :
      (filter_str : Text) → IsParsed filter_str (parse_filter parse_float filter_str)
  unfolding parse_filter
  parse_filter-IsParsed [] = refl
  parse_filter-IsParsed (c ∷ str) =
      let s : Text = trim_space (c ∷ str) in
      elim (Option-cases (quoted_string_ranges s)) [
        | inl q ↦ rw (parse_filter, q) (inl q)
        | inr (ranges, q) ↦ elim (Option-cases (filter_by parse_float s comparisons)) [
          | inl b ↦
              rw (parse_filter, q, b)
                (inr
                  (ranges, q, filter_by-HasNoFilter s ranges comparisons q comparisons-HasHead b))
          | inr (f, b) ↦
              rw (parse_filter, q, b)
                (ranges, q, filter_by-IsFilterOf s ranges comparisons f q comparisons-HasHead b)
        ]
      ]
