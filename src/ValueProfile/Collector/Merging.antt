-- ===== src/ValueProfile/Collector/Merging.antt =====
-- internal/valueprofile/collector.go: mergeFrom, by which an input's states are committed.
use sumpter.Base.{
  ℕ, ◌+◌, true, false, not, ◌&&◌, ◌||◌, Option, none, some, [], ◌∷◌, length, ltb, leb,
  if◌then◌else◌,
}
use sumpter.TextMap.{TextMap, lookup, put}
use sumpter.Dsl.Value.{Float64}
use sumpter.ValueProfile.Collector.{
  Formats, ShapeAccumulator, FieldState, or_empty, value_at, observe_numbers,
}

module _ {F : Type 0} (fl : Float64 F) (formats : Formats F) where
  unfoldable pub merge_shape : ShapeAccumulator → ShapeAccumulator → ShapeAccumulator
  merge_shape a other =
      let uuid = a.uuid && other.uuid in
      let email = a.email && other.email in
      if not other.init && not other.empty then a else if not a.init then other else (record a {
        empty = a.empty || other.empty;
        uuid = uuid;
        email = email;
        free = if not uuid && not email then true else a.free;
      })

  -- The loop over the other map's values, which stops at the cap.
  unfoldable pub merge_distinct : ℕ → TextMap ℕ → TextMap ℕ → Option (TextMap ℕ)
  merge_distinct max_distinct m [] = some m
  merge_distinct max_distinct m ((value, n) ∷ other) =
      let m' = put value (value_at value m + n) m in
      elim (ltb max_distinct (length m')) [
        | true ↦ none
        | false ↦ merge_distinct max_distinct m' other
      ]

  unfoldable pub merge_values : ℕ → FieldState F → FieldState F → FieldState F
  merge_values max_distinct s other = elim s.capped [
    | true ↦ s
    | false ↦ elim other.capped [
      | true ↦ record s { capped = true; distinct = none }
      | false ↦ elim other.distinct [
        | none ↦ s
        | some m ↦ elim (merge_distinct max_distinct (or_empty s.distinct) m) [
          | none ↦ record s { capped = true; distinct = none }
          | some m' ↦ record s { distinct = some m' }
        ]
      ]
    ]
  ]

  -- The lengths of mergeFrom.
  unfoldable pub merge_lengths : FieldState F → FieldState F → FieldState F
  merge_lengths s other =
      if ltb 0 other.len_n
      then (record s {
        len_min = if leb s.len_n 0 || ltb other.len_min s.len_min then other.len_min else s.len_min;
        len_max = if ltb s.len_max other.len_max then other.len_max else s.len_max;
        len_sum = s.len_sum + other.len_sum;
        len_n = s.len_n + other.len_n;
      })
      else s

  unfoldable pub merge_numbers : FieldState F → FieldState F → FieldState F
  merge_numbers s other =
      let t =
        if other.has_numeric
        then observe_numbers fl formats (some (other.num_min, other.num_max)) s
        else s in
      record t { all_numeric = if other.all_numeric then t.all_numeric else false }

  unfoldable pub merge_from : ℕ → FieldState F → FieldState F → FieldState F
  merge_from max_distinct s other =
      let counted = record s {
        count = s.count + other.count;
        null_count = s.null_count + other.null_count;
        saw_non_empty = s.saw_non_empty || other.saw_non_empty;
      } in
      let t = merge_numbers (merge_lengths counted other) other in
      merge_values max_distinct (record t { shape = merge_shape t.shape other.shape }) other

  -- The loop of CommitInput.
  unfoldable pub merge_all :
      ℕ → TextMap (FieldState F) → TextMap (FieldState F) → TextMap (FieldState F)
  merge_all max_distinct committed [] = committed
  merge_all max_distinct committed ((name, pending) ∷ staged) =
      merge_all max_distinct
        (elim (lookup name committed) [
          | none ↦ committed
          | some s ↦ put name (merge_from max_distinct s pending) committed
        ])
        staged
