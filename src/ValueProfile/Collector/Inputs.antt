-- ===== src/ValueProfile/Collector/Inputs.antt =====
-- internal/valueprofile/collector.go: the collector's transactions. Each method runs under the
-- collector's mutex and is one step; a nil collector, which does nothing, is left out.
use sumpter.Base.{Option, none, some, List, [], ◌∷◌}
use sumpter.TextMap.{TextMap}
use sumpter.Dsl.Text.{codes}
use sumpter.Dsl.Value.{Float64, object, Fields, get_field}
use sumpter.ValueProfile.{Normalized}
use sumpter.ValueProfile.Collector.{Formats, FieldState, new_field_states, observe_data_into}
use sumpter.ValueProfile.Collector.Merging.{merge_all}

pub record Collector (F : Type 0) : Type 0 where
  pub cfg : Normalized
  pub committed : TextMap (FieldState F)
  pub staged : Option (TextMap (FieldState F))

module _ {F : Type 0} (fl : Float64 F) (formats : Formats F) where
  unfoldable pub new_collector : Normalized → Collector F
  new_collector cfg = record {
    cfg = cfg;
    committed = new_field_states fl cfg.fields [];
    staged = none;
  }

  unfoldable pub begin_input : Collector F → Collector F
  begin_input c = record c { staged = some (new_field_states fl c.cfg.fields []) }

  unfoldable pub begin_input_if_needed : Collector F → Collector F
  begin_input_if_needed c = elim c.staged [ none ↦ begin_input c | some m ↦ c ]

  unfoldable pub commit_input : Collector F → Collector F
  commit_input c = elim c.staged [
    | none ↦ c
    | some m ↦ record c {
      committed = merge_all fl formats c.cfg.max_distinct c.committed m;
      staged = none;
    }
  ]

  unfoldable pub discard_input : Collector F → Collector F
  discard_input c = record c { staged = none }

  unfoldable pub observe_data : Fields F → Collector F → Collector F
  observe_data data_ c = elim c.staged [
    | none ↦ record c {
      committed = observe_data_into fl formats c.committed data_ c.cfg.max_distinct;
    }
    | some m ↦ record c { staged = some (observe_data_into fl formats m data_ c.cfg.max_distinct) }
  ]

  -- The extract.data of a record, or the record itself where it has no extract.
  unfoldable pub extract_data_map : Fields F → Option (Fields F)
  extract_data_map record_ = elim (get_field (codes "extract") record_) [
    | none ↦ some record_
    | some (object data_) ↦ elim (get_field (codes "data") data_) [
      | some (object inner) ↦ some inner
      | _ ↦ none
    ]
    | some _ ↦ none
  ]

  unfoldable pub observe_records : List (Fields F) → Collector F → Collector F
  observe_records [] c = c
  observe_records (r ∷ records) c =
      observe_records records
        (elim (extract_data_map r) [ none ↦ c | some data_ ↦ observe_data data_ c ])
