-- ===== src/RefTable.antt =====
-- internal/reftable/reftable.go: loaded reference tables, and the queries on them. An error is `none`,
-- without its message. The identity of a table's source, its format and its hash are left out. The
-- loaders of load.go and parse.go are Load; `capped_read` of parse.go is Capped.
pub mod Load
pub mod Capped
pub mod Registry
mod Tests
use sumpter.Base.{
  ℕ, ◌+◌, Bool, true, false, Option, none, some, List, [], ◌∷◌, ◌>>=◌, if◌then◌else◌,
}
use sumpter.Dsl.{Text}
use sumpter.TextMap.{TextMap, lookup, put}

pub data Mode : Type 0 where
  mode_membership mode_lookup : Mode

-- A membership table keeps `membership`, a lookup table `lookups`.
pub record Table : Type 0 where
  pub name : Text
  pub mode : Mode
  pub membership : TextMap Unit
  pub lookups : TextMap Text
  pub row_count : ℕ

abbrev pub is_some {ℓ} : {A : Type ℓ} → Option A → Bool
is_some none = false
is_some (some a) = true

-- The registry is its map from names to tables.
abbrev pub Tables : Type 0
Tables = TextMap Table

-- The loop of NewRegistry over tables that are not nil.
unfoldable pub register : Tables → List Table → Option Tables
register m [] = some m
register m (t ∷ tables) = elim (lookup t.name m) [
  | some _ ↦ none
  | none ↦ register (put t.name t m) tables
]

unfoldable pub new_registry : List Table → Option Tables
new_registry tables = register [] tables

unfoldable pub declared : Tables → Text → Bool
declared r name = is_some (lookup name r)

abbrev contains_in : Table → Text → Mode → Option Bool
contains_in t key mode_membership = some (is_some (lookup key t.membership))
contains_in t key mode_lookup = none

-- Contains: none is an error, for an unknown table or one of the other mode.
unfoldable pub contains_key : Tables → Text → Text → Option Bool
contains_key r table key = lookup table r >>= λ t. contains_in t key t.mode

abbrev lookup_in : Table → Text → Mode → Option (Option Text)
lookup_in t key mode_membership = none
lookup_in t key mode_lookup = some (lookup key t.lookups)

-- Lookup: the inner none is a key that is not there.
unfoldable pub lookup_key : Tables → Text → Text → Option (Option Text)
lookup_key r table key = lookup table r >>= λ t. lookup_in t key t.mode
