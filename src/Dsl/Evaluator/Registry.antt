-- ===== src/Dsl/Evaluator/Registry.antt =====
-- The registry of internal/reftable is the lookup of an evaluation.
use sumpter.Base.{ℕ, ◌≤◌, ◌≡◌, refl, Bool, false, Option, some, List, ◌∷◌, map, length}
use sumpter.Base.Members.{Pick}
use sumpter.Dsl.{Text, string_value, Expression, constant, function, no_more, argument}
use sumpter.Dsl.Text.{codes, eq_text}
use sumpter.Dsl.References.{lower_byte, table_name}
use sumpter.Dsl.Value.{Float64, Value, boolean, string, Fields}
use sumpter.Dsl.Functions.{
  ReferenceLookup, string_or_nil, in_reference, lookup_reference, default_value, found_or,
}
use sumpter.Dsl.Evaluator.{
  Letters, plain_function, reference_function, call_function, evaluate_expression,
}
use sumpter.RefTable.{Table, Tables, new_registry, contains_key, lookup_key}
use sumpter.RefTable.Load.{Spec, Line, loaded, row, load}
use sumpter.RefTable.Load.Cells.{appears, HaveColumn}
use sumpter.RefTable.Load.Membership.{IsMembershipSource}
use sumpter.RefTable.Load.Lookups.{first_value, repeats, HavePair}
use sumpter.RefTable.Load.Unique.{IsLookupSource}
use sumpter.RefTable.Registry.{contains_key-load, lookup_key-load}

abbrev pub registry_lookup : Tables → ReferenceLookup
registry_lookup r = record { contains = contains_key r; lookup = lookup_key r }

module _ {F : Type 0} (fl : Float64 F) (letters : Letters) (vars : Fields F) (r : Tables) where
  abbrev evaluate : Expression F → Option (Value F)
  evaluate =
      evaluate_expression fl letters
        (record { variables = vars; references = some (registry_lookup r) })

  evaluate-in_reference :
      (t : Text) (e : Expression F) (c : ℕ) (k : Text) (b : Bool)
      → evaluate e ≡ some (string (c ∷ k))
      → contains_key r t (c ∷ k) ≡ some b
      → evaluate (
          function
            (codes "in_reference")
            (argument (constant (string_value t)) (argument e no_more)))
        ≡ some (boolean b)
  unfolding evaluate_expression call_function plain_function reference_function in_reference
      table_name string_or_nil lower_byte eq_text
  evaluate-in_reference t e c k b h f = rw (h, f) refl

  evaluate-lookup_reference :
      (t : Text) (e d : Expression F) (c : ℕ) (k : Text) (v w : Value F) (found : Option Text)
      → evaluate e ≡ some (string (c ∷ k))
      → evaluate d ≡ some v
      → default_value (some v) ≡ some w
      → lookup_key r t (c ∷ k) ≡ some found
      → evaluate (
          function
            (codes "lookup_reference")
            (argument (constant (string_value t)) (argument e (argument d no_more))))
        ≡ some (found_or w found)
  unfolding evaluate_expression call_function plain_function reference_function lookup_reference
      table_name string_or_nil lower_byte eq_text
  evaluate-lookup_reference t e d c k v w found h g o f = rw (h, g, o, f) refl

module _ {F : Type 0} (fl : Float64 F) (letters : Letters) (vars : Fields F) where
  -- From the rows of a reference table's source to the value of in_reference: let a registry have the
  -- table that Load gives for a valid spec of a delimited membership table, whose column stands in the
  -- header and in every row, with no more rows than the limit. Where the second argument of
  -- in_reference, called on the table's literal name, has a string as its value that is not empty, the
  -- call's value tells whether the column has the string in some row.
  pub evaluate-load :
      (s : Spec) (header : List Text) (i max : ℕ) (rows : List (List Text)) (lines : List Line)
      (t : Table) (tables rest : List Table) (r : Tables) (e : Expression F) (c : ℕ) (k : Text)
      → IsMembershipSource s header i max
      → HaveColumn i rows
      → length rows ≤ max
      → load s (row header ∷ map row rows) lines ≡ loaded t
      → new_registry tables ≡ some r
      → Pick t tables rest
      → evaluate fl letters vars r e ≡ some (string (c ∷ k))
      → evaluate fl letters vars r (
          function
            (codes "in_reference")
            (argument (constant (string_value s.name)) (argument e no_more)))
        ≡ some (boolean (appears i (c ∷ k) rows))
  evaluate-load s header i max rows lines t tables rest r e c k m h fits l reg p v =
      evaluate-in_reference fl letters vars r s.name e c k (appears i (c ∷ k) rows) v
        (contains_key-load s header i max rows lines t tables rest r (c ∷ k) m h fits l reg p)

  -- From the rows of a reference table's source to the value of lookup_reference: let a registry have
  -- the table that Load gives for a valid spec of a delimited lookup table, whose two columns stand in
  -- the header and in every row, with no two rows of one key and no more rows than the limit. Where
  -- the second argument of lookup_reference, called on the table's literal name, has a string as its
  -- value that is not empty, and the third one has a string or null, the call's value is that of the
  -- row with this key, or the third argument's where there is no such row.
  pub evaluate-load_lookups :
      (s : Spec) (header : List Text) (i j max : ℕ) (rows : List (List Text)) (lines : List Line)
      (t : Table) (tables rest : List Table) (r : Tables) (e d : Expression F) (c : ℕ) (k : Text)
      (v w : Value F)
      → IsLookupSource s header i j max
      → HavePair i j rows
      → length rows ≤ max
      → repeats i rows ≡ false
      → load s (row header ∷ map row rows) lines ≡ loaded t
      → new_registry tables ≡ some r
      → Pick t tables rest
      → evaluate fl letters vars r e ≡ some (string (c ∷ k))
      → evaluate fl letters vars r d ≡ some v
      → default_value (some v) ≡ some w
      → evaluate fl letters vars r (
          function
            (codes "lookup_reference")
            (argument (constant (string_value s.name)) (argument e (argument d no_more))))
        ≡ some (found_or w (first_value i j (c ∷ k) rows))
  evaluate-load_lookups s header i j max rows lines t tables rest r e d c k v w m h fits u l reg p x
        y o =
      evaluate-lookup_reference fl letters vars r s.name e d c k v w (first_value i j (c ∷ k) rows)
        x y o
        (lookup_key-load s header i j max rows lines t tables rest r (c ∷ k) m h fits u l reg p)
