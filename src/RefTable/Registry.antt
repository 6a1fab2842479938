-- ===== src/RefTable/Registry.antt =====
-- The registry finds each of its tables, and answers for the rows of the table's source.
use sumpter.Base.{
  ℕ, ◌≤◌, ◌≡◌, refl, sym, ap, ◌∙◌, false, some, List, [], ◌∷◌, map, length, arith, Option-cases,
  inl, inr,
}
use sumpter.Base.Members.{Pick, here, there}
use sumpter.Dsl.{Text}
use sumpter.Dsl.Text.{eq_text}
use sumpter.TextMap.{lookup, put, lookup-put, eq_text_iff, eq_text_refl}
use sumpter.RefTable.{
  Table, Tables, mode_membership, mode_lookup, is_some, register, new_registry, contains_key,
  lookup_key,
}
use sumpter.RefTable.Load.{Spec, Line, loaded, row, load}
use sumpter.RefTable.Load.Cells.{appears, HaveColumn}
use sumpter.RefTable.Load.Membership.{IsMembershipSource, load-membership}
use sumpter.RefTable.Load.Lookups.{first_value, repeats, HavePair}
use sumpter.RefTable.Load.Unique.{IsLookupSource, load-lookups}

-- What is in the map stays there.
register-keeps :
    (m : Tables) (tables : List Table) (r : Tables) (name : Text) (t : Table)
    → register m tables ≡ some r
    → lookup name m ≡ some t
    → lookup name r ≡ some t
unfolding register
register-keeps m [] r name t h e = cc
register-keeps m (u ∷ tables) r name t h e = elim (Option-cases (lookup u.name m)) [
  | inr (w, f) ↦ cc (rw (register, f) at h)
  | inl f ↦
      let other : eq_text u.name name ≡ false = ground (arith, eq_text_iff u.name name, e, f) in
      register-keeps (put u.name u m) tables r name t (rw (register, f) at h)
        (lookup-put name u.name u m ∙ rw other e)
]

register-finds :
    (m : Tables) (tables rest : List Table) (r : Tables) (t : Table)
    → register m tables ≡ some r
    → Pick t tables rest
    → lookup t.name r ≡ some t
unfolding register
register-finds m (t ∷ tables) _ r _ h here = elim (Option-cases (lookup t.name m)) [
  | inr (w, f) ↦ cc (rw (register, f) at h)
  | inl f ↦
      register-keeps (put t.name t m) tables r t.name t (rw (register, f) at h)
        (lookup-put t.name t.name t m ∙ rw (eq_text_refl t.name) refl)
]
register-finds m (u ∷ tables) (_ ∷ rest) r t h (there p) = elim (Option-cases (lookup u.name m)) [
  | inr (w, f) ↦ cc (rw (register, f) at h)
  | inl f ↦ register-finds (put u.name u m) tables rest r t (rw (register, f) at h) p
]
register-finds m [] rest r t h p = elim p [ ]

-- A table of the list is found under its name.
pub new_registry-finds :
    (tables rest : List Table) (r : Tables) (t : Table)
    → new_registry tables ≡ some r
    → Pick t tables rest
    → lookup t.name r ≡ some t
unfolding new_registry
new_registry-finds tables rest r t h p = register-finds [] tables rest r t h p

loaded-inj : (t u : Table) → loaded t ≡ loaded u → t ≡ u
loaded-inj t u e = cc

-- Let a registry have the table that Load gives for a valid spec of a delimited membership table, whose
-- column stands in the header and in every row, with no more rows than the limit. Then the registry's
-- query of the spec's name for a key tells whether the column has the key in some row.
pub contains_key-load :
    (s : Spec) (header : List Text) (i max : ℕ) (rows : List (List Text)) (lines : List Line)
    (t : Table) (tables rest : List Table) (r : Tables) (key : Text)
    → IsMembershipSource s header i max
    → HaveColumn i rows
    → length rows ≤ max
    → load s (row header ∷ map row rows) lines ≡ loaded t
    → new_registry tables ≡ some r
    → Pick t tables rest
    → contains_key r s.name key ≡ some (appears i key rows)
unfolding contains_key
contains_key-load s header i max rows lines t tables rest r key m h fits e reg p =
    let (t', e', name', mode', count, members') =
      load-membership s header i max rows lines m h fits in
    let same : t' ≡ t = loaded-inj t' t (sym e' ∙ e) in
    let found : lookup s.name r ≡ some t =
      rw (sym name' ∙ ap (λ x. x.name) same) (new_registry-finds tables rest r t reg p) in
    let mode : t.mode ≡ mode_membership = ap (λ x. x.mode) (sym same) ∙ mode' in
    rw (contains_key, found, mode)
      (ap some (ap (λ x. is_some (lookup key x.membership)) (sym same) ∙ members' key))

-- Let a registry have the table that Load gives for a valid spec of a delimited lookup table, whose two
-- columns stand in the header and in every row, with no two rows of one key and no more rows than the
-- limit. Then the registry's query of the spec's name for a key gives the value of the row with that
-- key, or that there is none.
pub lookup_key-load :
    (s : Spec) (header : List Text) (i j max : ℕ) (rows : List (List Text)) (lines : List Line)
    (t : Table) (tables rest : List Table) (r : Tables) (key : Text)
    → IsLookupSource s header i j max
    → HavePair i j rows
    → length rows ≤ max
    → repeats i rows ≡ false
    → load s (row header ∷ map row rows) lines ≡ loaded t
    → new_registry tables ≡ some r
    → Pick t tables rest
    → lookup_key r s.name key ≡ some (first_value i j key rows)
unfolding lookup_key
lookup_key-load s header i j max rows lines t tables rest r key m h fits unique e reg p =
    let (t', e', name', mode', count, pairs') =
      load-lookups s header i j max rows lines m h fits unique in
    let same : t' ≡ t = loaded-inj t' t (sym e' ∙ e) in
    let found : lookup s.name r ≡ some t =
      rw (sym name' ∙ ap (λ x. x.name) same) (new_registry-finds tables rest r t reg p) in
    let mode : t.mode ≡ mode_lookup = ap (λ x. x.mode) (sym same) ∙ mode' in
    rw (lookup_key, found, mode) (ap some (ap (λ x. lookup key x.lookups) (sym same) ∙ pairs' key))
