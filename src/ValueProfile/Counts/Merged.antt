-- ===== src/ValueProfile/Counts/Merged.antt =====
-- The maps of two lists, put together, against the list of both.
use sumpter.Base.{
  ℕ, ◌+◌, ◌≤◌, ◌≡◌, refl, sym, ap, ◌∙◌, Bool, true, false, not, ◌&&◌, ◌||◌, Option, none, some,
  List, [], ◌∷◌, ◌++◌, length, arith, ltb, if◌then◌else◌, Bool-cases, inl, inr,
}
use sumpter.TextMap.{TextMap, lookup, put, lookup-put, eq_text_iff}
use sumpter.RefTable.{is_some}
use sumpter.Dsl.{Text}
use sumpter.Dsl.Text.{eq_text}
use sumpter.Dsl.Value.{Float64}
use sumpter.ValueProfile.Collector.{Formats, or_zero, value_at}
use sumpter.ValueProfile.Collector.Merging.{merge_distinct}
use sumpter.ValueProfile.Counts.{
  tally-absent, tally, member, kinds, cells, Unique, Counts, put-Unique, cells-put, cells-length,
  cells-cong, Counts-is_some,
}

-- All values of another map added, with no cap.
unfoldable pub add_all : TextMap ℕ → TextMap ℕ → TextMap ℕ
add_all m [] = m
add_all m ((value, n) ∷ other) = add_all (put value (value_at value m + n) m) other

add_all-Unique : (m other : TextMap ℕ) → Unique m → Unique (add_all m other)
unfolding add_all
add_all-Unique m [] u = u
add_all-Unique m ((k, n) ∷ other) u =
    add_all-Unique (put k (value_at k m + n) m) other (put-Unique k (value_at k m + n) m u)

abbrev pub both : Option ℕ → Option ℕ → Option ℕ
both none none = none
both none (some b) = some b
both (some a) none = some a
both (some a) (some b) = some (a + b)

both-none : (o : Option ℕ) → both o none ≡ o
both-none none = refl
both-none (some a) = refl

both-some : (o : Option ℕ) (n : ℕ) → both o (some n) ≡ some (or_zero o + n)
both-some none n = ap some (omega arith)
both-some (some a) n = refl

lookup-add_all :
    (t : Text) (m other : TextMap ℕ)
    → Unique other
    → lookup t (add_all m other) ≡ both (lookup t m) (lookup t other)
unfolding add_all lookup
lookup-add_all t m [] u = sym (both-none (lookup t m))
lookup-add_all t m ((k, n) ∷ other) (h, u) =
    let v = value_at k m + n in
    lookup-add_all t (put k v m) other u ∙ elim (Bool-cases (eq_text k t)) [
      | inl e ↦
          let same : k ≡ t = (eq_text_iff k t).0 e in
          let gone : lookup t other ≡ none = ap (λ x. lookup x other) (sym same) ∙ h in
          rw (lookup-put t k v m, e, gone, sym same) (sym (both-some (lookup k m) n))
      | inr e ↦ rw (lookup-put t k v m, e) refl
    ]

cells-add_all :
    (p : Text → Bool) (m other : TextMap ℕ)
    → Unique other
    → cells p (add_all m other) ≡ cells p m + cells (λ k. p k && not (is_some (lookup k m))) other
unfolding add_all
cells-add_all p m [] u = omega arith
cells-add_all p m ((k, n) ∷ other) (h, u) =
    let v = value_at k m + n in
    let rest = cells-add_all p (put k v m) other u in
    let same : cells (λ j. p j && not (is_some (lookup j (put k v m)))) other
        ≡ cells (λ j. p j && not (is_some (lookup j m))) other =
      cells-cong (λ j. p j && not (is_some (lookup j (put k v m))))
        (λ j. p j && not (is_some (lookup j m))) other
        (λ j s.
          let other_key : eq_text k j ≡ false = elim (Bool-cases (eq_text k j)) [
            | inl e ↦
                let same_key : k ≡ j = (eq_text_iff k j).0 e in
                cc (ap is_some (ap (λ x. lookup x other) (sym same_key) ∙ h), s)
            | inr e ↦ e
          ] in
          rw (lookup-put j k v m, other_key) refl) in
    ground (arith, rest, same, cells-put p k v m)

pub member-append :
    (t : Text) (ys xs : List Text) → member t (ys ++ xs) ≡ (member t ys || member t xs)
member-append t [] xs = refl
member-append t (y ∷ ys) xs = ground (arith, member-append t ys xs)

tally-append : (t : Text) (ys xs : List Text) → tally t (ys ++ xs) ≡ tally t ys + tally t xs
tally-append t [] xs = omega arith
tally-append t (y ∷ ys) xs = ground (arith, tally-append t ys xs)

pub kinds-append :
    (p : Text → Bool) (ys xs : List Text)
    → kinds p (ys ++ xs) ≡ kinds p xs + kinds (λ k. p k && not (member k xs)) ys
kinds-append p [] xs = omega arith
kinds-append p (y ∷ ys) xs = ground (arith, kinds-append p ys xs, member-append y ys xs)

-- The values of two lists.
pub Counts-add_all :
    (xs ys : List Text) (m other : TextMap ℕ)
    → Counts xs m
    → Counts ys other
    → Counts (ys ++ xs) (add_all m other)
Counts-add_all xs ys m other h g = record {
  unique = add_all-Unique m other h.unique;
  tallied = λ t.
      lookup-add_all t m other g.unique
      ∙ rw (h.tallied t, g.tallied t, member-append t ys xs, tally-append t ys xs)
          (ground (arith, tally-absent t xs, tally-absent t ys));
  sized = λ p.
      cells-add_all p m other g.unique
      ∙ rw (h.sized p, kinds-append p ys xs)
          (ap (λ n. kinds p xs + n)
            (cells-cong (λ k. p k && not (is_some (lookup k m))) (λ k. p k && not (member k xs))
                other (λ k s. rw (Counts-is_some xs m k h) refl)
              ∙ g.sized (λ k. p k && not (member k xs))));
}

grows : (m other : TextMap ℕ) → Unique other → length m ≤ length (add_all m other)
grows m other u =
    omega
      (arith, cells-add_all (λ k. true) m other u, cells-length m, cells-length (add_all m other))

-- The loop stops exactly where there are more values than the cap.
pub merge_distinct-add_all :
    {F : Type 0} (fl : Float64 F) (formats : Formats F) (max : ℕ) (m other : TextMap ℕ)
    → Unique other
    → length m ≤ max
    → merge_distinct fl formats max m other
      ≡ (if ltb max (length (add_all m other)) then none else some (add_all m other))
unfolding merge_distinct add_all
merge_distinct-add_all fl formats max m [] u h = ground (arith, h)
merge_distinct-add_all fl formats max m ((k, n) ∷ other) (f, u) h =
    let m' = put k (value_at k m + n) m in
    elim (Bool-cases (ltb max (length m'))) [
      | inl e ↦ rw (merge_distinct, e) (ground (arith, grows m' other u, e))
      | inr e ↦
          rw (merge_distinct, e)
            (merge_distinct-add_all fl formats max m' other u (ground (arith, e)))
    ]
