-- ===== src/Query/Selection.antt =====
-- The rows that a test selects, in order, and the rows behind ids, in any order.
use mathlib.Core.List.Perm
use mathlib.Core.List.{filter_map, Perm, perm_middle}
use mathlib.Core.Option.{Option-elim}
use mathlib.Core.Path.{subst}
use the_city_crdb.Common.{
  ℕ, suc, ◌≡◌, ◌∙◌, refl, sym, ap, Bool, Option, none, some, List, [], ◌∷◌, ◌++◌, arith, ◌==◌,
  if◌then◌else◌, length, Bool-cases, inl, inr, count, count-append, append_assoc, length-append,
  ◌<◌,
}
use the_city_crdb.RowStore.Vector
use the_city_crdb.Table.Indexed.{get_behind}
use the_city_crdb.Table.Contents.{matching_ids}
use the_city_crdb.Value.{Row, RowId}

-- The rows that pass a test, in order.
unfoldable pub filtered : (Row → Bool) → List Row → List Row
filtered p [] = []
filtered p (row ∷ rows) = if p row then row ∷ filtered p rows else filtered p rows

-- A number that occurs splits the list.
split_at :
    (x : ℕ) (ys : List ℕ)
    → 0 < count x ys
    → (before : List ℕ) × (after : List ℕ) × (ys ≡ before ++ x ∷ after)
split_at x [] h = absurd (omega arith)
split_at x (y ∷ ys) h = elim (Bool-cases (y == x)) [
  | inl same ↦ let q : y ≡ x = ground (arith, same) in ([], ys, ap (λ z. z ∷ ys) q)
  | inr other ↦
      let (before, after, e) = split_at x ys (ground (arith, other)) in
      (y ∷ before, after, ap (λ l. y ∷ l) e)
]

pub Perm-of_count : (xs ys : List ℕ) → ((i : ℕ) → count i xs ≡ count i ys) → Perm xs ys
Perm-of_count [] [] h = Perm.nil
Perm-of_count [] (y ∷ ys) h = absurd (ground (arith, h y))
Perm-of_count (x ∷ xs) ys h =
    let (before, after, e) = split_at x ys (ground (arith, h x)) in
    let rest = Perm-of_count xs (before ++ after) (λ i.
      ground (arith, h i, e, count-append i before (x ∷ after), count-append i before after)) in
    subst (Perm (x ∷ xs)) (sym e)
      (Perm.trans (Perm.cons x rest) (Perm.symm (perm_middle before after)))

Option-elim_lem :
    (o : Option Row) (rows : List Row)
    → elim o [ none ↦ rows | some row ↦ row ∷ rows ] ≡ Option-elim o rows (λ row. row ∷ rows)
unfolding Option-elim
Option-elim_lem none rows = refl
Option-elim_lem (some row) rows = refl

-- The rows of a vector by their ids.
rows_by_id-filter_map :
    (ids : List RowId) (rows : List Row)
    → Vector.rows_by_id ids rows ≡ filter_map (λ i. Vector.get i rows) ids
unfolding Vector.rows_by_id filter_map
rows_by_id-filter_map [] rows = refl
rows_by_id-filter_map (i ∷ ids) rows =
    ap (λ l. elim (Vector.get i rows) [ none ↦ l | some row ↦ row ∷ l ])
      (rows_by_id-filter_map ids rows)
    ∙ Option-elim_lem (Vector.get i rows) (filter_map (λ j. Vector.get j rows) ids)

pub rows_by_id-Perm :
    (ids ids' : List RowId) (rows : List Row)
    → Perm ids ids'
    → Perm (Vector.rows_by_id ids rows) (Vector.rows_by_id ids' rows)
rows_by_id-Perm ids ids' rows p =
    rw (rows_by_id-filter_map ids rows, rows_by_id-filter_map ids' rows)
      (Perm.filter_map (λ i. Vector.get i rows) p)

-- The rows of the ids that pass a test are the rows that pass it.
pub rows_by_id-matching_ids :
    (p : Row → Bool) (done rest : List Row)
    → Vector.rows_by_id (matching_ids p (length done) rest) (done ++ rest) ≡ filtered p rest
unfolding matching_ids filtered Vector.rows_by_id
rows_by_id-matching_ids p done [] = refl
rows_by_id-matching_ids p done (row ∷ rest) =
    let split : (done ++ row ∷ []) ++ rest ≡ done ++ row ∷ rest =
      append_assoc done (row ∷ []) rest in
    let n : length (done ++ row ∷ []) ≡ suc (length done) =
      omega (arith, length-append done (row ∷ [])) in
    let later : Vector.rows_by_id (matching_ids p (suc (length done)) rest) (done ++ row ∷ rest)
        ≡ filtered p rest =
      subst (λ k. Vector.rows_by_id (matching_ids p k rest) (done ++ row ∷ rest) ≡ filtered p rest)
        n
        (subst
          (λ l.
            Vector.rows_by_id (matching_ids p (length (done ++ row ∷ [])) rest) l ≡ filtered p rest)
          split (rows_by_id-matching_ids p (done ++ row ∷ []) rest)) in
    ground (arith, later, get_behind done rest row)
