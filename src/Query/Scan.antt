-- ===== src/Query/Scan.antt =====
-- The rows of a SELECT, whichever access path the planner takes (src/execution/query_executor.cpp).
use mathlib.Core.List.Perm
use mathlib.Core.List.{Perm}
use mathlib.Core.Path.{subst}
use the_city_crdb.Common.{
  ℕ, ◌≡◌, refl, sym, Bool, true, false, Option, none, some, List, [], ◌∷◌, arith, Text, Result, ok,
  err, Bool-cases, inl, inr, ◌⊎◌,
}
use the_city_crdb.Query.{
  Predicate, Select, comparison, both, either, collect_rows, matches, plan_select, read_version,
  rows_by_id_for_read, rows_snapshot_for_read, scan, selected, simple_comparison, is_equal,
  is_range, through_index,
}
use the_city_crdb.RowStore
use the_city_crdb.RowStore.Refinement
use the_city_crdb.RowStore.Vector
use the_city_crdb.Table.{
  Table, cell, column_index, has_index, has_ordered_index, indexed_lookup, ordered_lookup,
  rows_by_id, rows_snapshot,
}
use the_city_crdb.Table.Correct.{IsValid}
use the_city_crdb.Table.Contents.{matching_ids}
use the_city_crdb.Table.Lookups
use the_city_crdb.Table.Lookups.{compares}
use the_city_crdb.Value.{
  ComparisonOperator, Row, RowId, Value, compare_values, equal, greater, less,
}
use the_city_crdb.Value.Order.{IsComparable}
use the_city_crdb.Query.Selection.{
  filtered, Perm-of_count, rows_by_id-Perm, rows_by_id-matching_ids,
}

-- Of two results: the same error, or the same rows in some order.
abbrev pub SameRows : Result (List Row) → Result (List Row) → Type 0
SameRows (ok rows) (ok rows') = Perm rows rows'
SameRows (err e) (err f) = e ≡ f
SameRows _ _ = ⊥

SameRows-refl : (r : Result (List Row)) → SameRows r r
SameRows-refl (ok rows) = Perm.refl rows
SameRows-refl (err e) = refl

pub compares_lem :
    (op : ComparisonOperator) (k : ℕ) (v : Value) (row : Row)
    → compare_values (cell row k) op v ≡ compares op k v row
unfolding compare_values
compares_lem equal k v row = refl
compares_lem greater k v row = refl
compares_lem less k v row = refl

-- A scan by a comparison with a column of the table.
pub scan-filtered :
    (column : Text) (op : ComparisonOperator) (v : Value) (k : ℕ) (t : Table) (rows : List Row)
    → column_index column t ≡ some k
    → scan (some (comparison column op v)) t rows ≡ ok (filtered (compares op k v) rows)
unfolding scan selected matches filtered
scan-filtered column op v k t [] c = refl
scan-filtered column op v k t (row ∷ rows) c =
    ground (arith, c, compares_lem op k v row, scan-filtered column op v k t rows c)

-- The rows behind ids that a scan would select are the rows of that scan.
looked_up :
    (ids : List RowId) (p : Row → Bool) (t : Table)
    → IsValid t
    → Perm ids (matching_ids p 0 (rows_snapshot t))
    → Perm (rows_by_id ids t) (filtered p (rows_snapshot t))
unfolding rows_by_id rows_snapshot
looked_up ids p t v h =
    let rows = RowStore.snapshot t.row_store in
    rw (Refinement.rows_by_id-snapshot ids t.row_store v.store) (
      subst (Perm (Vector.rows_by_id ids rows)) (rows_by_id-matching_ids p [] rows)
        (rows_by_id-Perm ids (matching_ids p 0 rows) rows h))

by_id_lem : (ids : List RowId) (t : Table) → rows_by_id_for_read none ids t ≡ rows_by_id ids t
unfolding rows_by_id_for_read read_version
by_id_lem ids t = refl

-- Behind the hash index of a valid table are the rows of the scan.
through_hash :
    (column : Text) (v : Value) (t : Table)
    → IsValid t
    → SameRows
        (through_index none t
          (indexed_lookup column v t)
          (scan (some (comparison column equal v)) t (rows_snapshot t)))
        (scan (some (comparison column equal v)) t (rows_snapshot t))
unfolding rows_by_id_for_read rows_by_id
through_hash column v t w = elim (Lookups.indexed_lookup-Looks column v t w) [
  | inl n ↦ rw n (SameRows-refl (scan (some (comparison column equal v)) t (rows_snapshot t)))
  | inr (k, c, e) ↦
      rw (e, scan-filtered column equal v k t (rows_snapshot t) c)
        (looked_up (matching_ids (compares equal k v) 0 (rows_snapshot t)) (compares equal k v) t w
          (Perm.refl (matching_ids (compares equal k v) 0 (rows_snapshot t))))
]

through_ordered :
    (column : Text) (op : ComparisonOperator) (v : Value) (t : Table)
    → IsValid t
    → IsComparable v
    → SameRows
        (through_index none t
          (ordered_lookup column op v t)
          (scan (some (comparison column op v)) t (rows_snapshot t)))
        (scan (some (comparison column op v)) t (rows_snapshot t))
unfolding rows_by_id_for_read rows_by_id
through_ordered column op v t w g = elim (Lookups.ordered_lookup-LooksOrdered column op v t w g) [
  | inl n ↦ rw n (SameRows-refl (scan (some (comparison column op v)) t (rows_snapshot t)))
  | inr (k, c, ids, e, h) ↦
      rw (e, scan-filtered column op v k t (rows_snapshot t) c)
        (looked_up ids (compares op k v) t w
          (Perm-of_count ids (matching_ids (compares op k v) 0 (rows_snapshot t)) h))
]

-- The values that a condition compares with are no NaN.
abbrev pub HasNoNan : Option Predicate → Type 0
HasNoNan none = Unit {0}
HasNoNan (some (comparison column op v)) = IsComparable v
HasNoNan (some _) = Unit {0}

Where-cases :
    (p : Option Predicate)
    → (simple_comparison p ≡ none)
      ⊎ ((column : Text) × (op : ComparisonOperator) × (v : Value) × (p
            ≡ some (comparison column op v)))
Where-cases none = inl refl
Where-cases (some (comparison column op v)) = inr (column, op, v, refl)
Where-cases (some (both l r)) = inl refl
Where-cases (some (either l r)) = inl refl

-- What SELECT collects depends on its condition alone.
abbrev collect_of : Option Predicate → Table → Result (List Row)
collect_of c t =
    collect_rows none
      (record {
        table = [];
        join = none;
        columns = [];
        where_clause = c;
        order_by = none;
        limit = none;
      })
      t

by_range :
    (column : Text) (op : ComparisonOperator) (v : Value) (t : Table)
    → IsValid t
    → IsComparable v
    → is_equal op ≡ false
    → is_range op ≡ true
    → SameRows
        (collect_of (some (comparison column op v)) t)
        (scan (some (comparison column op v)) t (rows_snapshot t))
unfolding collect_rows rows_snapshot_for_read plan_select read_version
by_range column op v t w g n r =
    let p = some (comparison column op v) in
    let scanned = scan p t (rows_snapshot t) in
    let ranged = through_index none t (ordered_lookup column op v t) scanned in
    elim (Bool-cases (has_ordered_index column t)) [
      | inl here ↦
          let e : ranged ≡ collect_of p t = ground (arith, here) in
          subst (λ x. SameRows x scanned) e (through_ordered column op v t w g)
      | inr missing ↦
          let e : scanned ≡ collect_of p t = ground (arith, missing) in
          subst (λ x. SameRows x scanned) e (SameRows-refl scanned)
    ]

by_comparison :
    (column : Text) (op : ComparisonOperator) (v : Value) (t : Table)
    → IsValid t
    → IsComparable v
    → SameRows
        (collect_of (some (comparison column op v)) t)
        (scan (some (comparison column op v)) t (rows_snapshot t))
unfolding collect_rows rows_snapshot_for_read plan_select read_version
by_comparison column equal v t w g =
    let p = some (comparison column equal v) in
    let scanned = scan p t (rows_snapshot t) in
    let hashed = through_index none t (indexed_lookup column v t) scanned in
    elim (Bool-cases (has_index column t)) [
      | inl here ↦
          let e : hashed ≡ collect_of p t = ground (arith, here) in
          subst (λ r. SameRows r scanned) e (through_hash column v t w)
      | inr missing ↦
          let e : scanned ≡ collect_of p t = ground (arith, missing) in
          subst (λ r. SameRows r scanned) e (SameRows-refl scanned)
    ]
by_comparison column greater v t w g = by_range column greater v t w g refl refl
by_comparison column less v t w g = by_range column less v t w g refl refl

-- Outside a transaction, on a valid table and by a condition that compares with no NaN, the rows that
-- SELECT collects are those of a full scan by its condition, up to their order, and it throws where the
-- scan throws, whichever access path the planner takes.
pub collect_rows-scan :
    (query : Select) (t : Table)
    → IsValid t
    → HasNoNan query.where_clause
    → SameRows (collect_rows none query t) (scan query.where_clause t (rows_snapshot t))
unfolding collect_rows rows_snapshot_for_read plan_select read_version
collect_rows-scan query t w g = elim (Where-cases query.where_clause) [
  | inl plain ↦
      subst (λ r. SameRows r (scan query.where_clause t (rows_snapshot t)))
        (let e : scan query.where_clause t (rows_snapshot t) ≡ collect_rows none query t =
            ground (arith, plain) in
          e)
        (SameRows-refl (scan query.where_clause t (rows_snapshot t)))
  | inr (column, op, v, e) ↦
      subst (λ c. HasNoNan c → SameRows (collect_of c t) (scan c t (rows_snapshot t))) (sym e)
        (by_comparison column op v t w) g
]
