-- ===== src/Table/Contents.antt =====
-- What one index of a table holds: the rows of each value, as the rows stand in the store.
use the_city_crdb.Common.{
  ℕ, zero, suc, ◌+◌, ◌≡◌, ◌∙◌, ap, Bool, List, [], ◌∷◌, ◌++◌, arith, if◌then◌else◌, length, count,
  count-append, append-nil,
}
use the_city_crdb.BTreeIndex
use the_city_crdb.BTreeIndex.{BTreeIndex}
use the_city_crdb.BTreeIndex.Search
use the_city_crdb.BTreeIndex.Updates
use the_city_crdb.Common.OrdMap.{All}
use the_city_crdb.HashIndex
use the_city_crdb.HashIndex.{HashIndex}
use the_city_crdb.HashIndex.Lookup
use the_city_crdb.Table.{cell}
use the_city_crdb.Value.{Value, Row, RowId, value_eq, value_lt}
use the_city_crdb.Value.Order.{IsComparable}

-- The ids of the rows that pass a test, ascending: what a full scan selects.
unfoldable pub matching_ids : (Row → Bool) → RowId → List Row → List RowId
matching_ids p start [] = []
matching_ids p start (row ∷ rows) =
    if p row then start ∷ matching_ids p (suc start) rows else matching_ids p (suc start) rows

matching_ids-append :
    (p : Row → Bool) (start : ℕ) (rows : List Row) (row : Row)
    → matching_ids p start (rows ++ row ∷ [])
      ≡ matching_ids p start rows ++ (if p row then (start + length rows) ∷ [] else [])
unfolding matching_ids
matching_ids-append p start [] row = ground arith
matching_ids-append p start (r ∷ rows) row =
    ground (arith, matching_ids-append p (suc start) rows row)

abbrev pub HashOk : List Row → ℕ → HashIndex → Type 0
HashOk rows column index =
    (v : Value) → HashIndex.find v index ≡ matching_ids (λ row. value_eq (cell row column) v) 0 rows

pub record OrderedOk (rows : List Row) (column : ℕ) (index : BTreeIndex) : Type 0 where
  pub valid : Search.IsValid index
  pub found :
      (v : Value)
      → IsComparable v
      → BTreeIndex.find v index ≡ matching_ids (λ row. value_eq (cell row column) v) 0 rows
  pub below :
      (v : Value)
      → IsComparable v
      → (i : ℕ)
      → count i (BTreeIndex.less_than v index)
        ≡ count i (matching_ids (λ row. value_lt (cell row column) v) 0 rows)
  pub above :
      (v : Value)
      → IsComparable v
      → (i : ℕ)
      → count i (BTreeIndex.greater_than v index)
        ≡ count i (matching_ids (λ row. value_lt v (cell row column)) 0 rows)

pub cell-IsComparable : (row : Row) (i : ℕ) → All IsComparable row → IsComparable (cell row i)
cell-IsComparable [] i a = tt
cell-IsComparable (v ∷ row) zero a = a.0
cell-IsComparable (v ∷ row) (suc i) a = cell-IsComparable row i a.1

module _ (rows : List Row) (row : Row) (column : ℕ) where
  pub insert-HashOk :
      (index : HashIndex)
      → HashOk rows column index
      → HashOk (rows ++ row ∷ []) column (HashIndex.insert (cell row column) (length rows) index)
  insert-HashOk index h v = ground (
    arith,
    Lookup.find-insert_hash (cell row column) v (length rows) index,
    h v,
    matching_ids-append (λ r. value_eq (cell r column) v) 0 rows row,
    append-nil (matching_ids (λ r. value_eq (cell r column) v) 0 rows),
  )

  pub insert-OrderedOk :
      {index : BTreeIndex}
      → All IsComparable row
      → OrderedOk rows column index
      → OrderedOk
          (rows ++ row ∷ [])
          column
          (BTreeIndex.insert (cell row column) (length rows) index)
  insert-OrderedOk {index} a o =
      let k = cell row column in
      let id = length rows in
      let gk = cell-IsComparable row column a in
      record {
        valid = Updates.insert-IsValid k id gk o.valid;
        found = λ v gv. ground (
          arith,
          Updates.find-insert k v id o.valid gk gv,
          o.found v gv,
          matching_ids-append (λ r. value_eq (cell r column) v) 0 rows row,
          append-nil (matching_ids (λ r. value_eq (cell r column) v) 0 rows),
        );
        below = λ v gv i. ground (
          arith,
          Updates.count-less_than-insert k v id i o.valid gk gv,
          o.below v gv i,
          matching_ids-append (λ r. value_lt (cell r column) v) 0 rows row,
          count-append i (matching_ids (λ r. value_lt (cell r column) v) 0 rows) (id ∷ []),
          append-nil (matching_ids (λ r. value_lt (cell r column) v) 0 rows),
        );
        above = λ v gv i. ground (
          arith,
          Updates.count-greater_than-insert k v id i o.valid gk gv,
          o.above v gv i,
          matching_ids-append (λ r. value_lt v (cell r column)) 0 rows row,
          count-append i (matching_ids (λ r. value_lt v (cell r column)) 0 rows) (id ∷ []),
          append-nil (matching_ids (λ r. value_lt v (cell r column)) 0 rows),
        );
      }

pub empty-OrderedOk :
    (column : ℕ) {index : BTreeIndex}
    → Search.IsValid index
    → index.entries ≡ []
    → OrderedOk [] column index
unfolding matching_ids Search.rows_where HashIndex.find
empty-OrderedOk column {index} v e = record {
  valid = v;
  found = λ q g. Search.find-entries v q ∙ ap (HashIndex.find q) e;
  below = λ q g i.
      ap (count i) (Search.less_than-rows_where v q ∙ ap (Search.rows_where (λ j. value_lt j q)) e);
  above = λ q g i.
      ap (count i)
        (Search.greater_than-rows_where v q ∙ ap (Search.rows_where (λ j. value_lt q j)) e);
}
