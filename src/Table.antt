-- ===== src/Table.antt =====
-- Tables: include/VertexDB/storage/table.hpp and src/storage/table.cpp. A method that throws is a
-- `Result`; nothing is changed by a call that throws. The table's lock is not modelled.
pub mod Indexing
pub mod Mutation
pub mod Contents
pub mod Indexed
pub mod Correct
pub mod Changes
pub mod Rebuilt
pub mod Created
pub mod Lookups
use the_city_crdb.Common.{
  ℕ, zero, suc, ◌+◌, ◌-◌, ◌%◌, ◌^◌, Bool, true, false, not, ◌||◌, Option, none, some, List, [], ◌∷◌,
  ◌++◌, Text, text_eq, text_lt, ltb, leb, ◌==◌, if◌then◌else◌, length, get_elem?, set, Result, ok,
  err, ◌>>=◌, Error, empty_table_name, empty_schema, null_in_non_nullable, row_width_mismatch,
  row_type_mismatch, updated_type_mismatch, out_of_range,
}
use the_city_crdb.BTreeIndex
use the_city_crdb.BTreeIndex.{BTreeIndex, Entries}
use the_city_crdb.Common.OrdMap
use the_city_crdb.HashIndex
use the_city_crdb.HashIndex.{HashIndex}
use the_city_crdb.Mvcc
use the_city_crdb.Mvcc.{Versions}
use the_city_crdb.RowStore
use the_city_crdb.RowStore.{PageRowStore, default_store}
use the_city_crdb.Transaction.{TransactionId}
use the_city_crdb.Value.{
  Value, null, Row, RowId, Column, ColumnType, ComparisonOperator, equal, greater, less, is_null,
  value_type, type_code,
}

pub record Table : Type 0 where
  pub name : Text
  pub schema : List Column
  pub row_store : PageRowStore
  pub index_columns : List (Text × ℕ)
  pub indexes : List (Text × HashIndex)
  pub ordered_indexes : List (Text × BTreeIndex)
  pub versions : Versions
  pub next_version_id : TransactionId

abbrev pub new_table_state : Text → List Column → Table
new_table_state name schema = record {
  name = name;
  schema = schema;
  row_store = default_store;
  index_columns = [];
  indexes = [];
  ordered_indexes = [];
  versions = [];
  next_version_id = 1;
}

-- The constructor.
unfoldable pub new_table : Text → List Column → Result Table
new_table [] schema = err empty_table_name
new_table (b ∷ name) [] = err empty_schema
new_table (b ∷ name) (c ∷ schema) = ok (new_table_state (b ∷ name) (c ∷ schema))

unfoldable pub column_index_from : ℕ → Text → List Column → Option ℕ
column_index_from i column [] = none
column_index_from i column (c ∷ schema) =
    let rest = column_index_from (suc i) column schema in
    if text_eq c.name column then some i else rest

unfoldable pub column_index : Text → Table → Option ℕ
unfolding column_index_from
column_index column t = column_index_from 0 column t.schema

unfoldable pub rows_snapshot : Table → List Row
rows_snapshot t = RowStore.snapshot t.row_store

unfoldable pub rows_snapshot_at : TransactionId → Table → List Row
rows_snapshot_at reader t = Mvcc.visible_rows reader t.versions

unfoldable pub rows_by_id : List RowId → Table → List Row
rows_by_id row_ids t = RowStore.rows_by_id row_ids t.row_store

unfoldable pub rows_by_id_at : List RowId → TransactionId → Table → List Row
rows_by_id_at row_ids reader t = Mvcc.visible_rows_by_id row_ids reader t.versions

unfoldable pub row_count : Table → ℕ
row_count t = RowStore.size t.row_store

-- `row[i]`; out of range it is undefined, and here NULL.
abbrev pub cell : Row → ℕ → Value
cell row i = elim (get_elem? row i) [ none ↦ null | some v ↦ v ]

-- `schema_[i].name == column`
unfoldable pub is_column : List Column → Text → ℕ → Bool
is_column schema column i = elim (get_elem? schema i) [
  | none ↦ false
  | some c ↦ text_eq c.name column
]

-- The loop over `indexColumns_`: the first index on the column, by name.
unfoldable pub index_on : List Column → Text → List (Text × ℕ) → Option Text
unfolding is_column
index_on schema column [] = none
index_on schema column ((name, i) ∷ rest) =
    let later = index_on schema column rest in
    if is_column schema column i then some name else later

-- `m.at(name)`
unfoldable pub at_name {ℓ} : {A : Type ℓ} → Text → List (Text × A) → Result A
at_name name m = elim (OrdMap.find text_lt name m) [ none ↦ err out_of_range | some a ↦ ok a ]

-- The lookups return `none` where no index is on the column.
unfoldable pub indexed_lookup : Text → Value → Table → Result (Option (List RowId))
unfolding index_on at_name
indexed_lookup column value t = elim (index_on t.schema column t.index_columns) [
  | none ↦ ok none
  | some name ↦ at_name name t.indexes >>= λ index. ok (some (HashIndex.find value index))
]

unfoldable pub find_indexed : Text → Value → Table → Result (List RowId)
unfolding indexed_lookup
find_indexed column value t =
    indexed_lookup column value t >>= λ result. ok (elim result [ none ↦ [] | some ids ↦ ids ])

abbrev pub lookup_by : ComparisonOperator → Value → BTreeIndex → List RowId
lookup_by equal value index = BTreeIndex.find value index
lookup_by greater value index = BTreeIndex.greater_than value index
lookup_by less value index = BTreeIndex.less_than value index

unfoldable pub ordered_lookup :
    Text → ComparisonOperator → Value → Table → Result (Option (List RowId))
unfolding index_on at_name
ordered_lookup column op value t = elim (index_on t.schema column t.index_columns) [
  | none ↦ ok none
  | some name ↦ at_name name t.ordered_indexes >>= λ index. ok (some (lookup_by op value index))
]

unfoldable pub has_index : Text → Table → Bool
unfolding index_on
has_index column t = elim (index_on t.schema column t.index_columns) [
  | none ↦ false
  | some _ ↦ true
]

unfoldable pub has_ordered_index : Text → Table → Bool
unfolding has_index
has_ordered_index column t = has_index column t

unfoldable pub list_indexes : Table → List Text
list_indexes t = OrdMap.keys t.indexes

definitions_from : List Column → List (Text × ℕ) → List (Text × Text)
definitions_from schema [] = []
definitions_from schema ((name, i) ∷ rest) = elim (get_elem? schema i) [
  | none ↦ definitions_from schema rest
  | some c ↦ (name, c.name) ∷ definitions_from schema rest
]

unfoldable pub index_definitions : Table → List (Text × Text)
unfolding definitions_from
index_definitions t = definitions_from t.schema t.index_columns

unfoldable pub version_count : RowId → Table → ℕ
version_count row_id t = Mvcc.version_count row_id t.versions
