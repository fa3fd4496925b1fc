-- ===== src/Table/Indexing.antt =====
-- Row validation and index maintenance of src/storage/table.cpp.
use the_city_crdb.Common.{
  ℕ, zero, suc, not, none, some, List, [], ◌∷◌, Text, ◌==◌, if◌then◌else◌, length, Result, ok, err,
  ◌>>=◌, Error, null_in_non_nullable, row_width_mismatch, row_type_mismatch,
}
use the_city_crdb.BTreeIndex
use the_city_crdb.BTreeIndex.{BTreeIndex, Entries}
use the_city_crdb.HashIndex
use the_city_crdb.HashIndex.{HashIndex}
use the_city_crdb.RowStore
use the_city_crdb.RowStore.{PageRowStore, default_store}
use the_city_crdb.Value.{Value, Row, RowId, Column, is_null, value_type, type_code}
use the_city_crdb.Table.{Table, cell, at_name}

-- NULL wants a nullable column, and any other value one of its type.
unfoldable pub check_value : Error → Value → Column → Result (Unit {0})
check_value mismatch value column =
    if is_null value
    then (if column.nullable then ok tt else err null_in_non_nullable)
    else value_type value >>= λ type.
        if type_code type == type_code column.type then ok tt else err mismatch

unfoldable pub check_values : Row → List Column → Result (Unit {0})
unfolding check_value
check_values [] schema = ok tt
check_values (v ∷ vs) [] = ok tt
check_values (v ∷ vs) (c ∷ schema) =
    check_value row_type_mismatch v c >>= λ _. check_values vs schema

unfoldable pub validate_row : Row → Table → Result (Unit {0})
unfolding check_values
validate_row row t =
    if not (length row == length t.schema)
    then err row_width_mismatch
    else check_values row t.schema

unfoldable pub hash_insert_all :
    List (Text × ℕ) → Row → RowId → List (Text × HashIndex) → Result (List (Text × HashIndex))
unfolding at_name
hash_insert_all columns row row_id [] = ok []
hash_insert_all columns row row_id ((name, index) ∷ rest) = at_name name columns >>= λ column.
    hash_insert_all columns row row_id rest >>= λ done.
    ok ((name, HashIndex.insert (cell row column) row_id index) ∷ done)

unfoldable pub ordered_insert_all :
    List (Text × ℕ) → Row → RowId → List (Text × BTreeIndex) → Result (List (Text × BTreeIndex))
unfolding at_name
ordered_insert_all columns row row_id [] = ok []
ordered_insert_all columns row row_id ((name, index) ∷ rest) = at_name name columns >>= λ column.
    ordered_insert_all columns row row_id rest >>= λ done.
    ok ((name, BTreeIndex.insert (cell row column) row_id index) ∷ done)

unfoldable pub add_row_to_indexes : RowId → Table → Result Table
unfolding hash_insert_all ordered_insert_all
add_row_to_indexes row_id t = elim (RowStore.get row_id t.row_store) [
  | none ↦ ok t
  | some row ↦ hash_insert_all t.index_columns row row_id t.indexes >>= λ hs.
      ordered_insert_all t.index_columns row row_id t.ordered_indexes >>= λ os.
      ok (record t { indexes = hs; ordered_indexes = os })
]

unfoldable pub clear_hash : List (Text × HashIndex) → List (Text × HashIndex)
clear_hash [] = []
clear_hash ((name, index) ∷ rest) = (name, []) ∷ clear_hash rest

unfoldable pub clear_ordered : List (Text × BTreeIndex) → List (Text × BTreeIndex)
clear_ordered [] = []
clear_ordered ((name, index) ∷ rest) = (name, BTreeIndex.clear index) ∷ clear_ordered rest

-- `for (RowId rowId = …; rowId < size; ++rowId)`, by the rounds that are left.
unfoldable pub add_rows : ℕ → RowId → Table → Result Table
add_rows zero row_id t = ok t
add_rows (suc rounds) row_id t =
    add_row_to_indexes row_id t >>= λ t'. add_rows rounds (suc row_id) t'

unfoldable pub rebuild_indexes : Table → Result Table
unfolding clear_hash clear_ordered add_rows add_row_to_indexes
rebuild_indexes t =
    add_rows (RowStore.size t.row_store) 0 (record t {
      indexes = clear_hash t.indexes;
      ordered_indexes = clear_ordered t.ordered_indexes;
    })
