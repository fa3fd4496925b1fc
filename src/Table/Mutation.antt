-- ===== src/Table/Mutation.antt =====
-- The methods of src/storage/table.cpp that change a table.
use the_city_crdb.Common.{
  Bool, true, false, ◌+◌, ℕ, zero, suc, ◌+◌, ◌%◌, ◌^◌, Bool, true, false, not, Option, none, some,
  List, [], ◌∷◌, Text, text_lt, leb, if◌then◌else◌, get_elem?, set, Result, ok, err, ◌>>=◌,
  updated_type_mismatch, out_of_range,
}
use the_city_crdb.BTreeIndex
use the_city_crdb.BTreeIndex.{BTreeIndex, Entries}
use the_city_crdb.Common.OrdMap
use the_city_crdb.HashIndex
use the_city_crdb.HashIndex.{HashIndex}
use the_city_crdb.Mvcc
use the_city_crdb.Mvcc.{Versions}
use the_city_crdb.RowStore
use the_city_crdb.RowStore.{PageRowStore, default_store}
use the_city_crdb.Value.{Value, Row, RowId}
use the_city_crdb.Table.{Table, column_index, cell}
use the_city_crdb.Table.Indexing.{check_value, validate_row, add_row_to_indexes, rebuild_indexes}

-- `versions_.write(rowId, *rowStore_->get(rowId), nextVersionTransactionId_++)`
unfoldable pub write_version : RowId → Table → Table
write_version row_id t = elim (RowStore.get row_id t.row_store) [
  | none ↦ t
  | some row ↦ record t {
    versions = Mvcc.write row_id row t.next_version_id t.versions;
    next_version_id = (t.next_version_id + 1) % 2 ^ 64;
  }
]

unfoldable pub insert : Row → Table → Result (Table × RowId)
unfolding validate_row write_version add_row_to_indexes
insert row t = validate_row row t >>= λ _.
    let (store, row_id) = RowStore.append row t.row_store in
    add_row_to_indexes row_id (write_version row_id (record t { row_store = store })) >>= λ t'.
    ok (t', row_id)

unfoldable pub erase : RowId → Table → Result (Table × Bool)
unfolding rebuild_indexes
erase row_id t =
    if leb (RowStore.size t.row_store) row_id
    then ok (t, false)
    else (let (store, erased) = RowStore.erase row_id t.row_store in
        let t' : Table = record t {
          row_store = store;
          versions = Mvcc.erase row_id t.next_version_id t.versions;
          next_version_id = (t.next_version_id + 1) % 2 ^ 64;
        } in
        let rebuilt = rebuild_indexes t' >>= λ t''. ok (t'', true) in
        if not erased then ok (t', false) else rebuilt)

-- After the checks of `update`.
unfoldable pub write_cell : RowId → ℕ → Value → Table → Result (Table × Bool)
unfolding write_version rebuild_indexes
write_cell row_id index value t = elim (RowStore.get row_id t.row_store) [
  | none ↦ err out_of_range
  | some row ↦ RowStore.update row_id (set row index value) t.row_store >>= λ r.
      let written : Table = record t { row_store = r.0 } in
      let rebuilt = rebuild_indexes (write_version row_id written) >>= λ t'. ok (t', true) in
      if not r.1 then ok (written, false) else rebuilt
]

unfoldable pub update : RowId → ℕ → Value → Table → Result (Table × Bool)
unfolding write_cell check_value
update row_id index value t =
    if leb (RowStore.size t.row_store) row_id
    then ok (t, false)
    else elim (get_elem? t.schema index) [
      | none ↦ ok (t, false)
      | some column ↦
          check_value updated_type_mismatch value column >>= λ _. write_cell row_id index value t
    ]

-- The loop of `createIndex` over the rows.
unfoldable pub index_rows :
    ℕ → ℕ → RowId → PageRowStore → HashIndex × BTreeIndex → HashIndex × BTreeIndex
index_rows zero column row_id store ix = ix
index_rows (suc rounds) column row_id store (hash, ordered) =
    let row : Row = elim (RowStore.get row_id store) [ none ↦ [] | some found ↦ found ] in
    index_rows rounds column (suc row_id) store (
      HashIndex.insert (cell row column) row_id hash,
      BTreeIndex.insert (cell row column) row_id ordered,
    )

-- A B+ tree with the default capacity of 64 keys in a leaf.
abbrev pub empty_btree : BTreeIndex
empty_btree =
    BTreeIndex.rebuild_layout (record { entries = []; max_keys_per_leaf = 64; nodes = [] })

abbrev pub keep_or {ℓ} : {A : Type ℓ} → A → Option A → A
keep_or a none = a
keep_or a (some old) = old

unfoldable pub create_index : Text → Text → Table → Table × Bool
unfolding index_rows
create_index name column t = elim (column_index column t) [
  | none ↦ (t, false)
  | some index_column ↦
      let (hash, ordered) =
        index_rows (RowStore.size t.row_store) index_column 0 t.row_store ([], empty_btree) in
      let created : Table = record t {
        index_columns = OrdMap.upsert text_lt name (keep_or index_column) t.index_columns;
        indexes = OrdMap.upsert text_lt name (λ _. hash) t.indexes;
        ordered_indexes = OrdMap.upsert text_lt name (λ _. ordered) t.ordered_indexes;
      } in
      elim (OrdMap.find text_lt name t.indexes) [ none ↦ (created, true) | some _ ↦ (t, false) ]
]

unfoldable pub validate_all : List Row → Table → Result (Unit {0})
validate_all [] t = ok tt
validate_all (row ∷ rows) t = validate_row row t >>= λ _. validate_all rows t

unfoldable pub write_versions : ℕ → RowId → Table → Table
unfolding write_version
write_versions zero row_id t = t
write_versions (suc rounds) row_id t = write_versions rounds (suc row_id) (write_version row_id t)

unfoldable pub replace_rows : List Row → Table → Result Table
unfolding validate_all write_versions rebuild_indexes
replace_rows rows t = validate_all rows t >>= λ _.
    let store = RowStore.replace_rows rows t.row_store in
    rebuild_indexes (
      write_versions (RowStore.size store) 0
        (record t { row_store = store; versions = Mvcc.cleared; next_version_id = 1 }))
