-- ===== src/RowStore/Vector.antt =====
-- `VectorRowStore`: its state is its list of rows. (include/VertexDB/storage/row_store.hpp,
-- src/storage/row_store.cpp)
use the_city_crdb.Common.{
  ◌-◌, Bool, true, false, Option, none, some, List, [], ◌∷◌, ◌++◌, leb, if◌then◌else◌, length,
  get_elem?, set, erase_idx,
}
use the_city_crdb.Value.{Row, RowId}

unfoldable pub append : Row → List Row → List Row × RowId
append row rows = let rows' = rows ++ row ∷ [] in (rows', length rows' - 1)

unfoldable pub erase : RowId → List Row → List Row × Bool
erase row_id rows =
    if leb (length rows) row_id then (rows, false) else (erase_idx rows row_id, true)

unfoldable pub update : RowId → Row → List Row → List Row × Bool
update row_id row rows =
    if leb (length rows) row_id then (rows, false) else (set rows row_id row, true)

unfoldable pub get : RowId → List Row → Option Row
get row_id rows = if leb (length rows) row_id then none else get_elem? rows row_id

unfoldable pub rows_by_id : List RowId → List Row → List Row
unfolding get
rows_by_id [] rows = []
rows_by_id (row_id ∷ row_ids) rows = elim (get row_id rows) [
  | none ↦ rows_by_id row_ids rows
  | some row ↦ row ∷ rows_by_id row_ids rows
]
