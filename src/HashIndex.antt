-- ===== src/HashIndex.antt =====
-- The hash index: include/VertexDB/indexing/hash_index.hpp and src/indexing/hash_index.cpp.
-- `std::unordered_map` compares keys by `==`; its order of entries and its hash are never observed.
pub mod Lookup
use the_city_crdb.Common.{
  ℕ, Bool, Option, none, some, List, [], ◌∷◌, ◌++◌, ◌==◌, if◌then◌else◌, length,
}
use the_city_crdb.Value.{Value, RowId, value_eq}

abbrev pub HashIndex : Type 0
HashIndex = List (Value × List RowId)

abbrev pub empty_index : HashIndex
empty_index = []

-- `entries_[key].push_back(rowId)`
unfoldable pub insert : Value → RowId → HashIndex → HashIndex
insert key row_id [] = (key, row_id ∷ []) ∷ []
insert key row_id ((k, ids) ∷ entries) =
    let rest = insert key row_id entries in
    if value_eq k key then (k, ids ++ row_id ∷ []) ∷ entries else (k, ids) ∷ rest

-- `std::erase(rowIds, rowId)`
unfoldable pub erase_id : RowId → List RowId → List RowId
erase_id row_id [] = []
erase_id row_id (i ∷ ids) = let rest = erase_id row_id ids in if i == row_id then rest else i ∷ rest

-- An entry that holds no row is taken out.
keep_entry : Value → List RowId → HashIndex → HashIndex
keep_entry k [] entries = entries
keep_entry k (i ∷ ids) entries = (k, i ∷ ids) ∷ entries

unfoldable pub remove : Value → RowId → HashIndex → HashIndex
unfolding keep_entry
remove key row_id [] = []
remove key row_id ((k, ids) ∷ entries) =
    let rest = remove key row_id entries in
    if value_eq k key then keep_entry k (erase_id row_id ids) entries else (k, ids) ∷ rest

unfoldable pub find : Value → HashIndex → List RowId
find key [] = []
find key ((k, ids) ∷ entries) = let rest = find key entries in if value_eq k key then ids else rest

unfoldable pub size : HashIndex → ℕ
size entries = length entries
