-- ===== src/Mvcc.antt =====
-- Row versions: include/VertexDB/transaction/mvcc_row_store.hpp and
-- src/transaction/mvcc_row_store.cpp. The versions of a row stand oldest first.
pub mod Reads
use mathlib.Core.List.{reverse}
use the_city_crdb.Common.{
  ℕ, Bool, true, false, ◌&&◌, Option, none, some, List, [], ◌∷◌, ◌++◌, ltb, leb, if◌then◌else◌,
  length,
}
use the_city_crdb.Common.OrdMap.{find, upsert}
use the_city_crdb.Transaction.{TransactionId}
use the_city_crdb.Value.{Row, RowId}

pub record RowVersion : Type 0 where
  pub created_by : TransactionId
  pub deleted_by : Option TransactionId
  pub row : Row

-- `std::map<RowId, std::vector<RowVersion>>`
abbrev pub Versions : Type 0
Versions = List (RowId × List RowVersion)

abbrev pub versions_or_empty : Option (List RowVersion) → List RowVersion
versions_or_empty none = []
versions_or_empty (some vs) = vs

unfoldable pub write : RowId → Row → TransactionId → Versions → Versions
write row_id row tx =
    upsert ltb row_id
      (λ vs. versions_or_empty vs ++ record { created_by = tx; deleted_by = none; row = row } ∷ [])

-- `it->second.back().deletedBy = transactionId`, if there is a version.
unfoldable pub mark_last : TransactionId → List RowVersion → List RowVersion
mark_last tx [] = []
mark_last tx (v ∷ []) = record v { deleted_by = some tx } ∷ []
mark_last tx (v ∷ w ∷ vs) = v ∷ mark_last tx (w ∷ vs)

unfoldable pub erase : RowId → TransactionId → Versions → Versions
erase row_id tx versions = elim (find ltb row_id versions) [
  | none ↦ versions
  | some vs ↦ upsert ltb row_id (λ _. mark_last tx vs) versions
]

abbrev pub cleared : Versions
cleared = []

abbrev deleted_after : TransactionId → Option TransactionId → Bool
deleted_after reader none = true
deleted_after reader (some tx) = ltb reader tx

unfoldable pub is_visible : TransactionId → RowVersion → Bool
is_visible reader v = leb v.created_by reader && deleted_after reader v.deleted_by

-- The loop over `rbegin … rend`, which is handed the versions newest first.
unfoldable pub first_visible : TransactionId → List RowVersion → Option Row
first_visible reader [] = none
first_visible reader (v ∷ vs) =
    let rest = first_visible reader vs in if is_visible reader v then some v.row else rest

unfoldable pub read : RowId → TransactionId → Versions → Option Row
read row_id reader versions =
    first_visible reader (reverse (versions_or_empty (find ltb row_id versions)))

-- The rows that a list of identifiers reads, in its order.
unfoldable pub visible_rows_by_id : List RowId → TransactionId → Versions → List Row
visible_rows_by_id [] reader versions = []
visible_rows_by_id (row_id ∷ row_ids) reader versions =
    let rest = visible_rows_by_id row_ids reader versions in
    elim (read row_id reader versions) [ none ↦ rest | some row ↦ row ∷ rest ]

abbrev row_ids_of : Versions → List RowId
row_ids_of [] = []
row_ids_of ((row_id, _) ∷ versions) = row_id ∷ row_ids_of versions

unfoldable pub visible_rows : TransactionId → Versions → List Row
visible_rows reader versions = visible_rows_by_id (row_ids_of versions) reader versions

unfoldable pub version_count : RowId → Versions → ℕ
version_count row_id versions = length (versions_or_empty (find ltb row_id versions))
