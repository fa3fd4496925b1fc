-- ===== src/RowStore.antt =====
-- Row stores: include/VertexDB/storage/row_store.hpp and src/storage/row_store.cpp.
pub mod Vector
pub mod Placement
pub mod Slots
pub mod Refinement
use the_city_crdb.Common.{
  ℕ, suc, ◌+◌, ◌-◌, ◌/◌, Bool, true, false, Option, none, some, List, [], ◌∷◌, ◌++◌, ltb, leb, ◌==◌,
  if◌then◌else◌, length, get_elem?, set, erase_idx, Result, ok, err, zero_rows_per_page,
  out_of_range, ◌>>=◌,
}
use the_city_crdb.BufferPool
use the_city_crdb.BufferPool.{BufferPool, PageId, Page}
use the_city_crdb.Bytes.{page_bytes}
use the_city_crdb.Common.OrdMap
use the_city_crdb.Value.{Row, RowId}

pub record Slot : Type 0 where
  pub page_id : PageId
  pub offset : ℕ

pub record PageRowStore : Type 0 where
  pub rows_per_page : ℕ
  pub buffer_pool : BufferPool
  pub slots : List Slot
  pub pages : List (PageId × List Row)

abbrev pub rows_or_empty : Option (List Row) → List Row
rows_or_empty none = []
rows_or_empty (some rows) = rows

abbrev pub page_rows : PageId → List (PageId × List Row) → List Row
page_rows page_id pages = rows_or_empty (OrdMap.find ltb page_id pages)

unfoldable pub new_store : ℕ → ℕ → Result PageRowStore
new_store rows_per_page capacity = BufferPool.new_pool capacity >>= λ pool.
    if rows_per_page == 0
    then err zero_rows_per_page
    else ok (record { rows_per_page = rows_per_page; buffer_pool = pool; slots = []; pages = [] })

unfoldable pub serialize_page : PageId → List Row → Page
serialize_page page_id rows = record { id = page_id; bytes = page_bytes rows; dirty = true }

-- The rows of a page are written, and the page goes to the pool.
store_page : PageId → List Row → PageRowStore → PageRowStore
unfolding serialize_page
store_page page_id rows s = record s {
  pages = OrdMap.upsert ltb page_id (λ _. rows) s.pages;
  buffer_pool = BufferPool.put (serialize_page page_id rows) s.buffer_pool;
}

add_slot : Slot → PageRowStore → PageRowStore
add_slot slot s = record s { slots = s.slots ++ slot ∷ [] }

unfoldable pub append : Row → PageRowStore → PageRowStore × RowId
unfolding store_page add_slot
append row s =
    let row_id = length s.slots in
    let page_id = row_id / s.rows_per_page + 1 in
    let rows = page_rows page_id s.pages ++ row ∷ [] in
    (
      store_page page_id rows (add_slot (record { page_id = page_id; offset = length rows - 1 }) s),
      row_id,
    )

-- The row in a slot; a slot beyond its page has none.
unfoldable pub slot_row : List (PageId × List Row) → Slot → Option Row
slot_row pages slot = get_elem? (page_rows slot.page_id pages) slot.offset

unfoldable pub get : RowId → PageRowStore → Option Row
unfolding slot_row
get row_id s = elim (get_elem? s.slots row_id) [ none ↦ none | some slot ↦ slot_row s.pages slot ]

unfoldable pub slot_rows : List (PageId × List Row) → List Slot → List Row
unfolding slot_row
slot_rows pages [] = []
slot_rows pages (slot ∷ slots) = elim (slot_row pages slot) [
  | none ↦ slot_rows pages slots
  | some row ↦ row ∷ slot_rows pages slots
]

unfoldable pub snapshot : PageRowStore → List Row
unfolding slot_rows
snapshot s = slot_rows s.pages s.slots

unfoldable pub rows_by_id : List RowId → PageRowStore → List Row
unfolding get
rows_by_id [] s = []
rows_by_id (row_id ∷ row_ids) s = elim (get row_id s) [
  | none ↦ rows_by_id row_ids s
  | some row ↦ row ∷ rows_by_id row_ids s
]

unfoldable pub size : PageRowStore → ℕ
size s = length s.slots

append_all : List Row → PageRowStore → PageRowStore
unfolding append
append_all [] s = s
append_all (row ∷ rows) s = append_all rows (append row s).0

-- The pool keeps the pages that it has.
unfoldable pub replace_rows : List Row → PageRowStore → PageRowStore
unfolding append_all
replace_rows rows s = append_all rows (record s { pages = []; slots = [] })

unfoldable pub erase : RowId → PageRowStore → PageRowStore × Bool
unfolding snapshot replace_rows
erase row_id s =
    if leb (length s.slots) row_id
    then (s, false)
    else (replace_rows (erase_idx (snapshot s) row_id) s, true)

-- `pages_.at(…)` throws where there is no such page.
write_slot : Slot → Row → PageRowStore → Result PageRowStore
unfolding store_page
write_slot slot row s = elim (OrdMap.find ltb slot.page_id s.pages) [
  | none ↦ err out_of_range
  | some rows ↦ ok (store_page slot.page_id (set rows slot.offset row) s)
]

unfoldable pub update : RowId → Row → PageRowStore → Result (PageRowStore × Bool)
unfolding write_slot
update row_id row s = elim (get_elem? s.slots row_id) [
  | none ↦ ok (s, false)
  | some slot ↦ write_slot slot row s >>= λ s'. ok (s', true)
]

-- `makePageRowStore`
abbrev pub default_store : PageRowStore
default_store = record {
  rows_per_page = 256;
  buffer_pool = record { capacity = 128; lru = []; pages = [] };
  slots = [];
  pages = [];
}
