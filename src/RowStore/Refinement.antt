-- ===== src/RowStore/Refinement.antt =====
-- The page-backed store implements the vector store: the snapshot of its pages is the vector.
use the_city_crdb.Common.{
  ◌+◌, ◌-◌, ◌≤◌, ◌<◌, ◌≡◌, ◌∙◌, refl, sym, ap, true, false, some, List, [], ◌∷◌, ◌++◌, arith, ltb,
  leb, length, Option-cases, Bool-cases, inl, inr, ok, get_elem?, set, erase_idx, length-append,
  get_elem?-append_last, get_elem?-some, get_elem?-none, append-nil, append_assoc, ◌/◌,
}
use the_city_crdb.Common.OrdMap
use the_city_crdb.Common.OrdMap.{find-upsert_ℕ}
use the_city_crdb.Value.{Row, RowId}
use the_city_crdb.BufferPool
use the_city_crdb.BufferPool.Refinement.{put-Puts}
use the_city_crdb.RowStore.{
  serialize_page, Slot, PageRowStore, page_rows, append, slot_row, slot_rows, get, snapshot,
  rows_by_id, size, append_all, replace_rows, erase, write_slot, update, store_page,
}
use the_city_crdb.RowStore.Vector
use the_city_crdb.RowStore.Slots.{
  SlotsOk-at, SlotsOk-append, slot_rows-append, IsDistinct-append, SlotsOk-written,
  slot_rows-written,
}
use the_city_crdb.RowStore.Placement.{
  SlotsOk, IsDistinct, grown, get_elem?-slot_rows, length-slot_rows, page_rows-grown, SlotsOk-grown,
  slot_rows-grown,
}

-- Every slot points into its page, no two slots to one place, and the pool is a valid one.
pub record IsValid (s : PageRowStore) : Type 0 where
  pub in_pages : SlotsOk s.pages s.slots
  pub distinct : IsDistinct s.slots
  pub pool : BufferPool.Recency.IsValid s.buffer_pool

pub size-snapshot : (s : PageRowStore) → IsValid s → size s ≡ length (snapshot s)
unfolding size snapshot
size-snapshot s v = sym (length-slot_rows s.pages s.slots v.in_pages)

-- Appending to a valid page store keeps it valid, adds the row behind all others, and returns the
-- number of the rows before as its id.
pub append_lem :
    (row : Row) (s : PageRowStore)
    → IsValid s
    → IsValid (append row s).0
      × (snapshot (append row s).0 ≡ snapshot s ++ row ∷ [])
      × ((append row s).1 ≡ length (snapshot s))
unfolding append snapshot slot_row
append_lem row s v =
    let page = length s.slots / s.rows_per_page + 1 in
    let before = page_rows page s.pages in
    let slot : Slot = record { page_id = page; offset = length (before ++ row ∷ []) - 1 } in
    let at_end : slot.offset ≡ length before = omega (arith, length-append before (row ∷ [])) in
    let now : page_rows page (grown page row s.pages) ≡ before ++ row ∷ [] =
      ground (arith, page_rows-grown page row s.pages page) in
    let found : slot_row (grown page row s.pages) slot ≡ some row =
      ap (λ rows. get_elem? rows slot.offset) now
      ∙ ap (get_elem? (before ++ row ∷ [])) at_end
      ∙ get_elem?-append_last before row in
    (
      record {
        in_pages =
            SlotsOk-append (grown page row s.pages) s.slots slot
              (SlotsOk-grown page row s.pages s.slots v.in_pages)
              (omega (arith, ap length now, length-append before (row ∷ [])));
        distinct = IsDistinct-append s.pages s.slots slot v.in_pages at_end v.distinct;
        pool = (put-Puts (serialize_page page (before ++ row ∷ [])) s.buffer_pool v.pool).0;
      },
      slot_rows-append (grown page row s.pages) s.slots slot row found
          ∙ ap (λ l. l ++ row ∷ []) (slot_rows-grown page row s.pages s.slots v.in_pages),
      sym (length-slot_rows s.pages s.slots v.in_pages),
    )

-- In a valid page store, a lookup by a row id is the lookup in the vector of the rows.
pub get-snapshot :
    (row_id : RowId) (s : PageRowStore) → IsValid s → get row_id s ≡ Vector.get row_id (snapshot s)
unfolding get snapshot Vector.get
get-snapshot row_id s v = ground (
  arith,
  get_elem?-slot_rows s.pages s.slots row_id v.in_pages,
  get_elem?-none (slot_rows s.pages s.slots) row_id,
)

pub rows_by_id-snapshot :
    (row_ids : List RowId) (s : PageRowStore)
    → IsValid s
    → rows_by_id row_ids s ≡ Vector.rows_by_id row_ids (snapshot s)
unfolding rows_by_id Vector.rows_by_id
rows_by_id-snapshot [] s v = refl
rows_by_id-snapshot (i ∷ ids) s v = ground (arith, get-snapshot i s v, rows_by_id-snapshot ids s v)

append_all_lem :
    (rows : List Row) (s : PageRowStore)
    → IsValid s
    → IsValid (append_all rows s) × (snapshot (append_all rows s) ≡ snapshot s ++ rows)
unfolding append_all
append_all_lem [] s v = (v, sym (append-nil (snapshot s)))
append_all_lem (row ∷ rows) s v =
    let (w, e, _) = append_lem row s v in
    let (w', e') = append_all_lem rows (append row s).0 w in
    (w', e' ∙ ap (λ l. l ++ rows) e ∙ append_assoc (snapshot s) (row ∷ []) rows)

pub replace_rows_lem :
    (rows : List Row) (s : PageRowStore)
    → IsValid s
    → IsValid (replace_rows rows s) × (snapshot (replace_rows rows s) ≡ rows)
unfolding replace_rows snapshot slot_rows
replace_rows_lem rows s v =
    append_all_lem rows (record s { pages = []; slots = [] })
      (record { in_pages = tt; distinct = tt; pool = v.pool })

-- Erasing from a valid page store keeps it valid, and does to its rows, and returns, what the vector
-- store does and returns.
pub erase_lem :
    (row_id : RowId) (s : PageRowStore)
    → IsValid s
    → IsValid (erase row_id s).0
      × ((snapshot (erase row_id s).0, (erase row_id s).1) ≡ Vector.erase row_id (snapshot s))
unfolding erase Vector.erase size
erase_lem row_id s v = elim (Bool-cases (leb (length s.slots) row_id)) [
  | inl e ↦ rw e (v, ground (arith, size-snapshot s v))
  | inr e ↦
      let (w, r) = replace_rows_lem (erase_idx (snapshot s) row_id) s v in
      rw e (w, ground (arith, r, size-snapshot s v))
]

write_slot_lem :
    (slot : Slot) (row : Row) (s : PageRowStore)
    → slot.offset < length (page_rows slot.page_id s.pages)
    → write_slot slot row s
      ≡ ok (store_page slot.page_id (set (page_rows slot.page_id s.pages) slot.offset row) s)
unfolding write_slot
write_slot_lem slot row s h = elim (Option-cases (OrdMap.find ltb slot.page_id s.pages)) [
  | inl n ↦ absurd (ground arith)
  | inr (rows, f) ↦ ground (arith, f)
]

update_slot :
    (row_id : RowId) (slot : Slot) (row : Row) (s : PageRowStore)
    → get_elem? s.slots row_id ≡ some slot
    → slot.offset < length (page_rows slot.page_id s.pages)
    → update row_id row s
      ≡ ok (store_page slot.page_id (set (page_rows slot.page_id s.pages) slot.offset row) s, true)
unfolding update
update_slot row_id slot row s e h = ground (arith, e, write_slot_lem slot row s h)

-- What an update in range does.
abbrev pub Updates : RowId → Row → PageRowStore → Type 0
Updates row_id row s =
    (s' : PageRowStore) × (update row_id row s ≡ ok (s', true))
    × IsValid s'
    × (snapshot s' ≡ set (snapshot s) row_id row)

-- Updating a row of a valid page store, by an id in range, succeeds, keeps the store valid, writes
-- that row and no other.
pub update_lem :
    (row_id : RowId) (row : Row) (s : PageRowStore)
    → IsValid s
    → row_id < length (snapshot s)
    → Updates row_id row s
unfolding store_page snapshot
update_lem row_id row s v h =
    let (slot, e) =
      get_elem?-some s.slots row_id (omega (arith, length-slot_rows s.pages s.slots v.in_pages)) in
    let inside : slot.offset < length (page_rows slot.page_id s.pages) =
      SlotsOk-at s.pages s.slots row_id slot v.in_pages e in
    let rows = set (page_rows slot.page_id s.pages) slot.offset row in
    (
      store_page slot.page_id rows s,
      update_slot row_id slot row s e inside,
      record {
        in_pages = SlotsOk-written slot row s.pages inside s.slots v.in_pages;
        distinct = v.distinct;
        pool = (put-Puts (serialize_page slot.page_id rows) s.buffer_pool v.pool).0;
      },
      slot_rows-written slot row s.pages inside s.slots row_id v.in_pages v.distinct e,
    )

pub update_out :
    (row_id : RowId) (row : Row) (s : PageRowStore)
    → IsValid s
    → length (snapshot s) ≤ row_id
    → update row_id row s ≡ ok (s, false)
unfolding update size
update_out row_id row s v h = ground (arith, get_elem?-none s.slots row_id, size-snapshot s v)
