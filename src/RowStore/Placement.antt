-- ===== src/RowStore/Placement.antt =====
-- Slots that point into their pages, and what a row at the end of a page changes.
use the_city_crdb.Common.{
  ℕ, zero, suc, ◌<◌, ◌≡◌, refl, ap, Bool, false, none, some, List, [], ◌∷◌, ◌++◌, arith, ltb, ◌==◌,
  if◌then◌else◌, length, Bool-cases, inl, inr, get_elem?, length-append, get_elem?-append_left,
  get_elem?-some, ◌&&◌,
}
use the_city_crdb.Common.OrdMap
use the_city_crdb.Common.OrdMap.{find-upsert_ℕ}
use the_city_crdb.Value.{Row}
use the_city_crdb.RowStore.{Slot, page_rows, slot_row, slot_rows}

abbrev pub same_slot : Slot → Slot → Bool
same_slot a b = (a.page_id == b.page_id) && (a.offset == b.offset)

-- Every slot points into its page, and no two slots to one place.
abbrev pub SlotsOk : List (ℕ × List Row) → List Slot → Type 0
SlotsOk pages [] = Unit {0}
SlotsOk pages (slot ∷ slots) =
    (slot.offset < length (page_rows slot.page_id pages)) × SlotsOk pages slots

abbrev pub Fresh : Slot → List Slot → Type 0
Fresh slot [] = Unit {0}
Fresh slot (other ∷ slots) = (same_slot slot other ≡ false) × Fresh slot slots

abbrev pub IsDistinct : List Slot → Type 0
IsDistinct [] = Unit {0}
IsDistinct (slot ∷ slots) = Fresh slot slots × IsDistinct slots

pub page_rows-upsert :
    (k q : ℕ) (rows : List Row) (m : List (ℕ × List Row))
    → page_rows q (OrdMap.upsert ltb k (λ _. rows) m) ≡ (if k == q then rows else page_rows q m)
page_rows-upsert k q rows m = ground (arith, find-upsert_ℕ k q (λ _. rows) m)

pub slot_row-some :
    (pages : List (ℕ × List Row)) (slot : Slot)
    → slot.offset < length (page_rows slot.page_id pages)
    → (row : Row) × (slot_row pages slot ≡ some row)
unfolding slot_row
slot_row-some pages slot h = get_elem?-some (page_rows slot.page_id pages) slot.offset h

-- The slots of valid pages give the rows one by one.
pub get_elem?-slot_rows :
    (pages : List (ℕ × List Row)) (slots : List Slot) (i : ℕ)
    → SlotsOk pages slots
    → get_elem? (slot_rows pages slots) i
      ≡ (elim (get_elem? slots i) [ none ↦ none | some slot ↦ slot_row pages slot ])
unfolding slot_rows
get_elem?-slot_rows pages [] i v = refl
get_elem?-slot_rows pages (slot ∷ slots) zero v =
    let (row, e) = slot_row-some pages slot v.0 in ground (arith, e)
get_elem?-slot_rows pages (slot ∷ slots) (suc i) v =
    let (row, e) = slot_row-some pages slot v.0 in
    ground (arith, e, get_elem?-slot_rows pages slots i v.1)

pub length-slot_rows :
    (pages : List (ℕ × List Row)) (slots : List Slot)
    → SlotsOk pages slots
    → length (slot_rows pages slots) ≡ length slots
unfolding slot_rows
length-slot_rows pages [] v = refl
length-slot_rows pages (slot ∷ slots) v =
    let (row, e) = slot_row-some pages slot v.0 in
    ground (arith, e, length-slot_rows pages slots v.1)

-- A page that grows keeps the rows of its slots.
module _ (page : ℕ) (row : Row) (pages : List (ℕ × List Row)) where
  abbrev pub grown : List (ℕ × List Row)
  grown = OrdMap.upsert ltb page (λ _. page_rows page pages ++ row ∷ []) pages

  pub page_rows-grown :
      (q : ℕ)
      → page_rows q grown ≡ (if page == q then page_rows q pages ++ row ∷ [] else page_rows q pages)
  page_rows-grown q = elim (Bool-cases (page == q)) [
    | inl e ↦
        let p : page ≡ q = ground arith in
        rw (page_rows-upsert page q (page_rows page pages ++ row ∷ []) pages, e)
          (ap (λ k. page_rows k pages ++ row ∷ []) p)
    | inr e ↦ rw (page_rows-upsert page q (page_rows page pages ++ row ∷ []) pages, e) refl
  ]

  slot_row-grown :
      (slot : Slot)
      → slot.offset < length (page_rows slot.page_id pages)
      → slot_row grown slot ≡ slot_row pages slot
  unfolding slot_row
  slot_row-grown slot h = elim (Bool-cases (page == slot.page_id)) [
    | inl e ↦
        rw (page_rows-grown slot.page_id, e)
          (get_elem?-append_left (page_rows slot.page_id pages) (row ∷ []) slot.offset h)
    | inr e ↦ rw (page_rows-grown slot.page_id, e) refl
  ]

  pub SlotsOk-grown : (slots : List Slot) → SlotsOk pages slots → SlotsOk grown slots
  SlotsOk-grown [] v = tt
  SlotsOk-grown (slot ∷ slots) v = (
    ground (
      arith,
      page_rows-grown slot.page_id,
      length-append (page_rows slot.page_id pages) (row ∷ []),
      v.0,
    ),
    SlotsOk-grown slots v.1,
  )

  pub slot_rows-grown :
      (slots : List Slot) → SlotsOk pages slots → slot_rows grown slots ≡ slot_rows pages slots
  unfolding slot_rows
  slot_rows-grown [] v = refl
  slot_rows-grown (slot ∷ slots) v =
      ground (arith, slot_row-grown slot v.0, slot_rows-grown slots v.1)
