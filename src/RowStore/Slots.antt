-- ===== src/RowStore/Slots.antt =====
-- The slots of a page-backed store: what their rows are after a page has grown or was written to.
use the_city_crdb.Common.{
  ℕ, zero, suc, ◌<◌, ◌≡◌, refl, ap, false, some, List, [], ◌∷◌, ◌++◌, arith, ltb, ◌==◌,
  if◌then◌else◌, length, Bool-cases, inl, inr, get_elem?, set, get_elem?-set_self, get_elem?-set_ne,
  length-set,
}
use the_city_crdb.Common.OrdMap
use the_city_crdb.Common.OrdMap.{find-upsert_ℕ}
use the_city_crdb.Value.{Row}
use mathlib.Core.Path.{subst}
use the_city_crdb.RowStore.{Slot, page_rows, slot_row, slot_rows}
use the_city_crdb.RowStore.Placement.{
  same_slot, SlotsOk, Fresh, IsDistinct, page_rows-upsert, slot_row-some,
}

pub SlotsOk-append :
    (pages : List (ℕ × List Row)) (slots : List Slot) (slot : Slot)
    → SlotsOk pages slots
    → slot.offset < length (page_rows slot.page_id pages)
    → SlotsOk pages (slots ++ slot ∷ [])
SlotsOk-append pages [] slot v h = (h, tt)
SlotsOk-append pages (s ∷ slots) slot v h = (v.0, SlotsOk-append pages slots slot v.1 h)

pub slot_rows-append :
    (pages : List (ℕ × List Row)) (slots : List Slot) (slot : Slot) (row : Row)
    → slot_row pages slot ≡ some row
    → slot_rows pages (slots ++ slot ∷ []) ≡ slot_rows pages slots ++ row ∷ []
unfolding slot_rows
slot_rows-append pages [] slot row h = ground (arith, h)
slot_rows-append pages (s ∷ slots) slot row h =
    ground (arith, slot_rows-append pages slots slot row h)

-- A slot at the end of a page is none of the slots that point into the pages.
pub IsDistinct-append :
    (pages : List (ℕ × List Row)) (slots : List Slot) (slot : Slot)
    → SlotsOk pages slots
    → slot.offset ≡ length (page_rows slot.page_id pages)
    → IsDistinct slots
    → IsDistinct (slots ++ slot ∷ [])
IsDistinct-append pages [] slot v h d = (tt, tt)
IsDistinct-append pages (s ∷ slots) slot v h d =
    (Fresh-append slots d.0, IsDistinct-append pages slots slot v.1 h d.1)
  where
    apart : same_slot s slot ≡ false
    apart = elim (Bool-cases (s.page_id == slot.page_id)) [
      | inl e ↦
          let p : s.page_id ≡ slot.page_id = ground arith in
          let q : length (page_rows s.page_id pages) ≡ length (page_rows slot.page_id pages) =
            ap (λ k. length (page_rows k pages)) p in
          ground (arith, v.0, q)
      | inr e ↦ rw e refl
    ]

    Fresh-append : (others : List Slot) → Fresh s others → Fresh s (others ++ slot ∷ [])
    Fresh-append [] f = (apart, tt)
    Fresh-append (o ∷ others) f = (f.0, Fresh-append others f.1)

-- A page in which the row of a slot is written.
module _ (slot : Slot) (row : Row) (pages : List (ℕ × List Row))
    (inside : slot.offset < length (page_rows slot.page_id pages)) where
  abbrev pub written : List (ℕ × List Row)
  written =
      OrdMap.upsert ltb slot.page_id (λ _. set (page_rows slot.page_id pages) slot.offset row) pages

  page_rows-written :
      (q : ℕ)
      → page_rows q written
        ≡ (if slot.page_id == q then set (page_rows q pages) slot.offset row else page_rows q pages)
  page_rows-written q = elim (Bool-cases (slot.page_id == q)) [
    | inl e ↦
        let p : slot.page_id ≡ q = ground arith in
        rw
          (
            page_rows-upsert slot.page_id q (set (page_rows slot.page_id pages) slot.offset row)
                pages,
            e,
          )
          (ap (λ k. set (page_rows k pages) slot.offset row) p)
    | inr e ↦
        rw
          (
            page_rows-upsert slot.page_id q (set (page_rows slot.page_id pages) slot.offset row)
                pages,
            e,
          )
          refl
  ]

  slot_row-written :
      (s : Slot) → slot_row written s ≡ (if same_slot slot s then some row else slot_row pages s)
  unfolding slot_row
  slot_row-written s = elim (Bool-cases (slot.page_id == s.page_id)) [
    | inl e ↦
        let p : slot.page_id ≡ s.page_id = ground arith in
        let n : length (page_rows slot.page_id pages) ≡ length (page_rows s.page_id pages) =
          ap (λ k. length (page_rows k pages)) p in
        rw (page_rows-written s.page_id, e)
          (elim (Bool-cases (slot.offset == s.offset)) [
            | inl o ↦
                let r : slot.offset ≡ s.offset = ground arith in
                rw (o, r)
                  (get_elem?-set_self (page_rows s.page_id pages) s.offset row (omega arith))
            | inr o ↦ rw o (get_elem?-set_ne (page_rows s.page_id pages) slot.offset s.offset row o)
          ])
    | inr e ↦ rw (page_rows-written s.page_id, e) refl
  ]

  pub SlotsOk-written : (slots : List Slot) → SlotsOk pages slots → SlotsOk written slots
  SlotsOk-written [] v = tt
  SlotsOk-written (s ∷ slots) v = (
    ground (
      arith,
      page_rows-written s.page_id,
      length-set (page_rows s.page_id pages) slot.offset row,
      v.0,
    ),
    SlotsOk-written slots v.1,
  )

  slot_rows-written-Fresh :
      (slots : List Slot) → Fresh slot slots → slot_rows written slots ≡ slot_rows pages slots
  unfolding slot_rows
  slot_rows-written-Fresh [] f = refl
  slot_rows-written-Fresh (s ∷ slots) f =
      ground (arith, slot_row-written s, slot_rows-written-Fresh slots f.1)

  Fresh-at :
      (s : Slot) (slots : List Slot) (i : ℕ)
      → Fresh s slots
      → get_elem? slots i ≡ some slot
      → same_slot s slot ≡ false
  Fresh-at s [] i f e = absurd (ground arith)
  Fresh-at s (t ∷ slots) zero f e = ground (arith, f.0)
  Fresh-at s (t ∷ slots) (suc i) f e = Fresh-at s slots i f.1 e

  pub slot_rows-written :
      (slots : List Slot) (i : ℕ)
      → SlotsOk pages slots
      → IsDistinct slots
      → get_elem? slots i ≡ some slot
      → slot_rows written slots ≡ set (slot_rows pages slots) i row
  unfolding slot_rows
  slot_rows-written [] i v d e = refl
  slot_rows-written (s ∷ slots) zero v d e =
      let (r, h) = slot_row-some pages s v.0 in
      let p : s ≡ slot = cc in
      let f : Fresh slot slots = subst (λ x. Fresh x slots) p d.0 in
      ground (arith, h, slot_row-written s, slot_rows-written-Fresh slots f)
  slot_rows-written (s ∷ slots) (suc i) v d e =
      let (r, h) = slot_row-some pages s v.0 in
      ground (
        arith,
        h,
        slot_row-written s,
        Fresh-at s slots i d.0 e,
        slot_rows-written slots i v.1 d.1 e,
      )

pub SlotsOk-at :
    (pages : List (ℕ × List Row)) (slots : List Slot) (i : ℕ) (slot : Slot)
    → SlotsOk pages slots
    → get_elem? slots i ≡ some slot
    → slot.offset < length (page_rows slot.page_id pages)
SlotsOk-at pages [] i slot v e = absurd (ground arith)
SlotsOk-at pages (s ∷ slots) zero slot v e =
    let p : s ≡ slot = cc in
    subst (λ (x : Slot). x.offset < length (page_rows x.page_id pages)) p v.0
SlotsOk-at pages (s ∷ slots) (suc i) slot v e = SlotsOk-at pages slots i slot v.1 e
