-- ===== src/Mvcc/Reads.antt =====
-- What a read returns after a write and after an erase.
use mathlib.Core.List.{reverse, reverse-append}
use the_city_crdb.Common.{
  ℕ, ◌≡◌, refl, ap, ◌≤◌, Option-cases, Bool-cases, length-append, inl, inr, none, ◌+◌, some, List,
  [], ◌∷◌, ◌++◌, arith, ltb, leb, ◌==◌, if◌then◌else◌,
}
use the_city_crdb.Common.OrdMap.{find, find-upsert_ℕ}
use the_city_crdb.Value.{Row, RowId}
use the_city_crdb.Mvcc.{
  RowVersion, Versions, versions_or_empty, write, erase, mark_last, is_visible, first_visible, read,
  version_count,
}

abbrev pub history : RowId → Versions → List RowVersion
history k m = versions_or_empty (find ltb k m)

history-write :
    (k j tx : ℕ) (row : Row) (m : Versions)
    → history j (write k row tx m) ≡ (
        if k == j
        then history k m ++ record { created_by = tx; deleted_by = none; row = row } ∷ []
        else history j m)
unfolding write
history-write k j tx row m = ground (
  arith,
  find-upsert_ℕ k j
      (λ vs. versions_or_empty vs ++ record { created_by = tx; deleted_by = none; row = row } ∷ [])
      m,
)

read-history : (k r : ℕ) (m : Versions) → read k r m ≡ first_visible r (reverse (history k m))
unfolding read
read-history k r m = refl

-- A read after a write: the written row, for readers at or after the writer; for earlier readers and
-- other rows, what it was.
pub read-write :
    (k j tx r : ℕ) (row : Row) (m : Versions)
    → read j r (write k row tx m)
      ≡ (if k == j then (if leb tx r then some row else read k r m) else read j r m)
unfolding read first_visible is_visible
read-write k j tx r row m = rw history-write (elim (Bool-cases (k == j)) [
  | inl e ↦ rw e (rw reverse-append (ground arith))
  | inr e ↦ rw e refl
])

pub version_count-write :
    (k j tx : ℕ) (row : Row) (m : Versions)
    → version_count j (write k row tx m)
      ≡ (if k == j then version_count k m + 1 else version_count j m)
unfolding version_count
version_count-write k j tx row m = rw history-write (
    ground (
      arith,
      length-append (history k m) (record { created_by = tx; deleted_by = none; row = row } ∷ []),
    ))

mark_last-append :
    (tx : ℕ) (vs : List RowVersion) (v : RowVersion)
    → mark_last tx (vs ++ v ∷ []) ≡ vs ++ record v { deleted_by = some tx } ∷ []
unfolding mark_last
mark_last-append tx [] v = refl
mark_last-append tx (u ∷ []) v = refl
mark_last-append tx (u ∷ w ∷ vs) v = ap (◌∷◌ u) (mark_last-append tx (w ∷ vs) v)

history-erase :
    (k j tx : ℕ) (m : Versions)
    → history j (erase k tx m) ≡ (if k == j then mark_last tx (history k m) else history j m)
unfolding erase mark_last
history-erase k j tx m = elim (Option-cases (find ltb k m)) [
  | inl e ↦ ground arith
  | inr (vs, e) ↦ ground (arith, find-upsert_ℕ k j (λ _. mark_last tx vs) m)
]

first_visible-snoc :
    (r : ℕ) (vs : List RowVersion) (v : RowVersion)
    → first_visible r (reverse (vs ++ v ∷ []))
      ≡ (if is_visible r v then some v.row else first_visible r (reverse vs))
unfolding first_visible
first_visible-snoc r vs v = rw reverse-append refl

-- Erasing row `k`, whose newest version `v` is live and follows the versions `vs`. A reader before
-- the erasing transaction reads every row as before; a reader at or after it reads the newest of
-- `vs` that it sees in place of row `k`, and every other row as before.
pub read-erase :
    (k j tx r : ℕ) (vs : List RowVersion) (v : RowVersion) (m : Versions)
    → history k m ≡ vs ++ v ∷ []
    → v.deleted_by ≡ none
    → read j r (erase k tx m) ≡ (
        if k == j
        then (if leb tx r then first_visible r (reverse vs) else read k r m)
        else read j r m)
unfolding is_visible
read-erase k j tx r vs v m e live =
    rw (read-history j r (erase k tx m), history-erase)
      (elim (Bool-cases (k == j)) [
        | inl p ↦
            rw (p, e, mark_last-append)
              (ground (
                arith,
                first_visible-snoc r vs v,
                first_visible-snoc r vs (record v { deleted_by = some tx }),
                read-history k r m,
                ap (λ h. first_visible r (reverse h)) e,
              ))
        | inr p ↦ rw p (ground (arith, read-history j r m))
      ])

-- A row that was written once, and is then erased: it is gone for readers at or after the erasing
-- transaction and unchanged for readers before it.
pub read-erase_single :
    (k tx r : ℕ) (v : RowVersion) (m : Versions)
    → history k m ≡ v ∷ []
    → v.deleted_by ≡ none
    → read k r (erase k tx m) ≡ (if leb tx r then none else read k r m)
unfolding first_visible
read-erase_single k tx r v m e live = ground (arith, read-erase k k tx r [] v m e live)

-- A row that was written, updated and then erased: a reader at or after all three reads the row as
-- it was before the update.
pub read-erase_updated :
    (k t1 t2 t3 r : ℕ) (old new : Row) (m : Versions)
    → history k m ≡ []
    → t1 ≤ r
    → t3 ≤ r
    → read k r (erase k t3 (write k new t2 (write k old t1 m))) ≡ some old
unfolding first_visible is_visible
read-erase_updated k t1 t2 t3 r old new m e h1 h3 =
    let v1 : RowVersion = record { created_by = t1; deleted_by = none; row = old } in
    let v2 : RowVersion = record { created_by = t2; deleted_by = none; row = new } in
    ground (
      arith,
      read-erase k k t3 r (v1 ∷ []) v2 (write k new t2 (write k old t1 m)),
      history-write k k t2 new (write k old t1 m),
      history-write k k t1 old m,
      first_visible-snoc r [] v1,
    )
