-- ===== src/Table/Changes.antt =====
-- Erasing and updating rows keep a table valid, and change the rows as they say or not at all.
use the_city_crdb.Common.{
  ℕ, zero, suc, updated_type_mismatch, row_type_mismatch, ◌+◌, ◌%◌, ◌^◌, ◌≤◌, ◌<◌, ◌≡◌, ◌∙◌, refl,
  ap, true, false, some, List, [], ◌∷◌, arith, length, get_elem?, set, erase_idx, ok, length-set,
  get_elem?-some, get_elem?-set_self, Error,
}
use the_city_crdb.Common.OrdMap.{All}
use the_city_crdb.Mvcc
use the_city_crdb.RowStore
use the_city_crdb.RowStore.Refinement
use the_city_crdb.RowStore.Vector
use the_city_crdb.RowStore.{PageRowStore}
use the_city_crdb.Table.{Table, rows_snapshot}
use the_city_crdb.Table.Indexing.{check_value, check_values, validate_row}
use the_city_crdb.Table.Indexed.{with_indexes, rebuild_lem}
use the_city_crdb.Table.Mutation.{erase, update, write_cell}
use the_city_crdb.Value.{Value, Row, RowId, Column}
use the_city_crdb.Value.Order.{IsComparable}
use the_city_crdb.Table.Correct.{
  IsValid, Found-sorted, All-erase_idx, All-set, All-at, versioned, write_version_lem,
}

-- What an erasure in range does.
abbrev pub Erases : RowId → Table → Type 0
Erases row_id t =
    (t' : Table) × (erase row_id t ≡ ok (t', true))
    × IsValid t'
    × (rows_snapshot t' ≡ erase_idx (rows_snapshot t) row_id)
    × (t'.schema ≡ t.schema)
    × (t'.versions ≡ Mvcc.erase row_id t.next_version_id t.versions)

-- Erasing a row id in range from a valid table succeeds, takes that row out of the rows, keeps the
-- schema, marks the row's last version, and leaves a valid table, whose indexes hold the rows under
-- their new ids.
pub erase-Erases :
    (row_id : RowId) (t : Table) → IsValid t → row_id < length (rows_snapshot t) → Erases row_id t
unfolding erase rows_snapshot validate_row
erase-Erases row_id t v h =
    let rows = RowStore.snapshot t.row_store in
    let store = (RowStore.erase row_id t.row_store).0 in
    let (s, both) = Refinement.erase_lem row_id t.row_store v.store in
    let out : Vector.erase row_id rows ≡ (erase_idx rows row_id, true) =
      unfold Vector.erase in ground arith in
    let r : RowStore.snapshot store ≡ erase_idx rows row_id = ap (λ p. p.0) (both ∙ out) in
    let b : (RowStore.erase row_id t.row_store).1 ≡ true = ap (λ p. p.1) (both ∙ out) in
    let t1 : Table = record t {
      row_store = store;
      versions = Mvcc.erase row_id t.next_version_id t.versions;
      next_version_id = (t.next_version_id + 1) % 2 ^ 64;
    } in
    let a : All (All IsComparable) (RowStore.snapshot store) =
      rw r (All-erase_idx (All IsComparable) rows row_id v.comparable) in
    let (hs, os, p, w) =
      rebuild_lem rows t1 s a (Found-sorted t.index_columns v.sorted) v.indexed in
    (
      with_indexes t1 hs os,
      ground (arith, b, p, Refinement.size-snapshot t.row_store v.store),
      record {
        store = s;
        fits = rw r (All-erase_idx (λ x. validate_row x t ≡ ok tt) rows row_id v.fits);
        comparable = a;
        sorted = v.sorted;
        in_schema = v.in_schema;
        indexed = w;
      },
      r,
      refl,
      refl,
    )

-- A row with a cell of the column's type, or NULL where that is allowed, still fits.
check_value_any :
    (e f : Error) (value : Value) (column : Column)
    → check_value e value column ≡ ok tt
    → check_value f value column ≡ ok tt
unfolding check_value
check_value_any e f value column h = ground arith

check_values-set :
    (row : Row) (schema : List Column) (index : ℕ) (value : Value) (column : Column)
    → check_values row schema ≡ ok tt
    → get_elem? schema index ≡ some column
    → check_value updated_type_mismatch value column ≡ ok tt
    → check_values (set row index value) schema ≡ ok tt
unfolding check_values
check_values-set [] schema index value column h g c = refl
check_values-set (v ∷ row) [] index value column h g c = absurd (ground arith)
check_values-set (v ∷ row) (d ∷ schema) zero value column h g c =
    ground (arith, check_value_any updated_type_mismatch row_type_mismatch value column c)
check_values-set (v ∷ row) (d ∷ schema) (suc index) value column h g c =
    ground (arith, check_values-set row schema index value column)

validate_row-set :
    (row : Row) (index : ℕ) (value : Value) (column : Column) (t : Table)
    → validate_row row t ≡ ok tt
    → get_elem? t.schema index ≡ some column
    → check_value updated_type_mismatch value column ≡ ok tt
    → validate_row (set row index value) t ≡ ok tt
unfolding validate_row
validate_row-set row index value column t h g c =
    ground (arith, length-set row index value, check_values-set row t.schema index value column)

-- What an update in range by a value of the column does.
abbrev pub Updates : RowId → ℕ → Value → Table → Type 0
Updates row_id index value t =
    (t' : Table) × (row : Row) × (get_elem? (rows_snapshot t) row_id ≡ some row)
    × (update row_id index value t ≡ ok (t', true))
    × IsValid t'
    × (rows_snapshot t' ≡ set (rows_snapshot t) row_id (set row index value))
    × (t'.schema ≡ t.schema)
    × (t'.versions ≡ Mvcc.write row_id (set row index value) t.next_version_id t.versions)

-- Updating a cell of a valid table, with a row id and a column in range, by a value that the column
-- takes and that is no NaN, succeeds, writes that cell only and one version of the row, keeps the
-- schema, and leaves a valid table, whose indexes hold the new rows.
pub update-Updates :
    (row_id : RowId) (index : ℕ) (value : Value) (column : Column) (t : Table)
    → IsValid t
    → row_id < length (rows_snapshot t)
    → get_elem? t.schema index ≡ some column
    → check_value updated_type_mismatch value column ≡ ok tt
    → IsComparable value
    → Updates row_id index value t
unfolding update write_cell rows_snapshot
update-Updates row_id index value column t v h g c n =
    let rows = RowStore.snapshot t.row_store in
    let (row, e) = get_elem?-some rows row_id h in
    let got : RowStore.get row_id t.row_store ≡ some row =
      Refinement.get-snapshot row_id t.row_store v.store
      ∙ (unfold Vector.get in ground (arith, e)) in
    let new = set row index value in
    let (store, p, s, r) = Refinement.update_lem row_id new t.row_store v.store h in
    let got' : RowStore.get row_id store ≡ some new =
      Refinement.get-snapshot row_id store s
      ∙ ap (Vector.get row_id) r
      ∙ (unfold Vector.get in
          ground (arith, get_elem?-set_self rows row_id new h, length-set rows row_id new)) in
    let t1 = versioned row_id new store t in
    let a : All (All IsComparable) (RowStore.snapshot store) = rw r (
      All-set (All IsComparable) rows row_id new v.comparable (
        All-set IsComparable row index value
          (All-at (All IsComparable) rows row_id row v.comparable e) n)) in
    let (hs, os, q, w) =
      rebuild_lem rows t1 s a (Found-sorted t.index_columns v.sorted) v.indexed in
    (
      with_indexes t1 hs os,
      row,
      e,
      ground (
        arith,
        g,
        c,
        got,
        p,
        q,
        write_version_lem row_id new store t got',
        Refinement.size-snapshot t.row_store v.store,
      ),
      record {
        store = s;
        fits =
            unfold validate_row in
            rw r (
              All-set (λ x. validate_row x t ≡ ok tt) rows row_id new v.fits
                (validate_row-set row index value column t
                  (All-at (λ x. validate_row x t ≡ ok tt) rows row_id row v.fits e) g c));
        comparable = a;
        sorted = v.sorted;
        in_schema = v.in_schema;
        indexed = w;
      },
      r,
      refl,
      refl,
    )

-- On a valid table, an erasure and an update by a row id out of range change nothing and return false.
pub out_of_range_lem :
    (row_id : RowId) (index : ℕ) (value : Value) (t : Table)
    → IsValid t
    → length (rows_snapshot t) ≤ row_id
    → (erase row_id t ≡ ok (t, false)) × (update row_id index value t ≡ ok (t, false))
unfolding erase update rows_snapshot
out_of_range_lem row_id index value t v h =
    ground (arith, Refinement.size-snapshot t.row_store v.store)
