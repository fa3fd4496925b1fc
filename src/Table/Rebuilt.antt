-- ===== src/Table/Rebuilt.antt =====
-- Replacing all rows.
use the_city_crdb.Common.{
  ℕ, zero, suc, ◌≡◌, ◌∙◌, refl, ap, List, [], ◌∷◌, arith, ok, Option-cases, inl, inr,
}
use the_city_crdb.Common.OrdMap.{All}
use the_city_crdb.Mvcc.{Versions}
use the_city_crdb.RowStore
use the_city_crdb.RowStore.Refinement
use the_city_crdb.RowStore.{PageRowStore}
use the_city_crdb.Table.{Table, rows_snapshot}
use the_city_crdb.Table.Indexing.{validate_row}
use the_city_crdb.Table.Indexed.{with_indexes, rebuild_lem}
use the_city_crdb.Table.Mutation.{replace_rows, write_version, write_versions, validate_all}
use the_city_crdb.Value.{Row}
use the_city_crdb.Value.Order.{IsComparable}
use the_city_crdb.Table.Correct.{IsValid, Found-sorted, versioned, write_version_lem}

validate_all_lem :
    (rows : List Row) (t : Table)
    → validate_all rows t ≡ ok tt
    → All (λ row. validate_row row t ≡ ok tt) rows
unfolding validate_all
validate_all_lem [] t e = tt
validate_all_lem (row ∷ rows) t e = (ground arith, validate_all_lem rows t (ground arith))

-- Versions are written and nothing else.
write_versions_lem :
    (rounds row_id : ℕ) (t : Table)
    → (vs : Versions) × (next : ℕ) × (write_versions rounds row_id t
        ≡ record t { versions = vs; next_version_id = next })
unfolding write_versions
write_versions_lem zero row_id t = (t.versions, t.next_version_id, refl)
write_versions_lem (suc rounds) row_id t = elim (Option-cases (RowStore.get row_id t.row_store)) [
  | inl n ↦
      let (vs, next, e) = write_versions_lem rounds (suc row_id) t in
      (
        vs,
        next,
        ap (write_versions rounds (suc row_id)) (unfold write_version in ground (arith, n)) ∙ e,
      )
  | inr (row, g) ↦
      let (vs, next, e) =
        write_versions_lem rounds (suc row_id) (versioned row_id row t.row_store t) in
      (
        vs,
        next,
        ap (write_versions rounds (suc row_id)) (write_version_lem row_id row t.row_store t g) ∙ e,
      )
]

abbrev pub Replaces : List Row → Table → Type 0
Replaces rows t =
    (t' : Table) × (replace_rows rows t ≡ ok t')
    × IsValid t'
    × (rows_snapshot t' ≡ rows)
    × (t'.schema ≡ t.schema)

-- Replacing the rows of a valid table by rows that the schema admits, without NaN, succeeds, leaves
-- exactly these rows, keeps the schema, and leaves a valid table, whose indexes hold the new rows.
pub replace_rows-Replaces :
    (rows : List Row) (t : Table)
    → IsValid t
    → validate_all rows t ≡ ok tt
    → All (All IsComparable) rows
    → Replaces rows t
unfolding replace_rows rows_snapshot
replace_rows-Replaces rows t v e a =
    let store = RowStore.replace_rows rows t.row_store in
    let (s, r) = Refinement.replace_rows_lem rows t.row_store v.store in
    let t0 : Table = record t { row_store = store; versions = []; next_version_id = 1 } in
    let (vs, next, q) = write_versions_lem (RowStore.size store) 0 t0 in
    let t1 : Table = record t { row_store = store; versions = vs; next_version_id = next } in
    let a' : All (All IsComparable) (RowStore.snapshot store) = rw r a in
    let (hs, os, p, w) =
      rebuild_lem (RowStore.snapshot t.row_store) t1 s a' (Found-sorted t.index_columns v.sorted)
        v.indexed in
    (
      with_indexes t1 hs os,
      ground (arith, e, q, p),
      record {
        store = s;
        fits = unfold validate_row in rw r (validate_all_lem rows t e);
        comparable = a';
        sorted = v.sorted;
        in_schema = v.in_schema;
        indexed = w;
      },
      r,
      refl,
    )
