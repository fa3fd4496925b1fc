-- ===== src/Database/Tables.antt =====
-- What copying a table into a fresh one gives: the loops of `renameTable` and `clone`
-- (src/storage/database.cpp).
use the_city_crdb.Common.{
  ◌≢◌, ◌≡◌, ◌∙◌, refl, sym, ap, Option-cases, List, [], ◌∷◌, ◌++◌, append-nil, append_assoc, arith,
  Text, text_lt, Result, ok, inl, inr,
}
use mathlib.Core.Path.{subst}
use the_city_crdb.Common.OrdMap
use the_city_crdb.Common.OrdMap.{All, All-imp}
use the_city_crdb.Database.{copy_table, create_indexes, insert_rows, replacement}
use the_city_crdb.Table.{
  Table, column_index, index_definitions, new_table, new_table_state, rows_snapshot,
}
use the_city_crdb.Table.Correct.{IsValid, insert-Inserts, new_table-IsValid}
use the_city_crdb.Table.Created.{create_index-Creates, create_index-refused}
use the_city_crdb.Table.Indexing.{validate_row}
use the_city_crdb.Table.Mutation
use the_city_crdb.Table.Rebuilt.{replace_rows-Replaces}
use the_city_crdb.Value.{Column, Row}
use the_city_crdb.Value.Order.{IsComparable}

-- A valid table with these rows and this schema.
abbrev pub Holds : List Row → List Column → Table → Type 0
Holds rows schema t = IsValid t × (rows_snapshot t ≡ rows) × (t.schema ≡ schema)

create_index-Holds :
    (name column : Text) {rows : List Row} {schema : List Column} (t : Table)
    → Holds rows schema t
    → Holds rows schema (Mutation.create_index name column t).0
create_index-Holds name column {rows} {schema} t (v, r, s) =
    elim (Option-cases (column_index column t)) [
      | inl n ↦ rw (create_index-refused name column t (inl n)) (v, r, s)
      | inr (k, c) ↦ elim (Option-cases (OrdMap.find text_lt name t.indexes)) [
        | inr (h, e) ↦ rw (create_index-refused name column t (inr (λ n. cc))) (v, r, s)
        | inl e ↦
            let (_, w, r', s', _) = create_index-Creates name column k t v c e in
            (w, r' ∙ r, s' ∙ s)
      ]
    ]

create_indexes-Holds :
    (definitions : List (Text × Text)) {rows : List Row} {schema : List Column} (t : Table)
    → Holds rows schema t
    → Holds rows schema (create_indexes definitions t)
unfolding create_indexes
create_indexes-Holds [] t h = h
create_indexes-Holds ((name, column) ∷ rest) t h =
    create_indexes-Holds rest (Mutation.create_index name column t).0
      (create_index-Holds name column t h)

-- A row fits by the schema alone.
validate_row-schema :
    (row : Row) (t t' : Table) → t'.schema ≡ t.schema → validate_row row t' ≡ validate_row row t
unfolding validate_row
validate_row-schema row t t' e = rw e refl

abbrev Fitting : List Row → Table → Type 0
Fitting rows t = All (λ row. validate_row row t ≡ ok tt) rows

Fitting-schema :
    (rows : List Row) (t t' : Table) → t'.schema ≡ t.schema → Fitting rows t → Fitting rows t'
Fitting-schema rows t t' e f = All-imp (λ row h. validate_row-schema row t t' e ∙ h) rows f

-- A call that returns a table with these rows and this schema.
abbrev pub Fills : List Row → List Column → Result Table → Type 0
Fills rows schema r = (t : Table) × (r ≡ ok t) × Holds rows schema t

insert_rows-Fills :
    (before rows : List Row) (t : Table)
    → Holds before t.schema t
    → Fitting rows t
    → All (All IsComparable) rows
    → Fills (before ++ rows) t.schema (insert_rows rows t)
unfolding insert_rows
insert_rows-Fills before [] t h f a =
    (t, refl, subst (λ l. Holds l t.schema t) (sym (append-nil before)) h)
insert_rows-Fills before (row ∷ rows) t (v, r, s) f a =
    let (t1, e, w, r1, s1, _) = insert-Inserts row t v f.0 a.0 in
    let (t2, e2, h2) =
      insert_rows-Fills (before ++ row ∷ []) rows t1 (w, r1 ∙ ap (λ l. l ++ row ∷ []) r, refl)
        (Fitting-schema rows t t1 s1 f.1) a.1 in
    (
      t2,
      rw e e2,
      subst (λ l. Holds l t.schema t2) (append_assoc before (row ∷ []) rows)
          (subst (λ c. Holds ((before ++ row ∷ []) ++ rows) c t2) s1 h2),
    )

validate_all_of :
    (rows : List Row) (t : Table) → Fitting rows t → Mutation.validate_all rows t ≡ ok tt
unfolding Mutation.validate_all
validate_all_of [] t f = refl
validate_all_of (row ∷ rows) t f = ground (arith, f.0, validate_all_of rows t f.1)

-- The constructor takes a name and a schema that are not empty.
pub fresh_lem :
    (name : Text) (schema : List Column)
    → name ≢ []
    → schema ≢ []
    → (t : Table) × (new_table name schema ≡ ok t) × Holds [] schema t
unfolding new_table
fresh_lem [] schema n s = absurd (n refl)
fresh_lem (b ∷ name) [] n s = absurd (s refl)
fresh_lem (b ∷ name) (c ∷ schema) n s =
    let t = new_table_state (b ∷ name) (c ∷ schema) in
    let (v, r, q, _) = new_table-IsValid (b ∷ name) (c ∷ schema) {t = t} refl in
    (t, refl, (v, r, q))

pub replacement-Fills :
    (name : Text) (old : Table)
    → IsValid old
    → name ≢ []
    → old.schema ≢ []
    → Fills (rows_snapshot old) old.schema (replacement name old)
unfolding replacement
replacement-Fills name old v n s =
    let (t0, e0, h0) = fresh_lem name old.schema n s in
    let rows = rows_snapshot old in
    let start : Holds [] t0.schema t0 = (h0.0, h0.1, refl) in
    let (t1, e1, h1) =
      insert_rows-Fills [] rows t0 start (Fitting-schema rows old t0 h0.2 v.fits) v.comparable in
    (
      create_indexes (index_definitions old) t1,
      ground (arith, e0, e1),
      create_indexes-Holds (index_definitions old) t1 (h1.0, h1.1, h1.2 ∙ h0.2),
    )

pub copy_table-Fills :
    (source destination : Table)
    → IsValid source
    → Holds [] source.schema destination
    → Fills (rows_snapshot source) source.schema (copy_table source destination)
unfolding copy_table
copy_table-Fills source destination v h =
    let rows = rows_snapshot source in
    let fits =
      validate_all_of rows destination (Fitting-schema rows source destination h.2 v.fits) in
    let (t, e, w, r, s) = replace_rows-Replaces rows destination h.0 fits v.comparable in
    (
      create_indexes (index_definitions source) t,
      ground (arith, e),
      create_indexes-Holds (index_definitions source) t (w, r, s ∙ h.2),
    )
