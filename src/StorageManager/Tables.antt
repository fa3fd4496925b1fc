-- ===== src/StorageManager/Tables.antt =====
-- The tables of a saved database are loaded by the steps by which a database is copied.
use mathlib.Core.Path.{subst}
use the_city_crdb.Common.{
  ℕ, ◌≡◌, ◌∙◌, refl, ap, true, some, List, [], ◌∷◌, ◌++◌, arith, Text, length, ok, append_assoc,
  >>=-eq-ok, Bool-cases, Option-cases, inl, inr,
}
use the_city_crdb.Common.OrdMap.{All}
use the_city_crdb.Database.{Database, clone_tables, copy_table, create_table, find_table, place}
use the_city_crdb.StorageManager.{
  entry_bytes, fill_table, load_table, load_tables, read_column, read_definition, read_value,
  repeated, write_column, write_definition, write_each, write_list, write_row, write_string,
  write_table, write_value,
}
use the_city_crdb.StorageManager.Values.{
  ColumnIsStorable, DefinitionIsStorable, HasSize, IsStorable, ReadsBack, read_column-ReadsBack,
  read_definition-ReadsBack, read_list-ReadsBack, read_string-ReadsBack, read_value-ReadsBack,
  repeated-ReadsBack,
}
use the_city_crdb.Table.{Table, index_definitions, rows_snapshot}
use the_city_crdb.Table.Mutation
use the_city_crdb.Value.{Row}

-- A row of so many values, each of which can be stored.
abbrev pub RowIsStorable : ℕ → Row → Type 0
RowIsStorable width row = (length row ≡ width) × All IsStorable row

-- The sizes of the table's parts fit into eight bytes, and its rows are as wide as its schema.
pub record TableIsStorable (t : Table) : Type 0 where
  pub name : HasSize t.name
  pub schema : HasSize t.schema × All ColumnIsStorable t.schema
  pub definitions : HasSize (index_definitions t) × All DefinitionIsStorable (index_definitions t)
  pub rows : HasSize (rows_snapshot t) × All (RowIsStorable (length t.schema)) (rows_snapshot t)

read_row-ReadsBack :
    (width : ℕ) → ReadsBack (repeated read_value width) write_row (RowIsStorable width)
unfolding write_row
read_row-ReadsBack width row rest h =
    let back =
      repeated-ReadsBack read_value write_value IsStorable read_value-ReadsBack row rest h.1 in
    subst (λ n. repeated read_value n (write_each write_value row ++ rest) ≡ ok (row, rest)) h.0
      back

fill_table-copy_table :
    (source t filled : Table) (rest : Text)
    → TableIsStorable source
    → copy_table source t ≡ ok filled
    → fill_table true (length source.schema) t (
        write_list write_definition (index_definitions source)
        ++ (write_list write_row (rows_snapshot source) ++ rest))
      ≡ ok (filled, rest)
unfolding fill_table copy_table
fill_table-copy_table source t filled rest s copied =
    let (x, e1, e2) = >>=-eq-ok (Mutation.replace_rows (rows_snapshot source) t) _ copied in
    let rows = write_list write_row (rows_snapshot source) in
    let d =
      read_list-ReadsBack (read_definition true) write_definition DefinitionIsStorable
        read_definition-ReadsBack (index_definitions source) (rows ++ rest) s.definitions in
    let width = length source.schema in
    let r =
      read_list-ReadsBack (repeated read_value width) write_row (RowIsStorable width)
        (read_row-ReadsBack width) (rows_snapshot source) rest s.rows in
    rw (d, r, e1) (ground (arith, e2))

write_table-split :
    (t : Table) (rest : Text)
    → write_table t ++ rest
      ≡ write_string t.name
        ++ (write_list write_column t.schema
            ++ (write_list write_definition (index_definitions t)
                ++ (write_list write_row (rows_snapshot t) ++ rest)))
unfolding write_table
write_table-split t rest =
    let schema = write_list write_column t.schema in
    let definitions = write_list write_definition (index_definitions t) in
    let rows = write_list write_row (rows_snapshot t) in
    rw
      (
        append_assoc (write_string t.name) (schema ++ (definitions ++ rows)) rest,
        append_assoc schema (definitions ++ rows) rest,
        append_assoc definitions rows rest,
      )
      refl

load_table-copy :
    (source t filled : Table) (db made : Database) (rest : Text)
    → TableIsStorable source
    → create_table source.name source.schema db ≡ ok (made, true)
    → find_table source.name made ≡ some t
    → copy_table source t ≡ ok filled
    → load_table true db (write_table source ++ rest) ≡ ok (place source.name filled made, rest)
unfolding load_table
load_table-copy source t filled db made rest s created found copied =
    let rows = write_list write_row (rows_snapshot source) ++ rest in
    let definitions = write_list write_definition (index_definitions source) ++ rows in
    let schema = write_list write_column source.schema ++ definitions in
    rw
      (
        write_table-split source rest,
        read_string-ReadsBack source.name schema s.name,
        read_list-ReadsBack read_column write_column ColumnIsStorable read_column-ReadsBack
            source.schema definitions s.schema,
        created,
        found,
        fill_table-copy_table source t filled rest s copied,
      )
      refl

-- What a successful round of the loop of `clone` did.
clone_tables_round :
    (name : Text) (source : Table) (tables : List (Text × Table)) (db copy : Database)
    → clone_tables ((name, source) ∷ tables) db ≡ ok copy
    → (made : Database) × (t : Table) × (filled : Table) × (create_table source.name source.schema
          db
        ≡ ok (made, true))
      × (find_table source.name made ≡ some t)
      × (copy_table source t ≡ ok filled)
      × (clone_tables tables (place source.name filled made) ≡ ok copy)
unfolding clone_tables
clone_tables_round name source tables db copy cloned =
    let (made, e1, e2) = >>=-eq-ok (create_table source.name source.schema db) _ cloned in
    elim (Bool-cases made.1) [
      | inr refused ↦ let wrong = rw refused at e2 in cc
      | inl created ↦
          let e3 = rw created at e2 in
          elim (Option-cases (find_table source.name made.0)) [
            | inl missing ↦ let wrong = rw missing at e3 in cc
            | inr (t, found) ↦
                let (filled, e4, e5) = >>=-eq-ok (copy_table source t) _ (rw found at e3) in
                (made.0, t, filled, e1 ∙ ap (λ b. ok (made.0, b)) created, found, e4, e5)
          ]
    ]

abbrev pub EntryIsStorable : Text × Table → Type 0
EntryIsStorable entry = TableIsStorable entry.1

-- The loop over the saved tables does what the loop of `clone` over the tables does.
pub load_tables-clone_tables :
    (tables : List (Text × Table)) (db copy : Database) (rest : Text)
    → All EntryIsStorable tables
    → clone_tables tables db ≡ ok copy
    → load_tables true (length tables) db (write_each entry_bytes tables ++ rest) ≡ ok (copy, rest)
unfolding load_tables
load_tables-clone_tables [] db copy rest s cloned = unfold clone_tables in ground (arith, cloned)
load_tables-clone_tables ((name, source) ∷ tables) db copy rest s cloned =
    let (made, t, filled, created, found, copied, later) =
      clone_tables_round name source tables db copy cloned in
    let others = write_each entry_bytes tables in
    rw
      (
        append_assoc (write_table source) others rest,
        load_table-copy source t filled db made (others ++ rest) s.0 created found copied,
        load_tables-clone_tables tables (place source.name filled made) copy rest s.1 later,
      )
      refl
