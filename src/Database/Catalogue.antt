-- ===== src/Database/Catalogue.antt =====
-- What each call does to the tables found by name: `createTable`, `dropTable`, `renameTable` and
-- `clone` (src/storage/database.cpp).
use the_city_crdb.Common.{
  ◌≡◌, ◌≢◌, true, false, Option, Option-cases, none, some, List, [], arith, Text, text_lt,
  if◌then◌else◌, ok, err, inl, inr, ◌⊎◌, empty_table_name, text_lt_irrefl,
}
use the_city_crdb.Common.OrdMap
use the_city_crdb.Common.OrdMap.{All, IsSorted, is_same, keys}
use the_city_crdb.Common.OrdMap.Texts.{All-find, find-remove_text, find-upsert_text}
use the_city_crdb.Database.{
  Database, create_table, drop_table, find_table, place, rename_table, replacement,
}
use the_city_crdb.Database.Tables.{Holds, fresh_lem, replacement-Fills}
use the_city_crdb.Table
use the_city_crdb.Table.{Table, new_table, rows_snapshot}
use the_city_crdb.Value.{Column}

-- A table is valid, stands under its own name, and has a name and a schema.
abbrev pub Kept : Text × Table → Type 0
Kept (name, t) = Table.Correct.IsValid t × (t.name ≡ name) × (name ≢ []) × (t.schema ≢ [])

pub record IsValid (db : Database) : Type 0 where
  pub sorted : IsSorted text_lt db.tables
  pub kept : All Kept db.tables

-- The tables found after a new table was placed, and after one was taken out.
abbrev pub with_table : Text → Table → Text → Option Table → Option Table
with_table name t q old = if is_same text_lt name q then some t else old

-- Creating a table with a name and a schema, under a name that is free, returns true, and adds an
-- empty valid table under that name and none other.
pub create_table-adds :
    (name : Text) (schema : List Column) (db : Database)
    → name ≢ []
    → schema ≢ []
    → find_table name db ≡ none
    → (db' : Database) × (t : Table) × (create_table name schema db ≡ ok (db', true))
      × Holds [] schema t
      × ((q : Text) → find_table q db' ≡ with_table name t q (find_table q db))
unfolding create_table find_table
create_table-adds name schema db n s free =
    let (t, e, h) = fresh_lem name schema n s in
    (
      place name t db,
      t,
      ground (arith, e, free),
      h,
      λ q. find-upsert_text name q (λ _. t) db.tables,
    )

-- Dropping a table from a valid database returns whether it was there, and takes it out and no other.
pub drop_table-removes :
    (name : Text) (db : Database)
    → IsValid db
    → ((drop_table name db).1 ≡ true)
        × (find_table name db ≢ none)
        × ((q : Text)
            → find_table q (drop_table name db).0
              ≡ (if is_same text_lt name q then none else find_table q db))
      ⊎ (drop_table name db ≡ (db, false)) × (find_table name db ≡ none)
unfolding drop_table find_table
drop_table-removes name db v = elim (Option-cases (OrdMap.find text_lt name db.tables)) [
  | inl n ↦ inr (ground (arith, n), n)
  | inr (t, e) ↦ inl (
    ground (arith, e),
    (λ n. cc),
    λ q. ground (arith, e, find-remove_text name q db.tables v.sorted),
  )
]

-- What a rename does.
abbrev pub Renames : Text → Text → Table → Database → Type 0
Renames old_name new_name t db =
    (db' : Database) × (t' : Table) × (rename_table old_name new_name db ≡ (db', ok true))
    × Holds (rows_snapshot t) t.schema t'
    × ((q : Text)
        → find_table q db'
          ≡ with_table new_name t' q (if is_same text_lt old_name q then none else find_table q db))

-- Renaming a table of a valid database to a free name that is not empty succeeds: under the new name
-- is then a valid table with the same rows and schema, nothing is under the old one, and all other
-- tables are as they were.
pub rename_table-Renames :
    (old_name new_name : Text) (t : Table) (db : Database)
    → IsValid db
    → find_table old_name db ≡ some t
    → find_table new_name db ≡ none
    → new_name ≢ []
    → Renames old_name new_name t db
unfolding rename_table find_table
rename_table-Renames old_name new_name t db v e free n =
    let (_, (w, _, _, s)) = All-find Kept old_name db.tables v.kept e in
    let (t', f, h) = replacement-Fills new_name t w n s in
    let without : Database = record db { tables = OrdMap.remove text_lt old_name db.tables } in
    (
      place new_name t' without,
      t',
      ground (arith, e, free, f),
      h,
      λ q. ground (
        arith,
        find-upsert_text new_name q (λ _. t') without.tables,
        find-remove_text old_name q db.tables v.sorted,
      ),
    )

-- Renaming a table of a valid database to the empty name throws, and the table is gone.
pub rename_table_empty :
    (old_name : Text) (t : Table) (db : Database)
    → IsValid db
    → find_table old_name db ≡ some t
    → find_table [] db ≡ none
    → ((rename_table old_name [] db).1 ≡ err empty_table_name)
      × (find_table old_name (rename_table old_name [] db).0 ≡ none)
unfolding rename_table find_table replacement new_table
rename_table_empty old_name t db v e free = (
  ground (arith, e, free),
  ground (
    arith,
    e,
    free,
    find-remove_text old_name old_name db.tables v.sorted,
    text_lt_irrefl old_name,
  ),
)
