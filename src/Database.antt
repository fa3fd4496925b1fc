-- ===== src/Database.antt =====
-- The catalogue of tables: include/VertexDB/storage/database.hpp and src/storage/database.cpp. A call
-- that may change the database and then throw returns it beside its result. The lock is left out, and
-- a table that is shared by a pointer is a value.
pub mod Tables
pub mod Catalogue
pub mod Clone
use the_city_crdb.Common.{
  Bool, true, false, Option, none, some, List, [], ◌∷◌, Text, text_lt, Result, ok, err, ◌>>=◌,
  empty_database_name, clone_failed, unknown_table,
}
use the_city_crdb.Common.OrdMap
use the_city_crdb.Table.{Table, index_definitions, new_table, rows_snapshot}
use the_city_crdb.Table.Mutation
use the_city_crdb.Value.{Column, Row}

pub record Database : Type 0 where
  pub name : Text
  pub tables : List (Text × Table)

-- The constructor.
unfoldable pub new_database : Text → Result Database
new_database [] = err empty_database_name
new_database (b ∷ name) = ok (record { name = b ∷ name; tables = [] })

unfoldable pub find_table : Text → Database → Option Table
find_table name db = OrdMap.find text_lt name db.tables

-- A table stored under a name that no table has.
abbrev pub place : Text → Table → Database → Database
place name t db = record db { tables = OrdMap.upsert text_lt name (λ _. t) db.tables }

-- `try_emplace`; the new table is built, and may throw, in any case.
unfoldable pub create_table : Text → List Column → Database → Result (Database × Bool)
unfolding find_table
create_table name schema db = new_table name schema >>= λ t. elim (find_table name db) [
  | none ↦ ok (place name t db, true)
  | some _ ↦ ok (db, false)
]

unfoldable pub drop_table : Text → Database → Database × Bool
unfolding find_table
drop_table name db = elim (find_table name db) [
  | none ↦ (db, false)
  | some _ ↦ (record db { tables = OrdMap.remove text_lt name db.tables }, true)
]

-- `for (const auto &row : …) replacement->insert(row);`
unfoldable pub insert_rows : List Row → Table → Result Table
insert_rows [] t = ok t
insert_rows (row ∷ rows) t = Mutation.insert row t >>= λ r. insert_rows rows r.0

-- `for (const auto &[indexName, columnName] : …) replacement->createIndex(indexName, columnName);`
unfoldable pub create_indexes : List (Text × Text) → Table → Table
create_indexes [] t = t
create_indexes ((name, column) ∷ rest) t =
    create_indexes rest (Mutation.create_index name column t).0

-- The table that takes the place of a renamed one.
unfoldable pub replacement : Text → Table → Result Table
unfolding insert_rows create_indexes
replacement new_name old = new_table new_name old.schema >>= λ t.
    insert_rows (rows_snapshot old) t >>= λ filled.
    ok (create_indexes (index_definitions old) filled)

-- The old table is erased before its replacement is built.
unfoldable pub rename_table : Text → Text → Database → Database × Result Bool
unfolding find_table replacement
rename_table old_name new_name db = elim (find_table old_name db) [
  | none ↦ (db, ok false)
  | some old ↦
      let without : Database = record db { tables = OrdMap.remove text_lt old_name db.tables } in
      elim (find_table new_name db) [
        | some _ ↦ (db, ok false)
        | none ↦ elim (replacement new_name old) [
          | err e ↦ (without, err e)
          | ok t ↦ (place new_name t without, ok true)
        ]
      ]
]

unfoldable pub list_tables : Database → List Text
list_tables db = OrdMap.keys db.tables

-- The copy of one table, which `clone` fills after it has created it.
unfoldable pub copy_table : Table → Table → Result Table
unfolding create_indexes
copy_table source destination = Mutation.replace_rows (rows_snapshot source) destination >>= λ t.
    ok (create_indexes (index_definitions source) t)

-- The loop of `clone` over the tables. A table is made under its own name, and the one found under
-- that name is filled where it stands.
unfoldable pub clone_tables : List (Text × Table) → Database → Result Database
unfolding create_table copy_table find_table
clone_tables [] copy = ok copy
clone_tables ((_, source) ∷ rest) copy = create_table source.name source.schema copy >>= λ r.
    elim r.1 [
      | false ↦ err clone_failed
      | true ↦ elim (find_table source.name r.0) [
        | none ↦ err clone_failed
        | some t ↦
            copy_table source t >>= λ filled. clone_tables rest (place source.name filled r.0)
      ]
    ]

unfoldable pub clone : Database → Result Database
unfolding clone_tables
clone db = new_database db.name >>= λ copy. clone_tables db.tables copy
