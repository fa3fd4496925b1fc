-- ===== src/Executor/Commands.antt =====
-- The commands of the executor (src/execution/query_executor.cpp) but SELECT with a join and EXECUTE. A
-- table behind a shared pointer is put back under its name after each change.
use the_city_crdb.Common.{
  ℕ, Bool, true, false, not, Option, none, some, List, [], ◌∷◌, ◌++◌, map, Text, codes, text_lt,
  ◌==◌, if◌then◌else◌, length, Result, ok, err,
}
use the_city_crdb.Common.OrdMap
use the_city_crdb.Database
use the_city_crdb.Database.{Database, list_tables, new_database}
use the_city_crdb.Decimal.{print_nat}
use the_city_crdb.Executor.{QueryExecutor, QueryResult}
use the_city_crdb.Executor.Calls.{
  M, System, append_wal, get, lift, message, pure, put, put_table, require_table, set_database,
  ◌>>=◌, ◌>>◌,
}
use the_city_crdb.Query.{Delete, Select, Update, execute_delete, execute_select, execute_update}
use the_city_crdb.Sql.{
  create_index_sql, create_table_sql, delete_sql, drop_table_sql, insert_sql, rename_table_sql,
  update_sql,
}
use the_city_crdb.StorageManager
use the_city_crdb.Table.{Table}
use the_city_crdb.Table.Indexing.{validate_row}
use the_city_crdb.Table.Mutation
use the_city_crdb.Value.{Column, Row, string}
use the_city_crdb.WriteAheadLog.{
  create_database, create_index, create_table, delete, drop_table, insert, rename_table, reset,
  save_database, update,
}

-- The first answer of most commands, where there is no database.
abbrev pub with_database : (Database → M QueryResult) → M QueryResult
with_database body = do
  e ← get
  elim e.database [ none ↦ message false (codes "no active database") | some db ↦ body db ]

abbrev pub answered : Bool → Text → Text → M QueryResult
answered done yes_text no_text = message done (if done then yes_text else no_text)

-- `if (done) { appendWal(…); }`
abbrev pub when : Bool → M (Unit {0}) → M (Unit {0})
when done call = if done then call else pure tt

-- The record is written before the constructor may throw.
unfoldable pub execute_create_database : Text → M QueryResult
execute_create_database name = do
  append_wal create_database name
  db ← lift (new_database name)
  set_database (some db)
  message true (codes "created database " ++ name)

unfoldable pub execute_create_table : Text → List Column → M QueryResult
execute_create_table name columns = with_database λ db. do
  made ← lift (Database.create_table name columns db)
  set_database (some made.0)
  when made.1 (append_wal create_table (create_table_sql name columns))
  answered made.1 (codes "created table " ++ name) (codes "table already exists")

unfoldable pub execute_drop_table : Text → M QueryResult
execute_drop_table name = with_database λ db. do
  let dropped = Database.drop_table name db
  set_database (some dropped.0)
  when dropped.1 (append_wal drop_table (drop_table_sql name))
  answered dropped.1 (codes "dropped table " ++ name) (codes "unknown table")

unfoldable pub execute_rename_table : Text → Text → M QueryResult
execute_rename_table old_name new_name = with_database λ db. do
  let after = Database.rename_table old_name new_name db
  set_database (some after.0)
  renamed ← lift after.1
  when renamed (append_wal rename_table (rename_table_sql old_name new_name))
  answered renamed (codes "renamed table " ++ old_name) (codes "rename failed")

unfoldable pub execute_list_tables : M QueryResult
execute_list_tables = with_database λ db. pure (record {
  success = true;
  message = codes "listed tables";
  columns = codes "table" ∷ [];
  rows = map (λ name. string name ∷ []) (list_tables db);
})

-- `for (const auto &row : command.rows) { table->validateRow(row); }`
unfoldable pub validate_rows : Table → List Row → Result (Unit {0})
unfolding validate_row
validate_rows t [] = ok tt
validate_rows t (row ∷ rows) =
    let later = validate_rows t rows in elim (validate_row row t) [ err x ↦ err x | ok _ ↦ later ]

abbrev pub counted : Text → ℕ → Text
counted done count = done ++ (print_nat count ++ codes " row(s)")

module _ (system : System) where
  -- Each row is logged, and then inserted.
  unfoldable pub insert_each : Text → List Row → M (Unit {0})
  insert_each table [] = pure tt
  insert_each table (row ∷ rows) = do
    append_wal insert (insert_sql system.print_double table row)
    t ← require_table table
    inserted ← lift (Mutation.insert row t)
    put_table table inserted.0
    insert_each table rows

  unfoldable pub execute_insert : Text → List Row → M QueryResult
  execute_insert table rows = do
    t ← require_table table
    lift (validate_rows t rows)
    insert_each table rows
    message true (counted (codes "inserted ") (length rows))

  -- SELECT without a join.
  unfoldable pub execute_select_one : Select → M QueryResult
  execute_select_one command = do
    t ← require_table command.table
    e ← get
    found ← lift (execute_select system.sort e.active_transaction command t)
    pure (record {
      success = true;
      message = codes "selected rows";
      columns = found.0;
      rows = found.1;
    })

  -- What was changed before an exception stays.
  unfoldable pub execute_update_logged : Update → M QueryResult
  execute_update_logged command = do
    t ← require_table command.table
    let after = execute_update command t
    put_table command.table after.0
    count ← lift after.1
    when (not (count == 0)) (append_wal update (update_sql system.print_double command))
    message true (counted (codes "updated ") count)

  unfoldable pub execute_delete_logged : Delete → M QueryResult
  execute_delete_logged command = do
    t ← require_table command.table
    let after = execute_delete command t
    put_table command.table after.0
    count ← lift after.1
    when (not (count == 0)) (append_wal delete (delete_sql system.print_double command))
    message true (counted (codes "deleted ") count)

  unfoldable pub execute_save_database : M QueryResult
  execute_save_database = with_database λ db. do
    append_wal save_database db.name
    e ← get
    let saved = StorageManager.save_database system.file_system db e.directory
    put (record e { directory = some saved.0 })
    lift saved.1
    after ← get
    put (record after { wal = reset after.wal })
    message true (codes "saved database " ++ db.name)

  -- The database that LOAD takes: the one that is named, the current one, or the first.
  unfoldable pub loaded : Option Text → QueryExecutor → Result Database
  loaded (some name) e = StorageManager.load_database system.left_first name e.directory
  loaded none e = elim e.database [
    | some db ↦ StorageManager.load_database system.left_first db.name e.directory
    | none ↦ StorageManager.load_first_database system.left_first system.listing e.directory
  ]

  unfoldable pub execute_load_database : Option Text → M QueryResult
  execute_load_database name = do
    e ← get
    db ← lift (loaded name e)
    put (record e { database = some db; transaction_snapshot = none })
    message true (codes "loaded database " ++ db.name)

unfoldable pub execute_create_index : Text → Text → Text → M QueryResult
execute_create_index index table column = do
  t ← require_table table
  let after = Mutation.create_index index column t
  put_table table after.0
  when after.1 (append_wal create_index (create_index_sql index table column))
  answered after.1 (codes "created index " ++ index) (codes "index creation failed")

unfoldable pub execute_prepare : Text → Text → M QueryResult
execute_prepare name sql = do
  e ← get
  put (record e {
    prepared_statements = OrdMap.upsert text_lt name (λ _. sql) e.prepared_statements;
  })
  message true (codes "prepared statement " ++ name)
