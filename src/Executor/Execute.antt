-- ===== src/Executor/Execute.antt =====
-- Statements and recovery: execute, executeUnlocked, executePrepared, recoverFromStorage and
-- recoverFromWal of src/execution/query_executor.cpp. A prepared statement may execute another, so
-- `execute` runs on fuel: the depth of prepared statements.
use the_city_crdb.Ast.{
  Query, create_database, create_table, drop_table, rename_table, list_tables, insert, select,
  update, delete, create_index, save_database, load_database, begin_transaction, commit_transaction,
  rollback_transaction, prepare_statement, execute_prepared, exit,
}
use the_city_crdb.Common.{
  ℕ, zero, suc, Bool, true, false, not, ◌&&◌, Option, none, some, List, [], ◌∷◌, Text, codes,
  text_lt, ◌==◌, if◌then◌else◌, contains, Result, ok, err, out_of_fuel, prepared_while_locked,
  unknown_prepared,
}
use the_city_crdb.Common.{◌>>=◌ as then_on}
use the_city_crdb.Common.OrdMap
use the_city_crdb.Database.{new_database}
use the_city_crdb.Executor.{
  QueryExecutor, QueryResult, execute_begin, execute_commit, execute_rollback,
}
use the_city_crdb.Executor.Calls.{
  M, System, get, lift, message, pure, put, require_table, throw, ◌>>=◌, ◌>>◌,
}
use the_city_crdb.Executor.Commands.{
  execute_create_database, execute_create_index, execute_create_table, execute_delete_logged,
  execute_drop_table, execute_insert, execute_list_tables, execute_load_database, execute_prepare,
  execute_rename_table, execute_save_database, execute_select_one, execute_update_logged,
}
use the_city_crdb.Executor.Join.{execute_join_select}
use the_city_crdb.Parser.Statements.{parse}
use the_city_crdb.Query.{JoinClause, Select}
use the_city_crdb.Sql.{bind}
use the_city_crdb.FileSystem.{Directory}
use the_city_crdb.StorageManager.{load_first_database}
use the_city_crdb.Transaction.{new_manager}
use the_city_crdb.Value.{Value}
use the_city_crdb.WriteAheadLog
use the_city_crdb.WriteAheadLog.{WalRecord, WriteAheadLog, operation_byte, read_all}

-- `take` turned round: what follows the first rounds of a loop over a vector.
abbrev pub drop {ℓ} : {A : Type ℓ} → ℕ → List A → List A
drop zero xs = xs
drop (suc n) [] = []
drop (suc n) (x ∷ xs) = drop n xs

-- The position behind the last record of a saved database; `start` where there is none.
unfoldable pub replay_start : ℕ → ℕ → List WalRecord → ℕ
replay_start i start [] = start
replay_start i start (r ∷ records) =
    replay_start (suc i)
      (if r.operation == operation_byte WriteAheadLog.save_database then suc i else start) records

module _ (system : System) where
  unfoldable pub execute_join : Select → JoinClause → M QueryResult
  execute_join command join = do
    left ← require_table command.table
    right ← require_table join.table
    e ← get
    found ← lift (execute_join_select system.sort e.active_transaction command join left right)
    pure (record {
      success = true;
      message = codes "selected rows";
      columns = found.0;
      rows = found.1;
    })

  unfoldable pub execute_select : Select → M QueryResult
  execute_select command = elim command.join [
    | none ↦ execute_select_one system command
    | some join ↦ execute_join command join
  ]

  -- The visitor.
  unfoldable pub execute_unlocked : Query → M QueryResult
  execute_unlocked (create_database name) = execute_create_database name
  execute_unlocked (create_table name columns) = execute_create_table name columns
  execute_unlocked (drop_table name) = execute_drop_table name
  execute_unlocked (rename_table old_name new_name) = execute_rename_table old_name new_name
  execute_unlocked list_tables = execute_list_tables
  execute_unlocked (insert table rows) = execute_insert system table rows
  execute_unlocked (select command) = execute_select command
  execute_unlocked (update command) = execute_update_logged system command
  execute_unlocked (delete command) = execute_delete_logged system command
  execute_unlocked (create_index name table column) = execute_create_index name table column
  execute_unlocked save_database = execute_save_database system
  execute_unlocked (load_database name) = execute_load_database system name
  execute_unlocked begin_transaction = execute_begin
  execute_unlocked commit_transaction = execute_commit
  execute_unlocked rollback_transaction = execute_rollback
  execute_unlocked (prepare_statement name sql) = execute_prepare name sql
  execute_unlocked (execute_prepared name parameters) = throw prepared_while_locked
  execute_unlocked exit = message true (codes "exit")

  unfoldable pub bind_prepared_sql : Text → List Value → QueryExecutor → Result Text
  bind_prepared_sql name parameters e = elim (OrdMap.find text_lt name e.prepared_statements) [
    | none ↦ err unknown_prepared
    | some sql ↦ bind system.print_double sql parameters
  ]

  -- What a prepared statement stands for.
  unfoldable pub prepared_query : Text → List Value → QueryExecutor → Result Query
  prepared_query name parameters e =
      then_on (bind_prepared_sql name parameters e) (parse system.parse_double)

  unfoldable pub execute : ℕ → Query → M QueryResult
  execute zero query = throw out_of_fuel
  execute (suc fuel) (execute_prepared name parameters) = do
    e ← get
    query ← lift (prepared_query name parameters e)
    execute fuel query
  execute (suc fuel) query = execute_unlocked query

  -- One record of the log.
  unfoldable pub replay_record : WalRecord → M (Unit {0})
  replay_record r =
      if r.operation == operation_byte WriteAheadLog.save_database
      then pure tt
      else if r.operation == operation_byte WriteAheadLog.create_database
          && not (contains b' ' r.payload)
      then (do db ← lift (new_database r.payload); e ← get; put (record e { database = some db }))
      else (do
        query ← lift (parse system.parse_double r.payload)
        result ← execute_unlocked query
        pure tt)

  unfoldable pub replay : List WalRecord → M (Unit {0})
  replay [] = pure tt
  replay (r ∷ records) = do replay_record r; replay records

  -- An exception while replaying leaves no database.
  abbrev pub replayed : QueryExecutor × Result (Unit {0}) → QueryExecutor
  replayed (e, err x) = record e { database = none; replaying_wal = false }
  replayed (e, ok _) = record e { replaying_wal = false }

  -- A log that cannot be read is passed over.
  unfoldable pub recover_from_wal : Bool → QueryExecutor → QueryExecutor
  recover_from_wal loaded_snapshot e = elim (read_all e.wal) [
    | err x ↦ e
    | ok [] ↦ e
    | ok (r ∷ records) ↦
        let start = if loaded_snapshot then replay_start 0 0 (r ∷ records) else 0 in
        replayed (replay (drop start (r ∷ records)) (record e { replaying_wal = true }))
  ]

  unfoldable pub recover_from_storage : QueryExecutor → QueryExecutor
  recover_from_storage e = elim (load_first_database system.left_first system.listing e.directory) [
    | err x ↦ recover_from_wal false (record e { database = none })
    | ok db ↦ recover_from_wal true (record e { database = some db })
  ]

  -- The constructor.
  unfoldable pub new_executor : Option Directory → Option Text → QueryExecutor
  new_executor directory wal_file = recover_from_storage (record {
    database = none;
    transaction_snapshot = none;
    active_transaction = none;
    transaction_manager = new_manager;
    directory = directory;
    wal = record { file = wal_file; next_lsn = none };
    prepared_statements = [];
    replaying_wal = false;
  })
