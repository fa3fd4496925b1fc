-- ===== src/Executor/Calls.antt =====
-- The calls from which the executor's commands are made (src/execution/query_executor.cpp): a call takes
-- the executor and returns it, changed, beside its value or the exception that it throws.
use the_city_crdb.Common.{
  ℕ, Bool, Option, none, some, List, Text, if◌then◌else◌, Result, ok, err, Error,
  no_active_database, unknown_table,
}
use the_city_crdb.Database.{Database, find_table, place}
use the_city_crdb.Executor.{QueryExecutor, QueryResult, message_result}
use the_city_crdb.FileSystem.{FileSystem, Directory}
use the_city_crdb.StorageManager.{opened}
use the_city_crdb.Table.{Table}
use the_city_crdb.Value.{Row}
use the_city_crdb.WriteAheadLog
use the_city_crdb.WriteAheadLog.{WalOperation}

-- What the executor uses of the language's library and of the file system: `std::ranges::sort`, the
-- printing and reading of doubles, the order in which arguments are evaluated, the file system
-- and the order in which a directory lists its files.
pub record System : Type 0 where
  pub sort : (Row → Row → Bool) → List Row → List Row
  pub print_double : ℕ → Text
  pub parse_double : Text → Result ℕ
  pub left_first : Bool
  pub file_system : FileSystem
  pub listing : Directory → List Text

abbrev pub M : Type 0 → Type 0
M A = QueryExecutor → QueryExecutor × Result A

abbrev pub pure : {A : Type 0} → A → M A
pure a e = (e, ok a)

abbrev pub throw : {A : Type 0} → Error → M A
throw x e = (e, err x)

abbrev pub continue : {A B : Type 0} → Result A → (A → M B) → M B
continue (err x) f e = (e, err x)
continue (ok a) f e = f a e

infixl 1 ◌>>=◌ ◌>>◌
abbrev pub ◌>>=◌ : {A B : Type 0} → M A → (A → M B) → M B
m >>= f = λ e. continue (m e).1 f (m e).0

abbrev pub ◌>>◌ : {A B : Type 0} → M A → M B → M B
m >> k = m >>= λ _. k

abbrev pub lift : {A : Type 0} → Result A → M A
lift r e = (e, r)

abbrev pub get : M QueryExecutor
get e = (e, ok e)

abbrev pub put : QueryExecutor → M (Unit {0})
put e' e = (e', ok tt)

abbrev pub set_database : Option Database → M (Unit {0})
set_database db e = (record e { database = db }, ok tt)

abbrev pub message : Bool → Text → M QueryResult
message success text = pure (message_result success text)

abbrev logged :
    QueryExecutor → Result (WriteAheadLog.WriteAheadLog × ℕ) → QueryExecutor × Result (Unit {0})
logged e (err x) = (e, err x)
logged e (ok r) = (record e { wal = r.0 }, ok tt)

-- The log creates the storage directory.
unfoldable pub append_wal : WalOperation → Text → M (Unit {0})
append_wal operation payload e =
    let created = record e { directory = some (opened e.directory) } in
    if e.replaying_wal
    then (e, ok tt)
    else logged created (WriteAheadLog.append operation payload created.wal)

unfoldable pub require_table : Text → M Table
unfolding find_table
require_table name e = elim e.database [
  | none ↦ (e, err no_active_database)
  | some db ↦ elim (find_table name db) [ none ↦ (e, err unknown_table) | some t ↦ (e, ok t) ]
]

-- The table that a pointer from `requireTable` points to is changed.
unfoldable pub put_table : Text → Table → M (Unit {0})
put_table name t e = elim e.database [
  | none ↦ (e, ok tt)
  | some db ↦ (record e { database = some (place name t db) }, ok tt)
]
