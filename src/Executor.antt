-- ===== src/Executor.antt =====
-- The executor of src/execution/query_executor.cpp: its state, and here executeBegin, executeCommit and
-- executeRollback. A shared pointer to a database is the database or none; the executor is returned
-- beside the result, since a call may throw after a change. The planner has no state, and the lock is
-- left out.
pub mod Rollback
pub mod Calls
pub mod Commands
pub mod Join
pub mod Joined
pub mod Recovery
pub mod Execute
pub mod Prepared
use the_city_crdb.Common.{
  Bool, true, false, Option, none, some, List, [], Text, codes, Result, ok, err,
}
use the_city_crdb.Database.{Database, clone}
use the_city_crdb.FileSystem.{Directory}
use the_city_crdb.Transaction.{
  Transaction, TransactionId, TransactionManager, begin, commit, rollback,
}
use the_city_crdb.Value.{Row}
use the_city_crdb.WriteAheadLog.{WriteAheadLog}

pub record QueryResult : Type 0 where
  pub success : Bool
  pub message : Text
  pub columns : List Text
  pub rows : List Row

pub record QueryExecutor : Type 0 where
  pub database : Option Database
  pub transaction_snapshot : Option Database
  pub active_transaction : Option TransactionId
  pub transaction_manager : TransactionManager
  pub directory : Option Directory
  pub wal : WriteAheadLog
  pub prepared_statements : List (Text × Text)
  pub replaying_wal : Bool

abbrev pub message_result : Bool → Text → QueryResult
message_result success message = record {
  success = success;
  message = message;
  columns = [];
  rows = [];
}

-- The identifier is taken before the database is copied.
unfoldable pub execute_begin : QueryExecutor → QueryExecutor × Result QueryResult
execute_begin e = elim e.database [
  | none ↦ (e, ok (message_result false (codes "no active database")))
  | some db ↦ elim e.transaction_snapshot [
    | some _ ↦ (e, ok (message_result false (codes "transaction already active")))
    | none ↦
        let (manager, transaction) = begin e.transaction_manager in
        let begun : QueryExecutor = record e {
          active_transaction = some transaction.id;
          transaction_manager = manager;
        } in
        elim (clone db) [
          | err thrown ↦ (begun, err thrown)
          | ok copy ↦ (
            record begun { transaction_snapshot = some copy },
            ok (message_result true (codes "began transaction")),
          )
        ]
  ]
]

unfoldable pub execute_commit : QueryExecutor → QueryExecutor × Result QueryResult
execute_commit e = elim e.transaction_snapshot [
  | none ↦ (e, ok (message_result false (codes "no active transaction")))
  | some _ ↦ elim e.active_transaction [
    | none ↦ (e, ok (message_result false (codes "transaction state is inconsistent")))
    | some id ↦ elim (commit id e.transaction_manager) [
      | err thrown ↦ (e, err thrown)
      | ok manager ↦ (
        record e {
          transaction_snapshot = none;
          active_transaction = none;
          transaction_manager = manager;
        },
        ok (message_result true (codes "committed transaction")),
      )
    ]
  ]
]

unfoldable pub execute_rollback : QueryExecutor → QueryExecutor × Result QueryResult
execute_rollback e = elim e.transaction_snapshot [
  | none ↦ (e, ok (message_result false (codes "no active transaction")))
  | some snapshot ↦ elim e.active_transaction [
    | none ↦ (e, ok (message_result false (codes "transaction state is inconsistent")))
    | some id ↦ elim (rollback id e.transaction_manager) [
      | err thrown ↦ (e, err thrown)
      | ok manager ↦ (
        record e {
          database = some snapshot;
          transaction_snapshot = none;
          active_transaction = none;
          transaction_manager = manager;
        },
        ok (message_result true (codes "rolled back transaction")),
      )
    ]
  ]
]
