-- ===== src/Executor/Rollback.antt =====
-- A transaction that is rolled back leaves the tables that it began with.
use the_city_crdb.Common.{◌≡◌, ◌≢◌, true, Option, none, some, [], arith, Text, codes, ok}
use the_city_crdb.Database.{Database, find_table}
use the_city_crdb.Database.Catalogue.{IsValid}
use the_city_crdb.Database.Clone.{Copied, clone-Copied}
use the_city_crdb.Executor.{QueryExecutor, execute_begin, execute_rollback, message_result}
use the_city_crdb.Transaction.States
use the_city_crdb.Transaction.States.{begin-rollback}

-- BEGIN, any changes to the database, then ROLLBACK: the database that is then current.
abbrev pub RollsBack : Option Database → Database → QueryExecutor → Type 0
RollsBack changed db e =
    (restored : Database) × ((execute_begin e).1
      ≡ ok (message_result true (codes "began transaction")))
    × ((execute_rollback (record ((execute_begin e).0) { database = changed })).1
        ≡ ok (message_result true (codes "rolled back transaction")))
    × ((execute_rollback (record ((execute_begin e).0) { database = changed })).0.database
        ≡ some restored)
    × ((q : Text) → Copied (find_table q db) (find_table q restored))

-- With a valid, named database, a valid transaction manager and no transaction, BEGIN and then ROLLBACK succeed, whatever the
-- database was changed to in between, and the database is then one that has, under each name, a table
-- exactly where it had one at BEGIN: a valid table with the same rows and schema.
pub execute_rollback-RollsBack :
    (changed : Option Database) (db : Database) (e : QueryExecutor)
    → e.database ≡ some db
    → e.transaction_snapshot ≡ none
    → IsValid db
    → db.name ≢ []
    → States.IsValid e.transaction_manager
    → RollsBack changed db e
unfolding execute_begin execute_rollback
execute_rollback-RollsBack changed db e d s v n m =
    let (copy, c, _, same) = clone-Copied db v n in
    let (manager, r) = begin-rollback e.transaction_manager m in
    (copy, ground (arith, d, s, c), ground (arith, d, s, c, r), ground (arith, d, s, c, r), same)
