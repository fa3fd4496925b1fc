-- ===== src/Tests/Statements.antt =====
-- The theorems on joins, prepared statements and recovery at small examples.
use the_city_crdb.Ast.{execute_prepared}
use the_city_crdb.Common.{◌≡◌, refl, true, none, [], ◌∷◌, codes, text_lt, ok, err, out_of_fuel, pos}
use the_city_crdb.Common.OrdMap
use the_city_crdb.Executor.{QueryExecutor}
use the_city_crdb.Executor.Calls.{System}
use the_city_crdb.Executor.Execute.{bind_prepared_sql, execute, prepared_query}
use the_city_crdb.Executor.Join.{rows_at, rows_by_key}
use the_city_crdb.Executor.Joined.{rows_at-rows_by_key, rows_with}
use the_city_crdb.Executor.Prepared.{execute-unbounded}
use the_city_crdb.FileSystem.{unopened}
use the_city_crdb.Parser.Statements.{parse}
use the_city_crdb.Sql.{bind}
use the_city_crdb.Tests.{row_a, row_b}
use the_city_crdb.Tests.Databases.{executor}
use the_city_crdb.Value.{int}

abbrev system : System
system = record {
  sort = λ _ rows. rows;
  print_double = λ _. codes "1.5";
  parse_double = λ _. ok 0x3ff8000000000000;
  left_first = true;
  file_system = record { write = λ _ _ _. unopened; rename = λ _ _ _. none; remove = λ _ _. none };
  listing = λ _. [];
}

abbrev self_executing : QueryExecutor
self_executing = record executor { prepared_statements = (codes "p", codes "EXECUTE p") ∷ [] }

self_executing_query :
    prepared_query system (codes "p") [] self_executing ≡ ok (execute_prepared (codes "p") [])
unfolding prepared_query bind_prepared_sql OrdMap.find text_lt bind parse
self_executing_query = refl

execute-unbounded_example :
    execute system 100 (execute_prepared (codes "p") []) self_executing
    ≡ (self_executing, err out_of_fuel)
execute-unbounded_example =
    execute-unbounded system (codes "p") [] self_executing 100 self_executing_query

rows_at-rows_by_key_example :
    rows_at (int (pos 1)) (rows_by_key 0 (row_a ∷ row_b ∷ row_a ∷ []) [])
    ≡ rows_with (int (pos 1)) 0 (row_a ∷ row_b ∷ row_a ∷ [])
rows_at-rows_by_key_example =
    rows_at-rows_by_key (int (pos 1)) 0 (row_a ∷ row_b ∷ row_a ∷ []) tt (tt, (tt, (tt, tt)))
