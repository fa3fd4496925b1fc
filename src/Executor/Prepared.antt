-- ===== src/Executor/Prepared.antt =====
-- A prepared statement that executes itself.
use the_city_crdb.Ast.{execute_prepared}
use the_city_crdb.Common.{ℕ, zero, suc, ◌≡◌, refl, List, Text, ok, err, out_of_fuel}
use the_city_crdb.Executor.{QueryExecutor}
use the_city_crdb.Executor.Calls.{System}
use the_city_crdb.Executor.Execute.{execute, prepared_query}
use the_city_crdb.Value.{Value}

-- Where the text of a prepared statement, with its parameters bound, is the EXECUTE of that same
-- statement with the same parameters, no depth of calls is enough to execute it, and nothing changes.
pub execute-unbounded :
    (system : System) (name : Text) (parameters : List Value) (e : QueryExecutor) (fuel : ℕ)
    → prepared_query system name parameters e ≡ ok (execute_prepared name parameters)
    → execute system fuel (execute_prepared name parameters) e ≡ (e, err out_of_fuel)
unfolding execute
execute-unbounded system name parameters e zero itself = refl
execute-unbounded system name parameters e (suc fuel) itself =
    rw itself (execute-unbounded system name parameters e fuel itself)
