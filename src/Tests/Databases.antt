-- ===== src/Tests/Databases.antt =====
-- The theorems on databases and on the rows of a SELECT at small examples.
use the_city_crdb.Common.{
  ◌≡◌, ◌≢◌, refl, true, false, none, some, [], ◌∷◌, Text, codes, text_lt, if◌then◌else◌, map, ok,
  err, ◌⊎◌, empty_table_name,
}
use the_city_crdb.Common.OrdMap
use the_city_crdb.Common.OrdMap.{is_same}
use the_city_crdb.Database.{Database, clone, drop_table, find_table, rename_table}
use the_city_crdb.Database.Catalogue.{
  IsValid, Renames, drop_table-removes, rename_table-Renames, rename_table_empty,
}
use the_city_crdb.Database.Clone.{Copied, clone-Copied}
use the_city_crdb.Executor.{QueryExecutor}
use the_city_crdb.Executor.Rollback.{RollsBack, execute_rollback-RollsBack}
use the_city_crdb.Transaction.{find_transaction, new_manager}
use the_city_crdb.Transaction.States
use native.Mathlib.Omega.{arith}
use the_city_crdb.Query.{project, project_rows}
use the_city_crdb.Query.Projection.{cut, project_rows-cut}
use the_city_crdb.Tests.{people, people-IsValid, row_a, row_b, people_named}

abbrev pub town : Database
town = record { name = codes "town"; tables = (codes "people", people) ∷ [] }

abbrev village : Database
village = record { name = codes "village"; tables = [] }

pub town-IsValid : IsValid town
town-IsValid = record {
  sorted = (tt, tt);
  kept = ((people-IsValid, people_named.0, (λ e. cc), people_named.1), tt);
}

people_there : find_table (codes "people") town ≡ some people
unfolding find_table OrdMap.find text_lt
people_there = refl

town_free : find_table (codes "folk") town ≡ none
unfolding find_table OrdMap.find text_lt
town_free = refl

town_unnamed : find_table [] town ≡ none
unfolding find_table OrdMap.find text_lt
town_unnamed = refl

drop_table-removes_example :
    ((drop_table (codes "people") town).1 ≡ true)
      × (find_table (codes "people") town ≢ none)
      × ((q : Text)
          → find_table q (drop_table (codes "people") town).0
            ≡ (if is_same text_lt (codes "people") q then none else find_table q town))
    ⊎ (drop_table (codes "people") town ≡ (town, false)) × (find_table (codes "people") town ≡ none)
drop_table-removes_example = drop_table-removes (codes "people") town town-IsValid

rename_table-Renames_example : Renames (codes "people") (codes "folk") people town
rename_table-Renames_example =
    rename_table-Renames (codes "people") (codes "folk") people town town-IsValid people_there
      town_free (λ e. cc)

rename_table_empty_example :
    ((rename_table (codes "people") [] town).1 ≡ err empty_table_name)
    × (find_table (codes "people") (rename_table (codes "people") [] town).0 ≡ none)
rename_table_empty_example =
    rename_table_empty (codes "people") people town town-IsValid people_there town_unnamed

clone-Copied_example :
    (copy : Database) × (clone town ≡ ok copy)
    × (copy.name ≡ codes "town")
    × ((q : Text) → Copied (find_table q town) (find_table q copy))
clone-Copied_example = clone-Copied town town-IsValid (λ e. cc)

project_rows-cut_example :
    project_rows (1 ∷ []) (some 0) 0 (row_a ∷ row_b ∷ [])
    ≡ map (project (1 ∷ [])) (cut (some 0) (row_a ∷ row_b ∷ []))
project_rows-cut_example = project_rows-cut (1 ∷ []) (some 0) (row_a ∷ row_b ∷ [])

abbrev pub executor : QueryExecutor
executor = record {
  database = some town;
  transaction_snapshot = none;
  active_transaction = none;
  transaction_manager = new_manager;
  directory = none;
  wal = record { file = none; next_lsn = none };
  prepared_statements = [];
  replaying_wal = false;
}

first_manager-IsValid : States.IsValid new_manager
unfolding find_transaction OrdMap.find
first_manager-IsValid = record { held = λ k t e. absurd (ground arith) }

execute_rollback-RollsBack_example : RollsBack (some village) town executor
execute_rollback-RollsBack_example =
    execute_rollback-RollsBack (some village) town executor refl refl town-IsValid (λ e. cc)
      first_manager-IsValid
