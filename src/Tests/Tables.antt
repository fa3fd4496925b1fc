-- ===== src/Tests/Tables.antt =====
-- The theorems on tables and queries at the example tables.
use the_city_crdb.Common.{
  ◌<◌, ◌≡◌, refl, none, some, [], ◌∷◌, arith, codes, length, ok, pos, updated_type_mismatch, map,
  not,
}
use the_city_crdb.Query.{
  Delete, Predicate, Select, Update, comparison, collect_rows, scan, execute_delete, execute_update,
}
use the_city_crdb.Query.Changes.{
  Leaves, changed, execute_delete-Leaves, execute_update-Leaves, tally,
}
use the_city_crdb.Query.Conditions.{chosen}
use the_city_crdb.Query.Scan.{SameRows, collect_rows-scan}
use the_city_crdb.Query.Selection.{filtered}
use the_city_crdb.Table.{new_table, rows_snapshot}
use the_city_crdb.Table.Changes.{Erases, Updates, erase-Erases, update-Updates}
use the_city_crdb.Table.Correct.{Inserts, insert-Inserts}
use the_city_crdb.Table.Created.{Creates, create_index-Creates}
use the_city_crdb.Table.Indexing.{check_value}
use the_city_crdb.Table.Lookups.{
  Looks, LooksOrdered, indexed_lookup-Looks, ordered_lookup-LooksOrdered,
}
use the_city_crdb.Table.Mutation.{create_index}
use the_city_crdb.Table.Rebuilt.{Replaces, replace_rows-Replaces}
use the_city_crdb.Tests.{
  id_column, id_found, name_column, no_index, no_people, people, people-IsValid, people_rows, row_b,
  row_c, two_people, two_people-IsValid, people_fits, people_id, people_cells, people_all_fit,
}
use the_city_crdb.Value.{Value, int, less, string, value_type}

abbrev two : Value
two = int (pos 2)

-- A query by `id < 2`.
abbrev below_two : Predicate
below_two = comparison (codes "id") less two

abbrev select_below : Select
select_below = record {
  table = codes "people";
  join = none;
  columns = codes "*" ∷ [];
  where_clause = some below_two;
  order_by = none;
  limit = none;
}

abbrev rename_below : Update
rename_below = record {
  table = codes "people";
  column = codes "name";
  value = string (codes "zoe");
  where_clause = some below_two;
}

abbrev delete_below : Delete
delete_below = record { table = codes "people"; where_clause = some below_two }

name_taken : check_value updated_type_mismatch (string (codes "zoe")) name_column ≡ ok tt
unfolding check_value value_type
name_taken = refl

in_range : 1 < length (rows_snapshot people)
in_range = rw people_rows (omega arith)

made : new_table (codes "people") (id_column ∷ name_column ∷ []) ≡ ok no_people
unfolding new_table
made = refl

insert-Inserts_example : Inserts row_c people
insert-Inserts_example = insert-Inserts row_c people people-IsValid people_fits (tt, (tt, tt))

collect_rows-scan_example :
    SameRows
      (collect_rows none select_below people)
      (scan (some below_two) people (rows_snapshot people))
collect_rows-scan_example = collect_rows-scan select_below people people-IsValid tt

execute_update-Leaves_example :
    Leaves
      (map
        (changed (chosen people (some below_two)) 1 (string (codes "zoe")))
        (rows_snapshot people))
      (tally (chosen people (some below_two)) (rows_snapshot people))
      people
      (execute_update rename_below people)
execute_update-Leaves_example =
    execute_update-Leaves rename_below 1 name_column people people-IsValid people_id.1 people_cells
      name_taken tt (0, people_id.0)

execute_delete-Leaves_example :
    Leaves
      (filtered (λ row. not (chosen people (some below_two) row)) (rows_snapshot people))
      (tally (chosen people (some below_two)) (rows_snapshot people))
      people
      (execute_delete delete_below people)
execute_delete-Leaves_example =
    execute_delete-Leaves delete_below people people-IsValid (0, people_id.0)

erase-Erases_example : Erases 1 people
erase-Erases_example = erase-Erases 1 people people-IsValid in_range

update-Updates_example : Updates 1 1 (string (codes "zoe")) people
update-Updates_example =
    update-Updates 1 1 (string (codes "zoe")) name_column people people-IsValid in_range
      people_cells name_taken tt

ordered_lookup-LooksOrdered_example : LooksOrdered (codes "id") less two people
ordered_lookup-LooksOrdered_example =
    ordered_lookup-LooksOrdered (codes "id") less two people people-IsValid tt

indexed_lookup-Looks_example : Looks (codes "id") two people
indexed_lookup-Looks_example = indexed_lookup-Looks (codes "id") two people people-IsValid

create_index-Creates_example :
    Creates (codes "by_id") 0 two_people (create_index (codes "by_id") (codes "id") two_people)
create_index-Creates_example =
    create_index-Creates (codes "by_id") (codes "id") 0 two_people two_people-IsValid id_found
      no_index

replace_rows-Replaces_example : Replaces (row_c ∷ row_b ∷ []) people
replace_rows-Replaces_example =
    replace_rows-Replaces (row_c ∷ row_b ∷ []) people people-IsValid people_all_fit
      ((tt, (tt, tt)), ((tt, (tt, tt)), tt))
