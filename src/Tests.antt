-- ===== src/Tests.antt =====
-- Example data for the tests of the theorems, and their modules. No code corresponds to it.
mod Tables
mod Storage
mod Values
mod Databases
mod Texts
mod Statements
mod Logs
use the_city_crdb.Common.{
  ℕ, ◌≢◌, ◌≡◌, refl, sym, Bool, true, false, Option, none, some, List, [], ◌∷◌, Text, codes, length,
  text_eq, text_lt, get_elem?, Result, ok, err, pos,
}
use mathlib.Core.Path.{subst}
use the_city_crdb.Query.{Delete, Predicate, Select, Update, both, comparison}
use the_city_crdb.Common.OrdMap
use the_city_crdb.RowStore
use the_city_crdb.Table.Indexing.{validate_row}
use the_city_crdb.Table.{Table, column_index, new_table, new_table_state, rows_snapshot}
use the_city_crdb.Table.Correct.{Inserts, IsValid, insert-Inserts, new_table-IsValid}
use the_city_crdb.Table.Created.{create_index-Creates}
use the_city_crdb.Table.Mutation.{create_index, insert, validate_all}
use the_city_crdb.Value.{
  Column, Row, Value, equal, greater, int, int_type, less, null, string, string_type, value_type,
}

abbrev pub id_column : Column
id_column = record { name = codes "id"; type = int_type; nullable = false }

abbrev pub name_column : Column
name_column = record { name = codes "name"; type = string_type; nullable = true }

abbrev pub row_a : Row
row_a = int (pos 1) ∷ string (codes "ann") ∷ []

abbrev pub row_b : Row
row_b = int (pos 2) ∷ null ∷ []

abbrev pub row_c : Row
row_c = int (pos 1) ∷ string (codes "cat") ∷ []

abbrev pub no_people : Table
no_people = new_table_state (codes "people") (id_column ∷ name_column ∷ [])

abbrev pub table_of : Table → Result (Table × ℕ) → Table
table_of t (ok r) = r.0
table_of t (err _) = t

abbrev pub one_person : Table
one_person = table_of no_people (insert row_a no_people)

abbrev pub two_people : Table
two_people = table_of one_person (insert row_b one_person)

-- Two rows and an index on `id`.
abbrev pub people : Table
people = (create_index (codes "by_id") (codes "id") two_people).0

-- A model value computes, so a fact about it is `refl`.
pub people_rows : rows_snapshot people ≡ row_a ∷ row_b ∷ []
unfolding create_index insert rows_snapshot RowStore.snapshot column_index value_type RowStore.get
    RowStore.append OrdMap.find OrdMap.upsert text_eq
people_rows = refl

table_of-IsValid : (row : Row) (t : Table) → Inserts row t → IsValid (table_of t (insert row t))
table_of-IsValid row t (t', e, v, r, q, w) = subst (λ r. IsValid (table_of t r)) (sym e) v

no_people-IsValid : IsValid no_people
no_people-IsValid =
    (new_table-IsValid (codes "people") (id_column ∷ name_column ∷ []) {t = no_people}
      (unfold new_table in refl)).0

one_person-IsValid : IsValid one_person
unfolding validate_row value_type
one_person-IsValid =
    table_of-IsValid row_a no_people
      (insert-Inserts row_a no_people no_people-IsValid refl (tt, (tt, tt)))

two_people-IsValid : IsValid two_people
unfolding create_index insert validate_row value_type RowStore.get RowStore.append OrdMap.find
    OrdMap.upsert
two_people-IsValid =
    table_of-IsValid row_b one_person
      (insert-Inserts row_b one_person one_person-IsValid refl (tt, (tt, tt)))

pub id_found : column_index (codes "id") two_people ≡ some 0
unfolding insert validate_row value_type RowStore.get RowStore.append OrdMap.find OrdMap.upsert
    column_index text_eq
id_found = refl

pub no_index : OrdMap.find text_lt (codes "by_id") two_people.indexes ≡ none
unfolding insert validate_row value_type RowStore.get RowStore.append OrdMap.find OrdMap.upsert
no_index = refl

pub people-IsValid : IsValid people
people-IsValid =
    (create_index-Creates (codes "by_id") (codes "id") 0 two_people two_people-IsValid id_found
      no_index).1

pub people_fits : validate_row row_c people ≡ ok tt
unfolding create_index insert validate_row value_type RowStore.get RowStore.append OrdMap.find
    OrdMap.upsert column_index text_eq
people_fits = refl

pub people_all_fit : validate_all (row_c ∷ row_b ∷ []) people ≡ ok tt
unfolding create_index insert validate_row value_type RowStore.get RowStore.append OrdMap.find
    OrdMap.upsert column_index text_eq validate_all
people_all_fit = refl

pub people_id :
    (column_index (codes "id") people ≡ some 0) × (column_index (codes "name") people ≡ some 1)
unfolding create_index insert validate_row value_type RowStore.get RowStore.append OrdMap.find
    OrdMap.upsert column_index text_eq
people_id = (refl, refl)

pub people_cells : get_elem? people.schema 1 ≡ some name_column
unfolding create_index insert validate_row value_type RowStore.get RowStore.append OrdMap.find
    OrdMap.upsert column_index text_eq
people_cells = refl

pub no_age : column_index (codes "age") people ≡ none
unfolding create_index insert validate_row value_type RowStore.get RowStore.append OrdMap.find
    OrdMap.upsert column_index text_eq
no_age = refl

pub people_named : (people.name ≡ codes "people") × (people.schema ≢ [])
unfolding create_index insert validate_row value_type RowStore.get RowStore.append OrdMap.find
    OrdMap.upsert column_index text_eq
people_named = (refl, λ e. cc)
