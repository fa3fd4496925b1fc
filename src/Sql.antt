-- ===== src/Sql.antt =====
-- SQL text of values, predicates and statements, as the executor writes it to the log and binds it
-- to prepared statements: src/execution/query_executor.cpp. What `operator<<` prints for a double is
-- the parameter `print_double`.
pub mod Literals
pub mod Pieces
use the_city_crdb.Common.{
  ℕ, zero, suc, Bool, true, false, ◌||◌, Option, none, some, List, [], ◌∷◌, ◌++◌, Text, codes, ltb,
  ◌==◌, if◌then◌else◌, Result, ok, err, ◌>>=◌, too_few_parameters, too_many_parameters,
}
use the_city_crdb.Decimal.{print_int}
use the_city_crdb.Query.{Delete, Predicate, Update, both, comparison, either}
use the_city_crdb.Value.{
  Column, ColumnType, ComparisonOperator, Row, Value, double, equal, greater, int, less, null,
  string, to_string,
}

-- A backslash before each quote and each backslash.
unfoldable pub escape : Text → Text
escape [] = []
escape (ch ∷ text) =
    let rest = ch ∷ escape text in if ch == b'"' || ch == b'\\' then b'\\' ∷ rest else rest

abbrev pub operator_text : ComparisonOperator → Text
operator_text equal = codes "="
operator_text greater = codes ">"
operator_text less = codes "<"

abbrev pub column_type_literal : ColumnType → Text
column_type_literal = to_string

-- The column of CREATE TABLE: a column that takes no NULL says nothing.
abbrev pub column_sql : Column → Text
column_sql c =
    c.name ++ b' ' ∷ (column_type_literal c.type ++ (if c.nullable then codes " NULL" else []))

-- The items of a loop that writes ", " before each but the first.
abbrev pub separated {ℓ} : {A : Type ℓ} → (A → Text) → List A → Text
separated print [] = []
separated print (x ∷ []) = print x
separated print (x ∷ y ∷ xs) = print x ++ b',' ∷ b' ' ∷ separated print (y ∷ xs)

module _ (print_double : ℕ → Text) where
  unfoldable pub sql_literal : Value → Text
  unfolding escape print_int
  sql_literal null = codes "NULL"
  sql_literal (int x) = print_int x
  sql_literal (double bits) = print_double bits
  sql_literal (string text) = b'"' ∷ (escape text ++ b'"' ∷ [])

  unfoldable pub predicate_literal : Predicate → Text
  unfolding sql_literal
  predicate_literal (comparison column op value) =
      column ++ b' ' ∷ (operator_text op ++ b' ' ∷ sql_literal value)
  predicate_literal (both left right) =
      b'(' ∷ (predicate_literal left ++ (codes " AND " ++ (predicate_literal right ++ b')' ∷ [])))
  predicate_literal (either left right) =
      b'(' ∷ (predicate_literal left ++ (codes " OR " ++ (predicate_literal right ++ b')' ∷ [])))

  unfoldable pub insert_sql : Text → Row → Text
  unfolding sql_literal
  insert_sql table row =
      codes "INSERT INTO "
      ++ (table ++ (codes " VALUES (" ++ (separated sql_literal row ++ codes ");")))

  -- `if (command.where) { sql << " WHERE " << … }`
  abbrev pub where_sql : Option Predicate → Text
  where_sql none = []
  where_sql (some p) = codes " WHERE " ++ predicate_literal p

  unfoldable pub update_sql : Update → Text
  unfolding sql_literal predicate_literal
  update_sql command =
      codes "UPDATE "
      ++ (command.table
          ++ (codes " SET "
              ++ (command.column
                  ++ (codes " = "
                      ++ (sql_literal command.value
                          ++ (where_sql command.where_clause ++ codes ";"))))))

  unfoldable pub delete_sql : Delete → Text
  unfolding predicate_literal
  delete_sql command =
      codes "DELETE FROM " ++ (command.table ++ (where_sql command.where_clause ++ codes ";"))

  -- The loop of `bindPreparedSql` over the prepared text.
  unfoldable pub bind : Text → List Value → Result Text
  unfolding sql_literal
  bind [] [] = ok []
  bind [] (v ∷ parameters) = err too_many_parameters
  bind (ch ∷ sql) [] =
      let rest = bind sql [] in
      if ch == b'?' then err too_few_parameters else rest >>= λ bound. ok (ch ∷ bound)
  bind (ch ∷ sql) (v ∷ parameters) =
      let literal = bind sql parameters >>= λ bound. ok (sql_literal v ++ bound) in
      let plain = bind sql (v ∷ parameters) >>= λ bound. ok (ch ∷ bound) in
      if ch == b'?' then literal else plain

unfoldable pub create_table_sql : Text → List Column → Text
create_table_sql name columns =
    codes "CREATE TABLE " ++ (name ++ (codes " (" ++ (separated column_sql columns ++ codes ");")))

unfoldable pub create_index_sql : Text → Text → Text → Text
create_index_sql name table column =
    codes "CREATE INDEX " ++ (name ++ (codes " ON " ++ (table ++ b'(' ∷ (column ++ codes ");"))))

unfoldable pub drop_table_sql : Text → Text
drop_table_sql name = codes "DROP TABLE " ++ (name ++ codes ";")

unfoldable pub rename_table_sql : Text → Text → Text
rename_table_sql old_name new_name =
    codes "RENAME TABLE " ++ (old_name ++ (codes " TO " ++ (new_name ++ codes ";")))
