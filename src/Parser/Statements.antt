-- ===== src/Parser/Statements.antt =====
-- The statements of src/parser/parser.cpp: `Parser::parse` and its functions for each command, over the
-- tokens. `std::stod` is the parameter `parse_double`.
use the_city_crdb.Ast.{
  Query, create_database, create_table, drop_table, rename_table, list_tables, insert, select,
  update, delete, create_index, save_database, load_database, begin_transaction, commit_transaction,
  rollback_transaction, prepare_statement, execute_prepared, exit,
}
use the_city_crdb.Common.{
  ℕ, Bool, true, false, Option, none, some, List, [], ◌∷◌, Text, codes, if◌then◌else◌, Result, ok,
  trailing_token, unsupported_command, expected_create_kind, expected_database_name,
  expected_table_name, expected_column_name, expected_column_type, unsupported_column_type,
  expected_source_table, expected_destination_table, expected_index_name, expected_indexed_table,
  expected_indexed_column, expected_selected_column, expected_joined_table,
  expected_left_join_column, expected_right_join_column, expected_order_by_column, expected_limit,
  expected_update_column, expected_statement_name, expected_prepared_sql,
}
use the_city_crdb.Common.{◌>>=◌ as then_on}
use the_city_crdb.Decimal.{parse_int}
use the_city_crdb.Parser.{
  and_loop, number_value, or_loop, parse_and, parse_comparison, parse_operator, parse_or,
  parse_predicate, parse_primary, parse_value, parse_where, predicate_within, size_of_int,
  token_value,
}
use the_city_crdb.Parser.Steps.{
  Parser, Tokens, advance, comma_list, comma_loop, equals_ignore_case, expect, is_type, keyword,
  match_token, name_token, peek, pure, throw, ◌>>=◌, ◌>>◌,
}
use the_city_crdb.Query.{JoinClause, OrderBy}
use the_city_crdb.Tokenizer.{
  TokenType, end, identifier, left_paren, number, right_paren, semicolon, star, tokenize,
}
use the_city_crdb.Value.{Column, ColumnType, Row, column_type_from_string}

-- A word that has to stand here.
abbrev word : Text → Parser (Unit {0})
word = expect identifier

abbrev mark : TokenType → Parser (Unit {0})
mark type = expect type []

unfoldable pub parse_create_database : Parser Query
parse_create_database = do name ← name_token expected_database_name; pure (create_database name)

unfoldable pub column_type_token : Parser ColumnType
column_type_token = do
  type_name ← name_token expected_column_type
  elim (column_type_from_string type_name) [
    | none ↦ throw unsupported_column_type
    | some type ↦ pure type
  ]

-- `NOT NULL`, `NULL` or nothing.
unfoldable pub nullable_clause : Parser Bool
nullable_clause = do
  not_null ← keyword (codes "NOT")
  if not_null then word (codes "NULL") >> pure false else keyword (codes "NULL")

unfoldable pub parse_column : Parser Column
parse_column = do
  name ← name_token expected_column_name
  type ← column_type_token
  nullable ← nullable_clause
  pure (record { name = name; type = type; nullable = nullable })

unfoldable pub parse_create_table : Parser Query
parse_create_table = do
  name ← name_token expected_table_name
  mark left_paren
  columns ← comma_list parse_column
  mark right_paren
  pure (create_table name columns)

unfoldable pub parse_drop_table : Parser Query
parse_drop_table = do
  word (codes "TABLE")
  name ← name_token expected_table_name
  pure (drop_table name)

unfoldable pub parse_rename_table : Parser Query
parse_rename_table = do
  word (codes "TABLE")
  old_name ← name_token expected_source_table
  word (codes "TO")
  new_name ← name_token expected_destination_table
  pure (rename_table old_name new_name)

unfoldable pub parse_create_index : Parser Query
parse_create_index = do
  index ← name_token expected_index_name
  word (codes "ON")
  table ← name_token expected_indexed_table
  mark left_paren
  column ← name_token expected_indexed_column
  mark right_paren
  pure (create_index index table column)

-- `*`, or names between commas.
unfoldable pub selected_columns : Parser (List Text)
selected_columns = do
  all ← match_token star []
  if all then pure (codes "*" ∷ []) else comma_list (name_token expected_selected_column)

unfoldable pub join_clause : Parser (Option JoinClause)
join_clause = do
  found ← keyword (codes "JOIN")
  if found
      then (do
        table ← name_token expected_joined_table
        word (codes "ON")
        left ← name_token expected_left_join_column
        mark TokenType.equal
        right ← name_token expected_right_join_column
        pure (some (record { table = table; left_column = left; right_column = right })))
      else pure none

-- `DESC`, `ASC` or nothing.
unfoldable pub direction : Parser Bool
direction = do
  descending ← keyword (codes "DESC")
  if descending then pure false else (keyword (codes "ASC") >> pure true)

unfoldable pub order_clause : Parser (Option OrderBy)
order_clause = do
  found ← keyword (codes "ORDER")
  if found
      then (do
        word (codes "BY")
        column ← name_token expected_order_by_column
        ascending ← direction
        pure (some (record { column = column; ascending = ascending })))
      else pure none

unfoldable pub limit_token : Parser ℕ
limit_token = do
  count ← advance
  if is_type count.type number
      then (λ ts. then_on (parse_int count.lexeme) λ x. ok (size_of_int x, ts))
      else throw expected_limit

unfoldable pub limit_clause : Parser (Option ℕ)
limit_clause = do
  found ← keyword (codes "LIMIT")
  if found then limit_token >>= (λ n. pure (some n)) else pure none

unfoldable pub parse_prepare : Parser Query
parse_prepare = do
  name ← name_token expected_statement_name
  word (codes "AS")
  sql ← advance
  if is_type sql.type TokenType.string
      then pure (prepare_statement name sql.lexeme)
      else throw expected_prepared_sql

module _ (parse_double : Text → Result ℕ) where
  -- The values between parentheses.
  unfoldable pub parse_row : Parser Row
  parse_row = do
    mark left_paren
    values ← comma_list (parse_value parse_double)
    mark right_paren
    pure values

  unfoldable pub parse_insert : Parser Query
  parse_insert = do
    word (codes "INTO")
    table ← name_token expected_table_name
    word (codes "VALUES")
    rows ← comma_list parse_row
    pure (insert table rows)

  unfoldable pub parse_select : Parser Query
  parse_select = do
    columns ← selected_columns
    word (codes "FROM")
    table ← name_token expected_table_name
    join ← join_clause
    condition ← parse_where parse_double
    order_by ← order_clause
    limit ← limit_clause
    pure (
        select (record {
          table = table;
          join = join;
          columns = columns;
          where_clause = condition;
          order_by = order_by;
          limit = limit;
        }))

  unfoldable pub parse_update : Parser Query
  parse_update = do
    table ← name_token expected_table_name
    word (codes "SET")
    column ← name_token expected_update_column
    mark TokenType.equal
    value ← parse_value parse_double
    condition ← parse_where parse_double
    pure (
        update (record { table = table; column = column; value = value; where_clause = condition }))

  unfoldable pub parse_delete : Parser Query
  parse_delete = do
    word (codes "FROM")
    table ← name_token expected_table_name
    condition ← parse_where parse_double
    pure (delete (record { table = table; where_clause = condition }))

  unfoldable pub parse_execute_prepared : Parser Query
  parse_execute_prepared = do
    name ← name_token expected_statement_name
    found ← keyword (codes "VALUES")
    if found
        then parse_row >>= (λ parameters. pure (execute_prepared name parameters))
        else pure (execute_prepared name [])

-- An optional semicolon, then the end.
unfoldable pub expect_statement_end : Parser (Unit {0})
expect_statement_end = do
  found ← match_token semicolon []
  t ← peek
  if is_type t.type end then pure tt else throw trailing_token

unfoldable pub parse_create : Parser Query
parse_create = do
  database ← keyword (codes "DATABASE")
  if database then parse_create_database else do
    table ← keyword (codes "TABLE")
    if table then parse_create_table else do
      index ← keyword (codes "INDEX")
      if index then parse_create_index else throw expected_create_kind

unfoldable pub parse_load : Parser Query
parse_load = do
  word (codes "DATABASE")
  t ← peek
  if is_type t.type identifier
      then advance >>= (λ name. pure (load_database (some name.lexeme)))
      else pure (load_database none)

-- `if (match(TokenType::Identifier, …)) { return finish(…); }` for one command after another.
unfoldable pub dispatch : List (Text × Parser Query) → Parser Query
dispatch [] = throw unsupported_command
dispatch ((command, body) ∷ others) =
    let other = dispatch others in do found ← keyword command; if found then body else other

module _ (parse_double : Text → Result ℕ) where
  unfoldable pub commands : List (Text × Parser Query)
  commands =
      (codes "CREATE", parse_create)
      ∷ (codes "DROP", parse_drop_table)
      ∷ (codes "RENAME", parse_rename_table)
      ∷ (codes "LIST", word (codes "TABLES") >> pure list_tables)
      ∷ (codes "INSERT", parse_insert parse_double)
      ∷ (codes "SELECT", parse_select parse_double)
      ∷ (codes "UPDATE", parse_update parse_double)
      ∷ (codes "DELETE", parse_delete parse_double)
      ∷ (codes "SAVE", word (codes "DATABASE") >> pure save_database)
      ∷ (codes "LOAD", parse_load)
      ∷ (codes "BEGIN", pure begin_transaction)
      ∷ (codes "COMMIT", pure commit_transaction)
      ∷ (codes "ROLLBACK", pure rollback_transaction)
      ∷ (codes "PREPARE", parse_prepare)
      ∷ (codes "EXECUTE", parse_execute_prepared parse_double)
      ∷ (codes "EXIT", pure exit)
      ∷ []

  -- The parser over a tokenized statement.
  unfoldable pub parse_tokens : Tokens → Result Query
  parse_tokens ts =
      then_on (dispatch commands ts) λ r. then_on (expect_statement_end r.1) λ _. ok r.0

  unfoldable pub parse : Text → Result Query
  unfolding equals_ignore_case peek advance match_token expect name_token comma_loop parse_operator
      token_value parse_value parse_comparison parse_primary and_loop parse_and or_loop parse_or
      predicate_within parse_predicate parse_where parse_create_database column_type_token
      nullable_clause parse_column parse_create_table parse_drop_table parse_rename_table
      parse_create_index selected_columns join_clause direction order_clause limit_token
      limit_clause parse_prepare parse_row parse_insert parse_select parse_update parse_delete
      parse_execute_prepared expect_statement_end parse_create parse_load dispatch commands
      parse_tokens number_value tokenize parse_int column_type_from_string
  parse sql = then_on (tokenize sql) parse_tokens
