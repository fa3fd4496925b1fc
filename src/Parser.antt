-- ===== src/Parser.antt =====
-- The parser: src/parser/parser.cpp. Its state is the list of the tokens that are left. `std::stod` is
-- the parameter `parse_double`. A loop over commas, `AND` or `OR` runs on fuel, a round for each token
-- at most, and so does the nesting of predicates.
pub mod Steps
pub mod Statements
pub mod Printed
pub mod Written
pub mod Listed
pub mod Replay
pub mod Definitions
use the_city_crdb.Ast.{
  Query, create_database, create_table, drop_table, rename_table, list_tables, insert, select,
  update, delete, create_index, save_database, load_database, begin_transaction, commit_transaction,
  rollback_transaction, prepare_statement, execute_prepared, exit,
}
use the_city_crdb.Common.{
  ℕ, zero, suc, ◌+◌, ◌-◌, ◌%◌, ◌^◌, Bool, true, false, not, ◌&&◌, ◌||◌, Option, none, some, List,
  [], ◌∷◌, map, Text, codes, text_eq, ◌==◌, if◌then◌else◌, length, contains, ℤ, pos, negsuc, Result,
  ok, err, Error, trailing_token, unsupported_command, expected_create_kind, expected_database_name,
  expected_table_name, expected_column_name, expected_column_type, unsupported_column_type,
  expected_source_table, expected_destination_table, expected_index_name, expected_indexed_table,
  expected_indexed_column, expected_selected_column, expected_joined_table,
  expected_left_join_column, expected_right_join_column, expected_order_by_column, expected_limit,
  expected_update_column, expected_statement_name, expected_prepared_sql, expected_predicate_column,
  expected_operator, expected_literal, out_of_fuel,
}
use the_city_crdb.Common.{◌>>=◌ as then_on}
use the_city_crdb.Decimal.{parse_int}
use the_city_crdb.Query.{
  Delete, JoinClause, OrderBy, Predicate, Select, Update, both, comparison, either,
}
use the_city_crdb.Parser.Steps.{
  Parser, Tokens, advance, comma_list, comma_loop, equals_ignore_case, expect, is_type, keyword,
  match_token, name_token, peek, pure, throw, ◌>>=◌, ◌>>◌,
}
use the_city_crdb.Tokenizer.{
  Token, TokenType, comma, end, identifier, left_paren, number, right_paren, semicolon, star,
  string, tokenize,
}
use the_city_crdb.Value.{
  Column, ComparisonOperator, Row, Value, column_type_from_string, null, int, double, to_upper,
}

-- `static_cast<std::size_t>`
abbrev size_of_int : ℤ → ℕ
size_of_int (pos n) = n
size_of_int (negsuc n) = 2 ^ 64 - 1 - n

unfoldable pub parse_operator : Parser ComparisonOperator
parse_operator = do
  is_equal ← match_token TokenType.equal []
  if is_equal then pure ComparisonOperator.equal else do
    is_greater ← match_token TokenType.greater []
    if is_greater then pure ComparisonOperator.greater else do
      is_less ← match_token TokenType.less []
      if is_less then pure ComparisonOperator.less else throw expected_operator

module _ (parse_double : Text → Result ℕ) where
  unfoldable pub number_value : Text → Result Value
  number_value lexeme =
      if contains b'.' lexeme
      then then_on (parse_double lexeme) (λ bits. ok (double bits))
      else then_on (parse_int lexeme) (λ x. ok (int x))

  unfoldable pub token_value : Token → Result Value
  token_value t =
      if is_type t.type identifier && equals_ignore_case t.lexeme (codes "NULL")
      then ok null
      else if is_type t.type TokenType.string
      then ok (Value.string t.lexeme)
      else if is_type t.type number
      then number_value t.lexeme
      else err expected_literal

  unfoldable pub parse_value : Parser Value
  parse_value = do t ← advance; λ ts. then_on (token_value t) λ v. ok (v, ts)

  unfoldable pub parse_comparison : Parser Predicate
  parse_comparison = do
    column ← name_token expected_predicate_column
    op ← parse_operator
    value ← parse_value
    pure (comparison column op value)

  module _ (nested : Parser Predicate) where
    unfoldable pub parse_primary : Parser Predicate
    parse_primary = do
      open_paren ← match_token left_paren []
      if open_paren
          then (do predicate ← nested; expect right_paren []; pure predicate)
          else parse_comparison

    -- `while (match(TokenType::Identifier, "AND"))`
    unfoldable pub and_loop : ℕ → Predicate → Parser Predicate
    and_loop zero left ts = err out_of_fuel
    and_loop (suc fuel) left ts =
        let more = λ (right : Predicate). and_loop fuel (both left right) in
        (do again ← keyword (codes "AND"); if again then parse_primary >>= more else pure left) ts

    unfoldable pub parse_and : Parser Predicate
    parse_and = do left ← parse_primary; λ ts. and_loop (suc (length ts)) left ts

    -- `while (match(TokenType::Identifier, "OR"))`
    unfoldable pub or_loop : ℕ → Predicate → Parser Predicate
    or_loop zero left ts = err out_of_fuel
    or_loop (suc fuel) left ts =
        let more = λ (right : Predicate). or_loop fuel (either left right) in
        (do again ← keyword (codes "OR"); if again then parse_and >>= more else pure left) ts

    unfoldable pub parse_or : Parser Predicate
    parse_or = do left ← parse_and; λ ts. or_loop (suc (length ts)) left ts

  -- The fuel bounds the nesting of parentheses.
  unfoldable pub predicate_within : ℕ → Parser Predicate
  predicate_within zero ts = err out_of_fuel
  predicate_within (suc fuel) ts = parse_or (predicate_within fuel) ts

  unfoldable pub parse_predicate : Parser Predicate
  parse_predicate ts = predicate_within (suc (length ts)) ts

  -- `if (match(TokenType::Identifier, "WHERE")) { where = parsePredicate(); }`
  unfoldable pub parse_where : Parser (Option Predicate)
  parse_where = do
    found ← keyword (codes "WHERE")
    if found then parse_predicate >>= (λ p. pure (some p)) else pure none
