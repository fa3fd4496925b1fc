-- ===== src/Parser/Replay.antt =====
-- The statements that the executor writes to its log are parsed back to the statements they came from.
use the_city_crdb.Ast.{Query, delete, insert, update}
use the_city_crdb.Common.{ℕ, ◌≡◌, ◌≢◌, refl, true, List, [], ◌∷◌, arith, Text, codes, Result, ok}
use the_city_crdb.Common.OrdMap.{All}
use the_city_crdb.Parser.{parse_value}
use the_city_crdb.Parser.Listed.{IsWritten-listed, comma_list-listed, show-listed}
use the_city_crdb.Parser.Printed.{
  WhereIsWritable, listed, parse_value-literal_token, parse_where-tokens, where_pieces,
}
use the_city_crdb.Parser.Statements.{
  dispatch, commands, expect_statement_end, parse, parse_delete, parse_insert, parse_row,
  parse_tokens, parse_update,
}
use the_city_crdb.Parser.Steps.{
  Tokens, comma_loop, equals_ignore_case, expect, match_token, name_token,
}
use the_city_crdb.Parser.Written.{IsClear-where_pieces, IsWritten-where_pieces, show-where_pieces}
use the_city_crdb.Query.{Delete, Update}
use the_city_crdb.Sql.{delete_sql, insert_sql, sql_literal, update_sql}
use the_city_crdb.Sql.Literals.{IsPrintable, is_name}
use the_city_crdb.Sql.Pieces.{
  IsWritten, Piece, blank, literal, mark, name, show, tokenize-show, tokens,
}
use the_city_crdb.Tokenizer.{TokenType, left_paren, right_paren, semicolon, symbol}
use the_city_crdb.Value.{Row}

module _ (print_double : ℕ → Text) (parse_double : Text → Result ℕ) where
  abbrev pub toks : List Piece → Tokens
  toks = tokens print_double parse_double

  pub parse-show :
      (ps : List Piece) (q : Query)
      → IsWritten print_double parse_double ps
      → parse_tokens parse_double (toks ps) ≡ ok q
      → parse parse_double (show print_double parse_double ps) ≡ ok q
  unfolding parse
  parse-show ps q w h = rw (tokenize-show print_double parse_double ps w) h

  parse_row-tokens :
      (row : Row) (ps : List Piece)
      → row ≢ []
      → All (IsPrintable print_double parse_double) row
      → parse_row parse_double (
          toks (
            mark b'(' left_paren
            ∷ listed (λ v qs. literal v ∷ qs) row (mark b')' right_paren ∷ ps)))
        ≡ ok (row, toks ps)
  unfolding parse_row expect match_token
  parse_row-tokens row ps ne good =
      rw
        (comma_list-listed print_double parse_double (sql_literal print_double)
          (λ v qs. literal v ∷ qs) (parse_value parse_double)
          (IsPrintable print_double parse_double)
          (λ v ch type qs h plain. parse_value-literal_token print_double parse_double v _ h)
          (λ v qs. omega arith) row b')' right_paren ps ne good refl refl)
        refl

  insert_pieces : Text → Row → List Piece
  insert_pieces table row =
      name (codes "INSERT")
      ∷ blank
      ∷ name (codes "INTO")
      ∷ blank
      ∷ name table
      ∷ blank
      ∷ name (codes "VALUES")
      ∷ blank
      ∷ mark b'(' left_paren
      ∷ listed (λ v qs. literal v ∷ qs) row (mark b')' right_paren ∷ mark b';' semicolon ∷ [])

  parse_tokens-insert :
      (table : Text) (row : Row)
      → row ≢ []
      → All (IsPrintable print_double parse_double) row
      → parse_tokens parse_double (toks (insert_pieces table row)) ≡ ok (insert table (row ∷ []))
  unfolding parse_tokens dispatch commands match_token equals_ignore_case parse_insert expect
      name_token comma_loop expect_statement_end insert_pieces
  parse_tokens-insert table row ne good =
      rw (parse_row-tokens row (mark b';' semicolon ∷ []) ne good) refl

  -- The logged text of an inserted row is parsed to the insertion of that row, if the table has a name
  -- that the tokenizer reads, the row has values, each integer is an int64, and each double is printed
  -- as a number with a dot that reads back as the double; strings may hold any bytes.
  pub parse-insert_sql :
      (table : Text) (row : Row)
      → is_name table ≡ true
      → row ≢ []
      → All (IsPrintable print_double parse_double) row
      → parse parse_double (insert_sql print_double table row) ≡ ok (insert table (row ∷ []))
  unfolding insert_sql insert_pieces
  parse-insert_sql table row named ne good =
      let after = mark b')' right_paren ∷ mark b';' semicolon ∷ [] in
      let values =
        IsWritten-listed print_double parse_double (sql_literal print_double)
          (λ v qs. literal v ∷ qs) (parse_value parse_double)
          (IsPrintable print_double parse_double) row after (λ v qs h c w. (h, c, w)) good tt
          (unfold symbol in (refl, (refl, tt))) in
      let shown =
        show-listed print_double parse_double (sql_literal print_double) (λ v qs. literal v ∷ qs)
          (parse_value parse_double) (IsPrintable print_double parse_double) row after
          (λ v qs. refl) in
      rw (← shown) (
        parse-show (insert_pieces table row) (insert table (row ∷ []))
          (unfold symbol in (refl, tt, (refl, tt, (named, tt, (refl, tt, (refl, values))))))
          (parse_tokens-insert table row ne good))

  delete_pieces : Delete → List Piece
  delete_pieces command =
      name (codes "DELETE")
      ∷ blank
      ∷ name (codes "FROM")
      ∷ blank
      ∷ name command.table
      ∷ where_pieces print_double parse_double command.where_clause (mark b';' semicolon ∷ [])

  parse_tokens-delete :
      (command : Delete)
      → WhereIsWritable print_double parse_double command.where_clause
      → parse_tokens parse_double (toks (delete_pieces command)) ≡ ok (delete command)
  unfolding parse_tokens dispatch commands match_token equals_ignore_case parse_delete expect
      name_token expect_statement_end delete_pieces
  parse_tokens-delete command w =
      rw
        (parse_where-tokens print_double parse_double command.where_clause b';' semicolon [] refl w)
        refl

  update_pieces : Update → List Piece
  update_pieces command =
      name (codes "UPDATE")
      ∷ blank
      ∷ name command.table
      ∷ blank
      ∷ name (codes "SET")
      ∷ blank
      ∷ name command.column
      ∷ blank
      ∷ mark b'=' TokenType.equal
      ∷ blank
      ∷ literal command.value
      ∷ where_pieces print_double parse_double command.where_clause (mark b';' semicolon ∷ [])

  parse_tokens-update :
      (command : Update)
      → IsPrintable print_double parse_double command.value
      → WhereIsWritable print_double parse_double command.where_clause
      → parse_tokens parse_double (toks (update_pieces command)) ≡ ok (update command)
  unfolding parse_tokens dispatch commands match_token equals_ignore_case parse_update expect
      name_token expect_statement_end update_pieces
  parse_tokens-update command h w =
      let after =
        where_pieces print_double parse_double command.where_clause (mark b';' semicolon ∷ []) in
      rw
        (
          parse_value-literal_token print_double parse_double command.value (toks after) h,
          parse_where-tokens print_double parse_double command.where_clause b';' semicolon [] refl
              w,
        )
        refl

  -- The logged text of DELETE is parsed to the command, if the table's name and the columns of the
  -- condition are names that the tokenizer reads and the values of the condition can be printed:
  -- integers are int64, and each double is printed as a number with a dot that reads back as the
  -- double.
  pub parse-delete_sql :
      (command : Delete)
      → is_name command.table ≡ true
      → WhereIsWritable print_double parse_double command.where_clause
      → parse parse_double (delete_sql print_double command) ≡ ok (delete command)
  unfolding delete_sql delete_pieces
  parse-delete_sql command named w =
      let after = mark b';' semicolon ∷ [] in
      let rest =
        IsWritten-where_pieces print_double parse_double command.where_clause after w tt
          (unfold symbol in (refl, tt)) in
      let clear = IsClear-where_pieces print_double parse_double command.where_clause after tt in
      rw (← show-where_pieces print_double parse_double command.where_clause after) (
        parse-show (delete_pieces command) (delete command)
          (refl, tt, (refl, tt, (named, clear, rest))) (parse_tokens-delete command w))

  -- The logged text of UPDATE is parsed to the command, if the names of the table, of the column that
  -- is set and of the columns of the condition are names that the tokenizer reads, and the new value
  -- and those of the condition can be printed: integers are int64, and each double is printed as a
  -- number with a dot that reads back as the double.
  pub parse-update_sql :
      (command : Update)
      → is_name command.table ≡ true
      → is_name command.column ≡ true
      → IsPrintable print_double parse_double command.value
      → WhereIsWritable print_double parse_double command.where_clause
      → parse parse_double (update_sql print_double command) ≡ ok (update command)
  unfolding update_sql update_pieces
  parse-update_sql command named column h w =
      let after = mark b';' semicolon ∷ [] in
      let rest =
        IsWritten-where_pieces print_double parse_double command.where_clause after w tt
          (unfold symbol in (refl, tt)) in
      let clear = IsClear-where_pieces print_double parse_double command.where_clause after tt in
      rw (← show-where_pieces print_double parse_double command.where_clause after) (
        parse-show (update_pieces command) (update command)
          (unfold symbol in
            (refl, tt, (named, tt, (refl, tt, (column, tt, (refl, (h, clear, rest)))))))
          (parse_tokens-update command h w))
