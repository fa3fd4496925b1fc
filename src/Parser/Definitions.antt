-- ===== src/Parser/Definitions.antt =====
-- The logged statements on tables and indexes are parsed back to the statements they came from.
use the_city_crdb.Ast.{create_index, create_table, drop_table, rename_table}
use the_city_crdb.Common.{
  ℕ, suc, ◌≤◌, ◌≡◌, ◌≢◌, refl, Bool, true, false, List, [], ◌∷◌, ◌++◌, arith, Text, codes,
  if◌then◌else◌, length, Result, ok, append_assoc, append-nil, text_eq,
}
use the_city_crdb.Common.OrdMap.{All}
use the_city_crdb.Parser.Listed.{IsWritten-listed, comma_list-listed, show-listed}
use the_city_crdb.Parser.Printed.{listed, match_token-other}
use the_city_crdb.Parser.Statements.{
  dispatch, commands, expect_statement_end, parse, parse_column, parse_create, parse_create_index,
  parse_create_table, parse_drop_table, parse_rename_table, parse_tokens, column_type_token,
  nullable_clause,
}
use the_city_crdb.Parser.Steps.{
  Tokens, advance, equals_ignore_case, expect, is_type, match_token, name_token,
}
use the_city_crdb.Sql.{
  column_sql, create_index_sql, create_table_sql, drop_table_sql, rename_table_sql,
}
use the_city_crdb.Sql.Literals.{is_name}
use the_city_crdb.Sql.Pieces.{IsClear, IsWritten, Piece, blank, mark, name, show, tokens}
use the_city_crdb.Tokenizer.{
  TokenType, identifier, left_paren, right_paren, semicolon, symbol, token,
}
use the_city_crdb.Value.{
  Column, ColumnType, double_type, int_type, string_type, column_type_from_string, to_string,
  to_upper,
}
use the_city_crdb.Parser.Replay.{parse-show}

abbrev null_pieces : Bool → List Piece → List Piece
null_pieces true ps = blank ∷ name (codes "NULL") ∷ ps
null_pieces false ps = ps

-- A column as pieces.
column_pieces : Column → List Piece → List Piece
column_pieces c ps = name c.name ∷ blank ∷ name (to_string c.type) ∷ null_pieces c.nullable ps

module _ (print_double : ℕ → Text) (parse_double : Text → Result ℕ) where
  abbrev toks : List Piece → Tokens
  toks = tokens print_double parse_double

  abbrev text_of : List Piece → Text
  text_of = show print_double parse_double

  show-null_pieces :
      (type : ColumnType) (nullable : Bool) (ps : List Piece)
      → to_string type ++ text_of (null_pieces nullable ps)
        ≡ (to_string type ++ (if nullable then codes " NULL" else [])) ++ text_of ps
  show-null_pieces int_type true ps = refl
  show-null_pieces double_type true ps = refl
  show-null_pieces string_type true ps = refl
  show-null_pieces type false ps = rw (append-nil (to_string type)) refl

  show-column_pieces :
      (c : Column) (ps : List Piece) → text_of (column_pieces c ps) ≡ column_sql c ++ text_of ps
  unfolding column_pieces
  show-column_pieces c ps = rw (append_assoc c.name, ← show-null_pieces c.type c.nullable ps) refl

  column_type_token-to_string :
      (type : ColumnType) (ts : Tokens)
      → column_type_token (token identifier (to_string type) ∷ ts) ≡ ok (type, ts)
  unfolding column_type_token name_token advance column_type_from_string to_upper text_eq
  column_type_token-to_string int_type ts = refl
  column_type_token-to_string double_type ts = refl
  column_type_token-to_string string_type ts = refl

  nullable_clause-null_pieces :
      (nullable : Bool) (ch : ℕ) (type : TokenType) (ps : List Piece)
      → is_type type identifier ≡ false
      → nullable_clause (toks (null_pieces nullable (mark ch type ∷ ps)))
        ≡ ok (nullable, toks (mark ch type ∷ ps))
  unfolding nullable_clause
  nullable_clause-null_pieces true ch type ps plain = unfold match_token equals_ignore_case in refl
  nullable_clause-null_pieces false ch type ps plain =
      let t = token type (ch ∷ []) in
      rw
        (
          match_token-other identifier (codes "NOT") t (toks ps) plain,
          match_token-other identifier (codes "NULL") t (toks ps) plain,
        )
        refl

  parse_column-tokens :
      (c : Column) (ch : ℕ) (type : TokenType) (ps : List Piece)
      → is_type type identifier ≡ false
      → parse_column (toks (column_pieces c (mark ch type ∷ ps))) ≡ ok (c, toks (mark ch type ∷ ps))
  unfolding parse_column name_token column_pieces
  parse_column-tokens c ch type ps plain =
      let after = null_pieces c.nullable (mark ch type ∷ ps) in
      rw
        (
          column_type_token-to_string c.type (toks after),
          nullable_clause-null_pieces c.nullable ch type ps plain,
        )
        refl

  abbrev HasName : Column → Type 0
  HasName c = is_name c.name ≡ true

  is_name-to_string : (type : ColumnType) → is_name (to_string type) ≡ true
  is_name-to_string int_type = refl
  is_name-to_string double_type = refl
  is_name-to_string string_type = refl

  IsClear-null_pieces :
      (nullable : Bool) (ps : List Piece) → IsClear ps → IsClear (null_pieces nullable ps)
  IsClear-null_pieces true ps c = tt
  IsClear-null_pieces false ps c = c

  IsWritten-null_pieces :
      (nullable : Bool) (ps : List Piece)
      → IsClear ps
      → IsWritten print_double parse_double ps
      → IsWritten print_double parse_double (null_pieces nullable ps)
  IsWritten-null_pieces true ps c w = (refl, c, w)
  IsWritten-null_pieces false ps c w = w

  IsWritten-column_pieces :
      (c : Column) (ps : List Piece)
      → HasName c
      → IsClear ps
      → IsWritten print_double parse_double ps
      → IsWritten print_double parse_double (column_pieces c ps)
  unfolding column_pieces
  IsWritten-column_pieces c ps named clear w = (
    named,
    tt,
    (
      is_name-to_string c.type,
      IsClear-null_pieces c.nullable ps clear,
      IsWritten-null_pieces c.nullable ps clear w,
    ),
  )

  length-column_pieces :
      (c : Column) (ps : List Piece) → length (toks ps) ≤ length (toks (column_pieces c ps))
  unfolding column_pieces
  length-column_pieces c ps = at_least c.nullable
    where
      at_least : (b : Bool) → length (toks ps) ≤ suc (suc (length (toks (null_pieces b ps))))
      at_least true = omega arith
      at_least false = omega arith

  create_table_pieces : Text → List Column → List Piece
  create_table_pieces table columns =
      name (codes "CREATE")
      ∷ blank
      ∷ name (codes "TABLE")
      ∷ blank
      ∷ name table
      ∷ blank
      ∷ mark b'(' left_paren
      ∷ listed column_pieces columns (mark b')' right_paren ∷ mark b';' semicolon ∷ [])

  parse_tokens-create_table :
      (table : Text) (columns : List Column)
      → columns ≢ []
      → All HasName columns
      → parse_tokens parse_double (toks (create_table_pieces table columns))
        ≡ ok (create_table table columns)
  unfolding parse_tokens dispatch commands match_token equals_ignore_case parse_create
      parse_create_table expect name_token expect_statement_end create_table_pieces
  parse_tokens-create_table table columns ne good =
      rw
        (comma_list-listed print_double parse_double column_sql column_pieces parse_column HasName
          (λ c ch type qs h plain. parse_column-tokens c ch type qs plain) length-column_pieces
          columns b')' right_paren (mark b';' semicolon ∷ []) ne good refl refl)
        refl

  -- The logged text of CREATE TABLE is parsed to the command, if the table and each column have names
  -- that the tokenizer reads and there is a column.
  pub parse-create_table_sql :
      (table : Text) (columns : List Column)
      → is_name table ≡ true
      → columns ≢ []
      → All HasName columns
      → parse parse_double (create_table_sql table columns) ≡ ok (create_table table columns)
  unfolding create_table_sql create_table_pieces
  parse-create_table_sql table columns named ne good =
      let after = mark b')' right_paren ∷ mark b';' semicolon ∷ [] in
      let written =
        IsWritten-listed print_double parse_double column_sql column_pieces parse_column HasName
          columns after IsWritten-column_pieces good tt (unfold symbol in (refl, (refl, tt))) in
      let shown =
        show-listed print_double parse_double column_sql column_pieces parse_column HasName columns
          after show-column_pieces in
      rw (← shown) (
        parse-show print_double parse_double (create_table_pieces table columns)
          (create_table table columns)
          (unfold symbol in (refl, tt, (refl, tt, (named, tt, (refl, written)))))
          (parse_tokens-create_table table columns ne good))

  create_index_pieces : Text → Text → Text → List Piece
  create_index_pieces index table column =
      name (codes "CREATE")
      ∷ blank
      ∷ name (codes "INDEX")
      ∷ blank
      ∷ name index
      ∷ blank
      ∷ name (codes "ON")
      ∷ blank
      ∷ name table
      ∷ mark b'(' left_paren
      ∷ name column
      ∷ mark b')' right_paren
      ∷ mark b';' semicolon
      ∷ []

  parse_tokens-create_index :
      (index table column : Text)
      → parse_tokens parse_double (toks (create_index_pieces index table column))
        ≡ ok (create_index index table column)
  unfolding parse_tokens dispatch commands match_token equals_ignore_case parse_create
      parse_create_index expect name_token expect_statement_end create_index_pieces
  parse_tokens-create_index index table column = refl

  -- The logged text of CREATE INDEX is parsed to the command, if the index, the table and the column have
  -- names that the tokenizer reads.
  pub parse-create_index_sql :
      (index table column : Text)
      → is_name index ≡ true
      → is_name table ≡ true
      → is_name column ≡ true
      → parse parse_double (create_index_sql index table column)
        ≡ ok (create_index index table column)
  unfolding create_index_sql create_index_pieces
  parse-create_index_sql index table column a b c =
      parse-show print_double parse_double (create_index_pieces index table column)
        (create_index index table column)
        (unfold symbol in
          (refl, tt, (refl, tt, (a, tt, (refl, tt, (b, tt, (refl, (c, tt, (refl, (refl, tt))))))))))
        (parse_tokens-create_index index table column)

  drop_table_pieces : Text → List Piece
  drop_table_pieces table =
      name (codes "DROP")
      ∷ blank
      ∷ name (codes "TABLE")
      ∷ blank
      ∷ name table
      ∷ mark b';' semicolon
      ∷ []

  rename_table_pieces : Text → Text → List Piece
  rename_table_pieces old_name new_name =
      name (codes "RENAME")
      ∷ blank
      ∷ name (codes "TABLE")
      ∷ blank
      ∷ name old_name
      ∷ blank
      ∷ name (codes "TO")
      ∷ blank
      ∷ name new_name
      ∷ mark b';' semicolon
      ∷ []

  parse_tokens-drop_table :
      (table : Text)
      → parse_tokens parse_double (toks (drop_table_pieces table)) ≡ ok (drop_table table)
  unfolding parse_tokens dispatch commands match_token equals_ignore_case parse_drop_table expect
      name_token expect_statement_end drop_table_pieces
  parse_tokens-drop_table table = refl

  parse_tokens-rename_table :
      (old_name new_name : Text)
      → parse_tokens parse_double (toks (rename_table_pieces old_name new_name))
        ≡ ok (rename_table old_name new_name)
  unfolding parse_tokens dispatch commands match_token equals_ignore_case parse_rename_table expect
      name_token expect_statement_end rename_table_pieces
  parse_tokens-rename_table old_name new_name = refl

  pub parse-drop_table_sql :
      (table : Text)
      → is_name table ≡ true
      → parse parse_double (drop_table_sql table) ≡ ok (drop_table table)
  unfolding drop_table_sql drop_table_pieces
  parse-drop_table_sql table named =
      parse-show print_double parse_double (drop_table_pieces table) (drop_table table)
        (unfold symbol in (refl, tt, (refl, tt, (named, tt, (refl, tt)))))
        (parse_tokens-drop_table table)

  pub parse-rename_table_sql :
      (old_name new_name : Text)
      → is_name old_name ≡ true
      → is_name new_name ≡ true
      → parse parse_double (rename_table_sql old_name new_name)
        ≡ ok (rename_table old_name new_name)
  unfolding rename_table_sql rename_table_pieces
  parse-rename_table_sql old_name new_name a b =
      parse-show print_double parse_double (rename_table_pieces old_name new_name)
        (rename_table old_name new_name)
        (unfold symbol in (refl, tt, (refl, tt, (a, tt, (refl, tt, (b, tt, (refl, tt)))))))
        (parse_tokens-rename_table old_name new_name)
