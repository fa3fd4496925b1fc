-- ===== src/Tests/Texts.antt =====
-- The theorems on the tokenizer, numbers, SQL text and the parser at small examples.
use the_city_crdb.Ast.{create_index, create_table, delete, insert, update}
use the_city_crdb.Common.{
  ℕ, ◌≡◌, ◌≢◌, refl, some, [], ◌∷◌, Text, codes, arith, Result, ok, err, out_of_fuel, pos, negsuc,
}
use the_city_crdb.Decimal.{parse_int, print_int}
use the_city_crdb.Decimal.RoundTrip.{parse_int-print_int}
use the_city_crdb.Parser.Definitions.{parse-create_index_sql, parse-create_table_sql}
use the_city_crdb.Parser.Replay.{parse-delete_sql, parse-insert_sql, parse-update_sql}
use the_city_crdb.Parser.Statements.{parse}
use the_city_crdb.Query.{Delete, Predicate, Update, both, comparison, either}
use the_city_crdb.Sql.{create_index_sql, create_table_sql, delete_sql, insert_sql, update_sql}
use the_city_crdb.Tests.{id_column, name_column}
use the_city_crdb.Tokenizer.{tokenize}
use the_city_crdb.Tokenizer.Rounds.{tokenize-ne-out_of_fuel}
use the_city_crdb.Value.{Row, double, equal, greater, int, less, null, string}

-- One double, 1.5, by its bits and its text.
abbrev one_half_more : ℕ
one_half_more = 0x3ff8000000000000

abbrev print_half : ℕ → Text
print_half bits = codes "1.5"

abbrev parse_half : Text → Result ℕ
parse_half text = ok 0x3ff8000000000000

abbrev quoted : Row
quoted = int (negsuc 41) ∷ string (b'"' ∷ b'\\' ∷ b'?' ∷ []) ∷ null ∷ double 0x3ff8000000000000 ∷ []

tokenize-ne-out_of_fuel_example : tokenize (codes "DROP \"x") ≢ err out_of_fuel
tokenize-ne-out_of_fuel_example = tokenize-ne-out_of_fuel (codes "DROP \"x")

parse_int-print_int_example : parse_int (print_int (negsuc 127)) ≡ ok (negsuc 127)
parse_int-print_int_example = parse_int-print_int (negsuc 127) (omega arith)

parse-insert_sql_example :
    parse parse_half (insert_sql print_half (codes "people") quoted)
    ≡ ok (insert (codes "people") (quoted ∷ []))
parse-insert_sql_example =
    parse-insert_sql print_half parse_half (codes "people") quoted refl (λ e. cc)
      (omega arith, (tt, (tt, ((refl, refl, refl), tt))))

abbrev condition : Predicate
condition = both (comparison (codes "id") greater (int (pos 3))) (
    either (comparison (codes "name") equal null)
      (comparison (codes "people.id") less (int (pos 9))))

abbrev renaming : Update
renaming = record {
  table = codes "people";
  column = codes "name";
  value = string (codes "ann");
  where_clause = some condition;
}

abbrev removal : Delete
removal = record { table = codes "people"; where_clause = some condition }

parse-update_sql_example : parse parse_half (update_sql print_half renaming) ≡ ok (update renaming)
parse-update_sql_example =
    parse-update_sql print_half parse_half renaming refl refl tt
      ((refl, omega arith), ((refl, tt), (refl, omega arith)))

parse-delete_sql_example : parse parse_half (delete_sql print_half removal) ≡ ok (delete removal)
parse-delete_sql_example =
    parse-delete_sql print_half parse_half removal refl
      ((refl, omega arith), ((refl, tt), (refl, omega arith)))

parse-create_table_sql_example :
    parse parse_half (create_table_sql (codes "people") (id_column ∷ name_column ∷ []))
    ≡ ok (create_table (codes "people") (id_column ∷ name_column ∷ []))
parse-create_table_sql_example =
    parse-create_table_sql print_half parse_half (codes "people") (id_column ∷ name_column ∷ [])
      refl (λ e. cc) (refl, (refl, tt))

parse-create_index_sql_example :
    parse parse_half (create_index_sql (codes "by_id") (codes "people") (codes "id"))
    ≡ ok (create_index (codes "by_id") (codes "people") (codes "id"))
parse-create_index_sql_example =
    parse-create_index_sql print_half parse_half (codes "by_id") (codes "people") (codes "id") refl
      refl refl
