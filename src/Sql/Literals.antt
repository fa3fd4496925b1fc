-- ===== src/Sql/Literals.antt =====
-- A printed value is one token, in which the value stands.
use mathlib.Core.Bool.{◌||◌, ◌&&◌}
use the_city_crdb.Common.{
  ℕ, ◌≡◌, refl, Bool, true, false, [], ◌∷◌, ◌++◌, arith, Text, codes, ◌==◌, contains, Result, ok,
  ◌>>=◌, Bool-cases, inl, inr, append_assoc,
}
use the_city_crdb.Decimal.{print_int}
use the_city_crdb.Decimal.RoundTrip.{IsInt64, tokenize-print_int}
use the_city_crdb.Sql.{escape, sql_literal}
use the_city_crdb.Tokenizer.{
  Token, TokenType, push_char, is_digit, is_identifier_part, is_identifier_start, is_number_part,
  push_token, scan_string, tokenize, token, identifier, number,
}
use the_city_crdb.Tokenizer.Pieces.{
  Stops, all, tokenize-identifier, tokenize-number, tokenize-string,
}
use the_city_crdb.Value.{Value, null, int, double, string}

-- The name of a table, of a column or of an index, as the tokenizer reads one.
abbrev pub is_name : Text → Bool
is_name [] = false
is_name (ch ∷ text) = is_identifier_start ch && all is_identifier_part text

-- A text that is one number token.
abbrev pub is_numeral : Text → Bool
is_numeral [] = false
is_numeral (ch ∷ text) = (is_digit ch || ch == b'-') && all is_number_part text

pub tokenize-name :
    (name rest : Text)
    → is_name name ≡ true
    → Stops is_identifier_part rest
    → tokenize (name ++ rest) ≡ push_token identifier name (tokenize rest)
tokenize-name [] rest h stop = cc
tokenize-name (ch ∷ text) rest h stop =
    tokenize-identifier ch text rest (ground arith) (ground arith) stop

tokenize-numeral :
    (text rest : Text)
    → is_numeral text ≡ true
    → Stops is_number_part rest
    → tokenize (text ++ rest) ≡ push_token number text (tokenize rest)
tokenize-numeral [] rest h stop = cc
tokenize-numeral (ch ∷ text) rest h stop =
    tokenize-number ch text rest (ground arith) (ground arith) stop

scan_string-plain :
    (ch : ℕ) (text : Text)
    → (ch == b'"') ≡ false
    → (ch == b'\\') ≡ false
    → scan_string (ch ∷ text) ≡ push_char ch (scan_string text)
unfolding scan_string
scan_string-plain ch [] quote slash = rw quote refl
scan_string-plain ch (next ∷ text) quote slash = rw (quote, slash) refl

scan_string-escaped :
    (ch : ℕ) (text : Text) → scan_string (b'\\' ∷ ch ∷ text) ≡ push_char ch (scan_string text)
unfolding scan_string
scan_string-escaped ch text = refl

-- The escaped text of a string is read back, up to the closing quote.
pub scan_string-escape :
    (text rest : Text) → scan_string (escape text ++ b'"' ∷ rest) ≡ ok (text, rest)
unfolding escape
scan_string-escape [] [] = unfold scan_string in refl
scan_string-escape [] (ch ∷ rest) = unfold scan_string in refl
scan_string-escape (ch ∷ text) rest = elim (Bool-cases (ch == b'"' || ch == b'\\')) [
  | inl special ↦
      rw
        (special, scan_string-escaped ch (escape text ++ b'"' ∷ rest), scan_string-escape text rest)
        refl
  | inr plain ↦
      rw
        (
          plain,
          scan_string-plain ch (escape text ++ b'"' ∷ rest) (ground arith) (ground arith),
          scan_string-escape text rest,
        )
        refl
]

-- What ends a word ends a number.
pub Stops-number_part : (text : Text) → Stops is_identifier_part text → Stops is_number_part text
Stops-number_part [] stop = tt
Stops-number_part (ch ∷ text) stop = ground arith

module _ (print_double : ℕ → Text) (parse_double : Text → Result ℕ) where
  -- An int64, or a double whose text is a number with a dot that is read back as the double.
  abbrev pub IsPrintable : Value → Type 0
  IsPrintable null = Unit
  IsPrintable (int x) = IsInt64 x
  IsPrintable (double bits) =
      (is_numeral (print_double bits) ≡ true)
      × (contains b'.' (print_double bits) ≡ true)
      × (parse_double (print_double bits) ≡ ok bits)
  IsPrintable (string text) = Unit

  abbrev pub literal_token : Value → Token
  literal_token null = token identifier (codes "NULL")
  literal_token (int x) = token number (print_int x)
  literal_token (double bits) = token number (print_double bits)
  literal_token (string text) = token TokenType.string text

  pub tokenize-sql_literal :
      (v : Value) (rest : Text)
      → IsPrintable v
      → Stops is_identifier_part rest
      → tokenize (sql_literal print_double v ++ rest)
        ≡ (tokenize rest >>= λ tokens. ok (literal_token v ∷ tokens))
  unfolding sql_literal
  tokenize-sql_literal null rest h stop = tokenize-name (codes "NULL") rest refl stop
  tokenize-sql_literal (int x) rest h stop = tokenize-print_int x rest (Stops-number_part rest stop)
  tokenize-sql_literal (double bits) rest h stop =
      tokenize-numeral (print_double bits) rest h.0 (Stops-number_part rest stop)
  tokenize-sql_literal (string text) rest h stop =
      let read : scan_string ((escape text ++ b'"' ∷ []) ++ rest) ≡ ok (text, rest) =
        rw (append_assoc (escape text) (b'"' ∷ []) rest) (scan_string-escape text rest) in
      tokenize-string ((escape text ++ b'"' ∷ []) ++ rest) text rest read
