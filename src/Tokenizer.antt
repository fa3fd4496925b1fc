-- ===== src/Tokenizer.antt =====
-- Tokens of SQL text: include/VertexDB/parser/token.hpp and src/parser/tokenizer.cpp. The loop over
-- the text runs on fuel, a round for each byte at most. The character tests are those of the C locale.
pub mod Rounds
pub mod Pieces
use the_city_crdb.Common.{
  ℕ, zero, suc, Bool, true, false, not, ◌&&◌, ◌||◌, Option, none, some, List, [], ◌∷◌, Text, codes,
  leb, ◌==◌, if◌then◌else◌, length, Result, ok, err, ◌>>=◌, unterminated_string,
  unexpected_character, out_of_fuel,
}

pub data TokenType : Type 0 where
  identifier number string comma semicolon left_paren right_paren star : TokenType
  equal greater less end : TokenType

pub record Token : Type 0 where
  pub type : TokenType
  pub lexeme : Text

abbrev pub token : TokenType → Text → Token
token type lexeme = record { type = type; lexeme = lexeme }

-- `std::isspace`, `std::isdigit` and `std::isalpha`.
abbrev pub is_space : ℕ → Bool
is_space ch = ch == 32 || leb 9 ch && leb ch 13

abbrev pub is_digit : ℕ → Bool
is_digit ch = leb b'0' ch && leb ch b'9'

abbrev pub is_alpha : ℕ → Bool
is_alpha ch = leb b'a' ch && leb ch b'z' || leb b'A' ch && leb ch b'Z'

abbrev pub is_identifier_start : ℕ → Bool
is_identifier_start ch = is_alpha ch || ch == b'_'

abbrev pub is_identifier_part : ℕ → Bool
is_identifier_part ch = is_alpha ch || is_digit ch || ch == b'_' || ch == b'.'

-- The characters that a number goes on with.
abbrev pub is_number_part : ℕ → Bool
is_number_part ch = is_digit ch || ch == b'.'

-- `while (pos < sql.size() && test(sql[pos])) ++pos;`
unfoldable pub span : (ℕ → Bool) → Text → Text × Text
span test [] = ([], [])
span test (ch ∷ text) =
    let (word, rest) = span test text in if test ch then (ch ∷ word, rest) else ([], ch ∷ text)

abbrev pub push_char : ℕ → Result (Text × Text) → Result (Text × Text)
push_char ch r = r >>= λ (value, rest). ok (ch ∷ value, rest)

-- A string literal behind its opening quote: its value, and the text behind the closing quote.
unfoldable pub scan_string : Text → Result (Text × Text)
scan_string [] = err unterminated_string
scan_string (ch ∷ []) = if ch == b'"' then ok ([], []) else err unterminated_string
scan_string (ch ∷ next ∷ text) =
    let escaped = push_char next (scan_string text) in
    let plain = push_char ch (scan_string (next ∷ text)) in
    if ch == b'"' then ok ([], next ∷ text) else if ch == b'\\' then escaped else plain

-- The `switch`.
unfoldable pub symbol : ℕ → Option TokenType
symbol ch =
    if ch == b','
    then some comma
    else if ch == b';'
    then some semicolon
    else if ch == b'('
    then some left_paren
    else if ch == b')'
    then some right_paren
    else if ch == b'*'
    then some star
    else if ch == b'='
    then some equal
    else if ch == b'>'
    then some greater
    else if ch == b'<'
    then some less
    else none

abbrev pub push_token : TokenType → Text → Result (List Token) → Result (List Token)
push_token type lexeme r = r >>= λ tokens. ok (token type lexeme ∷ tokens)

-- The token of a single character.
abbrev pub push_symbol : ℕ → Option TokenType → Result (List Token) → Result (List Token)
push_symbol ch none r = err unexpected_character
push_symbol ch (some type) r = push_token type (ch ∷ []) r

unfoldable pub tokenize_from : ℕ → Text → Result (List Token)
tokenize_from fuel [] = ok (token end [] ∷ [])
tokenize_from zero (ch ∷ text) = err out_of_fuel
tokenize_from (suc fuel) (ch ∷ text) =
    let skipped = tokenize_from fuel text in
    let word = span is_identifier_part text in
    let identified = push_token identifier (ch ∷ word.0) (tokenize_from fuel word.1) in
    let digits = span is_number_part text in
    let counted = push_token number (ch ∷ digits.0) (tokenize_from fuel digits.1) in
    let quoted = scan_string text >>= λ r. push_token string r.0 (tokenize_from fuel r.1) in
    let marked = push_symbol ch (symbol ch) (tokenize_from fuel text) in
    if is_space ch
    then skipped
    else if is_identifier_start ch
    then identified
    else if is_digit ch || ch == b'-'
    then counted
    else if ch == b'"'
    then quoted
    else marked

unfoldable pub tokenize : Text → Result (List Token)
unfolding tokenize_from span scan_string symbol
tokenize sql = tokenize_from (length sql) sql
