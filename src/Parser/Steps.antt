-- ===== src/Parser/Steps.antt =====
-- The parser's steps over its tokens: peek, advance, match, expect and the loops over commas of
-- src/parser/parser.cpp. The state of the parser is the list of the tokens that are left; the loop
-- runs on fuel, a round for each token at most.
use the_city_crdb.Common.{
  ℕ, zero, suc, Bool, true, false, ◌&&◌, List, [], ◌∷◌, map, Text, text_eq, ◌==◌, if◌then◌else◌,
  length, Result, ok, err, Error, past_end, unexpected_token, out_of_fuel,
}
use the_city_crdb.Common.{◌>>=◌ as then_on}
use the_city_crdb.Tokenizer.{
  Token, TokenType, comma, end, identifier, left_paren, number, right_paren, semicolon, star,
}
use the_city_crdb.Value.{to_upper}

abbrev pub Tokens : Type 0
Tokens = List Token

abbrev pub Parser {ℓ} : Type ℓ → Type ℓ
Parser A = Tokens → Result (A × Tokens)

abbrev pub pure {ℓ} : {A : Type ℓ} → A → Parser A
pure a ts = ok (a, ts)

abbrev pub throw {ℓ} : {A : Type ℓ} → Error → Parser A
throw e ts = err e

module _ {ℓ κ} {A : Type ℓ} {B : Type κ} where
  infixl 1 ◌>>=◌ ◌>>◌
  abbrev pub ◌>>=◌ : Parser A → (A → Parser B) → Parser B
  p >>= f = λ ts. then_on (p ts) λ r. f r.0 r.1

  abbrev pub ◌>>◌ : Parser A → Parser B → Parser B
  p >> q = p >>= λ _. q

abbrev pub type_number : TokenType → ℕ
type_number identifier = 0
type_number number = 1
type_number TokenType.string = 2
type_number comma = 3
type_number semicolon = 4
type_number left_paren = 5
type_number right_paren = 6
type_number star = 7
type_number TokenType.equal = 8
type_number TokenType.greater = 9
type_number TokenType.less = 10
type_number end = 11

abbrev pub is_type : TokenType → TokenType → Bool
is_type a b = type_number a == type_number b

unfoldable pub equals_ignore_case : Text → Text → Bool
unfolding to_upper text_eq
equals_ignore_case lhs rhs = text_eq (map to_upper lhs) (map to_upper rhs)

unfoldable pub peek : Parser Token
peek [] = err past_end
peek (t ∷ ts) = ok (t, t ∷ ts)

-- It does not go past the last token.
unfoldable pub advance : Parser Token
advance [] = err past_end
advance (t ∷ ts) = ok (t, if is_type t.type end then t ∷ ts else ts)

abbrev pub fits : Token → TokenType → Text → Bool
fits t type [] = is_type t.type type
fits t type (ch ∷ lexeme) = is_type t.type type && equals_ignore_case t.lexeme (ch ∷ lexeme)

-- `match(type, lexeme)`; an empty lexeme fits every token of the type.
unfoldable pub match_token : TokenType → Text → Parser Bool
unfolding peek advance equals_ignore_case
match_token type lexeme = do
  t ← peek
  if fits t type lexeme then advance >> pure true else pure false

unfoldable pub expect : TokenType → Text → Parser (Unit {0})
unfolding match_token
expect type lexeme = do
  found ← match_token type lexeme
  if found then pure tt else throw unexpected_token

abbrev pub keyword : Text → Parser Bool
keyword = match_token identifier

-- `advance()` and the test of the type behind it.
unfoldable pub name_token : Error → Parser Text
unfolding advance
name_token e = do t ← advance; if is_type t.type identifier then pure t.lexeme else throw e

-- `do { … } while (match(TokenType::Comma));`
unfoldable pub comma_loop {ℓ} : {A : Type ℓ} → Parser A → ℕ → Parser (List A)
unfolding match_token
comma_loop item zero ts = err out_of_fuel
comma_loop item (suc fuel) ts =
    let more = comma_loop item fuel in
    (do
      a ← item
      again ← match_token comma []
      if again then more >>= (λ rest. pure (a ∷ rest)) else pure (a ∷ []))
      ts

abbrev pub comma_list {ℓ} : {A : Type ℓ} → Parser A → Parser (List A)
comma_list item ts = comma_loop item (suc (length ts)) ts
