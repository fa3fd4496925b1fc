-- ===== src/Parser/Printed.antt =====
-- The parser on the tokens of printed values, lists and predicates.
use the_city_crdb.Common.{
  ℕ, zero, suc, ◌≤◌, ◌+◌, ◌≡◌, refl, true, false, Option, none, some, List, [], ◌∷◌, arith, Text,
  codes, length, Result, ok, max, Error, expected_predicate_column,
}
use the_city_crdb.Decimal.RoundTrip.{contains-print_int, parse_int-print_int}
use the_city_crdb.Parser.{
  and_loop, number_value, or_loop, parse_and, parse_comparison, parse_operator, parse_or,
  parse_predicate, parse_primary, parse_value, parse_where, predicate_within, token_value,
}
use the_city_crdb.Parser.Steps.{
  Parser, Tokens, advance, equals_ignore_case, expect, is_type, match_token, name_token, peek,
}
use the_city_crdb.Query.{Predicate, both, comparison, either}
use the_city_crdb.Sql.Literals.{IsPrintable, is_name, literal_token}
use the_city_crdb.Sql.Pieces.{Piece, blank, literal, mark, name, tokens}
use the_city_crdb.Tokenizer.{Token, TokenType, comma, identifier, left_paren, right_paren, token}
use the_city_crdb.Value.{ComparisonOperator, Value, double, equal, greater, int, less, null, string}

-- A list with ", " between its items, before other pieces.
abbrev pub listed {ℓ} :
    {A : Type ℓ} → (A → List Piece → List Piece) → List A → List Piece → List Piece
listed item [] ps = ps
listed item (x ∷ []) ps = item x ps
listed item (x ∷ y ∷ xs) ps = item x (mark b',' comma ∷ blank ∷ listed item (y ∷ xs) ps)

abbrev pub operator_mark : ComparisonOperator → Piece
operator_mark equal = mark b'=' TokenType.equal
operator_mark greater = mark b'>' TokenType.greater
operator_mark less = mark b'<' TokenType.less

abbrev pub predicate_pieces : Predicate → List Piece → List Piece
predicate_pieces (comparison column op value) ps =
    name column ∷ blank ∷ operator_mark op ∷ blank ∷ literal value ∷ ps
predicate_pieces (both left right) ps =
    mark b'(' left_paren
    ∷ predicate_pieces left
        (blank ∷ name (codes "AND") ∷ blank ∷ predicate_pieces right (mark b')' right_paren ∷ ps))
predicate_pieces (either left right) ps =
    mark b'(' left_paren
    ∷ predicate_pieces left
        (blank ∷ name (codes "OR") ∷ blank ∷ predicate_pieces right (mark b')' right_paren ∷ ps))

abbrev depth : Predicate → ℕ
depth (comparison column op value) = 0
depth (both left right) = suc (max (depth left) (depth right))
depth (either left right) = suc (max (depth left) (depth right))

-- A token of another type is left where it is.
pub match_token-other :
    (type : TokenType) (lexeme : Text) (t : Token) (ts : Tokens)
    → is_type t.type type ≡ false
    → match_token type lexeme (t ∷ ts) ≡ ok (false, t ∷ ts)
unfolding match_token peek
match_token-other type [] t ts h = rw h refl
match_token-other type (ch ∷ lexeme) t ts h = rw h refl

module _ (print_double : ℕ → Text) (parse_double : Text → Result ℕ) where
  -- Names that the tokenizer reads, and values that can be printed.
  abbrev pub IsWritable : Predicate → Type 0
  IsWritable (comparison column op value) =
      (is_name column ≡ true) × IsPrintable print_double parse_double value
  IsWritable (both left right) = IsWritable left × IsWritable right
  IsWritable (either left right) = IsWritable left × IsWritable right

  abbrev toks : List Piece → Tokens
  toks = tokens print_double parse_double

  pub parse_value-literal_token :
      (v : Value) (ts : Tokens)
      → IsPrintable print_double parse_double v
      → parse_value parse_double (literal_token print_double parse_double v ∷ ts) ≡ ok (v, ts)
  unfolding parse_value advance token_value equals_ignore_case number_value
  parse_value-literal_token null ts h = refl
  parse_value-literal_token (int x) ts h = rw (contains-print_int x, parse_int-print_int x h) refl
  parse_value-literal_token (double bits) ts h = rw (h.1, h.2) refl
  parse_value-literal_token (string text) ts h = refl

  parse_operator-mark :
      (op : ComparisonOperator) (ps : List Piece)
      → parse_operator (toks (operator_mark op ∷ ps)) ≡ ok (op, toks ps)
  unfolding parse_operator match_token
  parse_operator-mark equal ps = refl
  parse_operator-mark greater ps = refl
  parse_operator-mark less ps = refl

  name_token-name :
      (e : Error) (text : Text) (ts : Tokens)
      → name_token e (token identifier text ∷ ts) ≡ ok (text, ts)
  unfolding name_token advance
  name_token-name e text ts = refl

  parse_comparison-tokens :
      (column : Text) (op : ComparisonOperator) (v : Value) (ps : List Piece)
      → IsPrintable print_double parse_double v
      → parse_comparison parse_double (toks (predicate_pieces (comparison column op v) ps))
        ≡ ok (comparison column op v, toks ps)
  unfolding parse_comparison
  parse_comparison-tokens column op v ps h =
      let ts = toks ps in
      let value = parse_value-literal_token v ts h in
      let operator = parse_operator-mark op (blank ∷ literal v ∷ ps) in
      let first =
        name_token-name expected_predicate_column column
          (toks (operator_mark op ∷ blank ∷ literal v ∷ ps)) in
      rw (first, operator, value) refl

  module _ (nested : Parser Predicate) where
    parse_primary-paren :
        (p : Predicate) (ts us : Tokens)
        → nested ts ≡ ok (p, token right_paren (b')' ∷ []) ∷ us)
        → parse_primary parse_double nested (token left_paren (b'(' ∷ []) ∷ ts) ≡ ok (p, us)
    unfolding parse_primary match_token expect advance
    parse_primary-paren p ts us h = rw h refl

    parse_or-both :
        (left right : Predicate) (ts us vs : Tokens)
        → parse_primary parse_double nested ts ≡ ok (left, token identifier (codes "AND") ∷ us)
        → parse_primary parse_double nested us ≡ ok (right, token right_paren (b')' ∷ []) ∷ vs)
        → parse_or parse_double nested ts ≡ ok (both left right, token right_paren (b')' ∷ []) ∷ vs)
    unfolding parse_or parse_and and_loop or_loop match_token equals_ignore_case
    parse_or-both left right ts us vs l r = rw (l, r) refl

    parse_or-either :
        (left right : Predicate) (ts us vs : Tokens)
        → parse_primary parse_double nested ts ≡ ok (left, token identifier (codes "OR") ∷ us)
        → parse_primary parse_double nested us ≡ ok (right, token right_paren (b')' ∷ []) ∷ vs)
        → parse_or parse_double nested ts
          ≡ ok (either left right, token right_paren (b')' ∷ []) ∷ vs)
    unfolding parse_or parse_and and_loop or_loop match_token equals_ignore_case
    parse_or-either left right ts us vs l r = rw (l, r) refl

  parse_primary-tokens :
      (p : Predicate) (f : ℕ) (ps : List Piece)
      → IsWritable p
      → depth p ≤ f
      → parse_primary parse_double (predicate_within parse_double f) (toks (predicate_pieces p ps))
        ≡ ok (p, toks ps)
  unfolding predicate_within
  parse_primary-tokens (comparison column op v) f ps w d =
      unfold parse_primary match_token in parse_comparison-tokens column op v ps w.1
  parse_primary-tokens (both left right) zero ps w d = absurd (omega arith)
  parse_primary-tokens (both left right) (suc f) ps w d =
      let after = mark b')' right_paren ∷ ps in
      let l =
        parse_primary-tokens left f
          (blank ∷ name (codes "AND") ∷ blank ∷ predicate_pieces right after) w.0 (omega arith) in
      let r = parse_primary-tokens right f after w.1 (omega arith) in
      parse_primary-paren (predicate_within parse_double (suc f)) (both left right) _ (toks ps)
        (parse_or-both (predicate_within parse_double f) left right _ _ (toks ps) l r)
  parse_primary-tokens (either left right) zero ps w d = absurd (omega arith)
  parse_primary-tokens (either left right) (suc f) ps w d =
      let after = mark b')' right_paren ∷ ps in
      let l =
        parse_primary-tokens left f
          (blank ∷ name (codes "OR") ∷ blank ∷ predicate_pieces right after) w.0 (omega arith) in
      let r = parse_primary-tokens right f after w.1 (omega arith) in
      parse_primary-paren (predicate_within parse_double (suc f)) (either left right) _ (toks ps)
        (parse_or-either (predicate_within parse_double f) left right _ _ (toks ps) l r)

  depth-le-length :
      (p : Predicate) (ps : List Piece)
      → depth p + length (toks ps) ≤ length (toks (predicate_pieces p ps))
  depth-le-length (comparison column equal v) ps = omega arith
  depth-le-length (comparison column greater v) ps = omega arith
  depth-le-length (comparison column less v) ps = omega arith
  depth-le-length (both left right) ps =
      let after = mark b')' right_paren ∷ ps in
      omega (
        arith,
        depth-le-length right after,
        depth-le-length left (blank ∷ name (codes "AND") ∷ blank ∷ predicate_pieces right after),
      )
  depth-le-length (either left right) ps =
      let after = mark b')' right_paren ∷ ps in
      omega (
        arith,
        depth-le-length right after,
        depth-le-length left (blank ∷ name (codes "OR") ∷ blank ∷ predicate_pieces right after),
      )

  parse_or-plain :
      (nested : Parser Predicate) (p : Predicate) (ts : Tokens) (t : Token) (us : Tokens)
      → is_type t.type identifier ≡ false
      → parse_primary parse_double nested ts ≡ ok (p, t ∷ us)
      → parse_or parse_double nested ts ≡ ok (p, t ∷ us)
  unfolding parse_or parse_and and_loop or_loop
  parse_or-plain nested p ts t us plain h =
      let no_and = match_token-other identifier (codes "AND") t us plain in
      let no_or = match_token-other identifier (codes "OR") t us plain in rw (h, no_and, no_or) refl

  pub parse_predicate-tokens :
      (p : Predicate) (ch : ℕ) (type : TokenType) (ps : List Piece)
      → is_type type identifier ≡ false
      → IsWritable p
      → parse_predicate parse_double (toks (predicate_pieces p (mark ch type ∷ ps)))
        ≡ ok (p, toks (mark ch type ∷ ps))
  unfolding parse_predicate predicate_within
  parse_predicate-tokens p ch type ps plain w =
      let after = mark ch type ∷ ps in
      let ts = toks (predicate_pieces p after) in
      let most : depth p ≤ length ts = omega (arith, depth-le-length p after) in
      parse_or-plain (predicate_within parse_double (length ts)) p ts (token type (ch ∷ []))
        (toks ps) plain (parse_primary-tokens p (length ts) after w most)

  -- The rest of UPDATE and DELETE, before a mark.
  abbrev pub where_pieces : Option Predicate → List Piece → List Piece
  where_pieces none ps = ps
  where_pieces (some p) ps = blank ∷ name (codes "WHERE") ∷ blank ∷ predicate_pieces p ps

  abbrev pub WhereIsWritable : Option Predicate → Type 0
  WhereIsWritable none = Unit
  WhereIsWritable (some p) = IsWritable p

  pub parse_where-tokens :
      (o : Option Predicate) (ch : ℕ) (type : TokenType) (ps : List Piece)
      → is_type type identifier ≡ false
      → WhereIsWritable o
      → parse_where parse_double (toks (where_pieces o (mark ch type ∷ ps)))
        ≡ ok (o, toks (mark ch type ∷ ps))
  unfolding parse_where
  parse_where-tokens none ch type ps plain w =
      rw (match_token-other identifier (codes "WHERE") (token type (ch ∷ [])) (toks ps) plain) refl
  parse_where-tokens (some p) ch type ps plain w =
      unfold match_token in rw (parse_predicate-tokens p ch type ps plain w) refl
