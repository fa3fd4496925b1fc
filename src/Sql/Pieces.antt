-- ===== src/Sql/Pieces.antt =====
-- A statement as a sequence of blanks, names, marks and values: its text, and the tokens that the
-- tokenizer makes of the text.
use the_city_crdb.Common.{
  ℕ, ◌≡◌, ◌∙◌, refl, true, some, List, [], ◌∷◌, ◌++◌, arith, Text, Result, ok,
}
use the_city_crdb.Sql.{sql_literal}
use the_city_crdb.Sql.Literals.{
  IsPrintable, is_name, literal_token, tokenize-name, tokenize-sql_literal,
}
use the_city_crdb.Tokenizer.{
  Token, TokenType, end, identifier, is_identifier_part, symbol, token, tokenize,
}
use the_city_crdb.Tokenizer.Pieces.{Stops, tokenize-space, tokenize-symbol}
use the_city_crdb.Value.{Value}

pub data Piece : Type 0 where
  blank : Piece
  name : (text : Text) → Piece
  mark : (ch : ℕ) (type : TokenType) → Piece
  literal : (value : Value) → Piece

-- A word or a number ends before a blank, before a mark and at the end.
abbrev pub IsClear : List Piece → Type 0
IsClear [] = Unit
IsClear (blank ∷ ps) = Unit
IsClear (name text ∷ ps) = ⊥
IsClear (mark ch type ∷ ps) = Unit
IsClear (literal value ∷ ps) = ⊥

module _ (print_double : ℕ → Text) (parse_double : Text → Result ℕ) where
  abbrev pub show : List Piece → Text
  show [] = []
  show (blank ∷ ps) = b' ' ∷ show ps
  show (name text ∷ ps) = text ++ show ps
  show (mark ch type ∷ ps) = ch ∷ show ps
  show (literal value ∷ ps) = sql_literal print_double value ++ show ps

  abbrev pub tokens : List Piece → List Token
  tokens [] = token end [] ∷ []
  tokens (blank ∷ ps) = tokens ps
  tokens (name text ∷ ps) = token identifier text ∷ tokens ps
  tokens (mark ch type ∷ ps) = token type (ch ∷ []) ∷ tokens ps
  tokens (literal value ∷ ps) = literal_token print_double parse_double value ∷ tokens ps

  abbrev pub IsWritten : List Piece → Type 0
  IsWritten [] = Unit
  IsWritten (blank ∷ ps) = IsWritten ps
  IsWritten (name text ∷ ps) = (is_name text ≡ true) × IsClear ps × IsWritten ps
  IsWritten (mark ch type ∷ ps) = (symbol ch ≡ some type) × IsWritten ps
  IsWritten (literal value ∷ ps) =
      IsPrintable print_double parse_double value × IsClear ps × IsWritten ps

  IsClear-Stops : (ps : List Piece) → IsClear ps → IsWritten ps → Stops is_identifier_part (show ps)
  IsClear-Stops [] c w = tt
  IsClear-Stops (blank ∷ ps) c w = refl
  IsClear-Stops (name text ∷ ps) c w = elim c [ ]
  IsClear-Stops (mark ch type ∷ ps) c w =
      let s : symbol ch ≡ some type = w.0 in unfold symbol in ground arith
  IsClear-Stops (literal value ∷ ps) c w = elim c [ ]

  -- The text of a sequence of pieces has the tokens of the pieces.
  pub tokenize-show : (ps : List Piece) → IsWritten ps → tokenize (show ps) ≡ ok (tokens ps)
  tokenize-show [] w = unfold tokenize in refl
  tokenize-show (blank ∷ ps) w = tokenize-space b' ' (show ps) refl ∙ tokenize-show ps w
  tokenize-show (name text ∷ ps) w =
      rw (tokenize-name text (show ps) w.0 (IsClear-Stops ps w.1 w.2), tokenize-show ps w.2) refl
  tokenize-show (mark ch type ∷ ps) w =
      rw (tokenize-symbol ch type (show ps) w.0, tokenize-show ps w.1) refl
  tokenize-show (literal value ∷ ps) w =
      let stop = IsClear-Stops ps w.1 w.2 in
      rw
        (
          tokenize-sql_literal print_double parse_double value (show ps) w.0 stop,
          tokenize-show ps w.2,
        )
        refl
