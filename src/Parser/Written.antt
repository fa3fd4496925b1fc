-- ===== src/Parser/Written.antt =====
-- The text of a printed predicate is that of its pieces, which the tokenizer reads.
use the_city_crdb.Common.{
  ℕ, ◌≡◌, refl, Option, none, some, List, ◌∷◌, ◌++◌, Text, codes, Result, append_assoc,
}
use the_city_crdb.Query.{Predicate, both, comparison, either}
use the_city_crdb.Sql.{predicate_literal}
use the_city_crdb.Sql.Pieces.{IsClear, IsWritten, Piece, blank, mark, name, show}
use the_city_crdb.Tokenizer.{right_paren, symbol}
use the_city_crdb.Value.{equal, greater, less}
use the_city_crdb.Parser.Printed.{IsWritable, WhereIsWritable, predicate_pieces, where_pieces}
use the_city_crdb.Sql.{where_sql}

module _ (print_double : ℕ → Text) (parse_double : Text → Result ℕ) where
  abbrev text_of : List Piece → Text
  text_of = show print_double parse_double

  abbrev Written : List Piece → Type 0
  Written = IsWritten print_double parse_double

  pub show-predicate_pieces :
      (p : Predicate) (ps : List Piece)
      → text_of (predicate_pieces p ps) ≡ predicate_literal print_double p ++ text_of ps
  unfolding predicate_literal
  show-predicate_pieces (comparison column equal v) ps = rw (append_assoc column) refl
  show-predicate_pieces (comparison column greater v) ps = rw (append_assoc column) refl
  show-predicate_pieces (comparison column less v) ps = rw (append_assoc column) refl
  show-predicate_pieces (both left right) ps =
      let after = mark b')' right_paren ∷ ps in
      simp (
        show-predicate_pieces left
            (blank ∷ name (codes "AND") ∷ blank ∷ predicate_pieces right after),
        show-predicate_pieces right after,
        append_assoc,
      )
  show-predicate_pieces (either left right) ps =
      let after = mark b')' right_paren ∷ ps in
      simp (
        show-predicate_pieces left
            (blank ∷ name (codes "OR") ∷ blank ∷ predicate_pieces right after),
        show-predicate_pieces right after,
        append_assoc,
      )

  pub IsWritten-predicate_pieces :
      (p : Predicate) (ps : List Piece)
      → IsWritable print_double parse_double p
      → IsClear ps
      → Written ps
      → Written (predicate_pieces p ps)
  unfolding symbol
  IsWritten-predicate_pieces (comparison column equal v) ps w c h = (w.0, tt, (refl, (w.1, c, h)))
  IsWritten-predicate_pieces (comparison column greater v) ps w c h = (w.0, tt, (refl, (w.1, c, h)))
  IsWritten-predicate_pieces (comparison column less v) ps w c h = (w.0, tt, (refl, (w.1, c, h)))
  IsWritten-predicate_pieces (both left right) ps w c h =
      let after = IsWritten-predicate_pieces right (mark b')' right_paren ∷ ps) w.1 tt (refl, h) in
      (refl, IsWritten-predicate_pieces left _ w.0 tt (refl, tt, after))
  IsWritten-predicate_pieces (either left right) ps w c h =
      let after = IsWritten-predicate_pieces right (mark b')' right_paren ∷ ps) w.1 tt (refl, h) in
      (refl, IsWritten-predicate_pieces left _ w.0 tt (refl, tt, after))

  pub show-where_pieces :
      (o : Option Predicate) (ps : List Piece)
      → text_of (where_pieces print_double parse_double o ps)
        ≡ where_sql print_double o ++ text_of ps
  show-where_pieces none ps = refl
  show-where_pieces (some p) ps = rw (show-predicate_pieces p ps) refl

  pub IsWritten-where_pieces :
      (o : Option Predicate) (ps : List Piece)
      → WhereIsWritable print_double parse_double o
      → IsClear ps
      → Written ps
      → Written (where_pieces print_double parse_double o ps)
  IsWritten-where_pieces none ps w c h = h
  IsWritten-where_pieces (some p) ps w c h = (refl, tt, IsWritten-predicate_pieces p ps w c h)

  pub IsClear-where_pieces :
      (o : Option Predicate) (ps : List Piece)
      → IsClear ps
      → IsClear (where_pieces print_double parse_double o ps)
  IsClear-where_pieces none ps c = c
  IsClear-where_pieces (some p) ps c = tt
