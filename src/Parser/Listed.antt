-- ===== src/Parser/Listed.antt =====
-- Lists between commas, printed and parsed.
use the_city_crdb.Common.{
  ℕ, zero, suc, ◌≤◌, ◌<◌, ◌+◌, ◌≡◌, ◌≢◌, refl, false, List, [], ◌∷◌, ◌++◌, arith, Text, length,
  Result, ok, append_assoc,
}
use the_city_crdb.Common.OrdMap.{All}
use the_city_crdb.Parser.Steps.{Parser, Tokens, comma_list, comma_loop, is_type}
use the_city_crdb.Sql.{separated}
use the_city_crdb.Sql.Pieces.{IsClear, IsWritten, Piece, blank, mark, show, tokens}
use the_city_crdb.Tokenizer.{TokenType, comma, identifier, symbol, token}
use the_city_crdb.Parser.Printed.{listed, match_token-other}

-- How an item of a list is printed, as text and as pieces, and parsed.
module _ {ℓ} {A : Type ℓ} (print_double : ℕ → Text) (parse_double : Text → Result ℕ)
    (print : A → Text) (pieces : A → List Piece → List Piece) (item : Parser A)
    (Good : A → Type 0) where
  abbrev text_of : List Piece → Text
  text_of = show print_double parse_double

  abbrev toks : List Piece → Tokens
  toks = tokens print_double parse_double

  abbrev Written : List Piece → Type 0
  Written = IsWritten print_double parse_double

  pub show-listed :
      (xs : List A) (ps : List Piece)
      → ((x : A) (qs : List Piece) → text_of (pieces x qs) ≡ print x ++ text_of qs)
      → text_of (listed pieces xs ps) ≡ separated print xs ++ text_of ps
  show-listed [] ps shown = refl
  show-listed (x ∷ []) ps shown = shown x ps
  show-listed (x ∷ y ∷ xs) ps shown =
      rw
        (
          shown x (mark b',' comma ∷ blank ∷ listed pieces (y ∷ xs) ps),
          show-listed (y ∷ xs) ps shown,
          append_assoc (print x),
        )
        refl

  pub IsWritten-listed :
      (xs : List A) (ps : List Piece)
      → ((x : A) (qs : List Piece) → Good x → IsClear qs → Written qs → Written (pieces x qs))
      → All Good xs
      → IsClear ps
      → Written ps
      → Written (listed pieces xs ps)
  unfolding symbol
  IsWritten-listed [] ps rule good c h = h
  IsWritten-listed (x ∷ []) ps rule good c h = rule x ps good.0 c h
  IsWritten-listed (x ∷ y ∷ xs) ps rule good c h =
      rule x _ good.0 tt (refl, IsWritten-listed (y ∷ xs) ps rule good.1 c h)

  module _
      (parses : (x : A) (ch : ℕ) (type : TokenType) (qs : List Piece)
        → Good x
        → is_type type identifier ≡ false
        → item (toks (pieces x (mark ch type ∷ qs))) ≡ ok (x, toks (mark ch type ∷ qs)))
      (grows : (x : A) (qs : List Piece) → length (toks qs) ≤ length (toks (pieces x qs))) where
    length-listed :
        (xs : List A) (ps : List Piece)
        → length xs + length (toks ps) ≤ suc (length (toks (listed pieces xs ps)))
    length-listed [] ps = omega arith
    length-listed (x ∷ []) ps = omega (arith, grows x ps)
    length-listed (x ∷ y ∷ xs) ps = omega (
      arith,
      length-listed (y ∷ xs) ps,
      grows x (mark b',' comma ∷ blank ∷ listed pieces (y ∷ xs) ps),
    )

    comma_loop-listed :
        (fuel : ℕ) (x : A) (xs : List A) (ch : ℕ) (type : TokenType) (ps : List Piece)
        → All Good (x ∷ xs)
        → is_type type identifier ≡ false
        → is_type type comma ≡ false
        → length xs < fuel
        → comma_loop item fuel (toks (listed pieces (x ∷ xs) (mark ch type ∷ ps)))
          ≡ ok (x ∷ xs, toks (mark ch type ∷ ps))
    unfolding comma_loop
    comma_loop-listed zero x xs ch type ps good plain last enough = absurd (omega arith)
    comma_loop-listed (suc fuel) x [] ch type ps good plain last enough =
        let other = match_token-other comma [] (token type (ch ∷ [])) (toks ps) last in
        rw (parses x ch type ps good.0 plain, other) refl
    comma_loop-listed (suc fuel) x (y ∷ xs) ch type ps good plain last enough =
        let more = blank ∷ listed pieces (y ∷ xs) (mark ch type ∷ ps) in
        let ih = comma_loop-listed fuel y xs ch type ps good.1 plain last (omega arith) in
        rw (parses x b',' comma more good.0 refl, ih) refl

    -- The list is parsed up to the mark behind it.
    pub comma_list-listed :
        (xs : List A) (ch : ℕ) (type : TokenType) (ps : List Piece)
        → xs ≢ []
        → All Good xs
        → is_type type identifier ≡ false
        → is_type type comma ≡ false
        → comma_list item (toks (listed pieces xs (mark ch type ∷ ps)))
          ≡ ok (xs, toks (mark ch type ∷ ps))
    comma_list-listed [] ch type ps ne good plain last = absurd (ne refl)
    comma_list-listed (x ∷ xs) ch type ps ne good plain last =
        comma_loop-listed _ x xs ch type ps good plain last
          (omega (arith, length-listed (x ∷ xs) (mark ch type ∷ ps)))
