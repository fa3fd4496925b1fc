-- ===== src/Tokenizer/Pieces.antt =====
-- Tokenizing a text piece by piece: what the tokenizer makes of a blank, a word, a number or a
-- symbol, with the text behind it.
use mathlib.Core.Bool.{◌||◌, ◌&&◌}
use the_city_crdb.Common.{
  ℕ, ◌≤◌, ◌≡◌, refl, Bool, true, false, some, [], ◌∷◌, ◌++◌, arith, Text, ◌==◌, length, ok, Ensures,
}
use the_city_crdb.Tokenizer.{
  TokenType, is_digit, is_identifier_part, is_identifier_start, is_number_part, is_space,
  scan_string, span, symbol, tokenize, tokenize_from, push_token, identifier, number, string,
}
use the_city_crdb.Tokenizer.Rounds.{Leaves, length-span, scan_string-Leaves, tokenize_from-same}

-- Every character passes the test.
abbrev pub all : (ℕ → Bool) → Text → Bool
all test [] = true
all test (ch ∷ text) = test ch && all test text

-- The text is at its end, or goes on with a character that fails the test.
abbrev pub Stops : (ℕ → Bool) → Text → Type 0
Stops test [] = Unit
Stops test (ch ∷ text) = test ch ≡ false

pub span-append :
    (test : ℕ → Bool) (word rest : Text)
    → all test word ≡ true
    → Stops test rest
    → span test (word ++ rest) ≡ (word, rest)
unfolding span
span-append test [] [] h s = refl
span-append test [] (ch ∷ rest) h s = rw s refl
span-append test (ch ∷ word) rest h s =
    let first : test ch ≡ true = ground arith in
    let ih = span-append test word rest (ground arith) s in rw (ih, first) refl

module _ (ch : ℕ) (text : Text) where
  -- One round of the loop, with the fuel of the text behind it.
  tokenize_from-tokenize :
      (rest : Text) → length rest ≤ length text → tokenize_from (length text) rest ≡ tokenize rest
  unfolding tokenize
  tokenize_from-tokenize rest le =
      tokenize_from-same (length text) (length rest) rest le (omega arith)

  pub tokenize-space : is_space ch ≡ true → tokenize (ch ∷ text) ≡ tokenize text
  unfolding tokenize tokenize_from
  tokenize-space h = rw h refl

  tokenize-word :
      is_identifier_start ch ≡ true
      → tokenize (ch ∷ text)
        ≡ push_token identifier
            (ch ∷ (span is_identifier_part text).0)
            (tokenize (span is_identifier_part text).1)
  tokenize-word h =
      let blank : is_space ch ≡ false = ground arith in
      let le = length-span is_identifier_part text in
      rw (← tokenize_from-tokenize (span is_identifier_part text).1 le)
        (unfold tokenize tokenize_from in rw (blank, h) refl)

  tokenize-digits :
      (is_digit ch || ch == b'-') ≡ true
      → tokenize (ch ∷ text)
        ≡ push_token number
            (ch ∷ (span is_number_part text).0)
            (tokenize (span is_number_part text).1)
  tokenize-digits h =
      let blank : is_space ch ≡ false = ground arith in
      let word : is_identifier_start ch ≡ false = ground arith in
      let le = length-span is_number_part text in
      rw (← tokenize_from-tokenize (span is_number_part text).1 le)
        (unfold tokenize tokenize_from in rw (blank, word, h) refl)

-- A word, as far as its characters go.
pub tokenize-identifier :
    (ch : ℕ) (word rest : Text)
    → is_identifier_start ch ≡ true
    → all is_identifier_part word ≡ true
    → Stops is_identifier_part rest
    → tokenize (ch ∷ (word ++ rest)) ≡ push_token identifier (ch ∷ word) (tokenize rest)
tokenize-identifier ch word rest h all_parts stop =
    rw (tokenize-word ch (word ++ rest) h, span-append is_identifier_part word rest all_parts stop)
      refl

pub tokenize-number :
    (ch : ℕ) (digits rest : Text)
    → (is_digit ch || ch == b'-') ≡ true
    → all is_number_part digits ≡ true
    → Stops is_number_part rest
    → tokenize (ch ∷ (digits ++ rest)) ≡ push_token number (ch ∷ digits) (tokenize rest)
tokenize-number ch digits rest h all_parts stop =
    rw
      (tokenize-digits ch (digits ++ rest) h, span-append is_number_part digits rest all_parts stop)
      refl

pub tokenize-symbol :
    (ch : ℕ) (type : TokenType) (rest : Text)
    → symbol ch ≡ some type
    → tokenize (ch ∷ rest) ≡ push_token type (ch ∷ []) (tokenize rest)
tokenize-symbol ch type rest h =
    let is : (is_space ch ≡ false)
        × (is_identifier_start ch ≡ false)
        × ((is_digit ch || ch == b'-') ≡ false)
        × ((ch == b'"') ≡ false) =
      unfold symbol in (ground arith, ground arith, ground arith, ground arith) in
    unfold tokenize tokenize_from in rw (is.0, is.1, is.2, is.3, h) refl

pub tokenize-string :
    (text value rest : Text)
    → scan_string text ≡ ok (value, rest)
    → tokenize (b'"' ∷ text) ≡ push_token string value (tokenize rest)
tokenize-string text value rest h =
    let le : Ensures (Leaves (length text)) (scan_string text) = scan_string-Leaves text in
    let le' : length rest ≤ length text = rw h at le in
    rw (← tokenize_from-tokenize b'"' text rest le') (unfold tokenize tokenize_from in rw h refl)
