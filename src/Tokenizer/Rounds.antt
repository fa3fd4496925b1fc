-- ===== src/Tokenizer/Rounds.antt =====
-- The loop of the tokenizer ends: a round for each byte is enough.
use mathlib.Core.Bool.{◌||◌}
use mathlib.Core.Path.{subst}
use the_city_crdb.Common.{
  ℕ, zero, suc, ◌≤◌, ◌≡◌, ◌≢◌, refl, Bool, Option, none, some, List, [], ◌∷◌, arith, Text, ◌==◌,
  length, Result, ok, err, ◌>>=◌, out_of_fuel, Ensures, Ensures-bind, Ensures-if,
}
use the_city_crdb.Tokenizer.{
  Token, TokenType, is_digit, is_identifier_part, is_identifier_start, is_number_part, is_space,
  scan_string, span, symbol, tokenize, tokenize_from, push_token, push_char, push_symbol,
  identifier, number, string,
}

pub length-span : (test : ℕ → Bool) (text : Text) → length (span test text).1 ≤ length text
unfolding span
length-span test [] = omega arith
length-span test (ch ∷ text) = ground (arith, length-span test text)

-- A string literal leaves at most `n` bytes.
abbrev pub Leaves : ℕ → Text × Text → Type 0
Leaves n r = length r.1 ≤ n

push_char-Leaves :
    (ch n m : ℕ) (r : Result (Text × Text))
    → n ≤ m
    → Ensures (Leaves n) r
    → Ensures (Leaves m) (push_char ch r)
push_char-Leaves ch n m (err thrown) le h = h
push_char-Leaves ch n m (ok value) le h = omega arith

pub scan_string-Leaves : (text : Text) → Ensures (Leaves (length text)) (scan_string text)
unfolding scan_string
scan_string-Leaves [] = λ e. cc
scan_string-Leaves (ch ∷ []) = Ensures-if (Leaves 1) (ch == b'"') _ _ (λ _. omega arith) (λ _ e. cc)
scan_string-Leaves (ch ∷ next ∷ text) =
    let n = suc (suc (length text)) in
    Ensures-if (Leaves n) (ch == b'"') _ _ (λ _. omega arith)
      (λ _.
        Ensures-if (Leaves n) (ch == b'\\') _ _
          (λ _.
            push_char-Leaves next (length text) n (scan_string text) (omega arith)
              (scan_string-Leaves text))
          (λ _.
            push_char-Leaves ch (suc (length text)) n (scan_string (next ∷ text)) (omega arith)
              (scan_string-Leaves (next ∷ text))))

-- What follows a string literal is tokenized alike.
pub quoted-same :
    (n : ℕ) (r : Result (Text × Text)) (f g : Text → Result (List Token))
    → Ensures (Leaves n) r
    → ((text : Text) → length text ≤ n → f text ≡ g text)
    → (r >>= λ q. push_token string q.0 (f q.1)) ≡ (r >>= λ q. push_token string q.0 (g q.1))
quoted-same n (err thrown) f g h same = refl
quoted-same n (ok value) f g h same = rw (same value.1 h)

pub tokenize_from-same :
    (f g : ℕ) (text : Text)
    → length text ≤ f
    → length text ≤ g
    → tokenize_from f text ≡ tokenize_from g text
unfolding tokenize_from
tokenize_from-same f g [] a b = ground arith
tokenize_from-same zero g (ch ∷ text) a b = absurd (omega arith)
tokenize_from-same (suc f) zero (ch ∷ text) a b = absurd (omega arith)
tokenize_from-same (suc f) (suc g) (ch ∷ text) a b =
    let same = λ (rest : Text) (le : length rest ≤ length text).
      tokenize_from-same f g rest (omega arith) (omega arith) in
    rw (
      same text (omega arith),
      same (span is_identifier_part text).1 (length-span is_identifier_part text),
      same (span is_number_part text).1 (length-span is_number_part text),
      quoted-same (length text) (scan_string text) (tokenize_from f) (tokenize_from g)
          (scan_string-Leaves text) same,
    )

-- No out_of_fuel, whatever the tokens are.
abbrev Ends : Result (List Token) → Type 0
Ends = Ensures (λ _. Unit {0})

push_token-Ends :
    (type : TokenType) (lexeme : Text) (r : Result (List Token))
    → Ends r
    → Ends (push_token type lexeme r)
push_token-Ends type lexeme (err thrown) h = h
push_token-Ends type lexeme (ok value) h = tt

push_symbol-Ends :
    (ch : ℕ) (type : Option TokenType) (r : Result (List Token))
    → Ends r
    → Ends (push_symbol ch type r)
push_symbol-Ends ch none r h = λ e. cc
push_symbol-Ends ch (some type) r h = push_token-Ends type (ch ∷ []) r h

tokenize_from-Ends : (f : ℕ) (text : Text) → length text ≤ f → Ends (tokenize_from f text)
unfolding tokenize_from
tokenize_from-Ends f [] a = tt
tokenize_from-Ends zero (ch ∷ text) a = absurd (omega arith)
tokenize_from-Ends (suc f) (ch ∷ text) a =
    let T = λ (_ : List Token). Unit {0} in
    let ih =
      λ (rest : Text) (le : length rest ≤ length text). tokenize_from-Ends f rest (omega arith) in
    Ensures-if T (is_space ch) _ _ (λ _. ih text (omega arith))
      λ _.
        Ensures-if T (is_identifier_start ch) _ _
          (λ _. push_token-Ends identifier _ _ (ih _ (length-span is_identifier_part text)))
          λ _.
            Ensures-if T (is_digit ch || ch == b'-') _ _
              (λ _. push_token-Ends number _ _ (ih _ (length-span is_number_part text)))
              λ _.
                Ensures-if T (ch == b'"') _ _
                  (λ _.
                    Ensures-bind (Leaves (length text)) T (scan_string text) _
                      (scan_string-Leaves text) λ q le. push_token-Ends string _ _ (ih _ le))
                  (λ _. push_symbol-Ends ch (symbol ch) _ (ih text (omega arith)))

-- On every text the tokenizer returns tokens or throws; its loop never outruns the bytes.
pub tokenize-ne-out_of_fuel : (sql : Text) → tokenize sql ≢ err out_of_fuel
unfolding tokenize
tokenize-ne-out_of_fuel sql e =
    let ends : Ends (tokenize_from (length sql) sql) =
      tokenize_from-Ends (length sql) sql (omega arith) in
    subst Ends e ends refl
