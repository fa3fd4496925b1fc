-- ===== src/Decimal/RoundTrip.antt =====
-- A printed number is read back, and is one token.
use mathlib.Core.Bool.{Bool}
use the_city_crdb.Common.{
  ℕ, zero, suc, ◌+◌, ◌-◌, ◌*◌, ◌/◌, ◌%◌, ◌^◌, ◌<◌, ◌≡◌, refl, inl, inr, true, false, some, [], ◌∷◌,
  ◌++◌, Text, ltb, ◌==◌, ℤ, pos, negsuc, ok, Bool-cases, contains, arith,
}
use the_city_crdb.Decimal.{
  digits_of, print_nat, print_int, read_digits, read_nat, positive, negative, parse_int,
}
use the_city_crdb.Tokenizer.{is_digit, is_number_part, number, push_token, tokenize}
use the_city_crdb.Tokenizer.Pieces.{Stops, all, tokenize-number}

-- An int64.
abbrev pub IsInt64 : ℤ → Type 0
IsInt64 (pos n) = n < 2 ^ 63
IsInt64 (negsuc n) = n < 2 ^ 63

read_digits-append :
    (so_far n : ℕ) (text rest : Text)
    → read_digits so_far text ≡ some n
    → read_digits so_far (text ++ rest) ≡ read_digits n rest
unfolding read_digits
read_digits-append so_far n [] rest h = ground arith
read_digits-append so_far n (ch ∷ text) rest h =
    ground (arith, read_digits-append (so_far * 10 + (ch - b'0')) n text rest)

read_digits-digits_of : (fuel n : ℕ) → n < fuel → read_digits 0 (digits_of fuel n) ≡ some n
unfolding digits_of read_digits
read_digits-digits_of zero n h = absurd (omega arith)
read_digits-digits_of (suc fuel) n h = elim (Bool-cases (ltb n 10)) [
  | inl small ↦ rw small (ground arith)
  | inr large ↦
      let more = read_digits-digits_of fuel (n / 10) (ground arith) in
      rw
        (large, read_digits-append 0 (n / 10) (digits_of fuel (n / 10)) ((b'0' + n % 10) ∷ []) more)
        (ground arith)
]

all-append :
    (test : ℕ → Bool) (s t : Text)
    → all test s ≡ true
    → all test t ≡ true
    → all test (s ++ t) ≡ true
all-append test [] t a b = b
all-append test (ch ∷ s) t a b = ground (arith, all-append test s t)

-- At least one digit, and digits only.
pub record IsNumeral (text : Text) : Type 0 where
  pub first : ℕ
  pub more : Text
  pub same : text ≡ first ∷ more
  pub first_digit : is_digit first ≡ true
  pub more_digits : all is_digit more ≡ true

digits_of-IsNumeral : (fuel n : ℕ) → n < fuel → IsNumeral (digits_of fuel n)
unfolding digits_of
digits_of-IsNumeral zero n h = absurd (omega arith)
digits_of-IsNumeral (suc fuel) n h = elim (Bool-cases (ltb n 10)) [
  | inl small ↦ record {
    first = b'0' + n;
    more = [];
    same = rw small refl;
    first_digit = ground arith;
    more_digits = refl;
  }
  | inr large ↦
      let ih = digits_of-IsNumeral fuel (n / 10) (ground arith) in
      let last : all is_digit ((b'0' + n % 10) ∷ []) ≡ true = ground arith in
      record {
        first = ih.first;
        more = ih.more ++ (b'0' + n % 10) ∷ [];
        same = rw (large, ih.same) refl;
        first_digit = ih.first_digit;
        more_digits = all-append is_digit ih.more ((b'0' + n % 10) ∷ []) ih.more_digits last;
      }
]

all-number_part : (text : Text) → all is_digit text ≡ true → all is_number_part text ≡ true
all-number_part [] a = refl
all-number_part (ch ∷ text) a = ground (arith, all-number_part text)

read_nat-print_nat : (n : ℕ) → read_nat (print_nat n) ≡ some n
unfolding read_nat print_nat
read_nat-print_nat n =
    let i = digits_of-IsNumeral (suc n) n (omega arith) in
    let r : read_digits 0 (digits_of (suc n) n) ≡ some n =
      read_digits-digits_of (suc n) n (omega arith) in
    rw i.same (rw i.same at r)

-- An int64 that was printed is read back.
pub parse_int-print_int : (x : ℤ) → IsInt64 x → parse_int (print_int x) ≡ ok x
unfolding parse_int print_int positive negative
parse_int-print_int (pos n) h =
    let i : IsNumeral (print_nat n) =
      unfold print_nat in digits_of-IsNumeral (suc n) n (omega arith) in
    let digit : (i.first == b'-') ≡ false = ground (arith, i.first_digit) in
    let r : read_nat (i.first ∷ i.more) ≡ some n = rw i.same at (read_nat-print_nat n) in
    rw (i.same, digit, r) (ground arith)
parse_int-print_int (negsuc n) h = rw (read_nat-print_nat (suc n)) (ground arith)

-- A printed integer is one token, where no digit and no dot follows.
pub tokenize-print_int :
    (x : ℤ) (rest : Text)
    → Stops is_number_part rest
    → tokenize (print_int x ++ rest) ≡ push_token number (print_int x) (tokenize rest)
unfolding print_int print_nat
tokenize-print_int (pos n) rest stop =
    let i = digits_of-IsNumeral (suc n) n (omega arith) in
    rw i.same (
      tokenize-number i.first i.more rest (ground (arith, i.first_digit))
        (all-number_part i.more i.more_digits) stop)
tokenize-print_int (negsuc n) rest stop =
    let i = digits_of-IsNumeral (suc (suc n)) (suc n) (omega arith) in
    let a : all is_number_part (i.first ∷ i.more) ≡ true =
      all-number_part (i.first ∷ i.more) (ground (arith, i.first_digit, i.more_digits)) in
    rw i.same (tokenize-number b'-' (i.first ∷ i.more) rest refl a stop)

contains-digits : (text : Text) → all is_digit text ≡ true → contains b'.' text ≡ false
contains-digits [] a = refl
contains-digits (ch ∷ text) a = ground (arith, contains-digits text)

-- A printed integer has no dot, by which the parser knows a double.
pub contains-print_int : (x : ℤ) → contains b'.' (print_int x) ≡ false
unfolding print_int print_nat
contains-print_int (pos n) =
    let i = digits_of-IsNumeral (suc n) n (omega arith) in
    rw i.same (ground (arith, i.first_digit, contains-digits i.more i.more_digits))
contains-print_int (negsuc n) =
    let i = digits_of-IsNumeral (suc (suc n)) (suc n) (omega arith) in
    let a : all is_digit (i.first ∷ i.more) ≡ true = ground (arith, i.first_digit, i.more_digits) in
    rw i.same (contains-digits (i.first ∷ i.more) a)
