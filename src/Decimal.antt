-- ===== src/Decimal.antt =====
-- Numbers in decimal, as `operator<<`, `std::to_string` and `std::from_chars` of the standard library
-- write and read them; parseInt of src/parser/parser.cpp.
pub mod RoundTrip
use the_city_crdb.Common.{
  ℕ, zero, suc, ◌+◌, ◌-◌, ◌*◌, ◌/◌, ◌%◌, ◌^◌, Option, none, some, List, [], ◌∷◌, ◌++◌, Text, ltb,
  leb, ◌==◌, if◌then◌else◌, ℤ, pos, negsuc, Result, ok, err, invalid_integer,
}
use the_city_crdb.Tokenizer.{is_digit}

-- The decimal digits; `fuel` is above the number.
unfoldable pub digits_of : ℕ → ℕ → Text
digits_of zero n = []
digits_of (suc fuel) n =
    let more = digits_of fuel (n / 10) ++ (b'0' + n % 10) ∷ [] in
    if ltb n 10 then (b'0' + n) ∷ [] else more

unfoldable pub print_nat : ℕ → Text
unfolding digits_of
print_nat n = digits_of (suc n) n

unfoldable pub print_int : ℤ → Text
unfolding print_nat
print_int (pos n) = print_nat n
print_int (negsuc n) = b'-' ∷ print_nat (suc n)

-- The value of a text of digits, read behind the digits of `so_far`.
unfoldable pub read_digits : ℕ → Text → Option ℕ
read_digits so_far [] = some so_far
read_digits so_far (ch ∷ text) =
    let more = read_digits (so_far * 10 + (ch - b'0')) text in if is_digit ch then more else none

-- A text without a digit is refused.
unfoldable pub read_nat : Text → Option ℕ
unfolding read_digits
read_nat [] = none
read_nat (ch ∷ text) = read_digits 0 (ch ∷ text)

-- Numbers outside int64 are refused.
unfoldable pub positive : Option ℕ → Result ℤ
positive none = err invalid_integer
positive (some n) = if ltb n (2 ^ 63) then ok (pos n) else err invalid_integer

unfoldable pub negative : Option ℕ → Result ℤ
negative none = err invalid_integer
negative (some zero) = ok (pos 0)
negative (some (suc n)) = if ltb n (2 ^ 63) then ok (negsuc n) else err invalid_integer

unfoldable pub parse_int : Text → Result ℤ
unfolding read_nat positive negative
parse_int [] = err invalid_integer
parse_int (ch ∷ text) =
    if ch == b'-' then negative (read_nat text) else positive (read_nat (ch ∷ text))
