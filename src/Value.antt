-- ===== src/Value.antt =====
-- Typed values, columns and rows: include/VertexDB/common/value.hpp, src/common/value.cpp,
-- include/VertexDB/common/comparison_operator.hpp and include/VertexDB/storage/row.hpp. A double is
-- its IEEE 754 bit pattern (below 2^64); an int64 is an integer.
pub mod Order
use the_city_crdb.Common.{
  ℕ, ◌+◌, ◌-◌, ◌%◌, ◌^◌, ◌≡◌, Bool, true, false, not, ◌&&◌, ◌||◌, Option, none, some, List, [], ◌∷◌,
  map, Text, codes, text_eq, text_lt, ltb, leb, ◌==◌, if◌then◌else◌, ℤ, ltb_ℤ, eqb_ℤ, Result, ok,
  err, null_has_no_type, ◌<◌, ◌≤◌,
}

pub data ColumnType : Type 0 where
  int_type double_type string_type : ColumnType

-- `std::variant<std::monostate, std::int64_t, double, std::string>`
pub data Value : Type 0 where
  null : Value
  int : ℤ → Value
  double : ℕ → Value
  string : Text → Value

pub record Column : Type 0 where
  pub name : Text
  pub type : ColumnType
  pub nullable : Bool

abbrev pub Row : Type 0
Row = List Value

abbrev pub RowId : Type 0
RowId = ℕ

pub data ComparisonOperator : Type 0 where
  equal greater less : ComparisonOperator

-- The exponent is all ones and the fraction is not zero.
unfoldable pub is_nan : ℕ → Bool
is_nan bits = ltb 0x7ff0000000000000 (bits % 2 ^ 63)

-- The place of a double that is no NaN in the order of doubles; both zeros have one place.
unfoldable pub double_key : ℕ → ℕ
double_key bits = if leb (2 ^ 63) bits then 2 ^ 63 - bits % 2 ^ 63 else 2 ^ 63 + bits

unfoldable pub double_eq : ℕ → ℕ → Bool
unfolding is_nan double_key
double_eq a b = not (is_nan a) && not (is_nan b) && (double_key a == double_key b)

unfoldable pub double_lt : ℕ → ℕ → Bool
unfolding is_nan double_key
double_lt a b = not (is_nan a) && not (is_nan b) && ltb (double_key a) (double_key b)

abbrev pub is_null : Value → Bool
is_null null = true
is_null _ = false

unfoldable pub value_type : Value → Result ColumnType
value_type null = err null_has_no_type
value_type (int _) = ok int_type
value_type (double _) = ok double_type
value_type (string _) = ok string_type

-- The values of the enumerators.
abbrev pub type_code : ColumnType → ℕ
type_code int_type = 0
type_code double_type = 1
type_code string_type = 2

abbrev variant_index : Value → ℕ
variant_index null = 0
variant_index (int _) = 1
variant_index (double _) = 2
variant_index (string _) = 3

-- `==` of the variant.
unfoldable pub value_eq : Value → Value → Bool
value_eq null null = true
value_eq (int a) (int b) = eqb_ℤ a b
value_eq (double a) (double b) = double_eq a b
value_eq (string a) (string b) = text_eq a b
value_eq _ _ = false

-- `<` of the variant.
data_lt : Value → Value → Bool
data_lt (int a) (int b) = ltb_ℤ a b
data_lt (double a) (double b) = double_lt a b
data_lt (string a) (string b) = text_lt a b
data_lt a b = ltb (variant_index a) (variant_index b)

lt_by_type : Result ColumnType → Result ColumnType → Bool → Bool
lt_by_type (ok s) (ok t) same =
    if not (type_code s == type_code t) then ltb (type_code s) (type_code t) else same
lt_by_type _ _ _ = false

unfoldable pub value_lt : Value → Value → Bool
unfolding value_type data_lt lt_by_type
value_lt a b =
    if is_null a || is_null b
    then ltb (variant_index a) (variant_index b)
    else lt_by_type (value_type a) (value_type b) (data_lt a b)

unfoldable pub compare_values : Value → ComparisonOperator → Value → Bool
compare_values left equal right = value_eq left right
compare_values left greater right = value_lt right left
compare_values left less right = value_lt left right

abbrev pub to_string : ColumnType → Text
to_string int_type = codes "INT"
to_string double_type = codes "DOUBLE"
to_string string_type = codes "STRING"

-- `std::toupper` in the C locale.
unfoldable pub to_upper : ℕ → ℕ
to_upper ch = if leb b'a' ch && leb ch b'z' then ch - 32 else ch

unfoldable pub column_type_from_string : Text → Option ColumnType
unfolding to_upper
column_type_from_string text =
    let normalized = map to_upper text in
    if text_eq normalized (codes "INT")
    then some int_type
    else if text_eq normalized (codes "DOUBLE")
    then some double_type
    else if text_eq normalized (codes "STRING")
    then some string_type
    else none
