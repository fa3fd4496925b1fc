-- ===== src/Bytes.antt =====
-- The bytes of integers and values in memory, as `appendBytes` and `writePod` copy them: little
-- endian, two's complement, the IEEE bit pattern of a double. (row_store.cpp, storage_manager.cpp)
pub mod Reading
use the_city_crdb.Common.{
  ℕ, zero, suc, ◌-◌, ◌/◌, ◌%◌, ◌^◌, List, [], ◌∷◌, ◌++◌, length, ℤ, pos, negsuc,
}
use the_city_crdb.Value.{
  Value, null, int, double, string, int_type, double_type, string_type, type_code, Row,
}

-- The low `width` bytes of a number, the lowest first.
unfoldable pub le_bytes : ℕ → ℕ → List ℕ
le_bytes zero x = []
le_bytes (suc width) x = x % 256 ∷ le_bytes width (x / 256)

-- The bit pattern of an int64.
unfoldable pub int64_bits : ℤ → ℕ
int64_bits (pos n) = n % 2 ^ 64
int64_bits (negsuc n) = 2 ^ 64 - 1 - n % 2 ^ 64

-- The type byte, 255 for NULL, and the payload.
unfoldable pub append_value : Value → List ℕ
unfolding le_bytes int64_bits
append_value null = 255 ∷ []
append_value (int x) = type_code int_type ∷ le_bytes 8 (int64_bits x)
append_value (double bits) = type_code double_type ∷ le_bytes 8 bits
append_value (string text) = type_code string_type ∷ (le_bytes 8 (length text) ++ text)

append_row : Row → List ℕ
append_row [] = []
append_row (v ∷ vs) = append_value v ++ append_row vs

append_rows : List Row → List ℕ
append_rows [] = []
append_rows (r ∷ rs) = le_bytes 8 (length r) ++ (append_row r ++ append_rows rs)

-- The bytes of a page: the number of rows, then each row with its width.
unfoldable pub page_bytes : List Row → List ℕ
unfolding append_value append_row append_rows
page_bytes rows = le_bytes 8 (length rows) ++ append_rows rows
