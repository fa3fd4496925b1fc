-- ===== src/StorageManager/Values.antt =====
-- What is written of values, columns and lists to a file is read back.
use the_city_crdb.Bytes.{int64_bits, le_bytes}
use the_city_crdb.Bytes.Reading.{Fits, Reader, read_bytes-append, read_pod-le_bytes}
use the_city_crdb.Common.{
  ◌%◌, ◌^◌, ◌≡◌, refl, Bool, true, false, not, List, [], ◌∷◌, ◌++◌, arith, Text, ◌==◌, length, ℤ,
  pos, negsuc, ok, append_assoc, file_read,
}
use the_city_crdb.Common.OrdMap.{All}
use the_city_crdb.Decimal.RoundTrip.{IsInt64}
use the_city_crdb.StorageManager.{
  flag, int64_of, type_of_byte, read_column, read_definition, read_list, read_string, read_value,
  repeated, write_column, write_definition, write_each, write_list, write_string, write_value,
}
use the_city_crdb.Value.{
  Column, ColumnType, Value, type_code, null, int, double, string, int_type, double_type,
  string_type,
}

int64_of-int64_bits : (x : ℤ) → IsInt64 x → int64_of (int64_bits x) ≡ x
unfolding int64_of int64_bits
int64_of-int64_bits (pos n) h = let e : n % 2 ^ 64 ≡ n = omega (arith, h) in rw e (ground arith)
int64_of-int64_bits (negsuc n) h = let e : n % 2 ^ 64 ≡ n = omega (arith, h) in rw e (ground arith)

-- What a writer writes of a good value is read back, with the bytes behind it left.
abbrev pub ReadsBack {ℓ} : {A : Type ℓ} → Reader A → (A → Text) → (A → Type 0) → Type ℓ
ReadsBack {A} read write Good =
    (x : A) (rest : Text) → Good x → read (write x ++ rest) ≡ ok (x, rest)

-- The length of a text fits into its eight bytes.
abbrev pub HasSize {ℓ} : {A : Type ℓ} → List A → Type 0
HasSize xs = Fits 8 (length xs)

pub read_string-ReadsBack : ReadsBack read_string write_string (λ text. HasSize text)
unfolding read_string write_string
read_string-ReadsBack text rest h =
    rw
      (
        append_assoc (le_bytes 8 (length text)) text rest,
        read_pod-le_bytes file_read 8 (length text) (text ++ rest) h,
      )
      (read_bytes-append file_read text rest)

-- An int64, the 64 bits of a double, a string of a size below 2^64, or NULL.
abbrev pub IsStorable : Value → Type 0
IsStorable null = Unit
IsStorable (int x) = IsInt64 x
IsStorable (double bits) = Fits 8 bits
IsStorable (string text) = HasSize text

int64_bits-Fits : (x : ℤ) → Fits 8 (int64_bits x)
unfolding int64_bits
int64_bits-Fits (pos n) = omega arith
int64_bits-Fits (negsuc n) = omega arith

pub read_value-ReadsBack : ReadsBack read_value write_value IsStorable
unfolding read_value write_value
read_value-ReadsBack null rest h = rw (read_pod-le_bytes file_read 1 255 rest (omega arith)) refl
read_value-ReadsBack (int x) rest h =
    let bytes = le_bytes 8 (int64_bits x) in
    rw
      (
        append_assoc (le_bytes 1 0) bytes rest,
        read_pod-le_bytes file_read 1 0 (bytes ++ rest) (omega arith),
        read_pod-le_bytes file_read 8 (int64_bits x) rest (int64_bits-Fits x),
        int64_of-int64_bits x h,
      )
      refl
read_value-ReadsBack (double bits) rest h =
    rw
      (
        append_assoc (le_bytes 1 1) (le_bytes 8 bits) rest,
        read_pod-le_bytes file_read 1 1 (le_bytes 8 bits ++ rest) (omega arith),
        read_pod-le_bytes file_read 8 bits rest h,
      )
      refl
read_value-ReadsBack (string text) rest h =
    rw
      (
        append_assoc (le_bytes 1 2) (write_string text) rest,
        read_pod-le_bytes file_read 1 2 (write_string text ++ rest) (omega arith),
        read_string-ReadsBack text rest h,
      )
      refl

pub repeated-ReadsBack {ℓ} :
    {A : Type ℓ} (read : Reader A) (write : A → Text) (Good : A → Type 0)
    → ReadsBack read write Good
    → (xs : List A) (rest : Text) → All Good xs
    → repeated read (length xs) (write_each write xs ++ rest) ≡ ok (xs, rest)
unfolding repeated
repeated-ReadsBack read write Good back [] rest good = refl
repeated-ReadsBack read write Good back (x ∷ xs) rest good =
    let later = write_each write xs in
    rw
      (
        append_assoc (write x) later rest,
        back x (later ++ rest) good.0,
        repeated-ReadsBack read write Good back xs rest good.1,
      )
      refl

pub read_list-ReadsBack {ℓ} :
    {A : Type ℓ} (read : Reader A) (write : A → Text) (Good : A → Type 0)
    → ReadsBack read write Good
    → ReadsBack (read_list read) (write_list write) (λ xs. HasSize xs × All Good xs)
read_list-ReadsBack read write Good back xs rest h =
    let each = write_each write xs in
    rw
      (
        append_assoc (le_bytes 8 (length xs)) each rest,
        read_pod-le_bytes file_read 8 (length xs) (each ++ rest) h.0,
      )
      (repeated-ReadsBack read write Good back xs rest h.1)

abbrev pub ColumnIsStorable : Column → Type 0
ColumnIsStorable c = HasSize c.name

type_of_byte-type_code :
    (type : ColumnType) (rest : Text) → type_of_byte (type_code type) rest ≡ ok (type, rest)
unfolding type_of_byte
type_of_byte-type_code int_type rest = refl
type_of_byte-type_code double_type rest = refl
type_of_byte-type_code string_type rest = refl

type_code-Fits : (type : ColumnType) → Fits 1 (type_code type)
type_code-Fits int_type = omega arith
type_code-Fits _ = omega arith

flag-Fits : (b : Bool) → Fits 1 (flag b)
flag-Fits true = omega arith
flag-Fits false = omega arith

flag-not_zero : (b : Bool) → not (flag b == 0) ≡ b
flag-not_zero true = refl
flag-not_zero false = refl

pub read_column-ReadsBack : ReadsBack read_column write_column ColumnIsStorable
unfolding read_column write_column
read_column-ReadsBack c rest h =
    let type = le_bytes 1 (type_code c.type) in
    let nullable = le_bytes 1 (flag c.nullable) in
    rw
      (
        append_assoc (write_string c.name) (type ++ nullable) rest,
        append_assoc type nullable rest,
        read_string-ReadsBack c.name (type ++ (nullable ++ rest)) h,
        read_pod-le_bytes file_read 1 (type_code c.type) (nullable ++ rest) (type_code-Fits c.type),
        type_of_byte-type_code c.type (nullable ++ rest),
        read_pod-le_bytes file_read 1 (flag c.nullable) rest (flag-Fits c.nullable),
        flag-not_zero c.nullable,
      )
      refl

abbrev pub DefinitionIsStorable : Text × Text → Type 0
DefinitionIsStorable d = HasSize d.0 × HasSize d.1

pub read_definition-ReadsBack :
    ReadsBack (read_definition true) write_definition DefinitionIsStorable
unfolding read_definition write_definition
read_definition-ReadsBack (name, column) rest h =
    rw
      (
        append_assoc (write_string name) (write_string column) rest,
        read_string-ReadsBack name (write_string column ++ rest) h.0,
        read_string-ReadsBack column rest h.1,
      )
      refl
