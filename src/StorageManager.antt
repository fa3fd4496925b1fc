-- ===== src/StorageManager.antt =====
-- Saved databases: src/persistence/storage_manager.cpp. A file is its bytes, and a directory its files
-- by name, or none where it is not there. What the language leaves open is a parameter: `left_first`,
-- the order in which the two arguments of `emplace_back(readString(in), readString(in))` are
-- evaluated, and the file system `fs`. `create_directories` succeeds. A column type that is no
-- enumerator is refused, where the code would carry it on.
pub mod Values
pub mod Tables
pub mod Loaded
pub mod Files
use the_city_crdb.Bytes.{int64_bits, le_bytes}
use the_city_crdb.Bytes.Reading.{Reader, pure, read_bytes, read_pod, throw, ◌>>=◌, ◌>>◌}
use the_city_crdb.Common.{
  ℕ, zero, suc, ◌-◌, ◌^◌, Bool, true, false, not, Option, none, some, List, [], ◌∷◌, ◌++◌, Text,
  codes, text_eq, text_lt, ltb, ◌==◌, if◌then◌else◌, length, ℤ, pos, negsuc, Result, ok, err,
  file_read, file_magic, file_version, file_value_type, file_open, duplicate_table, publish_failed,
  file_create, file_write, remove_failed, no_storage_directory, no_saved_database, no_column_type,
}
use the_city_crdb.Common.{◌>>=◌ as then_on}
use the_city_crdb.Common.OrdMap
use the_city_crdb.Database.{Database, create_indexes, create_table, find_table, new_database, place}
use the_city_crdb.FileSystem.{FileSystem, Directory, unopened, failed, written}
use the_city_crdb.Table.{Table, index_definitions, rows_snapshot}
use the_city_crdb.Table.Mutation
use the_city_crdb.Value.{
  Column, ColumnType, Row, Value, null, int, double, string, int_type, double_type, string_type,
  type_code,
}

abbrev pub magic : Text
magic = codes "TCRDB001"

abbrev pub version : ℕ
version = 1

unfoldable pub write_string : Text → Text
unfolding le_bytes
write_string text = le_bytes 8 (length text) ++ text

unfoldable pub write_value : Value → Text
unfolding le_bytes int64_bits write_string
write_value null = le_bytes 1 255
write_value (int x) = le_bytes 1 (type_code int_type) ++ le_bytes 8 (int64_bits x)
write_value (double bits) = le_bytes 1 (type_code double_type) ++ le_bytes 8 bits
write_value (string text) = le_bytes 1 (type_code string_type) ++ write_string text

abbrev pub flag : Bool → ℕ
flag b = if b then 1 else 0

unfoldable pub write_column : Column → Text
write_column c =
    write_string c.name ++ (le_bytes 1 (type_code c.type) ++ le_bytes 1 (flag c.nullable))

unfoldable pub write_definition : Text × Text → Text
write_definition (name, column) = write_string name ++ write_string column

-- `for (const auto &x : xs) { … }`
abbrev pub write_each {ℓ} : {A : Type ℓ} → (A → Text) → List A → Text
write_each write [] = []
write_each write (x ∷ xs) = write x ++ write_each write xs

-- A loop behind the number of its rounds.
abbrev pub write_list {ℓ} : {A : Type ℓ} → (A → Text) → List A → Text
write_list write xs = le_bytes 8 (length xs) ++ write_each write xs

unfoldable pub write_row : Row → Text
write_row row = write_each write_value row

unfoldable pub write_table : Table → Text
write_table t =
    write_string t.name
    ++ (write_list write_column t.schema
        ++ (write_list write_definition (index_definitions t)
            ++ write_list write_row (rows_snapshot t)))

abbrev pub entry_bytes : Text × Table → Text
entry_bytes entry = write_table entry.1

unfoldable pub database_bytes : Database → Text
database_bytes db =
    magic ++ (le_bytes 4 version ++ (write_string db.name ++ write_list entry_bytes db.tables))

unfoldable pub read_string : Reader Text
read_string = do size ← read_pod file_read 8; read_bytes file_read size

-- The int64 of a bit pattern.
unfoldable pub int64_of : ℕ → ℤ
int64_of bits = if ltb bits (2 ^ 63) then pos bits else negsuc (2 ^ 64 - 1 - bits)

read_int : Reader Value
unfolding int64_of
read_int = do bits ← read_pod file_read 8; pure (int (int64_of bits))

read_double : Reader Value
read_double = do bits ← read_pod file_read 8; pure (double bits)

read_text : Reader Value
unfolding read_string
read_text = do text ← read_string; pure (string text)

unfoldable pub read_value : Reader Value
unfolding read_int read_double read_text
read_value = do
  type ← read_pod file_read 1
  if type == 255
      then pure null
      else if type == 0
      then read_int
      else if type == 1
      then read_double
      else if type == 2
      then read_text
      else throw file_value_type

unfoldable pub type_of_byte : ℕ → Reader ColumnType
type_of_byte byte =
    if byte == 0
    then pure int_type
    else if byte == 1
    then pure double_type
    else if byte == 2
    then pure string_type
    else throw no_column_type

unfoldable pub read_column : Reader Column
read_column = do
  name ← read_string
  byte ← read_pod file_read 1
  type ← type_of_byte byte
  nullable ← read_pod file_read 1
  pure (record { name = name; type = type; nullable = not (nullable == 0) })

-- `for (i = 0; i < count; ++i) { … }`
unfoldable pub repeated {ℓ} : {A : Type ℓ} → Reader A → ℕ → Reader (List A)
repeated read zero = pure []
repeated read (suc count) = do x ← read; xs ← repeated read count; pure (x ∷ xs)

abbrev pub read_list {ℓ} : {A : Type ℓ} → Reader A → Reader (List A)
read_list read = read_pod file_read 8 >>= repeated read

abbrev lift {ℓ} : {A : Type ℓ} → Result A → Reader A
lift r text = then_on r λ a. ok (a, text)

module _ (left_first : Bool) where
  unfoldable pub read_definition : Reader (Text × Text)
  read_definition = do
    earlier ← read_string
    later ← read_string
    pure (if left_first then (earlier, later) else (later, earlier))

  -- What follows the schema of a table, for the table that was made.
  unfoldable pub fill_table : ℕ → Table → Reader Table
  fill_table column_count t = do
    definitions ← read_list read_definition
    rows ← read_list (repeated read_value column_count)
    filled ← lift (Mutation.replace_rows rows t)
    pure (create_indexes definitions filled)

  -- One round of the loop over the tables.
  unfoldable pub load_table : Database → Reader Database
  load_table db = do
    name ← read_string
    schema ← read_list read_column
    made ← lift (create_table name schema db)
    if not made.1 then throw duplicate_table else (elim (find_table name made.0) [
      | none ↦ throw duplicate_table
      | some t ↦ fill_table (length schema) t >>= λ filled. pure (place name filled made.0)
    ])

  unfoldable pub load_tables : ℕ → Database → Reader Database
  load_tables zero db = pure db
  load_tables (suc count) db = do loaded ← load_table db; load_tables count loaded

  unfoldable pub load_bytes : Reader Database
  load_bytes = do
    found ← read_bytes file_read (length magic)
    if not (text_eq found magic) then throw file_magic else do
      number ← read_pod file_read 4
      if not (number == version) then throw file_version else do
        name ← read_string
        db ← lift (new_database name)
        count ← read_pod file_read 8
        load_tables count db

-- The files of a directory by name.

abbrev pub extension : Text
extension = codes ".tcrdb"

abbrev pub path_for : Text → Text
path_for name = name ++ extension

abbrev pub temporary_path_for : Text → Text
temporary_path_for name = name ++ (extension ++ codes ".tmp")

-- `create_directories`
abbrev pub opened : Option Directory → Directory
opened none = []
opened (some files) = files

-- `remove(path, error)`, whose error is not looked at.
abbrev pub removed_or_not : Option Directory → Directory → Directory
removed_or_not none files = files
removed_or_not (some files') files = files'

-- `remove(tempPath)` throws where it fails; else the failure to publish is thrown.
unfoldable pub abandon : FileSystem → Text → Directory → Directory × Result (Unit {0})
abandon fs temporary files = elim (fs.remove temporary files) [
  | none ↦ (files, err remove_failed)
  | some left ↦ (left, err publish_failed)
]

-- The new snapshot is renamed into the place of the old one; where that fails, the old one is removed
-- before the second attempt.
unfoldable pub publish : FileSystem → Text → Text → Directory → Directory × Result (Unit {0})
publish fs temporary target files = elim (fs.rename temporary target files) [
  | some renamed ↦ (renamed, ok tt)
  | none ↦
      let cleared = removed_or_not (fs.remove target files) files in
      elim (fs.rename temporary target cleared) [
        | some renamed ↦ (renamed, ok tt)
        | none ↦ abandon fs temporary cleared
      ]
]

unfoldable pub save_database :
    FileSystem → Database → Option Directory → Directory × Result (Unit {0})
save_database fs db directory =
    let temporary = temporary_path_for db.name in
    elim (fs.write temporary (database_bytes db) (opened directory)) [
      | unopened ↦ (opened directory, err file_create)
      | failed files ↦ (files, err file_write)
      | written files ↦ publish fs temporary (path_for db.name) files
    ]

unfoldable pub load_database : Bool → Text → Option Directory → Result Database
load_database left_first name directory =
    elim (OrdMap.find text_lt (path_for name) (opened directory)) [
      | none ↦ err file_open
      | some bytes ↦ then_on (load_bytes left_first bytes) λ r. ok r.0
    ]

-- The stem of a file's name, where its extension is that of a database.
unfoldable pub stem_of : Text → Option Text
stem_of [] = none
stem_of (ch ∷ name) =
    let more : Option Text = elim (stem_of name) [ none ↦ none | some stem ↦ some (ch ∷ stem) ] in
    if text_eq name extension then some (ch ∷ []) else more

-- The names in the order in which the directory lists them.
unfoldable pub first_stem : List Text → Option Text
unfolding stem_of
first_stem [] = none
first_stem (name ∷ names) =
    let later = first_stem names in elim (stem_of name) [ none ↦ later | some stem ↦ some stem ]

unfoldable pub load_first_database :
    Bool → (Directory → List Text) → Option Directory → Result Database
unfolding first_stem load_database
load_first_database left_first listing none = err no_storage_directory
load_first_database left_first listing (some files) = elim (first_stem (listing files)) [
  | none ↦ err no_saved_database
  | some stem ↦ load_database left_first stem (some files)
]

unfoldable pub metadata_exists : Text → Option Directory → Bool
metadata_exists name directory = elim (OrdMap.find text_lt (path_for name) (opened directory)) [
  | none ↦ false
  | some _ ↦ true
]
