-- ===== src/Tests/Logs.antt =====
-- The theorems on the log and on saved databases at small examples.
use mathlib.Core.Path.{subst}
use the_city_crdb.Bytes.{le_bytes}
use the_city_crdb.Common.{
  ◌<◌, ◌≡◌, refl, true, Option, none, some, [], ◌∷◌, ◌++◌, Text, codes, arith, ok, err, Error,
  text_eq, text_lt, text_lt_irrefl, text_lt_total, ◌≢◌, false, ◌∙◌,
}
use the_city_crdb.Common.OrdMap
use the_city_crdb.Common.OrdMap.{
  All, IsSorted, is_same, upsert-IsSorted, remove-IsSorted, text_lt-StrictWeak,
}
use the_city_crdb.Database.{Database, find_table}
use the_city_crdb.Database.Clone.{Copied}
use the_city_crdb.FileSystem.{Directory, FileSystem, Renames, Separates, Writes, written}
use the_city_crdb.StorageManager.{
  database_bytes, load_bytes, load_database, path_for, save_database, temporary_path_for,
}
use the_city_crdb.StorageManager.Files.{load_database-save_database, save_database-lost}
use the_city_crdb.StorageManager.Loaded.{IsStorable, load_bytes-Copied}
use the_city_crdb.Bytes.Reading.{from_le, read_bytes, read_pod}
use the_city_crdb.Common.OrdMap.Texts.{find-remove_text, find-upsert_text}
use the_city_crdb.StorageManager.Tables.{TableIsStorable}
use the_city_crdb.RowStore
use the_city_crdb.Table.{column_index, index_definitions, rows_snapshot}
use the_city_crdb.Table.Indexing.{validate_row}
use the_city_crdb.Table.Mutation.{create_index, insert}
use the_city_crdb.Value.{value_type}
use the_city_crdb.Tests.{people}
use the_city_crdb.Tests.Databases.{town, town-IsValid}
use the_city_crdb.WriteAheadLog
use the_city_crdb.WriteAheadLog.{
  read_record, WalRecord, WriteAheadLog, append, operation_byte, read_all, read_records,
  record_bytes,
}
use the_city_crdb.WriteAheadLog.Appends.{IsLog, append-Appends}
use the_city_crdb.WriteAheadLog.Records.{IsEncodable}
use the_city_crdb.WriteAheadLog.Torn.{read_all-torn}

people-IsStorable : TableIsStorable people
unfolding create_index insert validate_row value_type RowStore.get RowStore.append OrdMap.find
    OrdMap.upsert column_index text_eq index_definitions rows_snapshot RowStore.snapshot
people-IsStorable = record {
  name = refl;
  schema = (refl, (refl, (refl, tt)));
  definitions = (refl, ((refl, refl), tt));
  rows = (refl, ((refl, (omega arith, (refl, tt))), ((refl, (omega arith, (tt, tt))), tt)));
}

town-IsStorable : IsStorable town
town-IsStorable = record {
  name = omega arith;
  count = omega arith;
  tables = (people-IsStorable, tt);
}

load_bytes-Copied_example :
    (copy : Database) × (load_bytes true (database_bytes town ++ codes "!") ≡ ok (copy, codes "!"))
    × (copy.name ≡ codes "town")
    × ((q : Text) → Copied (find_table q town) (find_table q copy))
load_bytes-Copied_example =
    load_bytes-Copied town (codes "!") town-IsValid (λ e. cc) town-IsStorable

-- A rename that also leaves the old name.
abbrev link : Text → Text → Directory → Option Directory
link from to files = elim (OrdMap.find text_lt from files) [
  | none ↦ none
  | some bytes ↦ some (OrdMap.upsert text_lt to (λ _. bytes) files)
]

-- Files on a disk, with a way to rename them.
abbrev disk : (Text → Text → Directory → Option Directory) → FileSystem
disk rename = record {
  write = λ name bytes files. written (OrdMap.upsert text_lt name (λ _. bytes) files);
  rename = rename;
  remove = λ name files. some (OrdMap.remove text_lt name files);
}

abbrev no_rename : Text → Text → Directory → Option Directory
no_rename from to files = none

find-upsert_same :
    (name bytes : Text) (files : Directory)
    → OrdMap.find text_lt name (OrdMap.upsert text_lt name (λ _. bytes) files) ≡ some bytes
find-upsert_same name bytes files =
    ground (arith, find-upsert_text name name (λ _. bytes) files, text_lt_irrefl name)

disk-Writes : Writes (disk link)
disk-Writes name bytes files =
    (OrdMap.upsert text_lt name (λ _. bytes) files, refl, find-upsert_same name bytes files)

disk-Renames : Renames (disk link)
disk-Renames from to bytes files h = (
  OrdMap.upsert text_lt to (λ _. bytes) files,
  rw (h, link) refl,
  find-upsert_same to bytes files,
)

is_same_other : (name q : Text) → q ≢ name → is_same text_lt name q ≡ false
is_same_other name q other = ground (arith, text_lt_total name q, other)

disk-Separates : Separates (disk no_rename)
disk-Separates = record {
  written_others = λ name bytes q files files' sorted e other.
      let put : OrdMap.upsert text_lt name (λ _. bytes) files ≡ files' = cc in
      subst (λ d. IsSorted text_lt d × (OrdMap.find text_lt q d ≡ OrdMap.find text_lt q files)) put
        (
          upsert-IsSorted text_lt text_lt-StrictWeak name (λ _. bytes) files sorted,
          find-upsert_text name q (λ _. bytes) files ∙ rw (is_same_other name q other) refl,
        );
  removed = λ name files files' sorted e.
      let taken : OrdMap.remove text_lt name files ≡ files' = cc in
      subst (λ d. IsSorted text_lt d × (OrdMap.find text_lt name d ≡ none)) taken
        (
          remove-IsSorted text_lt text_lt-StrictWeak name files sorted,
          find-remove_text name name files sorted ∙ rw (text_lt_irrefl name) refl,
        );
  removed_others = λ name q files files' sorted e other.
      let taken : OrdMap.remove text_lt name files ≡ files' = cc in
      subst (λ d. OrdMap.find text_lt q d ≡ OrdMap.find text_lt q files) taken
        (find-remove_text name q files sorted ∙ rw (is_same_other name q other) refl);
}

load_database-save_database_example :
    (copy : Database) × ((save_database (disk link) town (some [])).1 ≡ ok tt)
    × (load_database true (codes "town") (some (save_database (disk link) town (some [])).0)
        ≡ ok copy)
    × (copy.name ≡ codes "town")
    × ((q : Text) → Copied (find_table q town) (find_table q copy))
load_database-save_database_example =
    load_database-save_database (disk link) town [] disk-Writes disk-Renames town-IsValid (λ e. cc)
      town-IsStorable

abbrev saved_before : Directory
saved_before = (path_for (codes "town"), codes "old") ∷ []

abbrev saved_beside : Directory
saved_beside =
    OrdMap.upsert text_lt (temporary_path_for (codes "town")) (λ _. database_bytes town)
      saved_before

-- The disk removes the old snapshot.
save_database-lost_example :
    ((e : Error) × ((save_database (disk no_rename) town (some saved_before)).1 ≡ err e))
    × (OrdMap.find text_lt
          (path_for (codes "town"))
          (save_database (disk no_rename) town (some saved_before)).0
        ≡ none)
unfolding OrdMap.find
save_database-lost_example =
    save_database-lost (disk no_rename) town saved_before saved_beside (codes "old") disk-Separates
      (tt, tt) (ground (arith, text_lt_irrefl (path_for (codes "town")))) refl (λ files. refl)

abbrev empty_log : WriteAheadLog
empty_log = record { file = none; next_lsn = none }

empty_log-IsLog : IsLog empty_log []
unfolding read_all
empty_log-IsLog = record { read = refl; counter = tt }

append-Appends_example :
    (wal' : WriteAheadLog) × (n : _) × (append WriteAheadLog.insert (codes "x") empty_log
      ≡ ok (wal', n))
    × All (λ (r : WalRecord). r.lsn < n) []
    × IsLog wal' (
        record { lsn = n; operation = operation_byte WriteAheadLog.insert; payload = codes "x" }
        ∷ [])
append-Appends_example =
    append-Appends WriteAheadLog.insert (codes "x") empty_log [] empty_log-IsLog tt (omega arith)

abbrev one_record : WalRecord
one_record = record { lsn = 1; operation = 4; payload = codes "x" }

abbrev rest_of : Text → Text
rest_of [] = []
rest_of (b ∷ bytes) = bytes

abbrev whole_log : WriteAheadLog
whole_log = record { file = some (record_bytes one_record); next_lsn = none }

whole_log-read : read_all whole_log ≡ ok (one_record ∷ [])
unfolding read_all read_records read_record read_pod read_bytes from_le record_bytes le_bytes
whole_log-read = refl

one_record-IsEncodable : IsEncodable one_record
one_record-IsEncodable = record {
  lsn_fits = omega arith;
  operation_fits = omega arith;
  size_fits = omega arith;
}

read_all-torn_example :
    (e : Error) × (read_all
        (record { file = some (record_bytes one_record ++ b'A' ∷ []); next_lsn = none })
      ≡ err e)
unfolding record_bytes le_bytes
read_all-torn_example =
    read_all-torn (record_bytes one_record) (b'A' ∷ []) (rest_of (record_bytes one_record)) none
      (one_record ∷ []) one_record one_record-IsEncodable whole_log-read refl (omega arith)
      (omega arith)
