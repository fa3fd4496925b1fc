-- ===== src/WriteAheadLog.antt =====
-- The write-ahead log: src/persistence/write_ahead_log.cpp and its header. The log's file is its bytes,
-- or none where there is no file; a write of the file succeeds. A record keeps the byte of its
-- operation, since a byte that is no enumerator is read as well. A payload that is too large for the
-- memory counts as truncated.
pub mod Records
pub mod Appends
pub mod Torn
use the_city_crdb.Bytes.{le_bytes}
use the_city_crdb.Bytes.Reading.{Reader, pure, throw, read_bytes, read_pod, ◌>>=◌, ◌>>◌}
use the_city_crdb.Common.{
  ℕ, zero, suc, ◌+◌, ◌%◌, ◌^◌, max, Bool, not, ◌&&◌, ◌||◌, Option, none, some, List, [], ◌∷◌, ◌++◌,
  Text, ◌==◌, if◌then◌else◌, length, Result, ok, err, wal_read, wal_header, wal_payload,
  out_of_fuel,
}
use the_city_crdb.Common.{◌>>=◌ as then_on}

pub data WalOperation : Type 0 where
  create_database create_table drop_table rename_table insert update delete : WalOperation
  create_index save_database : WalOperation

abbrev pub operation_byte : WalOperation → ℕ
operation_byte create_database = 0
operation_byte create_table = 1
operation_byte drop_table = 2
operation_byte rename_table = 3
operation_byte insert = 4
operation_byte update = 5
operation_byte delete = 6
operation_byte create_index = 7
operation_byte save_database = 8

pub record WalRecord : Type 0 where
  pub lsn : ℕ
  pub operation : ℕ
  pub payload : Text

pub record WriteAheadLog : Type 0 where
  pub file : Option Text
  pub next_lsn : Option ℕ

abbrev pub wal_magic : ℕ
wal_magic = 0x54435741

abbrev pub wal_version : ℕ
wal_version = 1

unfoldable pub record_bytes : WalRecord → Text
unfolding le_bytes
record_bytes r =
    le_bytes 4 wal_magic
    ++ (le_bytes 4 wal_version
        ++ (le_bytes 8 r.lsn
            ++ (le_bytes 1 r.operation ++ (le_bytes 8 (length r.payload) ++ r.payload))))

unfoldable pub read_record : Reader WalRecord
read_record = do
  magic ← read_pod wal_read 4
  version ← read_pod wal_read 4
  if magic == wal_magic && version == wal_version
      then (do
        lsn ← read_pod wal_read 8
        operation ← read_pod wal_read 1
        size ← read_pod wal_read 8
        payload ← read_bytes wal_payload size
        pure (record { lsn = lsn; operation = operation; payload = payload }))
      else throw wal_header

-- The loop over the file, a round for each record.
unfoldable pub read_records : ℕ → Text → Result (List WalRecord)
read_records fuel [] = ok []
read_records zero (b ∷ text) = err out_of_fuel
read_records (suc fuel) (b ∷ text) =
    then_on (read_record (b ∷ text)) λ r. then_on (read_records fuel r.1) λ more. ok (r.0 ∷ more)

unfoldable pub read_all : WriteAheadLog → Result (List WalRecord)
read_all wal = elim wal.file [ none ↦ ok [] | some text ↦ read_records (length text) text ]

-- `for (const auto &record : readAll()) { next = std::max(next, record.lsn + 1); }`
unfoldable pub lsn_after : ℕ → List WalRecord → ℕ
lsn_after next [] = next
lsn_after next (r ∷ records) = lsn_after (max next ((r.lsn + 1) % 2 ^ 64)) records

-- The log with its counter moved, and the number for the next record.
unfoldable pub take_lsn : WriteAheadLog → Result (WriteAheadLog × ℕ)
unfolding read_all lsn_after
take_lsn wal = elim wal.next_lsn [
  | some n ↦ ok (record wal { next_lsn = some ((n + 1) % 2 ^ 64) }, n)
  | none ↦ then_on (read_all wal) λ records.
      let next = lsn_after 1 records in
      ok (record wal { next_lsn = some ((next + 1) % 2 ^ 64) }, next)
]

-- `std::ios::app`: a file that is not there is made.
abbrev pub contents : Option Text → Text
contents none = []
contents (some text) = text

unfoldable pub append : WalOperation → Text → WriteAheadLog → Result (WriteAheadLog × ℕ)
unfolding take_lsn record_bytes
append operation payload wal = then_on (take_lsn wal) λ r.
    let written : WalRecord = record {
      lsn = r.1;
      operation = operation_byte operation;
      payload = payload;
    } in
    ok (record r.0 { file = some (contents wal.file ++ record_bytes written) }, r.1)

unfoldable pub reset : WriteAheadLog → WriteAheadLog
reset wal = record { file = some []; next_lsn = some 1 }
