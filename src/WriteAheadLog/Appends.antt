-- ===== src/WriteAheadLog/Appends.antt =====
-- Appending to the log: the records read before are read again, and then the new one, whose number is
-- above theirs.
use the_city_crdb.Bytes.Reading.{Fits}
use the_city_crdb.Common.{
  ℕ, ◌+◌, ◌%◌, ◌^◌, ◌≤◌, ◌<◌, ◌≡◌, refl, max, Option, none, some, List, [], ◌∷◌, ◌++◌, arith, Text,
  length, ok, append-nil, length-append,
}
use the_city_crdb.Common.OrdMap.{All, All-imp}
use the_city_crdb.WriteAheadLog.{
  WalOperation, create_database, WalRecord, WriteAheadLog, append, contents, lsn_after,
  operation_byte, read_all, read_records, record_bytes, reset, take_lsn,
}
use the_city_crdb.WriteAheadLog.Records.{IsEncodable, record_bytes-pos, read_records-append}

-- The counter is above the records.
abbrev pub Above : Option ℕ → List WalRecord → Type 0
Above none records = Unit
Above (some n) records = (n < 2 ^ 64) × All (λ r. r.lsn < n) records

-- The file has these records, and the counter is in step with them.
pub record IsLog (wal : WriteAheadLog) (records : List WalRecord) : Type 0 where
  pub read : read_all wal ≡ ok records
  pub counter : Above wal.next_lsn records

-- The numbers do not run out with the next record.
abbrev pub HasRoom : Option ℕ → List WalRecord → Type 0
HasRoom none records = All (λ r. r.lsn + 2 < 2 ^ 64) records
HasRoom (some n) records = n + 1 < 2 ^ 64

lsn_after-le : (next : ℕ) (records : List WalRecord) → next ≤ lsn_after next records
unfolding lsn_after
lsn_after-le next [] = omega arith
lsn_after-le next (r ∷ records) =
    omega (arith, lsn_after-le (max next ((r.lsn + 1) % 2 ^ 64)) records)

lsn_after-above :
    (next : ℕ) (records : List WalRecord)
    → All (λ r. r.lsn + 2 < 2 ^ 64) records
    → All (λ r. r.lsn < lsn_after next records) records
unfolding lsn_after
lsn_after-above next [] h = tt
lsn_after-above next (r ∷ records) h =
    let m = max next ((r.lsn + 1) % 2 ^ 64) in
    (omega (arith, lsn_after-le m records, h.0), lsn_after-above m records h.1)

lsn_after-lt :
    (next : ℕ) (records : List WalRecord)
    → next + 1 < 2 ^ 64
    → All (λ r. r.lsn + 2 < 2 ^ 64) records
    → lsn_after next records + 1 < 2 ^ 64
unfolding lsn_after
lsn_after-lt next [] small h = small
lsn_after-lt next (r ∷ records) small h =
    lsn_after-lt (max next ((r.lsn + 1) % 2 ^ 64)) records (omega (arith, h.0)) h.1

-- The number for the next record is above all, and the counter moves past it.
take_lsn_lem :
    (file : Option Text) (counter : Option ℕ) (records : List WalRecord)
    → read_all (record { file = file; next_lsn = counter }) ≡ ok records
    → Above counter records
    → HasRoom counter records
    → (n : ℕ) × (take_lsn (record { file = file; next_lsn = counter })
        ≡ ok (record { file = file; next_lsn = some (n + 1) }, n))
      × (n + 1 < 2 ^ 64)
      × All (λ r. r.lsn < n) records
unfolding take_lsn
take_lsn_lem file none records read above room =
    let n = lsn_after 1 records in
    let small = lsn_after-lt 1 records (omega arith) room in
    let e : (n + 1) % 2 ^ 64 ≡ n + 1 = omega (arith, small) in
    (n, rw (read, e) refl, small, lsn_after-above 1 records room)
take_lsn_lem file (some n) records read above room =
    let e : (n + 1) % 2 ^ 64 ≡ n + 1 = omega (arith, room) in (n, rw e refl, room, above.1)

All-append {ℓ κ} :
    {A : Type ℓ} (P : A → Type κ) (xs : List A) (x : A) → All P xs → P x → All P (xs ++ x ∷ [])
All-append P [] x h p = (p, tt)
All-append P (y ∷ xs) x h p = (h.0, All-append P xs x h.1 p)

read_all-append :
    (file : Option Text) (counter next : Option ℕ) (records : List WalRecord) (r : WalRecord)
    → IsEncodable r
    → read_all (record { file = file; next_lsn = counter }) ≡ ok records
    → read_all (record { file = some (contents file ++ record_bytes r); next_lsn = next })
      ≡ ok (records ++ r ∷ [])
unfolding read_all
read_all-append none counter next records r enc h =
    let pos : 0 < length (record_bytes r) =
      rw (append-nil (record_bytes r)) at (record_bytes-pos r []) in
    read_records-append 0 (length (record_bytes r)) [] records r enc pos (unfold read_records in h)
read_all-append (some text) counter next records r enc h =
    let pos : 0 < length (record_bytes r) =
      rw (append-nil (record_bytes r)) at (record_bytes-pos r []) in
    read_records-append (length text) (length (text ++ record_bytes r)) text records r enc
      (omega (arith, length-append text (record_bytes r), pos)) h

operation-Fits : (operation : WalOperation) → Fits 1 (operation_byte operation)
operation-Fits create_database = omega arith
operation-Fits _ = omega arith

-- Appending to a log always succeeds while its numbers last: the records of the file are read as
-- before, and behind them the new one, with a number above theirs, which the call returns. The
-- payload's size is below 2^64.
pub append-Appends :
    (operation : WalOperation) (payload : Text) (wal : WriteAheadLog) (records : List WalRecord)
    → IsLog wal records
    → HasRoom wal.next_lsn records
    → length payload < 2 ^ 64
    → (wal' : WriteAheadLog) × (n : ℕ) × (append operation payload wal ≡ ok (wal', n))
      × All (λ r. r.lsn < n) records
      × IsLog wal' (
          records
          ++ record { lsn = n; operation = operation_byte operation; payload = payload } ∷ [])
unfolding append
append-Appends operation payload wal records log room size =
    let (n, taken, small, above) =
      take_lsn_lem wal.file wal.next_lsn records log.read log.counter room in
    let r : WalRecord = record {
      lsn = n;
      operation = operation_byte operation;
      payload = payload;
    } in
    let enc : IsEncodable r = record {
      lsn_fits = omega (arith, small);
      operation_fits = operation-Fits operation;
      size_fits = omega (arith, size);
    } in
    (
      record { file = some (contents wal.file ++ record_bytes r); next_lsn = some (n + 1) },
      n,
      rw taken refl,
      above,
      record {
        read = read_all-append wal.file wal.next_lsn (some (n + 1)) records r enc log.read;
        counter = (
          small,
          All-append (λ q. q.lsn < n + 1) records r (All-imp (λ q h. omega arith) records above)
              (omega arith),
        );
      },
    )

-- A log that was reset is an empty log.
reset-IsLog : (wal : WriteAheadLog) → IsLog (reset wal) []
unfolding reset read_all read_records
reset-IsLog wal = record { read = refl; counter = (omega arith, tt) }
