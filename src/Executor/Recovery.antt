-- ===== src/Executor/Recovery.antt =====
-- Which records of the log recovery replays.
use the_city_crdb.Common.{
  ℕ, suc, ◌+◌, ◌≡◌, ◌∙◌, refl, ap, true, false, List, [], ◌∷◌, ◌++◌, arith, ok, ◌==◌, if◌then◌else◌,
  length,
}
use the_city_crdb.Common.OrdMap.{All}
use the_city_crdb.Executor.{QueryExecutor}
use the_city_crdb.Executor.Calls.{System}
use the_city_crdb.Executor.Execute.{drop, recover_from_wal, replay, replay_start, replayed}
use the_city_crdb.WriteAheadLog
use the_city_crdb.WriteAheadLog.{WalRecord, operation_byte, read_all}

-- A record that is no SaveDatabase.
abbrev pub IsChange : WalRecord → Type 0
IsChange r = (r.operation == operation_byte WriteAheadLog.save_database) ≡ false

replay_start-changes :
    (i start : ℕ) (records : List WalRecord)
    → All IsChange records
    → replay_start i start records ≡ start
unfolding replay_start
replay_start-changes i start [] changes = refl
replay_start-changes i start (r ∷ records) changes =
    rw changes.0 (replay_start-changes (suc i) start records changes.1)

replay_start-saved :
    (i start : ℕ) (before : List WalRecord) (saved : WalRecord) (later : List WalRecord)
    → (saved.operation == operation_byte WriteAheadLog.save_database) ≡ true
    → All IsChange later
    → replay_start i start (before ++ saved ∷ later) ≡ suc (i + length before)
unfolding replay_start
replay_start-saved i start [] saved later is_save changes =
    rw (is_save, replay_start) (replay_start-changes (suc i) (suc i) later changes ∙ omega arith)
replay_start-saved i start (r ∷ before) saved later is_save changes =
    replay_start-saved (suc i)
      (if r.operation == operation_byte WriteAheadLog.save_database then suc i else start) before
      saved later is_save changes
    ∙ omega arith

drop-append :
    (before : List WalRecord) (saved : WalRecord) (later : List WalRecord)
    → drop (suc (length before)) (before ++ saved ∷ later) ≡ later
drop-append [] saved later = refl
drop-append (r ∷ before) saved later = drop-append before saved later

-- Where a saved database was loaded and the log holds a SaveDatabase record, recovery replays the
-- records after the last one of these, and none before it.
pub recover_from_wal-replay :
    (system : System) (before : List WalRecord) (saved : WalRecord) (later : List WalRecord)
    (e : QueryExecutor)
    → read_all e.wal ≡ ok (before ++ saved ∷ later)
    → (saved.operation == operation_byte WriteAheadLog.save_database) ≡ true
    → All IsChange later
    → recover_from_wal system true e
      ≡ replayed system (replay system later (record e { replaying_wal = true }))
unfolding recover_from_wal
recover_from_wal-replay system [] saved later e read is_save changes =
    rw (read, recover_from_wal, replay_start-saved 0 0 [] saved later is_save changes) refl
recover_from_wal-replay system (r ∷ before) saved later e read is_save changes =
    let start : replay_start 0 0 (r ∷ before ++ saved ∷ later) ≡ suc (length (r ∷ before)) =
      replay_start-saved 0 0 (r ∷ before) saved later is_save changes ∙ omega arith in
    rw (read, recover_from_wal, start)
      (ap (λ rest. replayed system (replay system rest (record e { replaying_wal = true })))
        (drop-append (r ∷ before) saved later))
