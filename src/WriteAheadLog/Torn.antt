-- ===== src/WriteAheadLog/Torn.antt =====
-- A log whose last record was written in part.
use the_city_crdb.Common.{
  ℕ, zero, suc, ◌<◌, ◌≡◌, ◌∙◌, refl, ap, sym, Option, some, List, [], ◌∷◌, ◌++◌, arith, Text,
  length, Result, ok, err, Error, append-nil, length-append, >>=-eq-ok,
}
use the_city_crdb.WriteAheadLog.{WalRecord, read_all, read_record, read_records, record_bytes}
use the_city_crdb.WriteAheadLog.Records.{
  IsEncodable, read_record-Stable, read_record-record_bytes, read_records-step,
}

-- A record that is not whole is not read.
read_record-torn :
    (r : WalRecord) (torn lost : Text)
    → IsEncodable r
    → torn ++ lost ≡ record_bytes r
    → 0 < length lost
    → (e : Error) × (read_record torn ≡ err e)
read_record-torn r torn lost enc whole more = refuted (read_record torn) refl
  where
    refuted :
        (x : Result (WalRecord × Text))
        → read_record torn ≡ x
        → (e : Error) × (read_record torn ≡ err e)
    refuted (err e) h = (e, h)
    refuted (ok q) h =
        let stable = read_record-Stable torn lost q.0 q.1 h in
        let all : read_record (record_bytes r) ≡ ok (r, []) =
          rw (append-nil (record_bytes r)) at (read_record-record_bytes r [] enc) in
        let both : ok (q.0, q.1 ++ lost) ≡ read_record (torn ++ lost) = sym stable.0 in
        let same : ◌≡◌ {A = Result (WalRecord × Text)} (ok (q.0, q.1 ++ lost)) (ok (r, [])) =
          both ∙ rw whole all in
        let empty : q.1 ++ lost ≡ [] = ground (arith, same) in
        absurd (omega (arith, ap length empty, length-append q.1 lost))

read_records-torn :
    (f g : ℕ) (text : Text) (records : List WalRecord) (r : WalRecord) (torn lost : Text)
    → IsEncodable r
    → torn ++ lost ≡ record_bytes r
    → 0 < length torn
    → 0 < length lost
    → f < g
    → read_records f text ≡ ok records
    → (e : Error) × (read_records g (text ++ torn) ≡ err e)
read_records-torn f zero text records r torn lost enc whole some_bytes more lt h =
    absurd (omega arith)
read_records-torn f (suc g) [] records r torn lost enc whole some_bytes more lt h =
    let (e, thrown) = read_record-torn r torn lost enc whole more in
    (e, rw (read_records-step g torn some_bytes, thrown) refl)
read_records-torn zero (suc g) (b ∷ text) records r torn lost enc whole some_bytes more lt h =
    unfold read_records in cc
read_records-torn (suc f) (suc g) (b ∷ text) records r torn lost enc whole some_bytes more lt h =
    let h' = rw (read_records-step f (b ∷ text) (omega arith)) at h in
    let (q, e1, e2) = >>=-eq-ok (read_record (b ∷ text)) _ h' in
    let (rs, e3, e4) = >>=-eq-ok (read_records f q.1) _ e2 in
    let first = read_record-Stable (b ∷ text) torn q.0 q.1 e1 in
    let (e, ih) =
      read_records-torn f g q.1 rs r torn lost enc whole some_bytes more (omega arith) e3 in
    (e, rw (read_records-step g ((b ∷ text) ++ torn) (omega arith), first.0, ih) refl)

-- Where the last record of the file was cut off, with some of its bytes written and some lost, the
-- whole log cannot be read: the whole records before it are not returned.
pub read_all-torn :
    (text torn lost : Text) (counter : Option ℕ) (records : List WalRecord) (r : WalRecord)
    → IsEncodable r
    → read_all (record { file = some text; next_lsn = counter }) ≡ ok records
    → torn ++ lost ≡ record_bytes r
    → 0 < length torn
    → 0 < length lost
    → (e : Error) × (read_all (record { file = some (text ++ torn); next_lsn = counter }) ≡ err e)
unfolding read_all
read_all-torn text torn lost counter records r enc read whole some_bytes more =
    read_records-torn (length text) (length (text ++ torn)) text records r torn lost enc whole
      some_bytes more (omega (arith, length-append text torn)) read
