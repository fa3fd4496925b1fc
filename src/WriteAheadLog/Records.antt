-- ===== src/WriteAheadLog/Records.antt =====
-- The records in the file of a log: what was appended is read back, behind what was there.
use the_city_crdb.Bytes.{le_bytes}
use the_city_crdb.Bytes.Reading.{
  Fits, Reader, pure, read_bytes, read_bytes-append, read_pod, read_pod-le_bytes, throw, ◌>>=◌,
}
use the_city_crdb.Common.{
  ℕ, zero, suc, ◌≤◌, ◌<◌, ◌≡◌, ◌∙◌, refl, ap, Bool, true, false, ◌&&◌, List, [], ◌∷◌, ◌++◌, arith,
  Text, ◌==◌, if◌then◌else◌, length, Result, ok, Error, append_assoc, append-nil, wal_read,
  wal_header, wal_payload, >>=-eq-ok,
}
use the_city_crdb.Common.{◌>>=◌ as then_on}
use the_city_crdb.WriteAheadLog.{
  WalRecord, read_record, read_records, record_bytes, wal_magic, wal_version,
}

-- Bytes behind those that a reader takes do not change what it reads.
abbrev pub Stable {ℓ} : {A : Type ℓ} → Reader A → Type ℓ
Stable {A} p =
    (text more : Text) (a : A) (rest : Text)
    → p text ≡ ok (a, rest)
    → (p (text ++ more) ≡ ok (a, rest ++ more)) × (length rest ≤ length text)

read_bytes-Stable : (e : Error) (n : ℕ) → Stable (read_bytes e n)
unfolding read_bytes
read_bytes-Stable e zero text more a rest h = ground arith
read_bytes-Stable e (suc n) [] more a rest h = cc
read_bytes-Stable e (suc n) (b ∷ text) more a rest h =
    let (r, e1, e2) = >>=-eq-ok (read_bytes e n text) _ h in
    let ih = read_bytes-Stable e n text more r.0 r.1 (e1 ∙ refl) in
    let ea : b ∷ r.0 ≡ a = ground (arith, e2) in
    let er : r.1 ≡ rest = ground (arith, e2) in
    (rw (ih.0, ← ea, ← er) refl, omega (arith, ih.1, ap length er))

bind-Stable {ℓ κ} :
    {A : Type ℓ} {B : Type κ} (p : Reader A) (f : A → Reader B)
    → Stable p
    → ((a : A) → Stable (f a))
    → Stable (p >>= f)
bind-Stable p f sp sf text more b rest h =
    let (r, e1, e2) = >>=-eq-ok (p text) _ h in
    let first = sp text more r.0 r.1 (e1 ∙ refl) in
    let second = sf r.0 r.1 more b rest e2 in
    (rw first.0 second.0, omega (arith, first.1, second.1))

pure-Stable {ℓ} : {A : Type ℓ} (a : A) → Stable (pure a)
pure-Stable a text more b rest h = ground (arith, h)

throw-Stable {ℓ} : {A : Type ℓ} (e : Error) → Stable {A = A} (throw e)
throw-Stable e text more b rest h = cc

if-Stable {ℓ} :
    {A : Type ℓ} (b : Bool) (p q : Reader A) → Stable p → Stable q → Stable (if b then p else q)
if-Stable true p q sp sq = sp
if-Stable false p q sp sq = sq

read_pod-Stable : (e : Error) (width : ℕ) → Stable (read_pod e width)
unfolding read_pod
read_pod-Stable e width =
    bind-Stable (read_bytes e width) _ (read_bytes-Stable e width) λ bytes. pure-Stable _

pub read_record-Stable : Stable read_record
unfolding read_record
read_record-Stable = bind-Stable (read_pod wal_read 4) _ (read_pod-Stable wal_read 4) λ magic.
    bind-Stable (read_pod wal_read 4) _ (read_pod-Stable wal_read 4) λ version.
      if-Stable (magic == wal_magic && version == wal_version) _ _
        (bind-Stable (read_pod wal_read 8) _ (read_pod-Stable wal_read 8) λ lsn.
          bind-Stable (read_pod wal_read 1) _ (read_pod-Stable wal_read 1) λ operation.
            bind-Stable (read_pod wal_read 8) _ (read_pod-Stable wal_read 8) λ size.
              bind-Stable (read_bytes wal_payload size) _ (read_bytes-Stable wal_payload size)
                λ payload. pure-Stable _)
        (throw-Stable wal_header)

-- The parts of a record that is written have a representation in the bytes that they take.
pub record IsEncodable (r : WalRecord) : Type 0 where
  pub lsn_fits : Fits 8 r.lsn
  pub operation_fits : Fits 1 r.operation
  pub size_fits : Fits 8 (length r.payload)

record_bytes-split :
    (r : WalRecord) (rest : Text)
    → record_bytes r ++ rest
      ≡ le_bytes 4 wal_magic
        ++ (le_bytes 4 wal_version
            ++ (le_bytes 8 r.lsn
                ++ (le_bytes 1 r.operation
                    ++ (le_bytes 8 (length r.payload) ++ (r.payload ++ rest)))))
record_bytes-split r rest = unfold record_bytes in simp append_assoc

pub read_record-record_bytes :
    (r : WalRecord) (rest : Text)
    → IsEncodable r
    → read_record (record_bytes r ++ rest) ≡ ok (r, rest)
unfolding read_record
read_record-record_bytes r rest h =
    let t1 = r.payload ++ rest in
    let t2 = le_bytes 8 (length r.payload) ++ t1 in
    let t3 = le_bytes 1 r.operation ++ t2 in
    let t4 = le_bytes 8 r.lsn ++ t3 in
    let t5 = le_bytes 4 wal_version ++ t4 in
    rw
      (
        record_bytes-split r rest,
        read_pod-le_bytes wal_read 4 wal_magic t5 refl,
        read_pod-le_bytes wal_read 4 wal_version t4 refl,
        read_pod-le_bytes wal_read 8 r.lsn t3 h.lsn_fits,
        read_pod-le_bytes wal_read 1 r.operation t2 h.operation_fits,
        read_pod-le_bytes wal_read 8 (length r.payload) t1 h.size_fits,
        read_bytes-append wal_payload r.payload rest,
      )
      refl

read_records-nil : (fuel : ℕ) → read_records fuel [] ≡ ok []
unfolding read_records
read_records-nil zero = refl
read_records-nil (suc fuel) = refl

pub read_records-step :
    (fuel : ℕ) (text : Text)
    → 0 < length text
    → read_records (suc fuel) text
      ≡ then_on (read_record text) λ r. then_on (read_records fuel r.1) λ more. ok (r.0 ∷ more)
unfolding read_records
read_records-step fuel [] h = elim h [ ]
read_records-step fuel (b ∷ text) h = refl

pub record_bytes-pos : (r : WalRecord) (rest : Text) → 0 < length (record_bytes r ++ rest)
unfolding record_bytes le_bytes
record_bytes-pos r rest = omega arith

-- A record behind those that are read is read after them, with a round more.
pub read_records-append :
    (f g : ℕ) (text : Text) (records : List WalRecord) (r : WalRecord)
    → IsEncodable r
    → f < g
    → read_records f text ≡ ok records
    → read_records g (text ++ record_bytes r) ≡ ok (records ++ r ∷ [])
read_records-append f zero text records r enc lt h = absurd (omega arith)
read_records-append f (suc g) [] records r enc lt h =
    let e : ◌≡◌ {A = Result (List WalRecord)} (ok []) (ok records) = rw (read_records-nil f) at h in
    let none_left : [] ≡ records = ground (arith, e) in
    let one : read_record (record_bytes r) ≡ ok (r, []) =
      rw (append-nil (record_bytes r)) at (read_record-record_bytes r [] enc) in
    let pos : 0 < length (record_bytes r) =
      rw (append-nil (record_bytes r)) at (record_bytes-pos r []) in
    rw (← none_left, read_records-step g (record_bytes r) pos, one, read_records-nil g) refl
read_records-append zero (suc g) (b ∷ text) records r enc lt h = unfold read_records in cc
read_records-append (suc f) (suc g) (b ∷ text) records r enc lt h =
    let h' = rw (read_records-step f (b ∷ text) (omega arith)) at h in
    let (q, e1, e2) = >>=-eq-ok (read_record (b ∷ text)) _ h' in
    let (more, e3, e4) = >>=-eq-ok (read_records f q.1) _ e2 in
    let first = read_record-Stable (b ∷ text) (record_bytes r) q.0 q.1 e1 in
    let ih = read_records-append f g q.1 more r enc (omega arith) e3 in
    let same : q.0 ∷ more ≡ records = ground (arith, e4) in
    rw (read_records-step g ((b ∷ text) ++ record_bytes r) (omega arith), first.0, ih, ← same) refl
