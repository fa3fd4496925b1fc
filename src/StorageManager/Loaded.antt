-- ===== src/StorageManager/Loaded.antt =====
-- Loading what was saved.
use the_city_crdb.Bytes.{le_bytes}
use the_city_crdb.Bytes.Reading.{read_bytes-append, read_pod-le_bytes}
use the_city_crdb.Common.{
  ◌≡◌, ◌≢◌, refl, true, [], ◌++◌, Text, length, ok, append_assoc, >>=-eq-ok, ◌>>=◌, text_eq_iff,
  file_read,
}
use the_city_crdb.Common.OrdMap.{All}
use the_city_crdb.Database.{Database, clone, clone_tables, find_table, new_database}
use the_city_crdb.Database.Catalogue.{IsValid}
use the_city_crdb.Database.Clone.{Copied, clone-Copied}
use the_city_crdb.StorageManager.{
  database_bytes, entry_bytes, load_bytes, magic, version, write_each, write_string,
}
use the_city_crdb.StorageManager.Tables.{EntryIsStorable, load_tables-clone_tables}
use the_city_crdb.StorageManager.Values.{HasSize, read_string-ReadsBack}

-- Sizes that fit into eight bytes, values that can be stored, and rows as wide as their schema.
pub record IsStorable (db : Database) : Type 0 where
  pub name : HasSize db.name
  pub count : HasSize db.tables
  pub tables : All EntryIsStorable db.tables

database_bytes-split :
    (db : Database) (rest : Text)
    → database_bytes db ++ rest
      ≡ magic
        ++ (le_bytes 4 version
            ++ (write_string db.name
                ++ (le_bytes 8 (length db.tables) ++ (write_each entry_bytes db.tables ++ rest))))
unfolding database_bytes
database_bytes-split db rest = simp append_assoc

load_bytes-clone :
    (db copy : Database) (rest : Text)
    → IsStorable db
    → clone db ≡ ok copy
    → load_bytes true (database_bytes db ++ rest) ≡ ok (copy, rest)
unfolding load_bytes
load_bytes-clone db copy rest s cloned =
    let c : (new_database db.name >>= λ start. clone_tables db.tables start) ≡ ok copy =
      unfold clone in cloned in
    let (start, e1, e2) = >>=-eq-ok (new_database db.name) _ c in
    let t1 = write_each entry_bytes db.tables ++ rest in
    let t2 = le_bytes 8 (length db.tables) ++ t1 in
    let t3 = write_string db.name ++ t2 in
    let t4 = le_bytes 4 version ++ t3 in
    rw
      (
        database_bytes-split db rest,
        read_bytes-append file_read magic t4,
        (text_eq_iff magic magic).1 refl,
        read_pod-le_bytes file_read 4 version t3 refl,
        read_string-ReadsBack db.name t2 s.name,
        e1,
        read_pod-le_bytes file_read 8 (length db.tables) t1 s.count,
        load_tables-clone_tables db.tables start copy rest s.tables e2,
      )
      refl

-- A database that was saved is loaded again, whatever follows its bytes: under its name, and with a
-- table under each name where it has one, which is valid and has the same rows and schema. The
-- database is valid and has a name; its sizes fit into eight bytes, its integers are int64 and its
-- rows are as wide as their schemas; the arguments of the call that reads an index are evaluated
-- from the left.
pub load_bytes-Copied :
    (db : Database) (rest : Text)
    → IsValid db
    → db.name ≢ []
    → IsStorable db
    → (copy : Database) × (load_bytes true (database_bytes db ++ rest) ≡ ok (copy, rest))
      × (copy.name ≡ db.name)
      × ((q : Text) → Copied (find_table q db) (find_table q copy))
load_bytes-Copied db rest valid named s =
    let (copy, cloned, same, copied) = clone-Copied db valid named in
    (copy, load_bytes-clone db copy rest s cloned, same, copied)
