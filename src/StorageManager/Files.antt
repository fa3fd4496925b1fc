-- ===== src/StorageManager/Files.antt =====
-- Saving to the files of a directory and loading from them.
use the_city_crdb.Common.{
  ◌≡◌, ◌≢◌, refl, true, Option, none, some, [], arith, Text, text_lt, ok, err, append-nil,
  publish_failed, remove_failed, ◌∙◌, ap, length, length-append, ◌++◌, codes, Error, Option-cases,
  inl, inr,
}
use the_city_crdb.Common.OrdMap
use the_city_crdb.Common.OrdMap.{
  IsSorted, is_same, remove-IsSorted, text_lt-StrictWeak, upsert-IsSorted,
}
use the_city_crdb.Database.{Database, find_table}
use the_city_crdb.Database.Catalogue.{IsValid}
use the_city_crdb.Database.Clone.{Copied}
use the_city_crdb.FileSystem.{Directory, FileSystem, Renames, Separates, Writes, written}
use the_city_crdb.StorageManager.{
  database_bytes, abandon, extension, load_bytes, load_database, path_for, publish, removed_or_not,
  save_database, temporary_path_for,
}
use the_city_crdb.StorageManager.Loaded.{IsStorable, load_bytes-Copied}

path_for-ne-temporary : (name : Text) → path_for name ≢ temporary_path_for name
path_for-ne-temporary name e = omega (
  arith,
  ap length e,
  length-append name extension,
  length-append name (extension ++ codes ".tmp"),
)

-- Where writing and renaming work, saving a database succeeds, and loading it by its name gives it
-- back, as under load_bytes-Copied.
pub load_database-save_database :
    (fs : FileSystem) (db : Database) (files : Directory)
    → Writes fs
    → Renames fs
    → IsValid db
    → db.name ≢ []
    → IsStorable db
    → (copy : Database) × ((save_database fs db (some files)).1 ≡ ok tt)
      × (load_database true db.name (some (save_database fs db (some files)).0) ≡ ok copy)
      × (copy.name ≡ db.name)
      × ((q : Text) → Copied (find_table q db) (find_table q copy))
unfolding save_database load_database publish
load_database-save_database fs db files writes renames valid named s =
    let (copy, loaded, same, copied) = load_bytes-Copied db [] valid named s in
    let bytes = database_bytes db in
    let loaded' : load_bytes true bytes ≡ ok (copy, []) = rw (append-nil bytes) at loaded in
    let temporary = temporary_path_for db.name in
    let (staged, wrote, there) = writes temporary bytes files in
    let (files', renamed, found) = renames temporary (path_for db.name) bytes staged there in
    (
      copy,
      rw (wrote, save_database) (rw (renamed, publish) refl),
      rw (wrote, save_database)
          (rw (renamed, publish) (rw (found, load_database) (rw loaded' refl))),
      same,
      copied,
    )

-- Where the temporary file is given up, saving throws and the snapshot is left as it is.
Abandons : FileSystem → Text → Text → Directory → Type 0
unfolding abandon
Abandons fs temporary target files =
    ((e : Error) × ((abandon fs temporary files).1 ≡ err e))
    × (OrdMap.find text_lt target (abandon fs temporary files).0 ≡ OrdMap.find text_lt target files)

abandon-Abandons :
    (fs : FileSystem) (temporary target : Text) (files : Directory)
    → Separates fs
    → IsSorted text_lt files
    → target ≢ temporary
    → Abandons fs temporary target files
unfolding abandon Abandons
abandon-Abandons fs temporary target files laws sorted other =
    elim (Option-cases (fs.remove temporary files)) [
      | inl kept ↦ rw (kept, abandon) ((remove_failed, refl), refl)
      | inr (left, gone) ↦
          rw (gone, abandon)
            (
              (publish_failed, refl),
              laws.removed_others temporary target files left sorted gone other,
            )
    ]

-- The old snapshot is there after all unless it was removed.
abbrev pub snapshot_left : Text → Option Directory → Option Text
snapshot_left old none = some old
snapshot_left old (some removed) = none

removed_or_not-snapshot_left :
    (fs : FileSystem) (target old : Text) (files : Directory) (removal : Option Directory)
    → Separates fs
    → IsSorted text_lt files
    → OrdMap.find text_lt target files ≡ some old
    → fs.remove target files ≡ removal
    → IsSorted text_lt (removed_or_not removal files)
      × (OrdMap.find text_lt target (removed_or_not removal files) ≡ snapshot_left old removal)
removed_or_not-snapshot_left fs target old files none laws sorted found e = (sorted, found)
removed_or_not-snapshot_left fs target old files (some left) laws sorted found e =
    laws.removed target files left sorted e

-- Where a snapshot was saved before and the new one is written beside it, but no renaming of it to its
-- place works, saving throws. The old snapshot is then gone if the attempt to remove it worked, and is
-- there, unchanged, if that failed too.
pub save_database-lost :
    (fs : FileSystem) (db : Database) (files staged : Directory) (old : Text)
    → Separates fs
    → IsSorted text_lt files
    → OrdMap.find text_lt (path_for db.name) files ≡ some old
    → fs.write (temporary_path_for db.name) (database_bytes db) files ≡ written staged
    → ((files' : Directory)
        → fs.rename (temporary_path_for db.name) (path_for db.name) files' ≡ none)
    → ((e : Error) × ((save_database fs db (some files)).1 ≡ err e))
      × (OrdMap.find text_lt (path_for db.name) (save_database fs db (some files)).0
          ≡ snapshot_left old (fs.remove (path_for db.name) staged))
unfolding save_database publish Abandons
save_database-lost fs db files staged old laws sorted found wrote fails =
    let target = path_for db.name in
    let temporary = temporary_path_for db.name in
    let other = path_for-ne-temporary db.name in
    let (s1, same) =
      laws.written_others temporary (database_bytes db) target files staged sorted wrote other in
    let removal = fs.remove target staged in
    let (s2, left) =
      removed_or_not-snapshot_left fs target old staged removal laws s1 (same ∙ found) refl in
    let cleared = removed_or_not removal staged in
    let (thrown, kept) = abandon-Abandons fs temporary target cleared laws s2 other in
    let e : save_database fs db (some files) ≡ abandon fs temporary cleared =
      rw (wrote, save_database) (rw (fails staged, publish) (rw (fails cleared) refl)) in
    rw e (thrown, kept ∙ left)
