-- ===== src/FileSystem.antt =====
-- The files of a directory, and what src/persistence/storage_manager.cpp asks of the file system:
-- writing a file through a std::ofstream, std::filesystem::rename and std::filesystem::remove. A file
-- is its bytes, and a directory its files by name.
use the_city_crdb.Common.{◌≡◌, ◌≢◌, Option, none, some, List, Text, text_lt}
use the_city_crdb.Common.OrdMap
use the_city_crdb.Common.OrdMap.{IsSorted}

abbrev pub Directory : Type 0
Directory = List (Text × Text)

-- What becomes of the writing of a file: it is not opened, a write fails and leaves some file behind,
-- or no failure is seen.
pub data Written : Type 0 where
  unopened : Written
  failed : Directory → Written
  written : Directory → Written

-- `rename` and `remove` are none where they fail.
pub record FileSystem : Type 0 where
  pub write : Text → Text → Directory → Written
  pub rename : Text → Text → Directory → Option Directory
  pub remove : Text → Directory → Option Directory

-- A file that is written is there, with its bytes.
abbrev pub Writes : FileSystem → Type 0
Writes fs =
    (name bytes : Text) (files : Directory)
    → (files' : Directory) × (fs.write name bytes files ≡ written files')
      × (OrdMap.find text_lt name files' ≡ some bytes)

-- A file that is renamed is found under its new name.
abbrev pub Renames : FileSystem → Type 0
Renames fs =
    (from to bytes : Text) (files : Directory)
    → OrdMap.find text_lt from files ≡ some bytes
    → (files' : Directory) × (fs.rename from to files ≡ some files')
      × (OrdMap.find text_lt to files' ≡ some bytes)

-- Where a file is written or removed, the other files are left as they are, and a file that is removed
-- is gone.
pub record Separates (fs : FileSystem) : Type 0 where
  pub written_others :
      (name bytes q : Text) (files files' : Directory)
      → IsSorted text_lt files
      → fs.write name bytes files ≡ written files'
      → q ≢ name
      → IsSorted text_lt files' × (OrdMap.find text_lt q files' ≡ OrdMap.find text_lt q files)
  pub removed :
      (name : Text) (files files' : Directory)
      → IsSorted text_lt files
      → fs.remove name files ≡ some files'
      → IsSorted text_lt files' × (OrdMap.find text_lt name files' ≡ none)
  pub removed_others :
      (name q : Text) (files files' : Directory)
      → IsSorted text_lt files
      → fs.remove name files ≡ some files'
      → q ≢ name
      → OrdMap.find text_lt q files' ≡ OrdMap.find text_lt q files
