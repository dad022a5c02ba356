-- ===== src/Functions/Symlinks/Loss.antt =====
-- Where `ReconstitueSymlinks` of src/Functions.cpp takes a folder for a replacement that has none.
use sync_files.Base.{◌≡◌, true, false, ◌||◌, none, some, Str, contains}
use sync_files.Files.{Files, clean, lookup, is_directory, filename}
use sync_files.Files.Calls.{below}
use sync_files.Functions.Symlinks.{Disk, is_junction, Folder}

-- The disk after a failed replacement of a junction: an empty directory.
pub record Lost (left : Disk) (to : Str) : Type 0 where
  pub no_junction : is_junction left to ≡ false
  pub is_dir : is_directory left.files to ≡ true
  pub empty : (p r : Str) → below to (clean p) ≡ some r → lookup left.files p ≡ none

-- A folder that is not taken for a replacement of the junction.
abbrev pub IsPassed : Str → Str → Folder → Type 0
IsPassed name to (prefix, dirs) = (contains dirs name || contains dirs (filename to)) ≡ false
