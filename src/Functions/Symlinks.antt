-- ===== src/Functions/Symlinks.antt =====
-- `ReconstitueSymlinks` of src/Functions.cpp, over a file system with junctions. What is seen
-- through a junction stands below it in the table. The function is followed as long as what it
-- replaces is seen at one path only; where a second path shows it, the run is `aliased` and is not
-- followed any further. A directory stands in the table before what is in it.
pub mod Copying
pub mod Lone
pub mod Frame
pub mod Copied
pub mod Loss
use sync_files.Base.{
  Bool, true, false, ◌||◌, Option, none, some, List, [], ◌∷◌, ◌++◌, Str, contains, str_dec, ite,
  if◌then◌else◌,
}
use sync_files.Base.Partial.{◌>>=◌}
use sync_files.Files.{Node, file, dir, Files, clean, join, lookup, exists, is_directory, filename}
use sync_files.Files.Calls.{Entry, below, copy_file, remove_all, create_directories}
use sync_files.Files.Calls.Names.{names}
use sync_files.Functions.Listing.{prefix_of, get_files_relative}

-- The files, the cleaned paths that are junctions, and the cleaned path that a junction leads to.
pub record Disk : Type 0 where
  pub files : Files
  pub junctions : List Str
  pub target : Str → Str

abbrev pub is_junction : Disk → Str → Bool
is_junction d p = contains d.junctions (clean p)

-- How the function ends, and the disk as it leaves it.
pub data Ending : Type 0 where
  finished : Disk → Ending
  thrown : Disk → Ending  -- a `filesystem_error`, which nothing catches
  undefined : Ending
  aliased : Ending  -- a replacement that would show at a second path as well

-- The junctions that are neither the path nor below it.
unfoldable pub outside : Str → List Str → List Str
outside p [] = []
outside p (q ∷ qs) =
    let rest = outside p qs in
    ite (str_dec (clean p) q) rest (elim (below p q) [ none ↦ q ∷ rest | some r ↦ rest ])

abbrev pub is_below : Str → Str → Bool
is_below d q = elim (below d q) [ none ↦ false | some r ↦ true ]

-- Does the junction `q` show the path, or what is in it, a second time? It leads to the path, to a
-- directory above it, or into it; or the path is itself seen through the junction.
abbrev pub shows : (Str → Str) → Str → Str → Bool
shows target p q =
    is_below q (clean p)
    || is_below (target q) (clean p)
    || is_below p (target q)
    || ite (str_dec (target q) (clean p)) true false

abbrev pub any_shows : (Str → Str) → Str → List Str → Bool
any_shows target p [] = false
any_shows target p (q ∷ qs) = shows target p q || any_shows target p qs

-- Does a junction that stays when the one at the path is removed show the path a second time?
unfoldable pub doubled : Disk → Str → Bool
unfolding outside
doubled d p = any_shows d.target p (outside p d.junctions)

-- `remove` of a junction: the junction goes, and what was seen through it.
unfoldable pub remove_junction : Disk → Str → Option Disk
unfolding outside
remove_junction d p = elim (remove_all d.files p) [
  | none ↦ none
  | some fs ↦ some (record d { files = fs; junctions = outside p d.junctions })
]

-- `copy_file` without an option: the target must not exist.
unfoldable pub copy_new : Files → Str → Str → Option Files
copy_new fs from to = if exists fs to then none else copy_file fs from to

-- What `copy` does with the entries below a directory. The result tells whether it ended without an
-- exception.
unfoldable pub copy_entries : Files → Str → Str → List Entry → Bool × Files
copy_entries fs from to [] = (true, fs)
copy_entries fs from to ((r, true) ∷ es) =
    let made = create_directories fs (join to r) in
    elim (fs.unreadable (join from r)) [
      | true ↦ (false, made)
      | false ↦ elim (is_directory made (join to r)) [
        | true ↦ copy_entries made from to es
        | false ↦ (false, made)
      ]
    ]
copy_entries fs from to ((r, false) ∷ es) = elim (copy_new fs (join from r) (join to r)) [
  | none ↦ (false, fs)
  | some fs' ↦ copy_entries fs' from to es
]

abbrev pub copied_file : Files → Option Files → Bool × Files
copied_file fs none = (false, fs)
copied_file fs (some fs') = (true, fs')

-- `copy` with the option `recursive`, to a directory.
unfoldable pub copy_recursive : Files → Str → Str → Bool × Files
unfolding copy_entries copy_new
copy_recursive fs from to = elim (lookup fs from) [
  | none ↦ (false, fs)
  | some (file t bytes) ↦ copied_file fs (copy_new fs from (join to (filename from)))
  | some dir ↦ elim (fs.unreadable from) [
    | true ↦ (false, fs)
    | false ↦ copy_entries fs from to (names fs from)
  ]
]

-- The end of a copy, on the disk that it started with.
abbrev pub ending_of : Disk → Bool × Files → Ending
ending_of d (true, fs) = finished (record d { files = fs })
ending_of d (false, fs) = thrown (record d { files = fs })

-- A junction is removed, a directory is made, and the replacement is copied there.
unfoldable pub replace : Disk → Str → Str → Ending
unfolding remove_junction copy_recursive
replace d from to = elim (remove_junction d to) [
  | none ↦ thrown d
  | some e ↦
      let made = create_directories e.files to in
      elim (is_directory made to) [
        | true ↦ ending_of e (copy_recursive made from to)
        | false ↦ thrown (record e { files = made })
      ]
]

-- A listed folder: its prefix, and the relative paths of its directories.
abbrev pub Folder : Type 0
Folder = Str × List Str

-- The search in the other folders, in their order; without a replacement the junction stays.
unfoldable pub search_folders : Disk → Str → Str → List Folder → Ending
unfolding replace doubled
search_folders d first name [] = finished d
search_folders d first name ((prefix, dirs) ∷ folders) =
    elim (contains dirs name || contains dirs (filename (first ++ name))) [
      | true ↦ elim (doubled d (first ++ name)) [
        | true ↦ aliased
        | false ↦ replace d (prefix ++ name) (first ++ name)
      ]
      | false ↦ search_folders d first name folders
    ]

-- The loop over the directories of the first folder.
unfoldable pub replace_each : Disk → Str → List Str → List Folder → Ending
unfolding search_folders
replace_each d first [] folders = finished d
replace_each d first (name ∷ names) folders = elim (is_junction d (first ++ name)) [
  | false ↦ replace_each d first names folders
  | true ↦ elim (search_folders d first name folders) [
    | finished e ↦ replace_each e first names folders
    | thrown e ↦ thrown e
    | undefined ↦ undefined
    | aliased ↦ aliased
  ]
]

-- The listings of the folders, in their order; the files are not used.
unfoldable pub list_folders : Files → List Str → Option (List Folder)
list_folders fs [] = some []
list_folders fs (path ∷ paths) = do
  (files, dirs) ← get_files_relative fs path [] []
  rest ← list_folders fs paths
  some ((prefix_of path, dirs) ∷ rest)

-- The loop reads the listing of the first folder, whether there is one or not.
abbrev pub with_folders : Disk → Option (List Folder) → Ending
with_folders d none = thrown d
with_folders d (some []) = undefined
with_folders d (some ((first, dirs) ∷ folders)) = replace_each d first dirs folders

unfoldable pub reconstitute_symlinks : Disk → List Str → Ending
unfolding replace_each list_folders
reconstitute_symlinks d folders = with_folders d (list_folders d.files folders)
