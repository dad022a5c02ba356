-- ===== src/Files/Calls.antt =====
-- The calls of std::filesystem that read or change the table. `none` stands for a thrown
-- `filesystem_error`; a call that is given an `error_code` does not throw.
pub mod Directories
pub mod Making
pub mod Trees
pub mod Names
use sync_files.Base.{
  ℕ, ◌-◌, ◌^◌, Bool, true, false, not, ◌&&◌, ◌||◌, Option, none, some, List, [], ◌∷◌, ◌++◌, ite,
  Str, str_dec, length, ◌==◌, if◌then◌else◌,
}
use sync_files.Files.{
  Node, file, dir, Files, separator, clean, join, parent, lookup, put, unlink, strip_prefix,
  is_dir_node, is_directory, without,
}

-- `last_write_time(p, err)`
unfoldable pub last_write_time : Files → Str → ℕ
last_write_time fs p = elim (lookup fs p) [ some (file t bytes) ↦ t | _ ↦ 0 ]

-- `file_size(p)`
unfoldable pub file_size? : Files → Str → Option ℕ
file_size? fs p = elim (lookup fs p) [ some (file t bytes) ↦ some (length bytes) | _ ↦ none ]

-- `file_size(p, err)`, which is `uintmax_t(-1)` where there is no file.
unfoldable pub file_size : Files → Str → ℕ
unfolding file_size?
file_size fs p = elim (file_size? fs p) [ none ↦ 2 ^ 64 - 1 | some n ↦ n ]

-- A new file can be made at the path.
unfoldable pub writable : Files → Str → Bool
writable fs p =
    not (fs.refused p)
    && not (is_dir_node (lookup fs p))
    && (ite (str_dec (parent (clean p)) []) true (is_directory fs (parent (clean p))))

-- `copy_file(from, to, overwrite_existing)`
unfoldable pub copy_file : Files → Str → Str → Option Files
copy_file fs from to = elim (lookup fs from) [
  | some (file t bytes) ↦
      ite (str_dec (clean from) (clean to)) none
        (if writable fs to then some (put fs to (file (fs.copy_time t) bytes)) else none)
  | _ ↦ none
]

-- `rename(from, to)` of a regular file.
unfoldable pub rename : Files → Str → Str → Option Files
rename fs from to = elim (lookup fs from) [
  | some (file t bytes) ↦
      if not (fs.refused from) && writable fs to
      then some (put (unlink fs from) to (file t bytes))
      else none
  | _ ↦ none
]

-- What is left of a table's path below a directory, without the separator between them.
unfoldable pub below : Str → Str → Option Str
below d q = ite (str_dec (clean d) []) (some q) (strip_prefix (clean d ++ separator ∷ []) q)

has_below : Str → List (Str × Node) → Bool
has_below d [] = false
has_below d ((q, n) ∷ t) = elim (below d q) [ none ↦ has_below d t | some r ↦ true ]

-- `remove(p)`: nothing happens where there is nothing, and a directory must be empty.
unfoldable pub remove : Files → Str → Option Files
unfolding has_below
remove fs p = elim (lookup fs p) [
  | none ↦ some fs
  | some (file t bytes) ↦ if fs.refused p then none else some (unlink fs p)
  | some dir ↦ if fs.refused p || has_below p fs.nodes then none else some (unlink fs p)
]

drop_below : Str → List (Str × Node) → List (Str × Node)
drop_below d [] = []
drop_below d ((q, n) ∷ t) = elim (below d q) [
  | none ↦ (q, n) ∷ drop_below d t
  | some r ↦ drop_below d t
]

-- `remove_all(p)`
unfoldable pub remove_all : Files → Str → Option Files
unfolding drop_below without
remove_all fs p =
    if fs.refused p
    then none
    else some (record fs { nodes = drop_below p (without (clean p) fs.nodes) })

-- The directories on the way to a path, outermost first, given what has been read of it.
unfoldable pub ancestors : Str → Str → List Str
ancestors done [] = done ∷ []
ancestors done (x ∷ r) =
    let rest = ancestors (done ++ x ∷ []) r in if x == separator then done ∷ rest else rest

unfoldable pub create_each : Files → List Str → Files
create_each fs [] = fs
create_each fs ([] ∷ ps) = create_each fs ps
create_each fs ((x ∷ r) ∷ ps) = elim (lookup fs (x ∷ r)) [
  | some dir ↦ create_each fs ps
  | some (file t bytes) ↦ fs
  | none ↦ elim (fs.refused (x ∷ r)) [ true ↦ fs | false ↦ create_each (put fs (x ∷ r) dir) ps ]
]

-- `create_directories(p, err)`: the missing directories on the way, up to the first failure.
unfoldable pub create_directories : Files → Str → Files
unfolding ancestors create_each
create_directories fs p = create_each fs (ancestors [] (clean p))

-- A directory entry: its path, and whether it is a directory.
abbrev pub Entry : Type 0
Entry = Str × Bool

entries : Str → List (Str × Node) → List Entry
entries d [] = []
entries d ((q, n) ∷ t) = elim (below d q) [
  | none ↦ entries d t
  | some r ↦ (join d r, is_dir_node (some n)) ∷ entries d t
]

-- The entries up to the first directory that cannot be opened, where the iterator throws.
readable : (Str → Bool) → List Entry → List Entry
readable closed [] = []
readable closed ((p, d) ∷ es) = elim (d && closed p) [
  | true ↦ (p, d) ∷ []
  | false ↦ (p, d) ∷ readable closed es
]

-- `recursive_directory_iterator(d)`: its constructor throws where `d` is no readable directory.
unfoldable pub iterate : Files → Str → Option (List Entry)
unfolding entries readable
iterate fs d =
    if is_directory fs d && not (fs.unreadable d)
    then some (readable fs.unreadable (entries d fs.nodes))
    else none
