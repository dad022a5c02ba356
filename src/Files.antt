-- ===== src/Files.antt =====
-- The part of std::filesystem that src/Functions.cpp and src/main.cpp call, over a table of nodes.
-- A path names the node of its cleaned spelling. Symbolic links are not modelled.
pub mod Calls
pub mod Laws
pub mod Spelling
use sync_files.Base.{
  ℕ, Bool, true, false, ◌&&◌, ◌||◌, Option, none, some, List, [], ◌∷◌, ◌++◌, ite, Str, str_dec,
  ◌==◌, if◌then◌else◌,
}

-- A regular file, with its last write time and its bytes, or a directory.
-- Time 0 stands for `file_time_type::min()`.
pub data Node : Type 0 where
  file : ℕ → Str → Node
  dir : Node

pub record Files : Type 0 where
  pub nodes : List (Str × Node)
  pub refused : Str → Bool  -- paths at which the system refuses a change
  pub unreadable : Str → Bool  -- directories that cannot be opened
  pub copy_time : ℕ → ℕ  -- the write time of a copy, from that of its source

-- `path::preferred_separator`
abbrev pub separator : ℕ
separator = b'/'

-- The spelling under which a node stands in the table: without doubled and trailing separators.
unfoldable pub clean : Str → Str
clean [] = []
clean (x ∷ []) = if x == separator then [] else x ∷ []
clean (x ∷ y ∷ r) =
    let rest = clean (y ∷ r) in if x == separator && y == separator then rest else x ∷ rest

unfoldable pub ends_with_separator : Str → Bool
ends_with_separator [] = false
ends_with_separator (x ∷ []) = x == separator
ends_with_separator (x ∷ y ∷ r) = ends_with_separator (y ∷ r)

-- `operator/` of std::filesystem::path, for a relative right side.
unfoldable pub join : Str → Str → Str
unfolding ends_with_separator
join d name = if ends_with_separator d then d ++ name else d ++ separator ∷ name

-- `path::filename`, with what was read since the last separator.
abbrev pub filename_from : Str → Str → Str
filename_from name [] = name
filename_from name (x ∷ r) =
    let cut = filename_from [] r in
    let rest = filename_from (name ++ x ∷ []) r in if x == separator then cut else rest

abbrev pub filename : Str → Str
filename p = filename_from [] p

has_separator : Str → Bool
has_separator [] = false
has_separator (x ∷ r) = x == separator || has_separator r

-- The directory that a cleaned path stands in.
unfoldable pub parent : Str → Str
unfolding has_separator
parent [] = []
parent (x ∷ r) = let rest = parent r in if has_separator r then x ∷ rest else []

unfoldable pub find : Str → List (Str × Node) → Option Node
find p [] = none
find p ((q, n) ∷ t) = ite (str_dec q p) (some n) (find p t)

-- The node that a path names.
unfoldable pub lookup : Files → Str → Option Node
unfolding find
lookup fs p = find (clean p) fs.nodes

unfoldable pub without : Str → List (Str × Node) → List (Str × Node)
without p [] = []
without p ((q, n) ∷ t) = ite (str_dec q p) (without p t) ((q, n) ∷ without p t)

unfoldable pub put : Files → Str → Node → Files
unfolding without
put fs p n = record fs { nodes = (clean p, n) ∷ without (clean p) fs.nodes }

unfoldable pub unlink : Files → Str → Files
unfolding without
unlink fs p = record fs { nodes = without (clean p) fs.nodes }

-- What is left of the second path below the first.
unfoldable pub strip_prefix : Str → Str → Option Str
strip_prefix [] s = some s
strip_prefix (x ∷ p) [] = none
strip_prefix (x ∷ p) (y ∷ s) = let rest = strip_prefix p s in if x == y then rest else none

abbrev pub exists_node : Option Node → Bool
exists_node none = false
exists_node (some n) = true

abbrev pub is_dir_node : Option Node → Bool
is_dir_node (some dir) = true
is_dir_node _ = false

-- An empty path names nothing; one that is cleaned to nothing names the root.
unfoldable pub exists : Files → Str → Bool
exists fs [] = false
exists fs (x ∷ r) = ite (str_dec (clean (x ∷ r)) []) true (exists_node (lookup fs (x ∷ r)))

unfoldable pub is_directory : Files → Str → Bool
is_directory fs [] = false
is_directory fs (x ∷ r) = ite (str_dec (clean (x ∷ r)) []) true (is_dir_node (lookup fs (x ∷ r)))
