-- ===== src/Program.antt =====
-- `main` of src/main.cpp: the options, the named files and folders, and what is run with them. What
-- it prints is left out.
pub mod Patterns
pub mod Flags
pub mod Narrow
pub mod Sizes
pub mod Search
pub mod Removal
pub mod Modes
use sync_files.Base.{
  ℤ, pos, negsuc, ℕ, zero, suc, ◌+◌, ◌-◌, ◌*◌, ◌^◌, Bool, true, false, not, ◌&&◌, ◌||◌, Option,
  none, some, List, [], ◌∷◌, ◌++◌, map, Str, codes, str_dec, ite, ltb, leb, ◌==◌, drop,
  if◌then◌else◌, length,
}
use sync_files.Base.Partial.{◌>>=◌}
use sync_files.Files.{Files, exists, is_directory}
use sync_files.Files.Calls.{remove, remove_all}
use sync_files.Functions.Copy.{Settings}

abbrev pub is_prefix : Str → Str → Bool
is_prefix [] s = true
is_prefix (x ∷ p) [] = false
is_prefix (x ∷ p) (y ∷ s) = let rest = is_prefix p s in if x == y then rest else false

-- `std::string::find`; `none` is `npos`.
abbrev pub find : Str → Str → Option ℕ
find [] p = if is_prefix p [] then some 0 else none
find (x ∷ s) p =
    let rest = find s p in
    if is_prefix p (x ∷ s) then some 0 else (elim rest [ none ↦ none | some i ↦ some (suc i) ])

abbrev pub is_found : Option ℕ → Bool
is_found none = false
is_found (some i) = true

-- `option.find(p) != npos`
unfoldable pub has : Str → Str → Bool
has s p = is_found (find s p)

-- `std::isspace` and the digits of the C locale.
abbrev pub is_space : ℕ → Bool
is_space c = (c == 32) || (leb 9 c && leb c 13)

abbrev pub is_digit : ℕ → Bool
is_digit c = leb 48 c && leb c 57

abbrev pub skip_spaces : Str → Str
skip_spaces [] = []
skip_spaces (c ∷ s) = let rest = skip_spaces s in if is_space c then rest else c ∷ s

-- The digits at the front, added to what was read.
abbrev pub read_digits : ℕ → Str → ℕ
read_digits n [] = n
read_digits n (c ∷ s) =
    let rest = read_digits (n * 10 + (c - 48)) s in if is_digit c then rest else n

abbrev pub digits : Str → Option ℕ
digits [] = none
digits (c ∷ s) = if is_digit c then some (read_digits 0 (c ∷ s)) else none

abbrev pub negated : ℕ → ℤ
negated zero = pos 0
negated (suc n) = negsuc n

abbrev pub signed : Str → Option ℤ
signed [] = none
signed (c ∷ s) =
    if c == 45
    then (do n ← digits s; if leb n (2 ^ 31) then some (negated n) else none)
    else do n ← digits (if c == 43 then s else c ∷ s); if ltb n (2 ^ 31) then some (pos n) else none

-- `std::stoi`; `none` is a thrown `invalid_argument` or `out_of_range`.
abbrev pub stoi : Str → Option ℤ
stoi s = signed (skip_spaces s)

pub record Options : Type 0 where
  pub deletewithoutmatch : Bool
  pub overwriteexisting : Bool
  pub move : Bool
  pub remove : Bool
  pub force : Bool
  pub processors : ℤ
  pub debug : Bool
  pub search : Bool
  pub reconstitutesymlinks : Bool
  pub sinodes : List Str

abbrev pub defaults : Options
defaults = record {
  deletewithoutmatch = false;
  overwriteexisting = false;
  move = false;
  remove = false;
  force = false;
  processors = pos 1;
  debug = false;
  search = false;
  reconstitutesymlinks = false;
  sinodes = [];
}

abbrev pub set_processors : Options → Option ℤ → Options
set_processors o none = o
set_processors o (some n) = record o { processors = n }

-- The last tests of the chain: `-p`, and an argument that is no option.
abbrev pub take_number : Options → Str → Option ℕ → Options
take_number o option none = record o { sinodes = o.sinodes ++ option ∷ [] }
take_number o option (some at) = set_processors o (stoi (drop (at + 2) option))

-- One argument.
unfoldable pub take_option : Options → Str → Options
take_option o option =
    if has option (codes "--debug")
    then record o { debug = true }
    else if has option (codes "-reconstitutesymlinks")
    then record o { reconstitutesymlinks = true }
    else if has option (codes "-rm")
    then record o { remove = true }
    else if has option (codes "-d")
    then record o { deletewithoutmatch = true }
    else if has option (codes "-s")
    then record o { search = true }
    else if has option (codes "-f")
    then record o { force = true }
    else if has option (codes "-o")
    then record o { overwriteexisting = true }
    else if has option (codes "-m")
    then record o { move = true }
    else take_number o option (find option (codes "-p"))

unfoldable pub take_options : Options → List Str → Options
unfolding take_option
take_options o [] = o
take_options o (arg ∷ args) = take_options (take_option o arg) args

-- `-f` also overwrites.
abbrev pub forced : Options → Options
forced o = if o.force then record o { overwriteexisting = true } else o

unfoldable pub parse : List Str → Options
unfolding take_options
parse args = forced (take_options defaults args)

-- The named files and the named folders; a path that does not exist is only reported.
abbrev pub add_path : Bool → Bool → Str → List Str × List Str → List Str × List Str
add_path false d path (files, dirs) = (files, dirs)
add_path true true path (files, dirs) = (files, path ∷ dirs)
add_path true false path (files, dirs) = (path ∷ files, dirs)

unfoldable pub sort_paths : Files → List Str → List Str × List Str
sort_paths fs [] = ([], [])
sort_paths fs (path ∷ paths) =
    let rest = sort_paths fs paths in add_path (exists fs path) (is_directory fs path) path rest

-- `remove_all` of each folder; an exception ends the deletion.
unfoldable pub delete_dirs : Files → List Str → Files
delete_dirs fs [] = fs
delete_dirs fs (path ∷ paths) = elim (remove_all fs path) [
  | none ↦ fs
  | some fs' ↦ delete_dirs fs' paths
]

-- `remove` of each file, and then the folders.
unfoldable pub delete_files : Files → List Str → List Str → Files
unfolding delete_dirs
delete_files fs [] dirs = delete_dirs fs dirs
delete_files fs (path ∷ paths) dirs = elim (remove fs path) [
  | none ↦ fs
  | some fs' ↦ delete_files fs' paths dirs
]

-- `ToLower`, with `std::tolower` of the C locale.
abbrev pub to_lower : Str → Str
to_lower [] = []
to_lower (c ∷ s) = (if leb 65 c && leb c 90 then c + 32 else c) ∷ to_lower s

-- What the run of the program comes to; `search_for` and `relink` stand for the calls of `Search`
-- and `ReconstitueSymlinks`.
pub data Action : Type 0 where
  usage : Action
  input_missing : Action
  search_for : Str → Str → Action
  aborted : Action
  deleted : Files → Action
  relink : List Str → Action
  copy : Settings → Str → Str → Action

abbrev pub count_of : ℤ → ℕ
count_of (pos n) = n
count_of (negsuc n) = 0

-- The arguments of `Copy`; its loops over the processors do nothing for a negative number.
abbrev pub settings_of : Options → Settings
settings_of o = record {
  delete_without_match = o.deletewithoutmatch;
  overwrite_existing = o.overwriteexisting;
  force = o.force;
  move = o.move;
  processors = count_of o.processors;
}

-- The answer to the question before the deletion.
unfoldable pub confirm : Files → Str → List Str × List Str → Action
unfolding delete_files
confirm fs answer (files, dirs) =
    ite (str_dec (to_lower answer) (codes "y")) (deleted (delete_files fs files dirs)) aborted

-- The modes, in the order of their tests.
unfoldable pub dispatch : Files → Str → Options → Str → Str → Action
unfolding confirm sort_paths
dispatch fs answer o input last =
    if o.search
    then if exists fs input then search_for input last else input_missing
    else if o.remove
    then confirm fs answer (sort_paths fs o.sinodes)
    else if o.reconstitutesymlinks
    then relink (sort_paths fs o.sinodes).1
    else if exists fs input
    then copy (settings_of o) input last
    else input_missing

-- The last argument but one, and the last.
abbrev pub last_two : List Str → Option (Str × Str)
last_two [] = none
last_two (a ∷ []) = none
last_two (a ∷ b ∷ []) = some (a, b)
last_two (a ∷ b ∷ c ∷ args) = last_two (b ∷ c ∷ args)

abbrev pub with_paths : Files → Str → List Str → Option (Str × Str) → Action
with_paths fs answer args none = usage
with_paths fs answer args (some (input, last)) = dispatch fs answer (parse args) input last

-- `main`, by its arguments after the program's name and the answer that would be typed.
unfoldable pub main : Files → Str → List Str → Action
unfolding parse dispatch
main fs answer args = with_paths fs answer args (last_two args)
