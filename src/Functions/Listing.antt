-- ===== src/Functions/Listing.antt =====
-- `GetFiles`, both `GetFilesRelative` and the four `Helper_` functions of src/Functions.cpp that
-- cut a prefix off the listed paths. `none` is an exception that nothing catches.
pub mod Names
use sync_files.Base.{
  ℕ, ◌-◌, true, false, Option, none, some, List, [], ◌∷◌, ◌++◌, Str, insert, length, take, drop,
  ltb, if◌then◌else◌,
}
use sync_files.Base.Partial.{◌>>=◌}
use sync_files.Files.{Files, separator, exists}
use sync_files.Files.Calls.{Entry, iterate}
use sync_files.Functions.State.{Functions}

-- `s.substr(pos, n)`
abbrev pub substr : Str → ℕ → ℕ → Option Str
substr s pos n = if ltb (length s) pos then none else some (take n (drop pos s))

-- The path without its first `len` characters, as the program writes it.
unfoldable pub relative : ℕ → Str → Option Str
relative len path = substr path len (length path - len)

-- The loop of `GetFiles`: directories and files go to the ends of two queues.
unfoldable pub sort_entries : List Entry → List Str → List Str → List Str × List Str
sort_entries [] files dirs = (files, dirs)
sort_entries ((p, true) ∷ es) files dirs = sort_entries es files (dirs ++ p ∷ [])
sort_entries ((p, false) ∷ es) files dirs = sort_entries es (files ++ p ∷ []) dirs

-- The iterator is made before the `try`, so its exception leaves the function.
unfoldable pub get_files : Files → Str → List Str → List Str → Option (List Str × List Str)
get_files fs path files dirs =
    if exists fs path
    then (iterate fs path >>= λ es. some (sort_entries es files dirs))
    else some (files, dirs)

-- The prefix of a directory's entries.
abbrev pub prefix_of : Str → Str
prefix_of path = path ++ separator ∷ []

-- The loop of `GetFilesRelative` with three arguments, over two sets.
unfoldable pub insert_entries : ℕ → List Entry → List Str → List Str → Option (List Str × List Str)
insert_entries len [] files dirs = some (files, dirs)
insert_entries len ((p, true) ∷ es) files dirs = do
  name ← relative len p
  insert_entries len es files (insert name dirs)
insert_entries len ((p, false) ∷ es) files dirs = do
  name ← relative len p
  insert_entries len es (insert name files) dirs

unfoldable pub get_files_relative : Files → Str → List Str → List Str → Option (List Str × List Str)
get_files_relative fs path files dirs =
    if exists fs path
    then (iterate fs path >>= λ es. insert_entries (length (prefix_of path)) es files dirs)
    else some (files, dirs)

-- The first loop of `GetFilesRelative` with one argument; the directories are not read again.
unfoldable pub insert_paths : List Entry → List Str → List Str
insert_paths [] files = files
insert_paths ((p, true) ∷ es) files = insert_paths es files
insert_paths ((p, false) ∷ es) files = insert_paths es (insert p files)

-- A loop that cuts the prefix off each path and inserts it into a set.
unfoldable pub insert_relative : ℕ → List Str → List Str → Option (List Str)
insert_relative len [] set = some set
insert_relative len (p ∷ ps) set = do
  name ← relative len p
  insert_relative len ps (insert name set)

unfoldable pub get_file_set : Files → Str → Option (List Str)
get_file_set fs path =
    if exists fs path
    then (iterate fs path >>= λ es.
        insert_relative (length (prefix_of path)) (insert_paths es []) [])
    else some []

-- A loop that cuts the prefix off each path and puts it at the end of a queue.
unfoldable pub push_relative : ℕ → List Str → List Str → Option (List Str)
push_relative len [] queue = some queue
push_relative len (p ∷ ps) queue = do
  name ← relative len p
  push_relative len ps (queue ++ name ∷ [])

unfoldable pub helper_ifiles : Functions → Option Functions
helper_ifiles fn = do
  files ← push_relative (length fn.input_prefix) fn.files_input fn.input_files_set
  some (record fn { input_files_set = files })

unfoldable pub helper_ofiles : Functions → Option Functions
helper_ofiles fn = do
  files ← insert_relative (length fn.output_prefix) fn.files_output fn.output_files_set
  some (record fn { output_files_set = files })

unfoldable pub helper_idirset : Functions → Option Functions
helper_idirset fn = do
  dirs ← insert_relative (length fn.input_prefix) fn.dirs_input fn.input_dir_set
  some (record fn { input_dir_set = dirs })

unfoldable pub helper_odirset : Functions → Option Functions
helper_odirset fn = do
  dirs ← insert_relative (length fn.output_prefix) fn.dirs_output fn.output_dir_set
  some (record fn { output_dir_set = dirs })
