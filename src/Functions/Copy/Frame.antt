-- ===== src/Functions/Copy/Frame.antt =====
-- Which paths a `Copy` of src/Functions.cpp can change.
pub mod Sorting
pub mod Working
pub mod Main
pub mod Running
pub mod Untouched
use sync_files.Base.{◌≡◌, ◌≢◌, Bool, true, Option, none, List, [], ◌∷◌, ◌++◌, Str, All}
use sync_files.Files.{Node, Files, clean, lookup}
use sync_files.Files.Calls.{below}
use sync_files.Functions.State.{Functions}
use sync_files.Functions.Sort.{SortPc}
use sync_files.Functions.Work.{WorkPc, copying, deleting}
use sync_files.Functions.Copy.{MainPc, push_deletes, remove_dirs, Job}
use sync_files.Functions.Copy.Delivery.Defs.{sorted_name}

-- A path that is watched, what it names at first, the prefixes, and whether files are moved and
-- extra ones deleted.
pub record Watch : Type 0 where
  pub inp : Str
  pub out : Str
  pub path : Str
  pub node : Option Node
  pub moves : Bool
  pub deletes : Bool

module _ (w : Watch) where
  open w use {inp, out, path, node, moves, deletes}

  -- The copy of a file does not write to the path, and its move does not take it away.
  pub record CopySafe (g : Str) : Type 0 where
    pub target : clean (out ++ g) ≢ clean path
    pub source : moves ≡ true → clean (inp ++ g) ≢ clean path

  -- An entry of the delete queue, as `DoStuff` removes it.
  abbrev pub DeleteSafe : Str → Type 0
  DeleteSafe g = clean (out ++ g) ≢ clean path

  -- A name of `OFilesSet`, as `Copy` puts it into the delete queue: with the prefix.
  abbrev pub ExtraSafe : Str → Type 0
  ExtraSafe g = deletes ≡ true → DeleteSafe (out ++ g)

  -- A directory of `ODirSet` is removed with all that is below it.
  pub record DirSafe (d : Str) : Type 0 where
    pub itself : deletes ≡ true → clean (out ++ d) ≢ clean path
    pub inside : deletes ≡ true → below (out ++ d) (clean path) ≡ none

  abbrev pub WorkSafe : WorkPc → Type 0
  WorkSafe (copying g) = CopySafe g
  WorkSafe (deleting g) = DeleteSafe g
  WorkSafe _ = Unit

  abbrev pub SortSafe : SortPc → Type 0
  SortSafe pc = All CopySafe (sorted_name pc)

  -- The thread of `Copy` deletes only with `-d`.
  abbrev pub MainSafe : MainPc → Type 0
  MainSafe (push_deletes l) = (deletes ≡ true) × All ExtraSafe l
  MainSafe (remove_dirs l) = (deletes ≡ true) × All DirSafe l
  MainSafe _ = Unit

  -- The shared state holds only names that leave the path alone.
  pub record Clear (fn : Functions) : Type 0 where
    pub from_eq : fn.input_prefix ≡ inp
    pub to_eq : fn.output_prefix ≡ out
    pub move_eq : fn.move ≡ moves
    pub inputs : All CopySafe fn.input_files_set
    pub copies : All CopySafe fn.copy_queue
    pub removals : All DeleteSafe fn.delete_queue
    pub extras : All ExtraSafe fn.output_files_set
    pub dirs : All DirSafe fn.output_dir_set

  pub record Framed (j : Job) : Type 0 where
    pub clear : Clear j.fn
    pub deletes_eq : j.settings.delete_without_match ≡ deletes
    pub main_safe : MainSafe j.main
    pub sorts : All SortSafe j.sorters
    pub works : All WorkSafe j.workers
    pub same : lookup j.fs path ≡ node
