-- ===== src/Functions/Copy.antt =====
-- `Copy` of src/Functions.cpp: what it does before its threads start, and then its own steps and
-- those of its threads in any order. A schedule says which thread moves next.
pub mod Fair
pub mod Listed
pub mod Threads
pub mod Phases
pub mod Flow
pub mod Balance
pub mod Inputs
pub mod Start
pub mod Prefixes
pub mod Idle
pub mod Frame
pub mod Outcome
pub mod Progress
pub mod Delivery
use sync_files.Base.{
  ℕ, zero, suc, ◌+◌, Bool, true, false, not, ◌&&◌, Option, none, some, List, [], ◌∷◌, ◌++◌, Str,
  contains, erase, set, get_elem?, replicate, if◌then◌else◌,
}
use sync_files.Base.Partial.{◌>>=◌}
use sync_files.Files.{Files, exists, is_directory}
use sync_files.Files.Calls.{create_directories, remove_all}
use sync_files.Functions.State.{Functions, initial}
use sync_files.Functions.Listing.{
  get_files, prefix_of, helper_ifiles, helper_ofiles, helper_idirset, helper_odirset,
}
use sync_files.Functions.Sort.{SortPc, sort_step}
use sync_files.Functions.Work.{WorkPc, work_step}

pub record Settings : Type 0 where
  pub delete_without_match : Bool
  pub overwrite_existing : Bool
  pub force : Bool
  pub move : Bool
  pub processors : ℕ

-- `create_directories(p)` throws where the directory is not there afterwards.
unfoldable pub make_output : Files → Str → Option Files
make_output fs path =
    if exists fs path
    then some fs
    else (let fs' = create_directories fs path in if is_directory fs' path then some fs' else none)

abbrev pub drop_dir : Str → Functions → Functions
drop_dir dir fn = record fn { output_dir_set = erase dir fn.output_dir_set }

-- The loop over `IDirSet`.
unfoldable pub handle_dirs : Functions → Files → List Str → Functions × Files
handle_dirs fn fs [] = (fn, fs)
handle_dirs fn fs (dir ∷ dirs) = elim (contains fn.output_dir_set dir) [
  | true ↦ handle_dirs (drop_dir dir fn) fs dirs
  | false ↦ handle_dirs fn (create_directories fs (fn.output_prefix ++ dir)) dirs
]

-- Both listings, the prefixes, and the four sets.
unfoldable pub gather : Settings → Functions → Files → Str → Str → Option Functions
gather set fn fs input output = do
  (files, dirs) ← get_files fs input fn.files_input fn.dirs_input
  (ofiles, odirs) ← get_files fs output fn.files_output fn.dirs_output
  fn₁ ← helper_ifiles (record fn {
    finished = false;
    move = set.move;
    overwrite_existing = set.overwrite_existing;
    force = set.force;
    files_input = files;
    dirs_input = dirs;
    files_output = ofiles;
    dirs_output = odirs;
    input_prefix = prefix_of input;
    output_prefix = prefix_of output;
  })
  fn₂ ← helper_ofiles fn₁
  fn₃ ← helper_idirset fn₂
  helper_odirset fn₃

-- Where the thread of `Copy` itself stands.
pub data MainPc : Type 0 where
  join_sorters : MainPc
  push_deletes : List Str → MainPc  -- the rest of `OFilesSet`
  set_done : MainPc
  join_workers : MainPc
  remove_dirs : List Str → MainPc  -- the rest of `ODirSet`
  set_finished : MainPc
  ended : MainPc

pub record Job : Type 0 where
  pub settings : Settings
  pub fn : Functions
  pub fs : Files
  pub main : MainPc
  pub sorters : List SortPc
  pub workers : List WorkPc

-- The threads as they are made: the workers, and then four sorters.
abbrev pub launch : Settings → Functions → Files → Job
launch set fn fs = record {
  settings = set;
  fn = record fn { input_dir_set = []; active_copy = true };
  fs = fs;
  main = join_sorters;
  sorters = replicate 4 SortPc.check;
  workers = replicate set.processors WorkPc.check_done;
}

-- `Copy` up to the start of its threads; `none` is an exception that it does not catch.
unfoldable pub start : Settings → Functions → Files → Str → Str → Option Job
unfolding make_output gather handle_dirs
start set fn fs input output = do
  fs₁ ← make_output fs output
  fn₁ ← gather set fn fs₁ input output
  let (fn₂, fs₂) = handle_dirs fn₁ fs₁ fn₁.input_dir_set
  some (launch set fn₂ fs₂)

abbrev pub all_stopped : List SortPc → Bool
all_stopped [] = true
all_stopped (SortPc.stopped ∷ ps) = all_stopped ps
all_stopped (_ ∷ ps) = false

abbrev pub all_left : List WorkPc → Bool
all_left [] = true
all_left (WorkPc.left ∷ ps) = all_left ps
all_left (_ ∷ ps) = false

-- `remove_all` whose exception is swallowed.
abbrev pub try_remove_all : Files → Str → Files
try_remove_all fs path = elim (remove_all fs path) [ none ↦ fs | some fs' ↦ fs' ]

unfoldable pub main_step : Job → MainPc → Job
main_step j join_sorters =
    if all_stopped j.sorters
    then if j.settings.delete_without_match
      then record j { main = push_deletes j.fn.output_files_set }
      else record j { main = set_done }
    else j
main_step j (push_deletes []) = record j { main = set_done }
main_step j (push_deletes (name ∷ rest)) = record j {
  fn = record (j.fn) {
    delete_queue = j.fn.delete_queue ++ (j.fn.output_prefix ++ name) ∷ [];
    cdeleted = j.fn.cdeleted + 1;
  };
  main = push_deletes rest;
}
main_step j set_done = record j { fn = record (j.fn) { done_stuff = true }; main = join_workers }
main_step j join_workers =
    if all_left j.workers
    then record j {
      fn = record (j.fn) { active_copy = false };
      main =
          if j.settings.delete_without_match then remove_dirs j.fn.output_dir_set else set_finished;
    }
    else j
main_step j (remove_dirs []) = record j {
  fn = record (j.fn) { output_dir_set = [] };
  main = set_finished;
}
main_step j (remove_dirs (d ∷ ds)) = record j {
  fs = try_remove_all j.fs (j.fn.output_prefix ++ d);
  main = remove_dirs ds;
}
main_step j set_finished = record j { fn = record (j.fn) { finished = true }; main = ended }
main_step j ended = j

abbrev pub put_sorter : Job → ℕ → SortPc × Functions → Job
put_sorter j i (pc, fn) = record j { fn = fn; sorters = set j.sorters i pc }

abbrev pub put_worker : Job → ℕ → WorkPc × Functions × Files → Job
put_worker j i (pc, fn, fs) = record j { fn = fn; fs = fs; workers = set j.workers i pc }

pub data Thread : Type 0 where
  main_thread : Thread
  sorter : ℕ → Thread
  worker : ℕ → Thread

-- A step of one thread; an index that names no thread does nothing.
unfoldable pub step : Job → Thread → Job
unfolding main_step sort_step work_step
step j main_thread = main_step j j.main
step j (sorter i) = elim (get_elem? j.sorters i) [
  | none ↦ j
  | some pc ↦ put_sorter j i (sort_step pc j.fn j.fs)
]
step j (worker i) = elim (get_elem? j.workers i) [
  | none ↦ j
  | some pc ↦ put_worker j i (work_step pc j.fn j.fs)
]

unfoldable pub run : Job → List Thread → Job
unfolding step
run j [] = j
run j (t ∷ ts) = run (step j t) ts
