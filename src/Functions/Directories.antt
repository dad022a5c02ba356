-- ===== src/Functions/Directories.antt =====
-- `Helper_CreateDirs` of src/Functions.cpp beside other threads, which queue directories and set
-- `_doneCreatingDirs`. A step is one access to the flag or the queue, or one directory made. The
-- timed wait only delays the thread, and `create_directories` with an error code does not throw.
pub mod Made
pub mod Created
use sync_files.Base.{Bool, true, false, List, [], ◌∷◌, ◌++◌, Str, if◌then◌else◌}
use sync_files.Files.{Files}
use sync_files.Files.Calls.{create_directories}
use sync_files.Functions.Work.{is_nil}

pub data DirsPc : Type 0 where
  check_done : DirsPc  -- the two parts of the loop's test
  check_size : DirsPc
  pop : DirsPc
  create : Str → DirsPc
  left : DirsPc

pub record Creation : Type 0 where
  pub create_dirs_queue : List Str
  pub done_creating_dirs : Bool
  pub output_prefix : Str
  pub fs : Files
  pub place : DirsPc

-- `get_pop_front`; its exception is caught, and the loop goes on.
abbrev pub take_dir : Creation → List Str → Creation
take_dir c [] = record c { place = check_done }
take_dir c (name ∷ rest) = record c { place = create name; create_dirs_queue = rest }

unfoldable pub create_step : Creation → DirsPc → Creation
create_step c check_done = record c { place = if c.done_creating_dirs then check_size else pop }
create_step c check_size = record c { place = if is_nil c.create_dirs_queue then left else pop }
create_step c pop = take_dir c c.create_dirs_queue
create_step c (create name) = record c {
  fs = create_directories c.fs (c.output_prefix ++ name);
  place = check_done;
}
create_step c left = c

-- What happens: a step of the helper, or another thread's access.
pub data Event : Type 0 where
  helper : Event
  queued : Str → Event
  finish : Event

unfoldable pub create_event : Creation → Event → Creation
unfolding create_step
create_event c helper = create_step c c.place
create_event c (queued name) = record c { create_dirs_queue = c.create_dirs_queue ++ name ∷ [] }
create_event c finish = record c { done_creating_dirs = true }

unfoldable pub create_run : Creation → List Event → Creation
unfolding create_event
create_run c [] = c
create_run c (e ∷ es) = create_run (create_event c e) es
