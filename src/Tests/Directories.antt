-- ===== src/Tests/Directories.antt =====
-- `Helper_CreateDirs` of src/Functions.cpp on two directories.
use sync_files.Base.{◌≡◌, refl, false, List, [], ◌∷◌, arith, codes}
use sync_files.Functions.Directories.{
  Creation, Event, helper, queued, finish, check_done, left, create_run,
}
use sync_files.Functions.Directories.Made.{create_all, helpers}
use sync_files.Functions.Directories.Created.{created}
use sync_files.Tests.Samples.{disk}

abbrev creation : Creation
creation = record {
  create_dirs_queue = codes "a" ∷ [];
  done_creating_dirs = false;
  output_prefix = codes "out/";
  fs = disk;
  place = check_done;
}

abbrev events : List Event
events = helper ∷ queued (codes "b") ∷ helper ∷ helper ∷ []

one_left : (create_run creation events).create_dirs_queue ≡ codes "b" ∷ []
unfolding create_run
one_left = refl

created_example :
    ((create_run (create_run creation events) (finish ∷ helpers 7)).place ≡ left)
    × ((create_run (create_run creation events) (finish ∷ helpers 7)).fs
        ≡ create_all (codes "out/") disk (codes "a" ∷ codes "b" ∷ []))
unfolding create_run
created_example = created creation events 7 refl tt (omega arith)
