-- ===== src/Tests/Samples.antt =====
-- A small file system, and jobs of `Copy` (src/Functions.cpp) over it.
use sync_files.Base.{ℕ, zero, suc, Bool, false, Option, none, some, List, [], ◌∷◌, codes, str_dec}
use sync_files.Files.{
  file, dir, Files, clean, lookup, exists, is_directory, join, parent, put, unlink, strip_prefix,
}
use sync_files.Files.Calls.{
  below, iterate, last_write_time, file_size?, file_size, writable, copy_file, rename, remove,
  remove_all, create_directories,
}
use sync_files.Functions.Listing.{
  get_files, sort_entries, relative, push_relative, insert_relative, helper_ifiles, helper_ofiles,
  helper_idirset, helper_odirset,
}
use sync_files.Functions.State.{initial}
use sync_files.Functions.Copy.{
  Settings, Job, launch, start, Thread, main_thread, sorter, worker, run,
}

-- `in/a` is newer than `out/a`, `in/d/b` is missing in the output, and `out/old` is extra.
abbrev pub disk : Files
disk = record {
  nodes =
      (codes "in", dir)
      ∷ (codes "in/a", file 5 (codes "xy"))
      ∷ (codes "in/d", dir)
      ∷ (codes "in/d/b", file 4 (codes "z"))
      ∷ (codes "out", dir)
      ∷ (codes "out/a", file 3 (codes "w"))
      ∷ (codes "out/old", file 1 (codes "q"))
      ∷ [];
  refused = λ p. false;
  unreadable = λ p. false;
  copy_time = λ t. t;
}

abbrev pub settings : ℕ → Bool → Settings
settings n d = record {
  delete_without_match = d;
  overwrite_existing = false;
  force = false;
  move = false;
  processors = n;
}

abbrev pub or_idle : Settings → Option Job → Job
or_idle s none = launch s initial disk
or_idle s (some j) = j

-- Every thread in turn, for a number of rounds.
abbrev pub rounds : ℕ → List Thread
rounds zero = []
rounds (suc n) =
    main_thread ∷ sorter 0 ∷ sorter 1 ∷ sorter 2 ∷ sorter 3 ∷ worker 0 ∷ worker 1 ∷ rounds n

-- Unfolding this runs the calls of the file system.
unfoldable pub file_calls : ℕ
unfolding str_dec clean lookup exists is_directory join parent put unlink strip_prefix below iterate
    last_write_time file_size? file_size writable copy_file rename remove remove_all
    create_directories
file_calls = 0

unfoldable pub sample_job : ℕ → Bool → Job
unfolding file_calls start get_files sort_entries relative push_relative insert_relative
    helper_ifiles helper_ofiles helper_idirset helper_odirset
sample_job n d = let s = settings n d in or_idle s (start s initial disk (codes "in") (codes "out"))

-- The job after a number of rounds.
unfoldable pub sample_run : ℕ → Bool → ℕ → Job
unfolding file_calls sample_job run
sample_run n d k = run (sample_job n d) (rounds k)
