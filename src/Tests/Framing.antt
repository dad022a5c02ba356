-- ===== src/Tests/Framing.antt =====
-- What a small `Copy` (src/Functions.cpp) with -d leaves alone.
use sync_files.Base.{◌≡◌, refl, true, some, [], ◌∷◌, All, arith, codes}
use sync_files.Files.{file, lookup}
use sync_files.Functions.State.{initial}
use sync_files.Functions.Copy.{ended, start, run}
use sync_files.Functions.Copy.Frame.{CopySafe, ExtraSafe, DirSafe, Watch}
use sync_files.Functions.Copy.Frame.Untouched.{watching, untouched}
use sync_files.Tests.Samples.{disk, settings, rounds, sample_job, sample_run, file_calls}

deleting_start :
    start (settings 2 true) initial disk (codes "in") (codes "out") ≡ some (sample_job 2 true)
unfolding sample_job
deleting_start = refl

deleting_extras : (sample_job 2 true).fn.output_files_set ≡ codes "old" ∷ codes "a" ∷ []
unfolding sample_job
deleting_extras = refl

-- The extra file is to be deleted, is counted as deleted, and stays.
deleting_ends : (sample_run 2 true 40).main ≡ ended
unfolding sample_run
deleting_ends = refl

counted_twice : (sample_run 2 true 40).fn.cdeleted ≡ 2
unfolding sample_run
counted_twice = refl

abbrev old : Watch
old = watching (settings 2 true) (codes "in") (codes "out") (codes "out/old") (file 1 (codes "q"))

old-CopySafe : All (CopySafe old) (sample_job 2 true).fn.input_files_set
unfolding sample_job file_calls
old-CopySafe = (
  record { target = λ e. ground arith; source = λ m e. ground arith },
  (record { target = λ e. ground arith; source = λ m e. ground arith }, tt),
)

old-ExtraSafe : All (ExtraSafe old) (sample_job 2 true).fn.output_files_set
unfolding sample_job file_calls
old-ExtraSafe = ((λ d e. ground arith), ((λ d e. ground arith), tt))

old-DirSafe : All (DirSafe old) (sample_job 2 true).fn.output_dir_set
unfolding sample_job file_calls
old-DirSafe = tt

untouched_example :
    lookup (run (sample_job 2 true) (rounds 40)).fs (codes "out/old") ≡ some (file 1 (codes "q"))
unfolding file_calls
untouched_example =
    untouched (settings 2 true) disk (codes "in") (codes "out") (codes "out/old")
      (file 1 (codes "q")) (sample_job 2 true) (rounds 40) deleting_start refl old-CopySafe
      old-ExtraSafe old-DirSafe
