-- ===== src/Tests/Copying.antt =====
-- The theorems on `Copy` (src/Functions.cpp), at a small job.
use sync_files.Base.{
  ◌+◌, ◌%◌, ◌^◌, ◌++◌, ◌⊎◌, All, ◌≡◌, refl, true, false, some, List, [], ◌∷◌, arith, codes,
}
use sync_files.Files.{file, lookup}
use sync_files.Functions.State.{initial}
use sync_files.Functions.Copy.{ended, start, run, Thread}
use sync_files.Functions.Listing.{prefix_of}
use sync_files.Functions.Work.Transfer.{Holds, reported}
use sync_files.Functions.Copy.Balance.{copy_faults}
use sync_files.Functions.Copy.Outcome.{copied_or_reported}
use sync_files.Functions.Copy.Progress.Ending.{can_end}
use sync_files.Functions.Copy.Idle.{copies_nothing}
use sync_files.Functions.Copy.Delivery.Defs.{Parcel, Harmless}
use sync_files.Functions.Copy.Delivery.Outcome.{delivered}
use sync_files.Tests.Samples.{disk, settings, rounds, sample_job, sample_run}

sample_names : (sample_job 2 false).fn.input_files_set ≡ codes "a" ∷ codes "d/b" ∷ []
unfolding sample_job
sample_names = refl

sample_ends : (sample_run 2 false 40).main ≡ ended
unfolding sample_run
sample_ends = refl

sample_copies : lookup (sample_run 2 false 40).fs (codes "out/d/b") ≡ some (file 4 (codes "z"))
unfolding sample_run
sample_copies = refl

abbrev pub parcel : Parcel
parcel = record {
  inp = prefix_of (codes "in");
  out = prefix_of (codes "out");
  name = codes "d/b";
  bytes = codes "z";
}

pub sample_Harmless : All (Harmless parcel) ((sample_job 2 false).fn.input_files_set)
unfolding sample_job
sample_Harmless = (
  record {
    target = λ e. ground arith;
    source = λ e. ground arith;
    other_target = λ n e. ground arith;
    other_source = λ n e. ground arith;
  },
  (
    record {
      target = λ e. ground arith;
      source = λ e. ground arith;
      other_target = λ n e. absurd (n refl);
      other_source = λ n e. absurd (n refl);
    },
    tt,
  ),
)

pub sample_start :
    start (settings 2 false) initial disk (codes "in") (codes "out") ≡ some (sample_job 2 false)
unfolding sample_job
sample_start = refl

delivered_example :
    Holds (sample_run 2 false 40).fs (prefix_of (codes "out") ++ codes "d/b") (codes "z")
    ⊎ (reported (codes "d/b") (sample_run 2 false 40).fn.errors ≡ true)
unfolding sample_run
delivered_example =
    delivered (settings 2 false) disk (codes "in") (codes "out") (codes "d/b") (codes "z") 4
      (sample_job 2 false) (rounds 40) (omega arith) refl sample_start refl refl sample_Harmless
      refl refl

copied_or_reported_example :
    let fn = (sample_run 2 false 40).fn in
    (fn.files_to_copy ≡ (fn.files_copied + copy_faults fn.errors) % 2 ^ 64)
    × (fn.copy_queue ≡ [])
    × (fn.delete_queue ≡ [])
unfolding sample_run
copied_or_reported_example =
    copied_or_reported (settings 2 false) disk (codes "in") (codes "out") (sample_job 2 false)
      (rounds 40) (omega arith) sample_start refl

can_end_example : (us : List Thread) × ((run (run (sample_job 2 false) (rounds 3)) us).main ≡ ended)
can_end_example =
    can_end (settings 2 false) disk (codes "in") (codes "out") (sample_job 2 false) (rounds 3)
      sample_start

idle_start :
    start (settings 0 false) initial disk (codes "in") (codes "out") ≡ some (sample_job 0 false)
unfolding sample_job
idle_start = refl

copies_nothing_example :
    ((run (sample_job 0 false) (rounds 40)).fs ≡ (sample_job 0 false).fs)
    × ((us : List Thread) × ((run (run (sample_job 0 false) (rounds 40)) us).main ≡ ended))
copies_nothing_example =
    copies_nothing (settings 0 false) disk (codes "in") (codes "out") (sample_job 0 false)
      (rounds 40) refl refl idle_start
