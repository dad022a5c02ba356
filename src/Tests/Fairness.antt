-- ===== src/Tests/Fairness.antt =====
-- A small `Copy` (src/Functions.cpp) under a fair schedule.
use sync_files.Base.{
  ◌++◌, ◌⊎◌, true, ℕ, zero, suc, ◌≡◌, refl, false, some, List, inl, inr, arith, codes,
}
use sync_files.Functions.Copy.{Job, ended, run, Thread, main_thread, sorter, worker}
use sync_files.Functions.Copy.Fair.{Has, IsThread, IsFair, run_rounds}
use sync_files.Functions.Copy.Fair.Ends.{fair_end}
use sync_files.Functions.Listing.{prefix_of}
use sync_files.Functions.Work.Transfer.{Holds, reported}
use sync_files.Functions.Copy.Fair.Delivered.{delivered_fairly}
use sync_files.Functions.Waiting.{wait_finished}
use sync_files.Functions.Waiting.Settled.{IsSettled, waited}
use sync_files.Tests.Samples.{disk, settings, rounds, sample_job}
use sync_files.Tests.Copying.{sample_start, sample_Harmless}

each_round : ℕ → List Thread
each_round k = rounds 1

Has-each : (k : ℕ) (t : Thread) → IsThread 4 2 t → Has t (each_round k)
unfolding each_round
Has-each k main_thread i = inl refl
Has-each k (sorter zero) i = inr (inl refl)
Has-each k (sorter (suc zero)) i = inr (inr (inl refl))
Has-each k (sorter (suc (suc zero))) i = inr (inr (inr (inl refl)))
Has-each k (sorter (suc (suc (suc zero)))) i = inr (inr (inr (inr (inl refl))))
Has-each k (sorter (suc (suc (suc (suc n))))) i = absurd (omega arith)
Has-each k (worker zero) i = inr (inr (inr (inr (inr (inl refl)))))
Has-each k (worker (suc zero)) i = inr (inr (inr (inr (inr (inr (inl refl))))))
Has-each k (worker (suc (suc n))) i = absurd (omega arith)

each_round-Fair : IsFair (sample_job 2 false) each_round
unfolding sample_job
each_round-Fair = Has-each

fair_end_example :
    (n : ℕ) × ((run_rounds n (run (sample_job 2 false) (rounds 3)) each_round).main ≡ ended)
fair_end_example =
    fair_end (settings 2 false) disk (codes "in") (codes "out") (sample_job 2 false) (rounds 3)
      each_round sample_start each_round-Fair

delivered_fairly_example :
    (n : ℕ) × ((run_rounds n (sample_job 2 false) each_round).main ≡ ended)
    × (Holds
          (run_rounds n (sample_job 2 false) each_round).fs
          (prefix_of (codes "out") ++ codes "d/b")
          (codes "z")
        ⊎ (reported (codes "d/b") (run_rounds n (sample_job 2 false) each_round).fn.errors ≡ true))
unfolding sample_job
delivered_fairly_example =
    delivered_fairly (settings 2 false) disk (codes "in") (codes "out") (codes "d/b") (codes "z") 4
      (sample_job 2 false) each_round (omega arith) refl sample_start refl refl sample_Harmless refl
      each_round-Fair

waited_example :
    (n : ℕ) × (k : Job) × (wait_finished n (sample_job 2 false) each_round ≡ some k)
    × (k.main ≡ ended)
    × IsSettled k
waited_example =
    waited (settings 2 false) disk (codes "in") (codes "out") (sample_job 2 false) each_round
      sample_start each_round-Fair
