-- ===== src/Functions/Copy/Fair/Ends.antt =====
-- `Copy` (src/Functions.cpp) ends under every fair schedule.
use sync_files.Base.{ℕ, ◌≡◌, some, List, Str}
use sync_files.Files.{Files}
use sync_files.Functions.State.{initial}
use sync_files.Functions.Copy.{Settings, Job, Thread, ended, start, run}
use sync_files.Functions.Copy.Start.{start-Starts, Starts-Flow}
use sync_files.Functions.Copy.Phases.{Flow}
use sync_files.Functions.Copy.Flow.{run-Flow}
use sync_files.Functions.Copy.Fair.{IsFair, Leads, Leads-trans, run_rounds, run-Fair}
use sync_files.Functions.Copy.Fair.Sorting.{sorters-Leads}
use sync_files.Functions.Copy.Fair.Queueing.{Sorted, queueing-Leads}
use sync_files.Functions.Copy.Fair.Working.{Flagged, workers-Leads}
use sync_files.Functions.Copy.Fair.Removing.{Joined, removing-Leads}

abbrev Ended : Job → Type 0
Ended j = Joined j × (j.main ≡ ended)

Flow-Leads : Leads Flow Ended
Flow-Leads = Leads-trans Flow Sorted Ended sorters-Leads (
    Leads-trans Sorted Flagged Ended queueing-Leads
      (Leads-trans Flagged Joined Ended workers-Leads removing-Leads))

-- Whatever the threads of a started `Copy` have done so far: if from then on every thread takes a
-- step in each round, and others may take any number of them in any order, then `Copy` ends after
-- some number of rounds.
pub fair_end :
    (set : Settings) (fs : Files) (input output : Str) (j : Job) (ts : List Thread)
    (rounds : ℕ → List Thread)
    → start set initial fs input output ≡ some j
    → IsFair j rounds
    → (n : ℕ) × ((run_rounds n (run j ts) rounds).main ≡ ended)
fair_end set fs input output j ts rounds e f =
    let v = run-Flow j ts (Starts-Flow set j (start-Starts set fs input output j e)) in
    let (n, q) = Flow-Leads (run j ts) rounds v (run-Fair ts j rounds f) in (n, q.1)
