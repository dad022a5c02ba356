-- ===== src/Functions/Copy/Outcome.antt =====
-- What a job of `Copy` (src/Functions.cpp) has done when its threads have ended.
use sync_files.Base.{
  ◌+◌, ◌%◌, ◌^◌, ◌<◌, ◌≡◌, ◌≢◌, refl, true, some, List, [], ◌∷◌, arith, length, length-set,
  length-replicate, ap, ◌∙◌, Str,
}
use sync_files.Files.{Files}
use sync_files.Functions.State.{initial}
use sync_files.Functions.Work.{WorkPc}
use sync_files.Functions.Copy.{
  Settings, Job, start, Thread, main_thread, sorter, worker, step, run, ended,
}
use sync_files.Functions.Copy.Phases.{past_workers}
use sync_files.Functions.Copy.Flow.{run-Flow, Flow-drained, main_step-workers}
use sync_files.Functions.Copy.Threads.{sorter_cases, worker_cases}
use sync_files.Functions.Copy.Start.{Starts, start-Starts, Starts-Flow, Starts-Balance}
use sync_files.Functions.Copy.Balance.{copy_faults, run-Balance, Balance-settled}

-- The number of workers never changes.
step-workers : (j : Job) (t : Thread) → length (step j t).workers ≡ length j.workers
unfolding step
step-workers j main_thread = ap length (main_step-workers j j.main)
step-workers j (sorter i) =
    sorter_cases (λ k. length k.workers ≡ length j.workers) j i refl λ pc e. refl
step-workers j (worker i) =
    worker_cases (λ k. length k.workers ≡ length j.workers) j i refl
      λ pc e. length-set j.workers i _

pub run-workers : (ts : List Thread) (j : Job) → length (run j ts).workers ≡ length j.workers
unfolding run
run-workers [] j = refl
run-workers (t ∷ ts) j = run-workers ts (step j t) ∙ step-workers j t

ne-nil : (ws : List WorkPc) → 0 < length ws → ws ≢ []
ne-nil [] h = absurd (omega arith)
ne-nil (w ∷ ws) h = λ e. cc

pub has_workers :
    (set : Settings) (j : Job) (ts : List Thread)
    → 0 < set.processors
    → Starts set j
    → (run j ts).workers ≢ []
has_workers set j ts h v = ne-nil _ (
    omega (
      arith,
      run-workers ts j,
      ap (length {A = WorkPc}) v.workers_eq,
      length-replicate set.processors WorkPc.check_done,
    ))

-- When `Copy` has ended, in whatever order its threads ran, then with at least one worker both
-- queues are empty, and `_filesToCopy` is the number of files copied and of copies that failed and
-- are in `errors`, modulo `2 ^ 64`.
pub copied_or_reported :
    (set : Settings) (fs : Files) (input output : Str) (j : Job) (ts : List Thread)
    → 0 < set.processors
    → start set initial fs input output ≡ some j
    → (run j ts).main ≡ ended
    → let fn = (run j ts).fn in
      (fn.files_to_copy ≡ (fn.files_copied + copy_faults fn.errors) % 2 ^ 64)
      × (fn.copy_queue ≡ [])
      × (fn.delete_queue ≡ [])
copied_or_reported set fs input output j ts h e over =
    let v = start-Starts set fs input output j e in
    let flow = run-Flow j ts (Starts-Flow set j v) in
    let joined : past_workers (run j ts).main ≡ true = rw over in
    let some_workers = has_workers set j ts h v in
    let drained = Flow-drained (run j ts) flow joined some_workers in
    (
      Balance-settled (run j ts) flow (run-Balance j ts (Starts-Balance set j v)) joined
          some_workers,
      drained.1,
      drained.2,
    )
