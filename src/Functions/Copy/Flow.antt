-- ===== src/Functions/Copy/Flow.antt =====
-- The order in which the threads of `Copy` (src/Functions.cpp) end: nothing is queued after
-- `_doneStuff`, and no worker leaves before that and before the queues are empty.
use sync_files.Base.{◌≡◌, ◌≢◌, refl, List, ◌∷◌, true, List, [], ◌∷◌, arith, All, All-map}
use sync_files.Functions.State.{Functions}
use sync_files.Functions.Work.{WorkPc, left}
use sync_files.Functions.Copy.{
  Job, MainPc, join_sorters, push_deletes, remove_dirs, main_step, Thread, main_thread, sorter,
  worker, step, run, all_stopped, all_left,
}
use sync_files.Functions.Copy.Threads.{sorter_cases, worker_cases}
use sync_files.Functions.Copy.Phases.{
  past_sorters, past_done, past_workers, Knows, Flow, Keeps, Keeps-Knows, sorter-Flow, worker-Flow,
}

pub main_step-workers : (j : Job) (m : MainPc) → (main_step j m).workers ≡ j.workers
unfolding main_step
main_step-workers j (push_deletes []) = refl
main_step-workers j (remove_dirs []) = refl
main_step-workers j _ = ground arith

pub main_step-sorters : (j : Job) (m : MainPc) → (main_step j m).sorters ≡ j.sorters
unfolding main_step
main_step-sorters j (push_deletes []) = refl
main_step-sorters j (remove_dirs []) = refl
main_step-sorters j _ = ground arith

main_step-Keeps :
    (j : Job) (m : MainPc)
    → (j.fn.done_stuff ≡ true → past_done m ≡ true)
    → Keeps j.fn (main_step j m).fn
unfolding main_step
main_step-Keeps j (push_deletes []) f = ground arith
main_step-Keeps j (remove_dirs []) f = ground arith
main_step-Keeps j _ f = ground arith

main_step-past_sorters :
    (j : Job) (m : MainPc)
    → j.main ≡ m
    → (past_sorters m ≡ true → all_stopped j.sorters ≡ true)
    → past_sorters (main_step j m).main ≡ true
    → all_stopped j.sorters ≡ true
unfolding main_step
main_step-past_sorters j join_sorters e f p = ground arith
main_step-past_sorters j _ e f p = f refl

main_step-past_done :
    (j : Job) (m : MainPc)
    → j.main ≡ m
    → (j.fn.done_stuff ≡ true → past_done m ≡ true)
    → (main_step j m).fn.done_stuff ≡ true
    → past_done (main_step j m).main ≡ true
unfolding main_step
main_step-past_done j (push_deletes []) e f p = ground arith
main_step-past_done j (remove_dirs []) e f p = ground arith
main_step-past_done j _ e f p = ground arith

main_step-raised :
    (j : Job) (m : MainPc)
    → j.main ≡ m
    → (past_done m ≡ true → j.fn.done_stuff ≡ true)
    → past_done (main_step j m).main ≡ true
    → (main_step j m).fn.done_stuff ≡ true
unfolding main_step
main_step-raised j (push_deletes []) e f p = ground arith
main_step-raised j (remove_dirs []) e f p = ground arith
main_step-raised j _ e f p = ground arith

main_step-past_workers :
    (j : Job) (m : MainPc)
    → j.main ≡ m
    → (past_workers m ≡ true → all_left j.workers ≡ true)
    → past_workers (main_step j m).main ≡ true
    → all_left j.workers ≡ true
unfolding main_step
main_step-past_workers j (push_deletes []) e f p = ground arith
main_step-past_workers j (remove_dirs []) e f p = ground arith
main_step-past_workers j _ e f p = ground arith

main-Flow : (j : Job) → Flow j → Flow (main_step j j.main)
main-Flow j v = record {
  sorted = λ p. rw (main_step-sorters j j.main) (main_step-past_sorters j j.main refl v.sorted p);
  flagged = main_step-past_done j j.main refl v.flagged;
  raised = main_step-raised j j.main refl v.raised;
  joined = λ p. rw (main_step-workers j j.main) (main_step-past_workers j j.main refl v.joined p);
  known =
      rw (main_step-workers j j.main)
        (All-map _ _ j.workers (Keeps-Knows j.fn _ (main_step-Keeps j j.main v.flagged)) v.known);
}

pub step-Flow : (j : Job) (t : Thread) → Flow j → Flow (step j t)
unfolding step
step-Flow j main_thread v = main-Flow j v
step-Flow j (sorter i) v = sorter_cases Flow j i v λ pc e. sorter-Flow j i pc v e
step-Flow j (worker i) v = worker_cases Flow j i v λ pc e. worker-Flow j i pc v e

pub run-Flow : (j : Job) (ts : List Thread) → Flow j → Flow (run j ts)
unfolding run
run-Flow j [] v = v
run-Flow j (t ∷ ts) v = run-Flow (step j t) ts (step-Flow j t v)

some_left :
    (fn : Functions) (ws : List WorkPc)
    → ws ≢ []
    → all_left ws ≡ true
    → All (Knows fn) ws
    → Knows fn left
some_left fn [] n h k = absurd (n refl)
some_left fn (WorkPc.left ∷ ws) n h k = k.0
some_left fn (_ ∷ ws) n h k = absurd (cc)

-- Once the workers are joined, if there are any, the flag is set and both queues are empty.
pub Flow-drained :
    (j : Job)
    → Flow j
    → past_workers j.main ≡ true
    → j.workers ≢ []
    → (j.fn.done_stuff ≡ true) × (j.fn.copy_queue ≡ []) × (j.fn.delete_queue ≡ [])
Flow-drained j v p n = some_left j.fn j.workers n (v.joined p) v.known
