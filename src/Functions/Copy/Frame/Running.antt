-- ===== src/Functions/Copy/Frame/Running.antt =====
-- A path that no name of a `Copy` (src/Functions.cpp) reaches, through every schedule.
use sync_files.Base.{
  ℕ, zero, suc, ◌≡◌, refl, ◌∙◌, some, List, [], ◌∷◌, All, All-set, All-get, get_elem?, replicate,
}
use sync_files.Functions.Sort.{SortPc, sort_step}
use sync_files.Functions.Work.{WorkPc, work_step}
use sync_files.Functions.Copy.{
  Job, Thread, main_thread, sorter, worker, step, run, put_sorter, put_worker,
}
use sync_files.Functions.Copy.Threads.{sorter_cases, worker_cases}
use sync_files.Functions.Copy.Frame.{Watch, WorkSafe, Framed}
use sync_files.Functions.Copy.Frame.Main.{main-Framed}
use sync_files.Functions.Copy.Frame.Sorting.{sort_step-Clear}
use sync_files.Functions.Copy.Frame.Working.{work_step-Clear, lookup-work_step}

module _ (w : Watch) where
  open w use {inp, out, path, node, moves, deletes}

  sorter-Framed :
      (j : Job) (i : ℕ) (pc : SortPc)
      → Framed w j
      → get_elem? j.sorters i ≡ some pc
      → Framed w (put_sorter j i (sort_step pc j.fn j.fs))
  sorter-Framed j i pc v e =
      let (c, h) = sort_step-Clear w pc j.fn j.fs v.clear (All-get _ j.sorters i pc v.sorts e) in
      record {
        clear = c;
        deletes_eq = v.deletes_eq;
        main_safe = v.main_safe;
        sorts = All-set _ j.sorters i _ v.sorts h;
        works = v.works;
        same = v.same;
      }

  worker-Framed :
      (j : Job) (i : ℕ) (pc : WorkPc)
      → Framed w j
      → get_elem? j.workers i ≡ some pc
      → Framed w (put_worker j i (work_step pc j.fn j.fs))
  worker-Framed j i pc v e =
      let k = All-get (WorkSafe w) j.workers i pc v.works e in
      let (c, h) = work_step-Clear w pc j.fn j.fs v.clear k in
      record {
        clear = c;
        deletes_eq = v.deletes_eq;
        main_safe = v.main_safe;
        sorts = v.sorts;
        works = All-set _ j.workers i _ v.works h;
        same = lookup-work_step w pc j.fn j.fs v.clear k ∙ v.same;
      }

  step-Framed : (j : Job) (t : Thread) → Framed w j → Framed w (step j t)
  unfolding step
  step-Framed j main_thread v = main-Framed w j j.main refl v
  step-Framed j (sorter i) v = sorter_cases (Framed w) j i v λ pc e. sorter-Framed j i pc v e
  step-Framed j (worker i) v = worker_cases (Framed w) j i v λ pc e. worker-Framed j i pc v e

  pub run-Framed : (j : Job) (ts : List Thread) → Framed w j → Framed w (run j ts)
  unfolding run
  run-Framed j [] v = v
  run-Framed j (t ∷ ts) v = run-Framed (step j t) ts (step-Framed j t v)

  pub check_done-WorkSafe : (n : ℕ) → All (WorkSafe w) (replicate n WorkPc.check_done)
  check_done-WorkSafe zero = tt
  check_done-WorkSafe (suc n) = (tt, check_done-WorkSafe n)
