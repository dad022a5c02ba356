-- ===== src/Functions/Copy/Balance.antt =====
-- The counters of src/Functions.cpp: each file that is queued for copying is counted as copied, or
-- its failure is in `errors`, or it is still on its way.
use sync_files.Base.{
  ℕ, suc, ◌+◌, ◌%◌, ◌^◌, ◌<◌, ◌≡◌, ◌≢◌, refl, ap, true, List, [], ◌∷◌, ◌++◌, arith, get_elem?,
  Option, none, some, Str, length, length-append, total, total-set,
}
use sync_files.Files.{Files}
use sync_files.Files.Calls.{remove}
use sync_files.Functions.State.{Functions, Fault, copy_fault, delete_fault}
use sync_files.Functions.Sort.{SortPc, enqueue, measure, stopped, sort_step}
use sync_files.Functions.Work.{
  WorkPc, copying, deleting, left, work_step, transfer, after_transfer, after_remove,
}
use sync_files.Functions.Copy.{
  Job, MainPc, push_deletes, remove_dirs, main_step, Thread, main_thread, sorter, worker, step, run,
  put_sorter, put_worker, all_stopped, all_left,
}
use sync_files.Functions.Copy.Threads.{sorter_cases, worker_cases}
use sync_files.Functions.Copy.Phases.{Flow, past_sorters, past_workers}
use sync_files.Functions.Copy.Flow.{Flow-drained, main_step-workers, main_step-sorters}

-- A sorter that has queued a file and not counted it yet.
abbrev pub uncounted : SortPc → ℕ
uncounted (measure name matched) = 1
uncounted _ = 0

-- A worker that has taken a file and not copied it yet.
abbrev pub underway : WorkPc → ℕ
underway (copying name) = 1
underway _ = 0

abbrev pub copy_faults : List Fault → ℕ
copy_faults [] = 0
copy_faults (copy_fault name ∷ es) = suc (copy_faults es)
copy_faults (delete_fault name ∷ es) = copy_faults es

copy_faults-append : (es ds : List Fault) → copy_faults (es ++ ds) ≡ copy_faults es + copy_faults ds
copy_faults-append [] ds = omega arith
copy_faults-append (copy_fault x ∷ es) ds = omega (arith, copy_faults-append es ds)
copy_faults-append (delete_fault x ∷ es) ds = omega (arith, copy_faults-append es ds)

-- Copied, failed, or queued.
abbrev settled : Functions → ℕ
settled fn = fn.files_copied + copy_faults fn.errors + length fn.copy_queue

pub record Balance (j : Job) : Type 0 where
  pub balanced :
      (j.fn.files_to_copy + total uncounted j.sorters) % 2 ^ 64
      ≡ (j.fn.files_copied
          + copy_faults j.fn.errors
          + length j.fn.copy_queue
          + total underway j.workers)
        % 2 ^ 64
  pub to_copy_small : j.fn.files_to_copy < 2 ^ 64
  pub copied_small : j.fn.files_copied < 2 ^ 64

sort_step-settled :
    (pc : SortPc) (fn : Functions) (fs : Files)
    → fn.files_to_copy < 2 ^ 64
    → let (pc', fn') = sort_step pc fn fs in
      ((fn'.files_to_copy + uncounted pc' + settled fn) % 2 ^ 64
        ≡ (fn.files_to_copy + uncounted pc + settled fn') % 2 ^ 64)
      × (fn'.files_to_copy < 2 ^ 64)
      × (fn'.files_copied ≡ fn.files_copied)
unfolding sort_step
sort_step-settled stopped fn fs h = ground arith
sort_step-settled (enqueue name matched) fn fs h =
    ground (arith, length-append fn.copy_queue (name ∷ []))
sort_step-settled _ fn fs h = ground arith

after_transfer-settled :
    (fn : Functions) (fs : Files) (name : Str) (o : Option Files)
    → fn.files_copied < 2 ^ 64
    → let (fn', fs') = after_transfer fn fs name o in
      (settled fn' % 2 ^ 64 ≡ (settled fn + 1) % 2 ^ 64)
      × (fn'.files_copied < 2 ^ 64)
      × (fn'.files_to_copy ≡ fn.files_to_copy)
after_transfer-settled fn fs name none h =
    ground (arith, copy_faults-append fn.errors (copy_fault name ∷ []))
after_transfer-settled fn fs name (some fs') h = ground arith

after_remove-settled :
    (fn : Functions) (fs : Files) (name : Str) (o : Option Files)
    → let (fn', fs') = after_remove fn fs name o in
      (settled fn' ≡ settled fn)
      × (fn'.files_copied ≡ fn.files_copied)
      × (fn'.files_to_copy ≡ fn.files_to_copy)
after_remove-settled fn fs name none =
    ground (arith, copy_faults-append fn.errors (delete_fault name ∷ []))
after_remove-settled fn fs name (some fs') = ground arith

work_step-settled :
    (pc : WorkPc) (fn : Functions) (fs : Files)
    → fn.files_copied < 2 ^ 64
    → let (pc', fn', fs') = work_step pc fn fs in
      ((settled fn' + underway pc') % 2 ^ 64 ≡ (settled fn + underway pc) % 2 ^ 64)
      × (fn'.files_copied < 2 ^ 64)
      × (fn'.files_to_copy ≡ fn.files_to_copy)
unfolding work_step
work_step-settled left fn fs h = ground arith
work_step-settled (copying name) fn fs h =
    omega (arith, after_transfer-settled fn fs name (transfer fn fs name) h)
work_step-settled (deleting name) fn fs h =
    omega (arith, after_remove-settled fn fs name (remove fs (fn.output_prefix ++ name)))
work_step-settled _ fn fs h = ground arith

sorter-Balance :
    (j : Job) (i : ℕ) (pc : SortPc)
    → Balance j
    → get_elem? j.sorters i ≡ some pc
    → Balance (put_sorter j i (sort_step pc j.fn j.fs))
sorter-Balance j i pc v e = omega (
  arith,
  total-set uncounted j.sorters i pc (sort_step pc j.fn j.fs).0 e,
  sort_step-settled pc j.fn j.fs v.to_copy_small,
)

worker-Balance :
    (j : Job) (i : ℕ) (pc : WorkPc)
    → Balance j
    → get_elem? j.workers i ≡ some pc
    → Balance (put_worker j i (work_step pc j.fn j.fs))
worker-Balance j i pc v e = omega (
  arith,
  total-set underway j.workers i pc (work_step pc j.fn j.fs).0 e,
  work_step-settled pc j.fn j.fs v.copied_small,
)

-- The thread of `Copy` moves none of the counters.
main_step-settled :
    (j : Job) (m : MainPc)
    → (settled (main_step j m).fn ≡ settled j.fn)
      × ((main_step j m).fn.files_to_copy ≡ j.fn.files_to_copy)
      × ((main_step j m).fn.files_copied ≡ j.fn.files_copied)
unfolding main_step
main_step-settled j (push_deletes []) = ground arith
main_step-settled j (remove_dirs []) = ground arith
main_step-settled j _ = ground arith

main-Balance : (j : Job) → Balance j → Balance (main_step j j.main)
main-Balance j v = record {
  balanced =
      rw (main_step-workers j j.main, main_step-sorters j j.main)
        (omega (arith, main_step-settled j j.main));
  to_copy_small = omega (arith, main_step-settled j j.main);
  copied_small = omega (arith, main_step-settled j j.main);
}

pub step-Balance : (j : Job) (t : Thread) → Balance j → Balance (step j t)
unfolding step
step-Balance j main_thread v = main-Balance j v
step-Balance j (sorter i) v = sorter_cases Balance j i v λ pc e. sorter-Balance j i pc v e
step-Balance j (worker i) v = worker_cases Balance j i v λ pc e. worker-Balance j i pc v e

pub run-Balance : (j : Job) (ts : List Thread) → Balance j → Balance (run j ts)
unfolding run
run-Balance j [] v = v
run-Balance j (t ∷ ts) v = run-Balance (step j t) ts (step-Balance j t v)

underway-left : (ws : List WorkPc) → all_left ws ≡ true → total underway ws ≡ 0
underway-left [] h = refl
underway-left (WorkPc.left ∷ ws) h = omega (arith, underway-left ws h)
underway-left (_ ∷ ws) h = absurd (cc)

uncounted-stopped : (ps : List SortPc) → all_stopped ps ≡ true → total uncounted ps ≡ 0
uncounted-stopped [] h = refl
uncounted-stopped (SortPc.stopped ∷ ps) h = omega (arith, uncounted-stopped ps h)
uncounted-stopped (_ ∷ ps) h = absurd (cc)

past_sorters-past_workers : (m : MainPc) → past_workers m ≡ true → past_sorters m ≡ true
past_sorters-past_workers (remove_dirs ds) h = refl
past_sorters-past_workers _ h = ground arith

-- With the workers joined, each file that was to be copied was copied or has an error.
pub Balance-settled :
    (j : Job)
    → Flow j
    → Balance j
    → past_workers j.main ≡ true
    → j.workers ≢ []
    → j.fn.files_to_copy ≡ (j.fn.files_copied + copy_faults j.fn.errors) % 2 ^ 64
Balance-settled j v b p n = omega (
  arith,
  b.balanced,
  b.to_copy_small,
  ap (length {A = Str}) (Flow-drained j v p n).1,
  underway-left j.workers (v.joined p),
  uncounted-stopped j.sorters (v.sorted (past_sorters-past_workers j.main p)),
)
