-- ===== src/Functions/Copy/Inputs.antt =====
-- A sorter of `Copy` (src/Functions.cpp) ends only when no input is left to be judged.
use sync_files.Base.{
  ℕ, ◌<◌, ◌≡◌, ◌≢◌, refl, false, ◌∙◌, true, List, [], ◌∷◌, some, arith, length, length-set, All,
  All-set, All-map, All-get, get_elem?, Str,
}
use sync_files.Files.{Files}
use sync_files.Functions.State.{Functions}
use sync_files.Functions.Sort.{
  SortPc, check, pop, judge, enqueue, measure, forget, stopped, take_input, judge_file, sort_step,
}
use sync_files.Functions.Work.{WorkPc, left, work_step}
use sync_files.Functions.Copy.{
  Job, MainPc, push_deletes, remove_dirs, main_step, Thread, main_thread, sorter, worker, step, run,
  put_sorter, all_stopped,
}
use sync_files.Functions.Copy.Threads.{sorter_cases, worker_cases}
use sync_files.Functions.Copy.Flow.{main_step-sorters}

abbrev pub SortKnows : Functions → SortPc → Type 0
SortKnows fn stopped = fn.input_files_set ≡ []
SortKnows fn _ = Unit

-- Each sorter that has ended found no input, and there is at least one sorter.
pub record Inputs (j : Job) : Type 0 where
  pub known : All (SortKnows j.fn) j.sorters
  pub some_sorter : 0 < length j.sorters

SortKnows-map :
    (fn fn' : Functions)
    → (fn.input_files_set ≡ [] → fn'.input_files_set ≡ [])
    → (pc : SortPc) → SortKnows fn pc
    → SortKnows fn' pc
SortKnows-map fn fn' f stopped h = f h
SortKnows-map fn fn' f _ h = tt

take_input-empty :
    (l : List Str) (fn : Functions)
    → fn.input_files_set ≡ l
    → fn.input_files_set ≡ []
    → (take_input fn l).1.input_files_set ≡ []
take_input-empty [] fn e h = h
take_input-empty (x ∷ l) fn e h = ground arith

sort_step-empty :
    (pc : SortPc) (fn : Functions) (fs : Files)
    → fn.input_files_set ≡ []
    → (sort_step pc fn fs).1.input_files_set ≡ []
unfolding sort_step
sort_step-empty pop fn fs h = take_input-empty fn.input_files_set fn refl h
sort_step-empty _ fn fs h = h

check-SortKnows :
    (fn : Functions) (l : List Str)
    → fn.input_files_set ≡ l
    → SortKnows fn (elim l [ [] ↦ stopped | x ∷ r ↦ pop ])
check-SortKnows fn [] e = e
check-SortKnows fn (x ∷ r) e = tt

not_stopped-SortKnows : (fn : Functions) (pc : SortPc) → pc ≢ stopped → SortKnows fn pc
not_stopped-SortKnows fn stopped n = absurd (n refl)
not_stopped-SortKnows fn _ n = tt

judge_file-ne-stopped : (fn : Functions) (fs : Files) (g : Str) → judge_file fn fs g ≢ stopped
unfolding judge_file
judge_file-ne-stopped fn fs g = ground arith

take_input-SortKnows :
    (l : List Str) (fn : Functions) → SortKnows (take_input fn l).1 (take_input fn l).0
take_input-SortKnows [] fn = tt
take_input-SortKnows (x ∷ l) fn = tt

sort_step-SortKnows :
    (pc : SortPc) (fn : Functions) (fs : Files)
    → SortKnows fn pc
    → SortKnows (sort_step pc fn fs).1 (sort_step pc fn fs).0
unfolding sort_step
sort_step-SortKnows check fn fs h = check-SortKnows fn fn.input_files_set refl
sort_step-SortKnows stopped fn fs h = h
sort_step-SortKnows pop fn fs h = take_input-SortKnows fn.input_files_set fn
sort_step-SortKnows (judge g) fn fs h =
    not_stopped-SortKnows fn (judge_file fn fs g) (judge_file-ne-stopped fn fs g)
sort_step-SortKnows (enqueue g matched) fn fs h = tt
sort_step-SortKnows (measure g true) fn fs h = tt
sort_step-SortKnows (measure g false) fn fs h = tt
sort_step-SortKnows (forget g) fn fs h = tt

work_step-inputs :
    (pc : WorkPc) (fn : Functions) (fs : Files)
    → (work_step pc fn fs).1.input_files_set ≡ fn.input_files_set
unfolding work_step
work_step-inputs left fn fs = refl
work_step-inputs _ fn fs = ground arith

main_step-inputs :
    (j : Job) (m : MainPc) → (main_step j m).fn.input_files_set ≡ j.fn.input_files_set
unfolding main_step
main_step-inputs j (push_deletes []) = refl
main_step-inputs j (remove_dirs []) = refl
main_step-inputs j _ = ground arith

sorter-Inputs :
    (j : Job) (i : ℕ) (pc : SortPc)
    → Inputs j
    → get_elem? j.sorters i ≡ some pc
    → Inputs (put_sorter j i (sort_step pc j.fn j.fs))
sorter-Inputs j i pc v e = record {
  known =
      All-set _ j.sorters i (sort_step pc j.fn j.fs).0
        (All-map _ _ j.sorters
          (SortKnows-map j.fn (sort_step pc j.fn j.fs).1 (sort_step-empty pc j.fn j.fs)) v.known)
        (sort_step-SortKnows pc j.fn j.fs (All-get _ j.sorters i pc v.known e));
  some_sorter = omega (arith, length-set j.sorters i (sort_step pc j.fn j.fs).0);
}

pub step-Inputs : (j : Job) (t : Thread) → Inputs j → Inputs (step j t)
unfolding step
step-Inputs j main_thread v = record {
  known = rw (main_step-sorters j j.main) (
      All-map _ _ j.sorters
        (SortKnows-map j.fn (main_step j j.main).fn (λ h. main_step-inputs j j.main ∙ h)) v.known);
  some_sorter = rw (main_step-sorters j j.main) v.some_sorter;
}
step-Inputs j (sorter i) v = sorter_cases Inputs j i v λ pc e. sorter-Inputs j i pc v e
step-Inputs j (worker i) v = worker_cases Inputs j i v λ pc e. record {
  known =
      All-map _ _ j.sorters
        (SortKnows-map j.fn (work_step pc j.fn j.fs).1 (λ h. work_step-inputs pc j.fn j.fs ∙ h))
        v.known;
  some_sorter = v.some_sorter;
}

pub run-Inputs : (j : Job) (ts : List Thread) → Inputs j → Inputs (run j ts)
unfolding run
run-Inputs j [] v = v
run-Inputs j (t ∷ ts) v = run-Inputs (step j t) ts (step-Inputs j t v)

stopped_inputs :
    (fn : Functions) (ps : List SortPc)
    → 0 < length ps
    → all_stopped ps ≡ true
    → All (SortKnows fn) ps
    → fn.input_files_set ≡ []
stopped_inputs fn [] n h k = absurd (omega arith)
stopped_inputs fn (SortPc.stopped ∷ ps) n h k = k.0
stopped_inputs fn (_ ∷ ps) n h k = absurd (cc)

-- Once the sorters have all ended, every input has been judged.
pub Inputs-empty : (j : Job) → Inputs j → all_stopped j.sorters ≡ true → j.fn.input_files_set ≡ []
Inputs-empty j v h = stopped_inputs j.fn j.sorters v.some_sorter h v.known
