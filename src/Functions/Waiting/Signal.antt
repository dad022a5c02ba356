-- ===== src/Functions/Waiting/Signal.antt =====
-- What `_finished` of include/Functions.h says of a `Copy` (src/Functions.cpp).
use sync_files.Base.{◌≡◌, refl, sym, ◌∙◌, true, [], ◌∷◌, List, arith}
use sync_files.Files.{Files}
use sync_files.Functions.State.{Functions}
use sync_files.Functions.Sort.{SortPc, stopped, sort_step}
use sync_files.Functions.Work.{WorkPc, left, work_step}
use sync_files.Functions.Copy.{
  Settings, Job, MainPc, push_deletes, remove_dirs, ended, Thread, main_thread, sorter, worker,
  main_step, step, run,
}
use sync_files.Functions.Copy.Threads.{sorter_cases, worker_cases}
use sync_files.Functions.Copy.Start.{Starts}

-- The flag is set exactly if `Copy` has ended.
pub record Signals (j : Job) : Type 0 where
  pub told : j.fn.finished ≡ true → j.main ≡ ended
  pub heard : j.main ≡ ended → j.fn.finished ≡ true

sort_step-finished :
    (pc : SortPc) (fn : Functions) (fs : Files) → (sort_step pc fn fs).1.finished ≡ fn.finished
unfolding sort_step
sort_step-finished stopped fn fs = refl
sort_step-finished _ fn fs = ground arith

work_step-finished :
    (pc : WorkPc) (fn : Functions) (fs : Files) → (work_step pc fn fs).1.finished ≡ fn.finished
unfolding work_step
work_step-finished left fn fs = refl
work_step-finished _ fn fs = ground arith

main_step-Signals : (j : Job) (m : MainPc) → j.main ≡ m → Signals j → Signals (main_step j m)
unfolding main_step
main_step-Signals j (push_deletes []) e v = record {
  told = λ f. ground arith;
  heard = λ m. ground arith;
}
main_step-Signals j (remove_dirs []) e v = record {
  told = λ f. ground arith;
  heard = λ m. ground arith;
}
main_step-Signals j ended e v = v
main_step-Signals j _ e v = record { told = λ f. ground arith; heard = λ m. ground arith }

step-Signals : (j : Job) (t : Thread) → Signals j → Signals (step j t)
unfolding step
step-Signals j main_thread v = main_step-Signals j j.main refl v
step-Signals j (sorter i) v = sorter_cases Signals j i v λ pc e. record {
  told = λ f. v.told (sym (sort_step-finished pc j.fn j.fs) ∙ f);
  heard = λ m. sort_step-finished pc j.fn j.fs ∙ v.heard m;
}
step-Signals j (worker i) v = worker_cases Signals j i v λ pc e. record {
  told = λ f. v.told (sym (work_step-finished pc j.fn j.fs) ∙ f);
  heard = λ m. work_step-finished pc j.fn j.fs ∙ v.heard m;
}

pub run-Signals : (j : Job) (ts : List Thread) → Signals j → Signals (run j ts)
unfolding run
run-Signals j [] v = v
run-Signals j (t ∷ ts) v = run-Signals (step j t) ts (step-Signals j t v)

pub Starts-Signals : (set : Settings) (j : Job) → Starts set j → Signals j
Starts-Signals set j v = record {
  told = λ f. absurd (grind (arith, v.fresh.unfinished));
  heard = λ m. absurd (grind (arith, v.main_eq));
}
