-- ===== src/Functions/Copy/Idle.antt =====
-- `Copy` of src/Functions.cpp without a worker.
use sync_files.Base.{
  ◌≡◌, refl, sym, ap, ◌∙◌, Bool, true, false, some, List, [], ◌∷◌, Str, arith, get_elem?, replicate,
}
use sync_files.Files.{Files}
use sync_files.Functions.State.{initial}
use sync_files.Functions.Work.{WorkPc}
use sync_files.Functions.Copy.Start.{Starts, start-Starts}
use sync_files.Functions.Copy.Progress.Ending.{can_end}
use sync_files.Functions.Copy.{
  Settings, Job, MainPc, remove_dirs, main_step, Thread, main_thread, sorter, worker, step, run,
  start, ended,
}
use sync_files.Functions.Copy.Threads.{sorter_cases, worker_cases}

abbrev removes : MainPc → Bool
removes (remove_dirs ds) = true
removes _ = false

-- No worker, no deletion, and the files as they were.
record Idle (fs : Files) (j : Job) : Type 0 where
  none_works : j.workers ≡ []
  keeps_extra : j.settings.delete_without_match ≡ false
  removes_none : removes j.main ≡ false
  files : j.fs ≡ fs

main_step-Idle :
    (fs : Files) (j : Job) (m : MainPc) → removes m ≡ false → Idle fs j → Idle fs (main_step j m)
unfolding main_step
main_step-Idle fs j m e v = record {
  none_works = ground (arith, v.none_works);
  keeps_extra = ground (arith, v.keeps_extra);
  removes_none = ground (arith, v.keeps_extra);
  files = ground (arith, v.files);
}

step-Idle : (fs : Files) (j : Job) (t : Thread) → Idle fs j → Idle fs (step j t)
unfolding step
step-Idle fs j main_thread v = main_step-Idle fs j j.main v.removes_none v
step-Idle fs j (sorter i) v = sorter_cases (Idle fs) j i v λ pc e. record {
  none_works = v.none_works;
  keeps_extra = v.keeps_extra;
  removes_none = v.removes_none;
  files = v.files;
}
step-Idle fs j (worker i) v =
    worker_cases (Idle fs) j i v
      λ pc e. absurd (no_worker pc (ap (λ ws. get_elem? ws i) (sym v.none_works) ∙ e))
  where
    no_worker : (pc : WorkPc) → get_elem? [] i ≡ some pc → ⊥
    no_worker pc x = cc

run-Idle : (fs : Files) (j : Job) (ts : List Thread) → Idle fs j → Idle fs (run j ts)
unfolding run
run-Idle fs j [] v = v
run-Idle fs j (t ∷ ts) v = run-Idle fs (step j t) ts (step-Idle fs j t v)

Starts-Idle :
    (set : Settings) (j : Job)
    → set.processors ≡ 0
    → set.delete_without_match ≡ false
    → Starts set j
    → Idle j.fs j
Starts-Idle set j p d v = record {
  none_works = v.workers_eq ∙ ap (λ n. replicate n WorkPc.check_done) p;
  keeps_extra = ap (λ s. s.delete_without_match) v.settings_eq ∙ d;
  removes_none = ap removes v.main_eq;
  files = refl;
}

-- Without a worker and without -d, the threads of a started `Copy` change no file, whatever they
-- do, and `Copy` still comes to its end.
pub copies_nothing :
    (set : Settings) (fs : Files) (input output : Str) (j : Job) (ts : List Thread)
    → set.processors ≡ 0
    → set.delete_without_match ≡ false
    → start set initial fs input output ≡ some j
    → ((run j ts).fs ≡ j.fs) × ((us : List Thread) × ((run (run j ts) us).main ≡ ended))
copies_nothing set fs input output j ts p d e = (
  (run-Idle j.fs j ts (Starts-Idle set j p d (start-Starts set fs input output j e))).files,
  can_end set fs input output j ts e,
)
