-- ===== src/Functions/Copy/Progress/Sorters.antt =====
-- The sorters of `Copy` (src/Functions.cpp) can always all end.
use sync_files.Base.{
  ℕ, zero, suc, ◌+◌, ◌*◌, ◌<◌, ◌≤◌, ◌≡◌, ◌≢◌, refl, ap, sym, Bool, true, false, List, [], ◌∷◌, ◌⊎◌,
  inl, inr, Bool-cases, some, arith, length, set, get_elem?, total, total-set, Str,
}
use mathlib.Core.Path.{subst}
use sync_files.Files.{Files}
use sync_files.Functions.State.{Functions}
use sync_files.Functions.Sort.{
  SortPc, check, pop, judge, enqueue, measure, forget, stopped, judge_file, sort_step,
}
use sync_files.Functions.Work.{is_nil}
use sync_files.Functions.Copy.{Job, Thread, sorter, step, put_sorter, all_stopped}
use sync_files.Functions.Copy.Phases.{Flow}
use sync_files.Functions.Copy.Flow.{step-Flow}
use sync_files.Functions.Copy.Threads.{step-sorter}
use sync_files.Functions.Copy.Progress.{Reaches, Reaches-measure}

-- How far a sorter is from its end, where the flag says that no input is left.
abbrev weight : Bool → SortPc → ℕ
weight true check = 1
weight false check = 3
weight e pop = 2
weight e (judge g) = 8
weight e (enqueue g matched) = 7
weight e (measure g matched) = 6
weight e (forget g) = 5
weight e stopped = 0

weight_mono : (b : Bool) (pc : SortPc) → weight b pc ≤ weight false pc
weight_mono false pc = omega arith
weight_mono true check = omega arith
weight_mono true pop = omega arith
weight_mono true (judge g) = omega arith
weight_mono true (enqueue g matched) = omega arith
weight_mono true (measure g matched) = omega arith
weight_mono true (forget g) = omega arith
weight_mono true stopped = omega arith

total-weight_mono : (b : Bool) (ps : List SortPc) → total (weight b) ps ≤ total (weight false) ps
total-weight_mono b [] = omega arith
total-weight_mono b (p ∷ ps) = omega (arith, weight_mono b p, total-weight_mono b ps)

-- A judged file is queued, skipped or left.
judge_file-weight :
    (b : Bool) (fn : Functions) (fs : Files) (g : Str) → weight b (judge_file fn fs g) < 8
unfolding judge_file
judge_file-weight true fn fs g = ground arith
judge_file-weight false fn fs g = ground arith

abbrev inputs : Functions → List Str
inputs fn = fn.input_files_set

-- A step takes an input, or brings its sorter nearer to its end.
sort_step-weight :
    (pc : SortPc) (fn : Functions) (fs : Files) (l : List Str)
    → inputs fn ≡ l
    → pc ≢ stopped
    → let (pc', fn') = sort_step pc fn fs in
      ((g : Str) × (r : List Str) × (l ≡ g ∷ r) × (inputs fn' ≡ r) × (pc ≡ pop) × (pc' ≡ judge g))
      ⊎ ((inputs fn' ≡ inputs fn)
          × (weight (is_nil (inputs fn)) pc' < weight (is_nil (inputs fn)) pc))
unfolding sort_step
sort_step-weight check fn fs [] e n = inr (rw e (refl, omega arith))
sort_step-weight check fn fs (x ∷ r) e n = inr (rw e (refl, omega arith))
sort_step-weight pop fn fs [] e n = inr (rw e (refl, omega arith))
sort_step-weight pop fn fs (x ∷ r) e n = inl (x, r, refl, rw e refl, refl, rw e refl)
sort_step-weight (judge g) fn fs l e n = inr (refl, judge_file-weight _ fn fs g)
sort_step-weight (enqueue g matched) fn fs l e n = inr (refl, omega arith)
sort_step-weight (measure g true) fn fs l e n = inr (refl, omega arith)
sort_step-weight (measure g false) fn fs [] e n = inr (refl, rw e (omega arith))
sort_step-weight (measure g false) fn fs (x ∷ r) e n = inr (refl, rw e (omega arith))
sort_step-weight (forget g) fn fs [] e n = inr (refl, rw e (omega arith))
sort_step-weight (forget g) fn fs (x ∷ r) e n = inr (refl, rw e (omega arith))
sort_step-weight stopped fn fs l e n = absurd (n refl)

pub find_running :
    (ps : List SortPc)
    → all_stopped ps ≡ false
    → (i : ℕ) × (pc : SortPc) × (get_elem? ps i ≡ some pc) × (pc ≢ stopped)
find_running [] h = absurd (cc)
find_running (SortPc.stopped ∷ ps) h = let (i, pc, e, n) = find_running ps h in (suc i, pc, e, n)
find_running (p ∷ ps) h = (zero, p, refl, λ e. cc)

-- What the sorters have still to do.
abbrev pub sorters_left : Job → ℕ
sorters_left j = total (weight (is_nil (inputs j.fn))) j.sorters + 20 * length (inputs j.fn)

taken :
    (l : List Str) (g : Str) (r : List Str) (m : ℕ) (ps : List SortPc)
    → l ≡ g ∷ r
    → m < total (weight false) ps + 20
    → m + 20 * length r < total (weight (is_nil l)) ps + 20 * length l
taken l g r m ps a h = rw a (omega arith)

pub sorters_left-put :
    (j : Job) (i : ℕ) (pc : SortPc)
    → get_elem? j.sorters i ≡ some pc
    → pc ≢ stopped
    → sorters_left (put_sorter j i (sort_step pc j.fn j.fs)) < sorters_left j
sorters_left-put j i pc e n = elim (sort_step-weight pc j.fn j.fs (inputs j.fn) refl n) [
  | inl (g, r, a, b, c, d) ↦
      rw (b, d)
        (taken (inputs j.fn) g r _ j.sorters a (
          omega (
            arith,
            total-weight_mono (is_nil r) (set j.sorters i (judge g)),
            total-set (weight false) j.sorters i pc (judge g) e,
            ap (weight false) c,
          )))
  | inr (a, b) ↦ rw a (
      omega (
        arith,
        b,
        total-set (weight (is_nil (inputs j.fn))) j.sorters i pc (sort_step pc j.fn j.fs).0 e,
      ))
]

running-progress :
    (j : Job)
    → Flow j
    → (all_stopped j.sorters ≡ true)
      ⊎ ((t : Thread) × Flow (step j t) × (sorters_left (step j t) < sorters_left j))
running-progress j v = elim (Bool-cases (all_stopped j.sorters)) [
  | inl h ↦ inl h
  | inr h ↦
      let (i, pc, e, n) = find_running j.sorters h in
      inr (
        sorter i,
        step-Flow j (sorter i) v,
        subst (λ k. sorters_left k < sorters_left j) (sym (step-sorter j i pc e))
            (sorters_left-put j i pc e n),
      )
]

-- From any state, the sorters can all end.
pub sorters_end : (j : Job) → Flow j → Reaches j (λ k. Flow k × (all_stopped k.sorters ≡ true))
sorters_end j v =
    Reaches-measure Flow _ sorters_left (λ k w. with_flow k w (running-progress k w))
      (suc (sorters_left j)) j (omega arith) v
  where
    with_flow :
        (k : Job)
        → Flow k
        → (all_stopped k.sorters ≡ true)
          ⊎ ((t : Thread) × Flow (step k t) × (sorters_left (step k t) < sorters_left k))
        → (Flow k × (all_stopped k.sorters ≡ true))
          ⊎ ((t : Thread) × Flow (step k t) × (sorters_left (step k t) < sorters_left k))
    with_flow k w (inl h) = inl (w, h)
    with_flow k w (inr h) = inr h
