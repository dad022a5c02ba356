-- ===== src/Functions/Copy/Fair/Sorting.antt =====
-- Under fair rounds, the sorters of `Copy` (src/Functions.cpp) end.
use sync_files.Base.{
  ℕ, ◌≤◌, ◌<◌, ◌≡◌, ◌≢◌, refl, sym, ap, ◌∙◌, true, some, ◌⊎◌, inl, inr, arith, length, get_elem?,
  get-set_ne, get-lt-length, set_same, Bool-cases, [], ℕ_discrete,
}
use mathlib.Core.Path.{subst}
use sync_files.Files.{Files}
use sync_files.Functions.State.{Functions}
use sync_files.Functions.Sort.{SortPc, stopped, sort_step}
use sync_files.Functions.Work.{WorkPc, left, work_step}
use sync_files.Functions.Copy.{
  Job, Thread, main_thread, sorter, worker, MainPc, push_deletes, remove_dirs, main_step, step,
  put_sorter, put_worker, all_stopped,
}
use sync_files.Functions.Copy.Threads.{sorter_cases, worker_cases, step-sorter}
use sync_files.Functions.Copy.Phases.{Flow}
use sync_files.Functions.Copy.Flow.{step-Flow, main_step-sorters}
use sync_files.Functions.Copy.Progress.Sorters.{sorters_left, sorters_left-put, find_running}
use sync_files.Functions.Copy.Fair.{IsThread, Descent, Leads, Descent-Leads}

-- A sorter that goes on.
abbrev Sorts : Job → Thread → Type 0
Sorts j t =
    (i : ℕ) × (pc : SortPc) × (t ≡ sorter i) × (get_elem? j.sorters i ≡ some pc) × (pc ≢ stopped)

main_step-inputs :
    (j : Job) (m : MainPc) → (main_step j m).fn.input_files_set ≡ j.fn.input_files_set
unfolding main_step
main_step-inputs j (push_deletes []) = refl
main_step-inputs j (remove_dirs []) = refl
main_step-inputs j _ = ground arith

work_step-inputs :
    (pc : WorkPc) (fn : Functions) (fs : Files)
    → (work_step pc fn fs).1.input_files_set ≡ fn.input_files_set
unfolding work_step
work_step-inputs left fn fs = refl
work_step-inputs _ fn fs = ground arith

-- A step that is no sorter's leaves the sorters' measure.
sorters_left-eq :
    (j k : Job)
    → k.sorters ≡ j.sorters
    → k.fn.input_files_set ≡ j.fn.input_files_set
    → sorters_left k ≡ sorters_left j
sorters_left-eq j k a b = rw (a, b) refl

stopped_cases : (pc : SortPc) → (pc ≡ stopped) ⊎ (pc ≢ stopped)
stopped_cases stopped = inl refl
stopped_cases _ = inr λ e. cc

-- A sorter that has ended does nothing.
pub put_sorter-stopped :
    (j : Job) (i : ℕ) (pc : SortPc)
    → get_elem? j.sorters i ≡ some pc
    → pc ≡ stopped
    → put_sorter j i (sort_step pc j.fn j.fs) ≡ j
unfolding sort_step
put_sorter-stopped j i pc e h =
    rw h (ap (λ l. record j { sorters = l }) (set_same j.sorters i stopped (e ∙ ap some h)))

sorting_never : (j : Job) (t : Thread) → sorters_left (step j t) ≤ sorters_left j
unfolding step
sorting_never j main_thread = omega (
  arith,
  sorters_left-eq j (main_step j j.main) (main_step-sorters j j.main) (main_step-inputs j j.main),
)
sorting_never j (sorter i) =
    sorter_cases (λ k. sorters_left k ≤ sorters_left j) j i (omega arith)
      λ pc e. elim (stopped_cases pc) [
        | inl h ↦ omega (arith, ap sorters_left (put_sorter-stopped j i pc e h))
        | inr n ↦ omega (arith, sorters_left-put j i pc e n)
      ]
sorting_never j (worker i) =
    worker_cases (λ k. sorters_left k ≤ sorters_left j) j i (omega arith)
      λ pc e. omega (
        arith,
        sorters_left-eq j (put_worker j i (work_step pc j.fn j.fs)) refl
            (work_step-inputs pc j.fn j.fs),
      )

sorting_lower : (j : Job) (t : Thread) → Sorts j t → sorters_left (step j t) < sorters_left j
sorting_lower j t (i, pc, a, e, n) =
    subst (λ u. sorters_left (step j u) < sorters_left j) (sym a)
      (subst (λ k. sorters_left k < sorters_left j) (sym (step-sorter j i pc e))
        (sorters_left-put j i pc e n))

sorting_other : (j : Job) (t u : Thread) → Sorts j t → (u ≡ t) ⊎ Sorts (step j u) t
unfolding step
sorting_other j t main_thread (i, pc, a, e, n) =
    inr (i, pc, a, rw (main_step-sorters j j.main) e, n)
sorting_other j t (worker k) (i, pc, a, e, n) =
    inr (worker_cases (λ x. Sorts x t) j k (i, pc, a, e, n) λ pc' e'. (i, pc, a, e, n))
sorting_other j t (sorter k) (i, pc, a, e, n) = elim (ℕ_discrete k i) [
  | yes p ↦ inl (ap sorter p ∙ sym a)
  | no m ↦ inr (
      sorter_cases (λ x. Sorts x t) j k (i, pc, a, e, n)
        λ pc' e'. (i, pc, a, get-set_ne j.sorters k i _ m ∙ e, n))
]

abbrev pub AllStopped : Job → Type 0
AllStopped j = all_stopped j.sorters ≡ true

sorting_helper :
    (j : Job)
    → AllStopped j ⊎ ((t : Thread) × IsThread (length j.sorters) (length j.workers) t × Sorts j t)
sorting_helper j = elim (Bool-cases (all_stopped j.sorters)) [
  | inl h ↦ inl h
  | inr h ↦
      let (i, pc, e, n) = find_running j.sorters h in
      inr (sorter i, get-lt-length j.sorters i pc e, (i, pc, refl, e, n))
]

sorting_descent : Descent Flow AllStopped
sorting_descent = record {
  measure = sorters_left;
  Helps = Sorts;
  kept = step-Flow;
  never = λ j t v. sorting_never j t;
  lower = λ j t v h. sorting_lower j t h;
  other = λ j t u v h. sorting_other j t u h;
  helper = λ j v. sorting_helper j;
}

pub sorters-Leads : Leads Flow (λ j. Flow j × AllStopped j)
sorters-Leads = Descent-Leads Flow AllStopped sorting_descent
