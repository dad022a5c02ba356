-- ===== src/Functions/Copy/Fair/Queueing.antt =====
-- Under fair rounds, the thread of `Copy` (src/Functions.cpp) joins the sorters, queues what is to
-- be deleted, and sets `_doneStuff`.
use sync_files.Base.{
  ℕ, ◌+◌, ◌≤◌, ◌<◌, ◌≡◌, refl, sym, ap, ◌∙◌, true, false, ◌⊎◌, inl, inr, arith, length, Bool-cases,
  [], ◌∷◌,
}
use mathlib.Core.Path.{subst}
use sync_files.Files.{Files}
use sync_files.Functions.State.{Functions}
use sync_files.Functions.Work.{WorkPc, left, work_step}
use sync_files.Functions.Copy.{
  Job, Thread, main_thread, sorter, worker, MainPc, join_sorters, push_deletes, set_done,
  join_workers, remove_dirs, set_finished, ended, main_step, step, all_stopped, all_left,
}
use sync_files.Functions.Copy.Threads.{sorter_cases, worker_cases, all_stopped-get}
use sync_files.Functions.Copy.Phases.{Flow, past_done}
use sync_files.Functions.Copy.Flow.{step-Flow, main_step-sorters}
use sync_files.Functions.Copy.Fair.{Descent, Leads, Descent-Leads}
use sync_files.Functions.Copy.Fair.Sorting.{AllStopped, put_sorter-stopped}

abbrev pub Sorted : Job → Type 0
Sorted j = Flow j × AllStopped j

-- The steps to the flag, for a number of extra files.
abbrev distance : ℕ → MainPc → ℕ
distance n join_sorters = n + 3
distance n (push_deletes ds) = length ds + 2
distance n set_done = 1
distance n _ = 0

abbrev queueing_left : Job → ℕ
queueing_left j = distance (length j.fn.output_files_set) j.main

-- Where all sorters have ended, a sorter does nothing.
pub sorter_step-Sorted : (j : Job) (i : ℕ) → AllStopped j → step j (sorter i) ≡ j
sorter_step-Sorted j i h =
    sorter_cases (λ k. k ≡ j) j i refl
      λ pc e. put_sorter-stopped j i pc e (all_stopped-get j.sorters i pc h e)

work_step-extras :
    (pc : WorkPc) (fn : Functions) (fs : Files)
    → (work_step pc fn fs).1.output_files_set ≡ fn.output_files_set
unfolding work_step
work_step-extras left fn fs = refl
work_step-extras _ fn fs = ground arith

main_lower :
    (j : Job) (m : MainPc)
    → AllStopped j
    → past_done m ≡ false
    → distance (length (main_step j m).fn.output_files_set) (main_step j m).main
      < distance (length j.fn.output_files_set) m
unfolding main_step
main_lower j join_sorters h p = elim (Bool-cases j.settings.delete_without_match) [
  | inl e ↦ rw (h, e) (omega arith)
  | inr e ↦ rw (h, e) (omega arith)
]
main_lower j (push_deletes []) h p = omega arith
main_lower j (push_deletes (d ∷ ds)) h p = omega arith
main_lower j set_done h p = omega arith
main_lower j _ h p = absurd (cc)

main_past :
    (j : Job) (m : MainPc)
    → j.main ≡ m
    → past_done m ≡ true
    → distance (length (main_step j m).fn.output_files_set) (main_step j m).main ≡ 0
unfolding main_step
main_past j join_workers e p = elim (Bool-cases (all_left j.workers)) [
  | inl h ↦ elim (Bool-cases j.settings.delete_without_match) [
    | inl d ↦ rw (h, d) refl
    | inr d ↦ rw (h, d) refl
  ]
  | inr h ↦ rw (h, e) refl
]
main_past j (remove_dirs []) e p = refl
main_past j (remove_dirs (d ∷ ds)) e p = refl
main_past j set_finished e p = refl
main_past j ended e p = rw e refl
main_past j _ e p = absurd (cc)

queueing_never : (j : Job) (t : Thread) → Sorted j → queueing_left (step j t) ≤ queueing_left j
unfolding step
queueing_never j main_thread v = elim (Bool-cases (past_done j.main)) [
  | inl p ↦ omega (arith, main_past j j.main refl p)
  | inr p ↦ omega (arith, main_lower j j.main v.1 p)
]
queueing_never j (sorter i) v = omega (arith, ap queueing_left (sorter_step-Sorted j i v.1))
queueing_never j (worker i) v =
    worker_cases (λ k. queueing_left k ≤ queueing_left j) j i (omega arith)
      λ pc e. rw (work_step-extras pc j.fn j.fs) (omega arith)

-- The thread of `Copy`, before the flag.
abbrev Queues : Job → Thread → Type 0
Queues j t = (t ≡ main_thread) × (past_done j.main ≡ false)

queueing_lower :
    (j : Job) (t : Thread) → Sorted j → Queues j t → queueing_left (step j t) < queueing_left j
unfolding step
queueing_lower j t v (a, p) =
    subst (λ u. queueing_left (step j u) < queueing_left j) (sym a) (main_lower j j.main v.1 p)

queueing_other : (j : Job) (t u : Thread) → Sorted j → Queues j t → (u ≡ t) ⊎ Queues (step j u) t
queueing_other j t main_thread v (a, p) = inl (sym a)
queueing_other j t (sorter i) v (a, p) =
    inr (subst (λ k. Queues k t) (sym (sorter_step-Sorted j i v.1)) (a, p))
queueing_other j t (worker i) v (a, p) =
    inr (worker_cases (λ k. Queues k t) j i (a, p) λ pc e. (a, p))

pub Sorted-step : (j : Job) (t : Thread) → Sorted j → Sorted (step j t)
unfolding step
Sorted-step j main_thread v =
    (step-Flow j main_thread v.0, ap all_stopped (main_step-sorters j j.main) ∙ v.1)
Sorted-step j (sorter i) v = subst Sorted (sym (sorter_step-Sorted j i v.1)) v
Sorted-step j (worker i) v =
    (step-Flow j (worker i) v.0, worker_cases AllStopped j i v.1 λ pc e. v.1)

queueing_descent : Descent Sorted (λ j. past_done j.main ≡ true)
queueing_descent = record {
  measure = queueing_left;
  Helps = Queues;
  kept = Sorted-step;
  never = queueing_never;
  lower = queueing_lower;
  other = queueing_other;
  helper = λ j v. elim (Bool-cases (past_done j.main)) [
    | inl p ↦ inl p
    | inr p ↦ inr (main_thread, tt, (refl, p))
  ];
}

pub queueing-Leads : Leads Sorted (λ j. Sorted j × (past_done j.main ≡ true))
queueing-Leads = Descent-Leads Sorted (λ j. past_done j.main ≡ true) queueing_descent
