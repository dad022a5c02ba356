-- ===== src/Functions/Copy/Fair/Working.antt =====
-- Under fair rounds, once `_doneStuff` is set, the workers of `Copy` (src/Functions.cpp) end.
use sync_files.Base.{
  ℕ, ◌≤◌, ◌<◌, ◌≡◌, ◌≢◌, refl, sym, ap, ◌∙◌, true, some, ◌⊎◌, inl, inr, arith, length, get_elem?,
  get-set_ne, get-lt-length, set_same, Bool-cases, [], ◌∷◌, ℕ_discrete,
}
use mathlib.Core.Path.{subst}
use sync_files.Functions.Work.{WorkPc, left, work_step}
use sync_files.Functions.Copy.{
  Job, Thread, main_thread, sorter, worker, MainPc, join_workers, remove_dirs, set_finished, ended,
  main_step, step, put_worker, all_left,
}
use sync_files.Functions.Copy.Threads.{worker_cases, step-worker}
use sync_files.Functions.Copy.Phases.{past_done}
use sync_files.Functions.Copy.Flow.{main_step-workers}
use sync_files.Functions.Copy.Progress.Workers.{workers_left, workers_left-put, find_working}
use sync_files.Functions.Copy.Fair.{IsThread, Descent, Leads, Descent-Leads}
use sync_files.Functions.Copy.Fair.Queueing.{Sorted, Sorted-step, sorter_step-Sorted}

abbrev pub Flagged : Job → Type 0
Flagged j = Sorted j × (past_done j.main ≡ true)

-- A worker that goes on.
abbrev Works : Job → Thread → Type 0
Works j t =
    (i : ℕ) × (pc : WorkPc) × (t ≡ worker i) × (get_elem? j.workers i ≡ some pc) × (pc ≢ left)

left_cases : (pc : WorkPc) → (pc ≡ left) ⊎ (pc ≢ left)
left_cases left = inl refl
left_cases _ = inr λ e. cc

-- A worker that has left does nothing.
pub put_worker-left :
    (j : Job) (i : ℕ) (pc : WorkPc)
    → get_elem? j.workers i ≡ some pc
    → pc ≡ left
    → put_worker j i (work_step pc j.fn j.fs) ≡ j
unfolding work_step
put_worker-left j i pc e h =
    rw h (ap (λ l. record j { workers = l }) (set_same j.workers i left (e ∙ ap some h)))

-- After the flag, the thread of `Copy` queues nothing.
pub main_step-queues :
    (j : Job) (m : MainPc)
    → j.main ≡ m
    → past_done m ≡ true
    → ((main_step j m).fn.copy_queue ≡ j.fn.copy_queue)
      × ((main_step j m).fn.delete_queue ≡ j.fn.delete_queue)
      × (past_done (main_step j m).main ≡ true)
unfolding main_step
main_step-queues j join_workers e p = elim (Bool-cases (all_left j.workers)) [
  | inl h ↦ elim (Bool-cases j.settings.delete_without_match) [
    | inl d ↦ rw (h, d) (refl, refl, refl)
    | inr d ↦ rw (h, d) (refl, refl, refl)
  ]
  | inr h ↦ rw (h, e) (refl, refl, refl)
]
main_step-queues j (remove_dirs []) e p = (refl, refl, refl)
main_step-queues j (remove_dirs (d ∷ ds)) e p = (refl, refl, refl)
main_step-queues j set_finished e p = (refl, refl, refl)
main_step-queues j ended e p = rw e (refl, refl, refl)
main_step-queues j _ e p = absurd (cc)

main_step-workers_left :
    (j : Job) → past_done j.main ≡ true → workers_left (main_step j j.main) ≡ workers_left j
main_step-workers_left j p =
    let (a, b, c) = main_step-queues j j.main refl p in rw (a, b, main_step-workers j j.main) refl

working_never : (j : Job) (t : Thread) → Flagged j → workers_left (step j t) ≤ workers_left j
unfolding step
working_never j main_thread v = omega (arith, main_step-workers_left j v.1)
working_never j (sorter i) v = omega (arith, ap workers_left (sorter_step-Sorted j i v.0.1))
working_never j (worker i) v =
    worker_cases (λ k. workers_left k ≤ workers_left j) j i (omega arith)
      λ pc e. elim (left_cases pc) [
        | inl h ↦ omega (arith, ap workers_left (put_worker-left j i pc e h))
        | inr n ↦ omega (arith, workers_left-put j i pc (v.0.0.raised v.1) e n)
      ]

working_lower :
    (j : Job) (t : Thread) → Flagged j → Works j t → workers_left (step j t) < workers_left j
working_lower j t v (i, pc, a, e, n) =
    subst (λ u. workers_left (step j u) < workers_left j) (sym a)
      (subst (λ k. workers_left k < workers_left j) (sym (step-worker j i pc e))
        (workers_left-put j i pc (v.0.0.raised v.1) e n))

working_other : (j : Job) (t u : Thread) → Flagged j → Works j t → (u ≡ t) ⊎ Works (step j u) t
unfolding step
working_other j t main_thread v (i, pc, a, e, n) =
    inr (i, pc, a, rw (main_step-workers j j.main) e, n)
working_other j t (sorter k) v w =
    inr (subst (λ x. Works x t) (sym (sorter_step-Sorted j k v.0.1)) w)
working_other j t (worker k) v (i, pc, a, e, n) = elim (ℕ_discrete k i) [
  | yes p ↦ inl (ap worker p ∙ sym a)
  | no m ↦ inr (
      worker_cases (λ x. Works x t) j k (i, pc, a, e, n)
        λ pc' e'. (i, pc, a, get-set_ne j.workers k i _ m ∙ e, n))
]

pub Flagged-step : (j : Job) (t : Thread) → Flagged j → Flagged (step j t)
unfolding step
Flagged-step j main_thread v =
    (Sorted-step j main_thread v.0, (main_step-queues j j.main refl v.1).2)
Flagged-step j (sorter i) v = subst Flagged (sym (sorter_step-Sorted j i v.0.1)) v
Flagged-step j (worker i) v =
    (Sorted-step j (worker i) v.0, worker_cases (λ k. past_done k.main ≡ true) j i v.1 λ pc e. v.1)

abbrev pub AllLeft : Job → Type 0
AllLeft j = all_left j.workers ≡ true

working_helper :
    (j : Job)
    → AllLeft j ⊎ ((t : Thread) × IsThread (length j.sorters) (length j.workers) t × Works j t)
working_helper j = elim (Bool-cases (all_left j.workers)) [
  | inl h ↦ inl h
  | inr h ↦
      let (i, pc, e, n) = find_working j.workers h in
      inr (worker i, get-lt-length j.workers i pc e, (i, pc, refl, e, n))
]

working_descent : Descent Flagged AllLeft
working_descent = record {
  measure = workers_left;
  Helps = Works;
  kept = Flagged-step;
  never = working_never;
  lower = working_lower;
  other = working_other;
  helper = λ j v. working_helper j;
}

pub workers-Leads : Leads Flagged (λ j. Flagged j × AllLeft j)
workers-Leads = Descent-Leads Flagged AllLeft working_descent
