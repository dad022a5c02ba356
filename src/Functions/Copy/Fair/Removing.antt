-- ===== src/Functions/Copy/Fair/Removing.antt =====
-- Under fair rounds, once the workers have left, the thread of `Copy` (src/Functions.cpp) removes
-- what directories it has to and ends.
use sync_files.Base.{
  ℕ, ◌+◌, ◌≤◌, ◌<◌, ◌≡◌, ◌≢◌, refl, sym, ap, ◌∙◌, true, ◌⊎◌, inl, inr, arith, length, Bool-cases,
  [], ◌∷◌,
}
use mathlib.Core.Path.{subst}
use sync_files.Functions.Copy.{
  Job, Thread, main_thread, sorter, worker, MainPc, join_workers, remove_dirs, set_finished, ended,
  main_step, step, all_left,
}
use sync_files.Functions.Copy.Threads.{worker_cases, all_left-get}
use sync_files.Functions.Copy.Phases.{past_done}
use sync_files.Functions.Copy.Flow.{main_step-workers}
use sync_files.Functions.Copy.Fair.{Descent, Leads, Descent-Leads}
use sync_files.Functions.Copy.Fair.Queueing.{sorter_step-Sorted}
use sync_files.Functions.Copy.Fair.Working.{Flagged, Flagged-step, AllLeft, put_worker-left}

abbrev pub Joined : Job → Type 0
Joined j = Flagged j × AllLeft j

-- The steps to the end, for a number of directories.
abbrev distance : ℕ → MainPc → ℕ
distance n join_workers = n + 3
distance n (remove_dirs ds) = length ds + 2
distance n set_finished = 1
distance n _ = 0

abbrev removing_left : Job → ℕ
removing_left j = distance (length j.fn.output_dir_set) j.main

-- Where all workers have left, a worker does nothing.
pub worker_step-Joined : (j : Job) (i : ℕ) → AllLeft j → step j (worker i) ≡ j
worker_step-Joined j i h =
    worker_cases (λ k. k ≡ j) j i refl
      λ pc e. put_worker-left j i pc e (all_left-get j.workers i pc h e)

ended_cases : (m : MainPc) → (m ≡ ended) ⊎ (m ≢ ended)
ended_cases ended = inl refl
ended_cases _ = inr λ e. cc

main_lower :
    (j : Job) (m : MainPc)
    → AllLeft j
    → past_done m ≡ true
    → m ≢ ended
    → distance (length (main_step j m).fn.output_dir_set) (main_step j m).main
      < distance (length j.fn.output_dir_set) m
unfolding main_step
main_lower j join_workers h p n = elim (Bool-cases j.settings.delete_without_match) [
  | inl e ↦ rw (h, e) (omega arith)
  | inr e ↦ rw (h, e) (omega arith)
]
main_lower j (remove_dirs []) h p n = omega arith
main_lower j (remove_dirs (d ∷ ds)) h p n = omega arith
main_lower j set_finished h p n = omega arith
main_lower j ended h p n = absurd (n refl)
main_lower j _ h p n = absurd (cc)

pub main_step-ended : (j : Job) → j.main ≡ ended → main_step j j.main ≡ j
unfolding main_step
main_step-ended j e = rw e refl

removing_never : (j : Job) (t : Thread) → Joined j → removing_left (step j t) ≤ removing_left j
unfolding step
removing_never j main_thread v = elim (ended_cases j.main) [
  | inl e ↦ omega (arith, ap removing_left (main_step-ended j e))
  | inr n ↦ omega (arith, main_lower j j.main v.1 v.0.1 n)
]
removing_never j (sorter i) v = omega (arith, ap removing_left (sorter_step-Sorted j i v.0.0.1))
removing_never j (worker i) v = omega (arith, ap removing_left (worker_step-Joined j i v.1))

-- The thread of `Copy`, before its end.
abbrev Removes : Job → Thread → Type 0
Removes j t = (t ≡ main_thread) × (j.main ≢ ended)

removing_lower :
    (j : Job) (t : Thread) → Joined j → Removes j t → removing_left (step j t) < removing_left j
unfolding step
removing_lower j t v (a, n) =
    subst (λ u. removing_left (step j u) < removing_left j) (sym a)
      (main_lower j j.main v.1 v.0.1 n)

removing_other : (j : Job) (t u : Thread) → Joined j → Removes j t → (u ≡ t) ⊎ Removes (step j u) t
removing_other j t main_thread v (a, n) = inl (sym a)
removing_other j t (sorter i) v h =
    inr (subst (λ k. Removes k t) (sym (sorter_step-Sorted j i v.0.0.1)) h)
removing_other j t (worker i) v h =
    inr (subst (λ k. Removes k t) (sym (worker_step-Joined j i v.1)) h)

Joined-step : (j : Job) (t : Thread) → Joined j → Joined (step j t)
unfolding step
Joined-step j main_thread v =
    (Flagged-step j main_thread v.0, ap all_left (main_step-workers j j.main) ∙ v.1)
Joined-step j (sorter i) v = subst Joined (sym (sorter_step-Sorted j i v.0.0.1)) v
Joined-step j (worker i) v = subst Joined (sym (worker_step-Joined j i v.1)) v

removing_descent : Descent Joined (λ j. j.main ≡ ended)
removing_descent = record {
  measure = removing_left;
  Helps = Removes;
  kept = Joined-step;
  never = removing_never;
  lower = removing_lower;
  other = removing_other;
  helper =
      λ j v. elim (ended_cases j.main) [ inl e ↦ inl e | inr n ↦ inr (main_thread, tt, (refl, n)) ];
}

pub removing-Leads : Leads Joined (λ j. Joined j × (j.main ≡ ended))
removing-Leads = Descent-Leads Joined (λ j. j.main ≡ ended) removing_descent
