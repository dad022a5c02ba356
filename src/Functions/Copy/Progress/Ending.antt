-- ===== src/Functions/Copy/Progress/Ending.antt =====
-- The thread of `Copy` (src/Functions.cpp) itself, and the end of the whole job.
use mathlib.Core.Path.{subst}
use sync_files.Base.{some, ◌≡◌, refl, ap, sym, ◌∙◌, true, List, [], ◌∷◌, ◌⊎◌, inl, inr, arith, Str}
use sync_files.Functions.Copy.{
  Settings, start, Job, MainPc, join_sorters, push_deletes, set_done, join_workers, remove_dirs,
  set_finished, ended, main_step, Thread, main_thread, step, run, all_stopped, all_left,
}
use sync_files.Functions.Copy.Phases.{Flow, past_done}
use sync_files.Functions.Copy.Flow.{run-Flow, step-Flow}
use sync_files.Files.{Files}
use sync_files.Functions.State.{initial}
use sync_files.Functions.Copy.Start.{start-Starts, Starts-Flow}
use sync_files.Functions.Copy.Progress.{Reaches, Reaches-now, Reaches-step, Reaches-trans}
use sync_files.Functions.Copy.Progress.Sorters.{sorters_end}
use sync_files.Functions.Copy.Progress.Workers.{Ending, workers_end}

abbrev Done : Job → Type 0
Done k = k.main ≡ ended

step-main : (j : Job) (m : MainPc) → j.main ≡ m → step j main_thread ≡ main_step j m
unfolding step
step-main j m e = ap (main_step j) e

-- A step of the thread of `Copy`, from where it stands.
via_main :
    (Q : Job → Type 0) (j : Job) (m : MainPc) → j.main ≡ m → Reaches (main_step j m) Q → Reaches j Q
via_main Q j m e r =
    Reaches-step j Q main_thread (subst (λ k. Reaches k Q) (sym (step-main j m e)) r)

finish : (j : Job) → j.main ≡ set_finished → Reaches j Done
unfolding main_step
finish j e = via_main Done j set_finished e (Reaches-now _ Done refl)

remove_each : (ds : List Str) (j : Job) → j.main ≡ remove_dirs ds → Reaches j Done
unfolding main_step
remove_each [] j e = via_main Done j (remove_dirs []) e (finish _ refl)
remove_each (d ∷ ds) j e = via_main Done j (remove_dirs (d ∷ ds)) e (remove_each ds _ refl)

-- What follows the join of the workers.
joined_main :
    (j : Job)
    → all_left j.workers ≡ true
    → ((main_step j join_workers).main ≡ set_finished)
      ⊎ ((main_step j join_workers).main ≡ remove_dirs j.fn.output_dir_set)
unfolding main_step
joined_main j h = ground arith

after_join : (j : Job) → all_left j.workers ≡ true → Reaches (main_step j join_workers) Done
after_join j h = elim (joined_main j h) [
  | inl e ↦ finish _ e
  | inr e ↦ remove_each j.fn.output_dir_set _ e
]

-- Where the workers have left, the thread of `Copy` goes on to the end.
after_workers :
    (j : Job) (m : MainPc)
    → j.main ≡ m
    → past_done m ≡ true
    → all_left j.workers ≡ true
    → Reaches j Done
after_workers j ended e p h = Reaches-now j Done e
after_workers j set_finished e p h = finish j e
after_workers j (remove_dirs ds) e p h = remove_each ds j e
after_workers j join_workers e p h = via_main Done j join_workers e (after_join j h)
after_workers j _ e p h = absurd (cc)

workers_then_end : (j : Job) → Ending j → Reaches j Done
workers_then_end j v =
    Reaches-trans j (λ k. Ending k × (all_left k.workers ≡ true)) Done (workers_end j v)
      λ k (w, h). after_workers k k.main refl (w.0.flagged w.1) h

raise_flag : (j : Job) → j.main ≡ set_done → Flow j → Reaches j Done
unfolding main_step
raise_flag j e v = Reaches-step j Done main_thread (
    workers_then_end (step j main_thread) (
      step-Flow j main_thread v,
      subst (λ k. k.fn.done_stuff ≡ true) (sym (step-main j set_done e)) refl,
    ))

-- Where a step of the thread of `Copy` leads.
next_main :
    (j : Job) (m m' : MainPc)
    → j.main ≡ m
    → (main_step j m).main ≡ m'
    → (step j main_thread).main ≡ m'
next_main j m m' e h = ap (λ k. k.main) (step-main j m e) ∙ h

queue_each : (ds : List Str) (j : Job) → j.main ≡ push_deletes ds → Flow j → Reaches j Done
unfolding main_step
queue_each [] j e v = Reaches-step j Done main_thread (
    raise_flag (step j main_thread) (next_main j (push_deletes []) set_done e refl)
      (step-Flow j main_thread v))
queue_each (d ∷ ds) j e v = Reaches-step j Done main_thread (
    queue_each ds (step j main_thread)
      (next_main j (push_deletes (d ∷ ds)) (push_deletes ds) e refl) (step-Flow j main_thread v))

-- What follows the join of the sorters.
joined_sorters :
    (j : Job)
    → all_stopped j.sorters ≡ true
    → ((main_step j join_sorters).main ≡ set_done)
      ⊎ ((main_step j join_sorters).main ≡ push_deletes j.fn.output_files_set)
unfolding main_step
joined_sorters j h = ground arith

queue_all :
    (j : Job) → j.main ≡ join_sorters → all_stopped j.sorters ≡ true → Flow j → Reaches j Done
queue_all j e h v = elim (joined_sorters j h) [
  | inl f ↦ Reaches-step j Done main_thread (
      raise_flag (step j main_thread) (next_main j join_sorters set_done e f)
        (step-Flow j main_thread v))
  | inr f ↦ Reaches-step j Done main_thread (
      queue_each j.fn.output_files_set (step j main_thread)
        (next_main j join_sorters (push_deletes j.fn.output_files_set) e f)
        (step-Flow j main_thread v))
]

after_sorters :
    (j : Job) (m : MainPc) → j.main ≡ m → all_stopped j.sorters ≡ true → Flow j → Reaches j Done
after_sorters j join_sorters e h v = queue_all j e h v
after_sorters j (push_deletes ds) e h v = queue_each ds j e v
after_sorters j set_done e h v = raise_flag j e v
after_sorters j _ e h v = workers_then_end j (v, v.raised (rw e))

-- From every state in which the threads keep their order, a schedule leads `Copy` to its end.
pub Flow-ends : (j : Job) → Flow j → Reaches j Done
Flow-ends j v =
    Reaches-trans j (λ k. Flow k × (all_stopped k.sorters ≡ true)) Done (sorters_end j v)
      λ k (w, h). after_sorters k k.main refl h w

-- Whatever the threads of a started `Copy` have done so far, a schedule leads it to its end.
pub can_end :
    (set : Settings) (fs : Files) (input output : Str) (j : Job) (ts : List Thread)
    → start set initial fs input output ≡ some j
    → (us : List Thread) × ((run (run j ts) us).main ≡ ended)
can_end set fs input output j ts e =
    Flow-ends (run j ts) (run-Flow j ts (Starts-Flow set j (start-Starts set fs input output j e)))
