-- ===== src/Functions/Copy/Phases.antt =====
-- How far the threads of `Copy` (src/Functions.cpp) have come, and what a step of a sorter or of a
-- worker does to that.
use sync_files.Base.{
  ℕ, ◌≡◌, refl, ◌∙◌, Bool, true, false, [], arith, get_elem?, inl, inr, some, Bool-cases, All,
  All-set, All-map, All-get,
}
use sync_files.Files.{Files}
use sync_files.Functions.State.{Functions}
use sync_files.Functions.Sort.{SortPc, stopped, sort_step}
use sync_files.Functions.Work.{WorkPc, check_copy, check_delete, left, work_step}
use sync_files.Functions.Copy.{
  Job, MainPc, join_sorters, push_deletes, set_done, remove_dirs, set_finished, ended, put_sorter,
  put_worker, all_stopped, all_left,
}
use sync_files.Functions.Copy.Threads.{all_stopped-get, all_stopped-set, all_left-get, all_left-set}

-- The thread of `Copy` has joined the sorters, has set `_doneStuff`, has joined the workers.
abbrev pub past_sorters : MainPc → Bool
past_sorters join_sorters = false
past_sorters _ = true

abbrev pub past_done : MainPc → Bool
past_done join_sorters = false
past_done (push_deletes _) = false
past_done set_done = false
past_done _ = true

abbrev pub past_workers : MainPc → Bool
past_workers (remove_dirs _) = true
past_workers set_finished = true
past_workers ended = true
past_workers _ = false

-- What a worker has read of the shared state still holds.
abbrev pub Knows : Functions → WorkPc → Type 0
Knows fn check_copy = fn.done_stuff ≡ true
Knows fn check_delete = (fn.done_stuff ≡ true) × (fn.copy_queue ≡ [])
Knows fn left = (fn.done_stuff ≡ true) × (fn.copy_queue ≡ []) × (fn.delete_queue ≡ [])
Knows fn _ = Unit

pub record Flow (j : Job) : Type 0 where
  pub sorted : past_sorters j.main ≡ true → all_stopped j.sorters ≡ true
  pub flagged : j.fn.done_stuff ≡ true → past_done j.main ≡ true
  pub raised : past_done j.main ≡ true → j.fn.done_stuff ≡ true
  pub joined : past_workers j.main ≡ true → all_left j.workers ≡ true
  pub known : All (Knows j.fn) j.workers

-- Once `_doneStuff` is set, it stays set and an empty queue stays empty.
pub record Keeps (fn fn' : Functions) : Type 0 where
  pub done : fn.done_stuff ≡ true → fn'.done_stuff ≡ true
  pub copy : fn.done_stuff ≡ true → fn.copy_queue ≡ [] → fn'.copy_queue ≡ []
  pub delete : fn.done_stuff ≡ true → fn.delete_queue ≡ [] → fn'.delete_queue ≡ []

pub Keeps-Knows : (fn fn' : Functions) → Keeps fn fn' → (pc : WorkPc) → Knows fn pc → Knows fn' pc
Keeps-Knows fn fn' k check_copy h = k.done h
Keeps-Knows fn fn' k check_delete h = (k.done h.0, k.copy h.0 h.1)
Keeps-Knows fn fn' k left h = (k.done h.0, k.copy h.0 h.1, k.delete h.0 h.2)
Keeps-Knows fn fn' k _ h = tt

sort_step-done :
    (pc : SortPc) (fn : Functions) (fs : Files) → (sort_step pc fn fs).1.done_stuff ≡ fn.done_stuff
unfolding sort_step
sort_step-done stopped fn fs = refl
sort_step-done _ fn fs = ground arith

sort_step-stopped :
    (pc : SortPc) (fn : Functions) (fs : Files) → pc ≡ stopped → sort_step pc fn fs ≡ (stopped, fn)
unfolding sort_step
sort_step-stopped pc fn fs e = rw e

-- What a worker's step does to the flag and to empty queues.
work_step-done :
    (pc : WorkPc) (fn : Functions) (fs : Files) → (work_step pc fn fs).1.done_stuff ≡ fn.done_stuff
unfolding work_step
work_step-done left fn fs = refl
work_step-done _ fn fs = ground arith

work_step-Keeps : (pc : WorkPc) (fn : Functions) (fs : Files) → Keeps fn (work_step pc fn fs).1
unfolding work_step
work_step-Keeps left fn fs = ground arith
work_step-Keeps _ fn fs = ground arith

work_step-Knows :
    (pc : WorkPc) (fn : Functions) (fs : Files)
    → Knows fn pc
    → Knows (work_step pc fn fs).1 (work_step pc fn fs).0
unfolding work_step
work_step-Knows left fn fs h = h
work_step-Knows _ fn fs h = ground arith

-- A job whose sorters have not all ended has not set the flag.
pub not-done : (j : Job) → Flow j → all_stopped j.sorters ≡ false → j.fn.done_stuff ≡ false
not-done j v h = elim (Bool-cases j.fn.done_stuff) [
  | inl done ↦ absurd (contradiction j.main (v.flagged done) v.sorted)
  | inr undone ↦ undone
]
  where
    contradiction :
        (m : MainPc)
        → past_done m ≡ true
        → (past_sorters m ≡ true → all_stopped j.sorters ≡ true)
        → ⊥
    contradiction join_sorters p s = cc
    contradiction _ p s = ground (arith, s refl)

pub undone-Keeps : (fn fn' : Functions) → fn.done_stuff ≡ false → Keeps fn fn'
undone-Keeps fn fn' h = record {
  done = λ e. absurd (grind arith);
  copy = λ e _. absurd (grind arith);
  delete = λ e _. absurd (grind arith);
}

stopped_sorter-Flow :
    (j : Job) (i : ℕ)
    → Flow j
    → all_stopped j.sorters ≡ true
    → Flow (put_sorter j i (stopped, j.fn))
stopped_sorter-Flow j i v h = record {
  sorted = λ _. all_stopped-set j.sorters i h;
  flagged = v.flagged;
  raised = v.raised;
  joined = v.joined;
  known = v.known;
}

pub sorter-Flow :
    (j : Job) (i : ℕ) (pc : SortPc)
    → Flow j
    → get_elem? j.sorters i ≡ some pc
    → Flow (put_sorter j i (sort_step pc j.fn j.fs))
sorter-Flow j i pc v e = elim (Bool-cases (all_stopped j.sorters)) [
  | inl h ↦
      rw (sort_step-stopped pc j.fn j.fs (all_stopped-get j.sorters i pc h e))
        (stopped_sorter-Flow j i v h)
  | inr h ↦
      let undone = not-done j v h in
      record {
        sorted = λ p. absurd (ground (arith, v.sorted p));
        flagged = λ d. absurd (ground (arith, sort_step-done pc j.fn j.fs));
        raised = λ p. sort_step-done pc j.fn j.fs ∙ v.raised p;
        joined = v.joined;
        known =
            All-map _ _ j.workers
              (Keeps-Knows j.fn (sort_step pc j.fn j.fs).1 (undone-Keeps j.fn _ undone)) v.known;
      }
]

work_step-left :
    (pc : WorkPc) (fn : Functions) (fs : Files) → pc ≡ left → (work_step pc fn fs).0 ≡ left
unfolding work_step
work_step-left pc fn fs e = rw e

pub worker-Flow :
    (j : Job) (i : ℕ) (pc : WorkPc)
    → Flow j
    → get_elem? j.workers i ≡ some pc
    → Flow (put_worker j i (work_step pc j.fn j.fs))
worker-Flow j i pc v e = record {
  sorted = v.sorted;
  flagged = λ d. v.flagged (ground (arith, work_step-done pc j.fn j.fs));
  raised = λ p. work_step-done pc j.fn j.fs ∙ v.raised p;
  joined = λ p.
      let gone = all_left-get j.workers i pc (v.joined p) e in
      rw (work_step-left pc j.fn j.fs gone) (all_left-set j.workers i (v.joined p));
  known =
      All-set _ j.workers i (work_step pc j.fn j.fs).0
        (All-map _ _ j.workers (Keeps-Knows j.fn _ (work_step-Keeps pc j.fn j.fs)) v.known)
        (work_step-Knows pc j.fn j.fs (All-get _ j.workers i pc v.known e));
}
