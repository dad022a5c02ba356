-- ===== src/Functions/Copy/Progress/Workers.antt =====
-- Once `_doneStuff` is set, the workers of `Copy` (src/Functions.cpp) can always all end.
use mathlib.Core.Path.{subst}
use sync_files.Base.{
  ℕ, zero, suc, ◌+◌, ◌*◌, ◌<◌, ◌≤◌, ◌≡◌, ◌≢◌, refl, sym, ◌∙◌, Bool, true, false, List, [], ◌∷◌,
  ◌++◌, ◌⊎◌, inl, inr, Bool-cases, Option, none, some, arith, length, length-set, set, get_elem?,
  total, total-set, Str,
}
use sync_files.Files.{Files}
use sync_files.Files.Calls.{remove}
use sync_files.Functions.State.{Functions}
use sync_files.Functions.Work.{
  WorkPc, check_done, check_copy, check_delete, pop_copy, copying, pop_delete, deleting, left,
  is_nil, work_step, transfer, after_transfer, after_remove,
}
use sync_files.Functions.Copy.{Job, Thread, worker, step, put_worker, all_left}
use sync_files.Functions.Copy.Phases.{Flow}
use sync_files.Functions.Copy.Flow.{step-Flow}
use sync_files.Functions.Copy.Threads.{step-worker}
use sync_files.Functions.Copy.Progress.{Reaches, Reaches-measure}

-- How far a worker is from its next file or its end, by which of the two queues are empty.
abbrev weight : Bool → Bool → WorkPc → ℕ
weight c d left = 0
weight c d (copying g) = 8
weight c d (deleting g) = 8
weight false d pop_delete = 6
weight false d check_done = 5
weight false d check_copy = 4
weight false d check_delete = 3
weight false d pop_copy = 2
weight true false check_done = 6
weight true false check_copy = 5
weight true false check_delete = 4
weight true false pop_copy = 3
weight true false pop_delete = 2
weight true true pop_copy = 5
weight true true pop_delete = 4
weight true true check_done = 3
weight true true check_copy = 2
weight true true check_delete = 1

weight_bound : (c d : Bool) (pc : WorkPc) → weight c d pc ≤ 8
weight_bound c d left = omega arith
weight_bound false d pc = ground arith
weight_bound true false pc = ground arith
weight_bound true true pc = ground arith

abbrev items : Functions → ℕ
items fn = length fn.copy_queue + length fn.delete_queue

abbrev weighs : Functions → WorkPc → ℕ
weighs fn = weight (is_nil fn.copy_queue) (is_nil fn.delete_queue)

-- A step takes a file from a queue, or brings its worker nearer to that or to its end.
abbrev Nears : WorkPc → Functions → WorkPc → Functions → Type 0
Nears pc fn pc' fn' =
    (items fn' + 1 ≡ items fn)
    ⊎ ((fn'.copy_queue ≡ fn.copy_queue)
        × (fn'.delete_queue ≡ fn.delete_queue)
        × (weighs fn pc' < weighs fn pc))

copying_weight : (c d : Bool) (g : Str) → weight c d pop_delete < weight c d (copying g)
copying_weight false d g = omega arith
copying_weight true false g = omega arith
copying_weight true true g = omega arith

deleting_weight : (c d : Bool) (g : Str) → weight c d check_done < weight c d (deleting g)
deleting_weight false d g = omega arith
deleting_weight true false g = omega arith
deleting_weight true true g = omega arith

after_transfer-Nears :
    (fn : Functions) (fs : Files) (g : Str) (o : Option Files)
    → Nears (copying g) fn pop_delete (after_transfer fn fs g o).0
after_transfer-Nears fn fs g none = inr (refl, refl, copying_weight _ _ g)
after_transfer-Nears fn fs g (some fs') = inr (refl, refl, copying_weight _ _ g)

after_remove-Nears :
    (fn : Functions) (fs : Files) (g : Str) (o : Option Files)
    → Nears (deleting g) fn check_done (after_remove fn fs g o).0
after_remove-Nears fn fs g none = inr (refl, refl, deleting_weight _ _ g)
after_remove-Nears fn fs g (some fs') = inr (refl, refl, deleting_weight _ _ g)

work_step-Nears :
    (pc : WorkPc) (fn : Functions) (fs : Files) (cs ds : List Str)
    → fn.copy_queue ≡ cs
    → fn.delete_queue ≡ ds
    → fn.done_stuff ≡ true
    → pc ≢ left
    → let (pc', fn', fs') = work_step pc fn fs in Nears pc fn pc' fn'
unfolding work_step
work_step-Nears (copying g) fn fs cs ds a b h n = after_transfer-Nears fn fs g (transfer fn fs g)
work_step-Nears (deleting g) fn fs cs ds a b h n =
    after_remove-Nears fn fs g (remove fs (fn.output_prefix ++ g))
work_step-Nears left fn fs cs ds a b h n = absurd (n refl)
work_step-Nears check_done fn fs [] [] a b h n = inr (rw (a, b, h) (refl, refl, omega arith))
work_step-Nears check_done fn fs [] (y ∷ t) a b h n = inr (rw (a, b, h) (refl, refl, omega arith))
work_step-Nears check_done fn fs (x ∷ r) ds a b h n = inr (rw (a, h) (refl, refl, omega arith))
work_step-Nears check_copy fn fs [] [] a b h n = inr (rw (a, b) (refl, refl, omega arith))
work_step-Nears check_copy fn fs [] (y ∷ t) a b h n = inr (rw (a, b) (refl, refl, omega arith))
work_step-Nears check_copy fn fs (x ∷ r) ds a b h n = inr (rw a (refl, refl, omega arith))
work_step-Nears check_delete fn fs [] [] a b h n = inr (rw (a, b) (refl, refl, omega arith))
work_step-Nears check_delete fn fs [] (y ∷ t) a b h n = inr (rw (a, b) (refl, refl, omega arith))
work_step-Nears check_delete fn fs (x ∷ r) [] a b h n = inr (rw (a, b) (refl, refl, omega arith))
work_step-Nears check_delete fn fs (x ∷ r) (y ∷ t) a b h n =
    inr (rw (a, b) (refl, refl, omega arith))
work_step-Nears pop_copy fn fs [] [] a b h n = inr (rw (a, b) (refl, refl, omega arith))
work_step-Nears pop_copy fn fs [] (y ∷ t) a b h n = inr (rw (a, b) (refl, refl, omega arith))
work_step-Nears pop_copy fn fs (x ∷ r) ds a b h n = inl (rw a (omega arith))
work_step-Nears pop_delete fn fs [] [] a b h n = inr (rw (a, b) (refl, refl, omega arith))
work_step-Nears pop_delete fn fs (x ∷ r) [] a b h n = inr (rw (a, b) (refl, refl, omega arith))
work_step-Nears pop_delete fn fs cs (y ∷ t) a b h n = inl (rw b (omega arith))

total_bound : (c d : Bool) (ws : List WorkPc) → total (weight c d) ws ≤ 8 * length ws
total_bound c d [] = omega arith
total_bound c d (w ∷ ws) = omega (arith, weight_bound c d w, total_bound c d ws)

pub find_working :
    (ws : List WorkPc)
    → all_left ws ≡ false
    → (i : ℕ) × (pc : WorkPc) × (get_elem? ws i ≡ some pc) × (pc ≢ left)
find_working [] h = absurd (cc)
find_working (WorkPc.left ∷ ws) h = let (i, pc, e, n) = find_working ws h in (suc i, pc, e, n)
find_working (w ∷ ws) h = (zero, w, refl, λ e. cc)

-- What the workers have still to do.
abbrev pub workers_left : Job → ℕ
workers_left j = total (weighs j.fn) j.workers + 10 * (length j.workers + 1) * items j.fn

pub workers_left-put :
    (j : Job) (i : ℕ) (pc : WorkPc)
    → j.fn.done_stuff ≡ true
    → get_elem? j.workers i ≡ some pc
    → pc ≢ left
    → workers_left (put_worker j i (work_step pc j.fn j.fs)) < workers_left j
workers_left-put j i pc d e n =
    let (pc', fn', fs') = work_step pc j.fn j.fs in
    let same = length-set j.workers i pc' in
    elim (work_step-Nears pc j.fn j.fs j.fn.copy_queue j.fn.delete_queue refl refl d n) [
      | inl a ↦
          rw (same, ← a)
            (omega (
              arith,
              total_bound (is_nil fn'.copy_queue) (is_nil fn'.delete_queue) (set j.workers i pc'),
              same,
            ))
      | inr (a, b, c) ↦
          rw (same, a, b) (omega (arith, c, total-set (weighs j.fn) j.workers i pc pc' e))
    ]

work_step-keeps_done :
    (pc : WorkPc) (fn : Functions) (fs : Files) → (work_step pc fn fs).1.done_stuff ≡ fn.done_stuff
unfolding work_step
work_step-keeps_done left fn fs = refl
work_step-keeps_done _ fn fs = ground arith

-- The flow of a job with the flag set.
abbrev pub Ending : Job → Type 0
Ending j = Flow j × (j.fn.done_stuff ≡ true)

worker_moves :
    (j : Job) (i : ℕ) (pc : WorkPc)
    → Ending j
    → get_elem? j.workers i ≡ some pc
    → pc ≢ left
    → Ending (step j (worker i)) × (workers_left (step j (worker i)) < workers_left j)
worker_moves j i pc v e n = (
  (
    step-Flow j (worker i) v.0,
    subst (λ k. k.fn.done_stuff ≡ true) (sym (step-worker j i pc e))
        (work_step-keeps_done pc j.fn j.fs ∙ v.1),
  ),
  subst (λ k. workers_left k < workers_left j) (sym (step-worker j i pc e))
      (workers_left-put j i pc v.1 e n),
)

working-progress :
    (j : Job)
    → Ending j
    → (Ending j × (all_left j.workers ≡ true))
      ⊎ ((t : Thread) × Ending (step j t) × (workers_left (step j t) < workers_left j))
working-progress j v = elim (Bool-cases (all_left j.workers)) [
  | inl h ↦ inl (v, h)
  | inr h ↦
      let (i, pc, e, n) = find_working j.workers h in
      let (a, b) = worker_moves j i pc v e n in inr (worker i, a, b)
]

-- Once the flag is set, the workers can all end.
pub workers_end : (j : Job) → Ending j → Reaches j (λ k. Ending k × (all_left k.workers ≡ true))
workers_end j v =
    Reaches-measure Ending _ workers_left working-progress (suc (workers_left j)) j (omega arith) v
