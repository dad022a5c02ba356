-- ===== src/Functions/Copy/Threads.antt =====
-- The cases of a step of `Copy`'s threads (src/Functions.cpp), and threads that have ended.
use sync_files.Base.{
  ℕ, zero, suc, ◌≡◌, true, some, List, [], ◌∷◌, inl, inr, arith, set, get_elem?, Option-cases,
}
use sync_files.Functions.Sort.{SortPc, stopped, sort_step}
use sync_files.Functions.Work.{WorkPc, left, work_step}
use sync_files.Functions.Copy.{
  Job, sorter, worker, step, put_sorter, put_worker, all_stopped, all_left,
}

-- What holds before a thread's step and after its effect holds after a step.
pub sorter_cases {ℓ} :
    (P : Job → Type ℓ) (j : Job) (i : ℕ)
    → P j
    → ((pc : SortPc)
        → get_elem? j.sorters i ≡ some pc
        → P (put_sorter j i (sort_step pc j.fn j.fs)))
    → P (step j (sorter i))
unfolding step
sorter_cases P j i none_such moved = elim (Option-cases (get_elem? j.sorters i)) [
  | inl e ↦ rw (e, step) none_such
  | inr (pc, e) ↦ rw (e, step) (moved pc e)
]

pub worker_cases {ℓ} :
    (P : Job → Type ℓ) (j : Job) (i : ℕ)
    → P j
    → ((pc : WorkPc)
        → get_elem? j.workers i ≡ some pc
        → P (put_worker j i (work_step pc j.fn j.fs)))
    → P (step j (worker i))
unfolding step
worker_cases P j i none_such moved = elim (Option-cases (get_elem? j.workers i)) [
  | inl e ↦ rw (e, step) none_such
  | inr (pc, e) ↦ rw (e, step) (moved pc e)
]

pub all_stopped-get :
    (ps : List SortPc) (i : ℕ) (pc : SortPc)
    → all_stopped ps ≡ true
    → get_elem? ps i ≡ some pc
    → pc ≡ stopped
all_stopped-get [] i pc h e = cc
all_stopped-get (SortPc.stopped ∷ ps) zero pc h e = ground arith
all_stopped-get (SortPc.stopped ∷ ps) (suc i) pc h e = all_stopped-get ps i pc h e
all_stopped-get (_ ∷ ps) i pc h e = cc

pub all_stopped-set :
    (ps : List SortPc) (i : ℕ) → all_stopped ps ≡ true → all_stopped (set ps i stopped) ≡ true
all_stopped-set [] i h = h
all_stopped-set (SortPc.stopped ∷ ps) zero h = h
all_stopped-set (SortPc.stopped ∷ ps) (suc i) h = all_stopped-set ps i h
all_stopped-set (_ ∷ ps) i h = cc

pub all_left-get :
    (ps : List WorkPc) (i : ℕ) (pc : WorkPc)
    → all_left ps ≡ true
    → get_elem? ps i ≡ some pc
    → pc ≡ left
all_left-get [] i pc h e = cc
all_left-get (WorkPc.left ∷ ps) zero pc h e = ground arith
all_left-get (WorkPc.left ∷ ps) (suc i) pc h e = all_left-get ps i pc h e
all_left-get (_ ∷ ps) i pc h e = cc

pub all_left-set : (ps : List WorkPc) (i : ℕ) → all_left ps ≡ true → all_left (set ps i left) ≡ true
all_left-set [] i h = h
all_left-set (WorkPc.left ∷ ps) zero h = h
all_left-set (WorkPc.left ∷ ps) (suc i) h = all_left-set ps i h
all_left-set (_ ∷ ps) i h = cc

pub step-sorter :
    (j : Job) (i : ℕ) (pc : SortPc)
    → get_elem? j.sorters i ≡ some pc
    → step j (sorter i) ≡ put_sorter j i (sort_step pc j.fn j.fs)
unfolding step
step-sorter j i pc e = rw (e, step)

pub step-worker :
    (j : Job) (i : ℕ) (pc : WorkPc)
    → get_elem? j.workers i ≡ some pc
    → step j (worker i) ≡ put_worker j i (work_step pc j.fn j.fs)
unfolding step
step-worker j i pc e = rw (e, step)
