-- ===== src/Functions/Copy/Progress.antt =====
-- `Copy` (src/Functions.cpp) can always end: schedules that lead to a goal, and a measure's rule.
pub mod Sorters
pub mod Workers
pub mod Ending
use sync_files.Base.{ℕ, zero, suc, ◌<◌, ◌≡◌, refl, List, [], ◌∷◌, ◌++◌, ◌⊎◌, inl, inr, arith}
use sync_files.Functions.Copy.{Job, Thread, step, run}

-- Some schedule leads to the goal.
abbrev pub Reaches : Job → (Job → Type 0) → Type 0
Reaches j Q = (ts : List Thread) × Q (run j ts)

pub run-append : (j : Job) (ts us : List Thread) → run j (ts ++ us) ≡ run (run j ts) us
unfolding run
run-append j [] us = refl
run-append j (t ∷ ts) us = run-append (step j t) ts us

pub Reaches-now : (j : Job) (Q : Job → Type 0) → Q j → Reaches j Q
unfolding run
Reaches-now j Q q = ([], q)

pub Reaches-step : (j : Job) (Q : Job → Type 0) (t : Thread) → Reaches (step j t) Q → Reaches j Q
unfolding run
Reaches-step j Q t (ts, q) = (t ∷ ts, q)

pub Reaches-trans :
    (j : Job) (Q R : Job → Type 0) → Reaches j Q → ((k : Job) → Q k → Reaches k R) → Reaches j R
Reaches-trans j Q R (ts, q) f =
    let (us, r) = f (run j ts) q in (ts ++ us, rw (run-append j ts us) r)

-- While the goal is not met, some thread's step keeps the invariant and lowers the measure.
pub Reaches-measure :
    (P Q : Job → Type 0) (measure : Job → ℕ)
    → ((j : Job) → P j → Q j ⊎ ((t : Thread) × P (step j t) × (measure (step j t) < measure j)))
    → (n : ℕ) (j : Job) → measure j < n
    → P j
    → Reaches j Q
Reaches-measure P Q measure progress zero j h p = absurd (omega arith)
Reaches-measure P Q measure progress (suc n) j h p = elim (progress j p) [
  | inl q ↦ Reaches-now j Q q
  | inr (t, p', lower) ↦
      Reaches-step j Q t (Reaches-measure P Q measure progress n (step j t) (omega arith) p')
]
