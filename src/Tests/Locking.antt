-- ===== src/Tests/Locking.antt =====
-- The locks of include/Threading.h and `ThreadSafeVar` of include/Types.h, with two threads.
use sync_files.Base.{ℕ, ◌+◌, ◌-◌, ◌≤◌, ◌≡◌, ◌⊎◌, refl, true, List, [], ◌∷◌, arith, total}
use sync_files.Threading.{spinlock_run, spinlock_a_run, blocked, inside}
use sync_files.Threading.Exclusion.{Exclusive, free, set_to, exclusive}
use sync_files.Threading.Wakeups.{sleeps, awake, no_wakeup_lost}
use sync_files.Types.Var.{Arithmetic, Op, increment, run}
use sync_files.Types.Var.Section.{calls, returns, last}
use sync_files.Types.Var.Atomic.{fresh, atomic}

-- One thread gets in, the other goes to sleep.
abbrev one_sleeps : List (ℕ × ℕ)
one_sleeps = (0, 0) ∷ (0, 0) ∷ (1, 0) ∷ (1, 0) ∷ (1, 0) ∷ []

sleeper :
    spinlock_a_run (free 2) one_sleeps ≡ record { flag = true; threads = inside ∷ blocked ∷ [] }
unfolding spinlock_a_run
sleeper = refl

exclusive_example :
    Exclusive (spinlock_run (free 2) (0 ∷ 1 ∷ 0 ∷ 1 ∷ []))
    × Exclusive (spinlock_a_run (free 2) one_sleeps)
exclusive_example = exclusive 2 (0 ∷ 1 ∷ 0 ∷ 1 ∷ []) one_sleeps

some_sleep : 1 ≤ total sleeps (spinlock_a_run (free 2) one_sleeps).threads
unfolding spinlock_a_run
some_sleep = omega arith

no_wakeup_lost_example :
    1
    ≤ set_to (spinlock_a_run (free 2) one_sleeps).flag
      + total awake (spinlock_a_run (free 2) one_sleeps).threads
no_wakeup_lost_example = no_wakeup_lost 2 one_sleeps some_sleep

abbrev numbers : Arithmetic ℕ
numbers = record { plus = λ a b. a + b; minus = λ a b. a - b }

-- Two increments whose accesses interleave.
abbrev two_increments : List (ℕ × Op ℕ)
two_increments =
    let up = increment 1 in
    (0, up)
    ∷ (1, up)
    ∷ (0, up)
    ∷ (1, up)
    ∷ (0, up)
    ∷ (0, up)
    ∷ (1, up)
    ∷ (0, up)
    ∷ (1, up)
    ∷ (1, up)
    ∷ (1, up)
    ∷ (1, up)
    ∷ []

both_count : (run numbers (fresh 5 2, []) two_increments).0.value ≡ 7
unfolding run
both_count = refl

atomic_example :
    let h = run numbers (fresh 5 2, []) two_increments in
    (h.1 ≡ returns numbers 5 (calls h.1))
    × ((h.0.locked ≡ true) ⊎ (h.0.value ≡ last numbers 5 (calls h.1)))
atomic_example = atomic numbers 5 2 two_increments
