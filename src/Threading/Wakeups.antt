-- ===== src/Threading/Wakeups.antt =====
-- `SpinlockA` of include/Threading.h loses no wake-up: while threads sleep, the flag is set or a
-- thread is awake that will take it or wake one of them.
use sync_files.Base.{
  ℕ, zero, suc, ◌+◌, ◌≤◌, ◌≡◌, refl, Bool, true, false, some, List, [], ◌∷◌, arith, set, get_elem?,
  replicate, total, total-set, total-get, Option-cases, inl, inr,
}
use sync_files.Threading.{
  LockPc, outside, testing, comparing, blocked, notifying, Lock, put, lock_pc, wake, wake_first,
  notify, spinlock_a_step, spinlock_a_run,
}
use sync_files.Threading.Exclusion.{set_to, free}

abbrev pub sleeps : LockPc → ℕ
sleeps blocked = 1
sleeps _ = 0

-- A thread that takes the lock, or goes back to look at it, or is about to wake a sleeper.
abbrev pub awake : LockPc → ℕ
awake testing = 1
awake comparing = 1
awake notifying = 1
awake _ = 0

-- Where a thread sleeps, the flag is set or a thread is awake.
abbrev pub Watched : Bool → List LockPc → Type 0
Watched flag ps = 1 ≤ total sleeps ps → 1 ≤ set_to flag + total awake ps

abbrev notifies : LockPc → ℕ
notifies notifying = 1
notifies _ = 0

-- A thread that moves, and does not notify, leaves the flag set or is awake after its move.
lock_pc-awake :
    (flag : Bool) (pc : LockPc)
    → 1 ≤ set_to (lock_pc flag pc).0 + awake (lock_pc flag pc).1 + notifies pc
lock_pc-awake true pc = ground arith
lock_pc-awake false pc = ground arith

put-Watched :
    (l : Lock) (i : ℕ) (pc : LockPc) (flag : Bool) (pc' : LockPc)
    → get_elem? l.threads i ≡ some pc
    → 1 ≤ set_to flag + awake pc'
    → Watched (put l i (flag, pc')).flag (put l i (flag, pc')).threads
put-Watched l i pc flag pc' e h s =
    omega (arith, total-set awake l.threads i pc pc' e, total-get awake l.threads i pc e)

wake_first-Watched :
    (ps : List LockPc) → 1 ≤ total sleeps (wake_first ps) → 1 ≤ total awake (wake_first ps)
wake_first-Watched [] h = h
wake_first-Watched (LockPc.blocked ∷ ps) h = omega arith
wake_first-Watched (pc ∷ ps) h = ground (arith, wake_first-Watched ps)

wake-Watched : (flag : Bool) (ps : List LockPc) (k : ℕ) → Watched flag (wake ps k)
wake-Watched flag ps k h = elim (Option-cases (get_elem? ps k)) [
  | inl e ↦ ground (arith, wake_first-Watched ps)
  | inr (LockPc.blocked, e) ↦ ground (arith, total-set awake ps k blocked testing e)
  | inr (pc, e) ↦ ground (arith, wake_first-Watched ps)
]

moved-Watched :
    (l : Lock) (i k : ℕ) (pc : LockPc)
    → get_elem? l.threads i ≡ some pc
    → Watched
        (notify (put l i (lock_pc l.flag pc)) pc k).flag
        (notify (put l i (lock_pc l.flag pc)) pc k).threads
moved-Watched l i k LockPc.notifying e = wake-Watched l.flag (set l.threads i outside) k
moved-Watched l i k pc e =
    put-Watched l i pc (lock_pc l.flag pc).0 (lock_pc l.flag pc).1 e
      (omega (arith, lock_pc-awake l.flag pc))

step-Watched :
    (l : Lock) (m : ℕ × ℕ)
    → Watched l.flag l.threads
    → Watched (spinlock_a_step l m).flag (spinlock_a_step l m).threads
unfolding spinlock_a_step
step-Watched l (i, k) v = elim (Option-cases (get_elem? l.threads i)) [
  | inl e ↦ rw (e, spinlock_a_step) v
  | inr (pc, e) ↦ rw (e, spinlock_a_step) (moved-Watched l i k pc e)
]

run-Watched :
    (l : Lock) (ms : List (ℕ × ℕ))
    → Watched l.flag l.threads
    → Watched (spinlock_a_run l ms).flag (spinlock_a_run l ms).threads
unfolding spinlock_a_run
run-Watched l [] v = v
run-Watched l (m ∷ ms) v = run-Watched (spinlock_a_step l m) ms (step-Watched l m v)

none_sleeps : (n : ℕ) → total sleeps (replicate n outside) ≡ 0
none_sleeps zero = refl
none_sleeps (suc n) = omega (arith, none_sleeps n)

-- However any number of threads that use one `SpinlockA` take turns, and whichever sleeper each
-- `notify_one` wakes: while a thread sleeps, the flag is set, or a thread is awake that looks at the
-- flag again or is about to wake a sleeper.
pub no_wakeup_lost :
    (n : ℕ) (ms : List (ℕ × ℕ))
    → 1 ≤ total sleeps (spinlock_a_run (free n) ms).threads
    → let l = spinlock_a_run (free n) ms in 1 ≤ set_to l.flag + total awake l.threads
no_wakeup_lost n ms = run-Watched (free n) ms λ h. absurd (omega (arith, none_sleeps n))
