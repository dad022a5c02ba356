-- ===== src/Threading/Exclusion.antt =====
-- The locks of include/Threading.h let one thread in at a time.
use sync_files.Base.{
  ℕ, zero, suc, ◌+◌, ◌≤◌, ◌≡◌, refl, Bool, true, false, some, List, [], ◌∷◌, arith, get_elem?,
  replicate, total, total-set, total-get, Option-cases, inl, inr,
}
use sync_files.Threading.{
  LockPc, outside, testing, blocked, inside, Lock, put, spin, lock_pc, wake, wake_first, notify,
  spinlock_step, spinlock_run, spinlock_a_step, spinlock_a_run,
}

-- A thread that holds the lock.
abbrev pub holds : LockPc → ℕ
holds inside = 1
holds _ = 0

abbrev pub set_to : Bool → ℕ
set_to true = 1
set_to false = 0

-- The flag is set while one thread holds the lock, and clear while none does.
abbrev pub Exclusive : Lock → Type 0
Exclusive l = total holds l.threads ≡ set_to l.flag

-- A move's effect on the flag and on the holders is the same.
spin-holds :
    (flag : Bool) (pc : LockPc)
    → holds pc ≤ set_to flag
    → set_to flag + holds (spin flag pc).1 ≡ set_to (spin flag pc).0 + holds pc
spin-holds true outside h = refl
spin-holds true testing h = refl
spin-holds true inside h = refl
spin-holds true _ h = refl
spin-holds false testing h = refl
spin-holds false inside h = absurd (omega arith)
spin-holds false _ h = refl

lock_pc-holds :
    (flag : Bool) (pc : LockPc)
    → holds pc ≤ set_to flag
    → set_to flag + holds (lock_pc flag pc).1 ≡ set_to (lock_pc flag pc).0 + holds pc
lock_pc-holds false inside h = absurd (omega arith)
lock_pc-holds true pc h = ground arith
lock_pc-holds false pc h = ground arith

put-Exclusive :
    (l : Lock) (i : ℕ) (pc : LockPc) (m : Bool × LockPc)
    → get_elem? l.threads i ≡ some pc
    → set_to l.flag + holds m.1 ≡ set_to m.0 + holds pc
    → Exclusive l
    → Exclusive (put l i m)
put-Exclusive l i pc (flag, pc') e h v = omega (arith, total-set holds l.threads i pc pc' e)

wake_first-holds : (ps : List LockPc) → total holds (wake_first ps) ≡ total holds ps
wake_first-holds [] = refl
wake_first-holds (LockPc.blocked ∷ ps) = refl
wake_first-holds (pc ∷ ps) = ground (arith, wake_first-holds ps)

wake-holds : (ps : List LockPc) (k : ℕ) → total holds (wake ps k) ≡ total holds ps
wake-holds ps k = elim (Option-cases (get_elem? ps k)) [
  | inl e ↦ rw (e, wake, total) (wake_first-holds ps)
  | inr (LockPc.blocked, e) ↦ rw (e, wake) (omega (arith, total-set holds ps k blocked testing e))
  | inr (pc, e) ↦ ground (arith, wake_first-holds ps)
]

notify-Exclusive : (l : Lock) (pc : LockPc) (k : ℕ) → Exclusive l → Exclusive (notify l pc k)
notify-Exclusive l LockPc.notifying k v = omega (arith, wake-holds l.threads k)
notify-Exclusive l _ k v = v

spinlock_step-Exclusive : (l : Lock) (i : ℕ) → Exclusive l → Exclusive (spinlock_step l i)
unfolding spinlock_step
spinlock_step-Exclusive l i v = elim (Option-cases (get_elem? l.threads i)) [
  | inl e ↦ rw (e, spinlock_step) v
  | inr (pc, e) ↦
      rw (e, spinlock_step)
        (put-Exclusive l i pc (spin l.flag pc) e
          (spin-holds l.flag pc (omega (arith, total-get holds l.threads i pc e))) v)
]

spinlock_a_step-Exclusive : (l : Lock) (m : ℕ × ℕ) → Exclusive l → Exclusive (spinlock_a_step l m)
unfolding spinlock_a_step
spinlock_a_step-Exclusive l (i, k) v = elim (Option-cases (get_elem? l.threads i)) [
  | inl e ↦ rw (e, spinlock_a_step) v
  | inr (pc, e) ↦
      rw (e, spinlock_a_step)
        (notify-Exclusive (put l i (lock_pc l.flag pc)) pc k (
          put-Exclusive l i pc (lock_pc l.flag pc) e
            (lock_pc-holds l.flag pc (omega (arith, total-get holds l.threads i pc e))) v))
]

spinlock_run-Exclusive : (l : Lock) (is : List ℕ) → Exclusive l → Exclusive (spinlock_run l is)
unfolding spinlock_run
spinlock_run-Exclusive l [] v = v
spinlock_run-Exclusive l (i ∷ is) v =
    spinlock_run-Exclusive (spinlock_step l i) is (spinlock_step-Exclusive l i v)

spinlock_a_run-Exclusive :
    (l : Lock) (ms : List (ℕ × ℕ)) → Exclusive l → Exclusive (spinlock_a_run l ms)
unfolding spinlock_a_run
spinlock_a_run-Exclusive l [] v = v
spinlock_a_run-Exclusive l (m ∷ ms) v =
    spinlock_a_run-Exclusive (spinlock_a_step l m) ms (spinlock_a_step-Exclusive l m v)

-- Any number of threads before a lock that is free.
abbrev pub free : ℕ → Lock
free n = record { flag = false; threads = replicate n outside }

free-Exclusive : (n : ℕ) → Exclusive (free n)
free-Exclusive zero = refl
free-Exclusive (suc n) = omega (arith, free-Exclusive n)

-- However any number of threads that use one `Spinlock`, or one `SpinlockA`, take turns, at most
-- one of them is inside, and the flag is set exactly while one is.
pub exclusive :
    (n : ℕ) (is : List ℕ) (ms : List (ℕ × ℕ))
    → Exclusive (spinlock_run (free n) is) × Exclusive (spinlock_a_run (free n) ms)
exclusive n is ms = (
  spinlock_run-Exclusive (free n) is (free-Exclusive n),
  spinlock_a_run-Exclusive (free n) ms (free-Exclusive n),
)
