-- ===== src/Threading.antt =====
-- `Spinlock` and `SpinlockA` of include/Threading.h: threads that take the lock, run their section
-- and release it, in any order. A step is one access to the flag, one comparison of its `wait`, or
-- one `notify_one`.
pub mod Exclusion
pub mod Wakeups
use sync_files.Base.{
  ℕ, zero, suc, Bool, true, false, Option, none, some, List, [], ◌∷◌, set, get_elem?,
}

-- Where a thread stands; it starts its constructor, or its destructor, whenever it moves on.
pub data LockPc : Type 0 where
  outside : LockPc
  testing : LockPc  -- at `test_and_set`
  comparing : LockPc  -- in `wait`, at its look at the flag
  blocked : LockPc  -- in `wait`, asleep
  inside : LockPc
  notifying : LockPc  -- the flag is clear, `notify_one` is next

pub record Lock : Type 0 where
  pub flag : Bool
  pub threads : List LockPc

abbrev pub put : Lock → ℕ → Bool × LockPc → Lock
put l i (flag, pc) = record { flag = flag; threads = set l.threads i pc }

-- `test_and_set` of the constructor: the flag is set, and its old value says where to go.
abbrev pub test_and_set : Bool → LockPc → Bool × LockPc
test_and_set true failed = (true, failed)
test_and_set false failed = (true, inside)

-- `Spinlock`: its constructor only spins, and its destructor only clears.
abbrev pub spin : Bool → LockPc → Bool × LockPc
spin flag outside = (flag, testing)
spin flag testing = test_and_set flag testing
spin flag inside = (false, outside)
spin flag pc = (flag, pc)

unfoldable pub spinlock_step : Lock → ℕ → Lock
spinlock_step l i = elim (get_elem? l.threads i) [ none ↦ l | some pc ↦ put l i (spin l.flag pc) ]

unfoldable pub spinlock_run : Lock → List ℕ → Lock
unfolding spinlock_step
spinlock_run l [] = l
spinlock_run l (i ∷ is) = spinlock_run (spinlock_step l i) is

-- `wait(true)` sleeps only where the flag is set at its own look.
abbrev pub compare : Bool → LockPc
compare true = blocked
compare false = testing

-- `SpinlockA`, up to the call of `notify_one`. A thread that sleeps may also wake by itself.
abbrev pub lock_pc : Bool → LockPc → Bool × LockPc
lock_pc flag outside = (flag, testing)
lock_pc flag testing = test_and_set flag comparing
lock_pc flag comparing = (flag, compare flag)
lock_pc flag blocked = (flag, testing)
lock_pc flag inside = (false, notifying)
lock_pc flag notifying = (flag, outside)

-- Wakes the first sleeper.
abbrev pub wake_first : List LockPc → List LockPc
wake_first [] = []
wake_first (LockPc.blocked ∷ ps) = testing ∷ ps
wake_first (pc ∷ ps) = pc ∷ wake_first ps

-- `notify_one` wakes one sleeper, which one is not said: that of the index, or the first.
abbrev pub wake : List LockPc → ℕ → List LockPc
wake ps k = elim (get_elem? ps k) [ some LockPc.blocked ↦ set ps k testing | _ ↦ wake_first ps ]

abbrev pub notify : Lock → LockPc → ℕ → Lock
notify l LockPc.notifying k = record l { threads = wake l.threads k }
notify l pc k = l

-- Thread `i` moves; where it notifies, `k` is the sleeper it would wake.
unfoldable pub spinlock_a_step : Lock → ℕ × ℕ → Lock
spinlock_a_step l (i, k) = elim (get_elem? l.threads i) [
  | none ↦ l
  | some pc ↦ notify (put l i (lock_pc l.flag pc)) pc k
]

unfoldable pub spinlock_a_run : Lock → List (ℕ × ℕ) → Lock
unfolding spinlock_a_step
spinlock_a_run l [] = l
spinlock_a_run l (m ∷ ms) = spinlock_a_run (spinlock_a_step l m) ms
