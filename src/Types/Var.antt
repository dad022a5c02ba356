-- ===== src/Types/Var.antt =====
-- `ThreadSafeVar` of include/Types.h, used by any number of threads in any order. A step is one
-- access to the flag or to the value: `value += val` reads and then writes.
pub mod Section
pub mod Atomic
use sync_files.Base.{ℕ, Bool, true, false, Option, none, some, List, [], ◌∷◌, ◌++◌, set, get_elem?}

-- What `+=` and `-=` do on the type of the value.
pub record Arithmetic {ℓ} (A : Type ℓ) : Type ℓ where
  pub plus : A → A → A
  pub minus : A → A → A

pub data Op {ℓ} (A : Type ℓ) : Type ℓ where
  get : Op A
  assign : A → Op A
  increment : A → Op A
  decrement : A → Op A

pub data VarPc {ℓ} (A : Type ℓ) : Type ℓ where
  idle : VarPc A
  waiting : Op A → VarPc A  -- at `test_and_set`
  reading : Op A → VarPc A
  writing : Op A → A → VarPc A
  clearing : Op A → Option A → VarPc A  -- with what `Get` returns

pub record Var {ℓ} (A : Type ℓ) : Type ℓ where
  pub value : A
  pub locked : Bool
  pub threads : List (VarPc A)

module _ {ℓ} {A : Type ℓ} where
  -- The first access after the lock is taken.
  abbrev pub enter : Op A → VarPc A
  enter (assign x) = writing (assign x) x
  enter op = reading op

  abbrev pub after_read : Arithmetic A → Op A → A → VarPc A
  after_read num get v = clearing get (some v)
  after_read num (assign x) v = writing (assign x) x
  after_read num (increment x) v = writing (increment x) (num.plus v x)
  after_read num (decrement x) v = writing (decrement x) (num.minus v x)

  abbrev pub test_and_set : Bool → Op A → VarPc A
  test_and_set true op = waiting op
  test_and_set false op = enter op

  abbrev pub put : Var A → ℕ → A → Bool → VarPc A → Var A
  put s i v l pc = record { value = v; locked = l; threads = set s.threads i pc }

  -- One step of thread `i`, which stands at `pc`; an idle thread calls `op`.
  unfoldable pub move : Arithmetic A → Var A → ℕ → Op A → VarPc A → Var A
  move num s i op idle = put s i s.value s.locked (waiting op)
  move num s i op (waiting o) = put s i s.value true (test_and_set s.locked o)
  move num s i op (reading o) = put s i s.value s.locked (after_read num o s.value)
  move num s i op (writing o x) = put s i x s.locked (clearing o none)
  move num s i op (clearing o r) = put s i s.value false idle

  -- The call that a step ends, with what it returns.
  abbrev pub ended : VarPc A → List (Op A × Option A)
  ended (clearing o r) = (o, r) ∷ []
  ended _ = []

-- The state and the calls that have ended so far, the earliest first.
abbrev pub History {ℓ} : Type ℓ → Type ℓ
History A = Var A × List (Op A × Option A)

module _ {ℓ} {A : Type ℓ} where
  unfoldable pub step : Arithmetic A → History A → ℕ × Op A → History A
  unfolding move
  step num (s, log) (i, op) = elim (get_elem? s.threads i) [
    | none ↦ (s, log)
    | some pc ↦ (move num s i op pc, log ++ ended pc)
  ]

  unfoldable pub run : Arithmetic A → History A → List (ℕ × Op A) → History A
  unfolding step
  run num h [] = h
  run num h (m ∷ ms) = run num (step num h m) ms
