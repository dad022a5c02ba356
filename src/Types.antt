-- ===== src/Types.antt =====
-- The parts of include/Types.h: a variable under a lock, and the containers under one. A method of
-- a container holds the container's lock while it runs, so that it is one step: what it returns or
-- throws, and the content afterwards.
pub mod Var
pub mod VarVector
pub mod TsDeque
pub mod Pairs
pub mod Text
pub mod Vector
pub mod Deque
use sync_files.Base.{ℕ, Bool, true, false, Option, none, some, List, set, get_elem?}

pub data Outcome {ℓ} (B : Type ℓ) : Type ℓ where
  returned : B → Outcome B
  thrown : Outcome B  -- std::out_of_range
  undefined : Outcome B  -- the language does not say what happens
  stuck : Outcome B  -- spins for ever

-- What a method of type `void`, or one that returns `*this`, returns.
abbrev pub Nothing : Type 0
Nothing = Unit

-- A content and the flag of its lock.
pub record Guarded {ℓ} (C : Type ℓ) : Type ℓ where
  pub flag : Bool
  pub content : C

module _ {ℓ κ} {C : Type ℓ} {B : Type κ} where
  abbrev pub release : Outcome B × C → Outcome B × Guarded C
  release (r, c) = (r, record { flag = false; content = c })

  -- `Spinlock guard(_flag);` and the rest of the method: where no other thread will clear the
  -- flag, a flag that is set holds the caller for ever. The guard's destructor runs on a throw too.
  abbrev pub guard : (C → Outcome B × C) → Guarded C → Outcome B × Guarded C
  guard body g = elim g.flag [ true ↦ (stuck, g) | false ↦ release (body g.content) ]

  abbrev pub release_both :
      List (Guarded C) → ℕ → ℕ → Outcome B × C × C → Outcome B × List (Guarded C)
  release_both gs i k (r, c, d) = (
    r,
    set (set gs i (record { flag = false; content = c })) k (record { flag = false; content = d }),
  )

  -- The second guard, with the first one's flag set in `gs`.
  abbrev pub guard_other :
      (C → C → Outcome B × C × C)
      → List (Guarded C)
      → ℕ
      → ℕ
      → C
      → Option (Guarded C)
      → Outcome B × List (Guarded C)
  guard_other body gs i k c none = (undefined, gs)
  guard_other body gs i k c (some o) = elim o.flag [
    | true ↦ (stuck, gs)
    | false ↦ release_both gs i k (body c o.content)
  ]

  abbrev pub guard_this :
      (C → C → Outcome B × C × C)
      → List (Guarded C)
      → ℕ
      → ℕ
      → Option (Guarded C)
      → Outcome B × List (Guarded C)
  guard_this body gs i k none = (undefined, gs)
  guard_this body gs i k (some g) = elim g.flag [
    | true ↦ (stuck, gs)
    | false ↦
        let gs' = set gs i (record { flag = true; content = g.content }) in
        guard_other body gs' i k g.content (get_elem? gs' k)
  ]

  -- A method of the object at `i` that locks the object at `k` too: its own lock, then the other's.
  abbrev pub guard_both :
      (C → C → Outcome B × C × C) → List (Guarded C) → ℕ → ℕ → Outcome B × List (Guarded C)
  guard_both body gs i k = guard_this body gs i k (get_elem? gs i)
