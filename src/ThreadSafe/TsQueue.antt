-- ===== src/ThreadSafe/TsQueue.antt =====
-- `TSQueue` of include/ThreadSafe.h: each method holds the queue's lock while it runs.
pub mod Counts
use sync_files.Base.{ℕ, Bool, List, [], ◌∷◌, ◌++◌, length, leb}
use sync_files.Types.{Outcome, returned, undefined, Guarded, guard}

pub data Call {ℓ} (A : Type ℓ) : Type ℓ where
  push : A → Call A
  pop : Call A
  empty : Call A
  size : Call A

pub data Value : Type 0 where
  nothing : Value
  truth : Bool → Value
  number : ℕ → Value

module _ {ℓ} {A : Type ℓ} where
  -- `Pop` returns nothing; on an empty queue it reads no element, but calls `pop` all the same.
  abbrev pub drop_first : List A → Outcome Value × List A
  drop_first [] = (undefined, [])
  drop_first (x ∷ xs) = (returned nothing, xs)

  -- The body of a method, under the lock.
  unfoldable pub body : Call A → List A → Outcome Value × List A
  body (push x) xs = (returned nothing, xs ++ x ∷ [])
  body pop xs = drop_first xs
  body empty xs = (returned (truth (leb (length xs) 0)), xs)
  body size xs = (returned (number (length xs)), xs)

  unfoldable pub call : Call A → Guarded (List A) → Outcome Value × Guarded (List A)
  unfolding body
  call c q = guard (body c) q
