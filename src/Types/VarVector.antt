-- ===== src/Types/VarVector.antt =====
-- `ThreadSafeVarVector` of include/Types.h: each method holds the vector's lock while it runs.
pub mod Places
use sync_files.Base.{ℕ, Option, none, some, List, [], ◌∷◌, ◌++◌, length, get_elem?, set}
use sync_files.Types.{Outcome, returned, undefined, Guarded, guard}

pub data Call {ℓ} (A : Type ℓ) : Type ℓ where
  get : ℕ → Call A
  assign : A → ℕ → Call A  -- `Set(val, index)`
  push : A → Call A
  pop : Call A
  size : Call A

pub data Value {ℓ} (A : Type ℓ) : Type ℓ where
  nothing : Value A
  element : A → Value A
  number : ℕ → Value A

module _ {ℓ} {A : Type ℓ} where
  -- What a `T` holds that was not given a value: `none` where `T` has no constructor that makes one.
  abbrev pub unset : Option A → Outcome (Value A)
  unset none = undefined
  unset (some x) = returned (element x)

  -- A `Get` that is out of range returns such a `T`.
  abbrev pub element_at : Option A → Option A → Outcome (Value A)
  element_at fresh none = unset fresh
  element_at fresh (some x) = returned (element x)

  abbrev pub but_last : List A → List A
  but_last [] = []
  but_last (x ∷ []) = []
  but_last (x ∷ y ∷ ys) = x ∷ but_last (y ∷ ys)

  -- `pop_back` of an empty std::vector is undefined.
  abbrev pub pop_back : List A → Outcome (Value A) × List A
  pop_back [] = (undefined, [])
  pop_back (x ∷ xs) = (returned nothing, but_last (x ∷ xs))

  -- `set` writes only in range, as `Set` does. The first argument is what a new `T` holds.
  unfoldable pub body : Option A → Call A → List A → Outcome (Value A) × List A
  body fresh (get i) xs = (element_at fresh (get_elem? xs i), xs)
  body fresh (assign x i) xs = (returned nothing, set xs i x)
  body fresh (push x) xs = (returned nothing, xs ++ x ∷ [])
  body fresh pop xs = pop_back xs
  body fresh size xs = (returned (number (length xs)), xs)

  unfoldable pub call : Option A → Call A → Guarded (List A) → Outcome (Value A) × Guarded (List A)
  unfolding body
  call fresh c v = guard (body fresh c) v
