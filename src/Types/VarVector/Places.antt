-- ===== src/Types/VarVector/Places.antt =====
-- Reads after writes in `ThreadSafeVarVector` (include/Types.h).
use sync_files.Base.{
  ℕ, zero, suc, ◌<◌, ◌≡◌, ◌≢◌, refl, ap, some, Option, List, [], ◌∷◌, ◌++◌, arith, length,
  get_elem?, set, get-set, get-set_ne, length-set,
}
use sync_files.Types.{returned}
use sync_files.Types.Pairs.{free}
use sync_files.Types.VarVector.{
  get, assign, push, pop, size, element, number, nothing, element_at, but_last, body, call,
}

module _ {ℓ} {A : Type ℓ} where
  get_in_range : (xs : List A) (i : ℕ) → i < length xs → (x : A) × (get_elem? xs i ≡ some x)
  get_in_range [] i h = absurd (omega arith)
  get_in_range (x ∷ xs) zero h = (x, refl)
  get_in_range (x ∷ xs) (suc i) h = get_in_range xs i (omega arith)

  but_last-append : (xs : List A) (x : A) → but_last (xs ++ x ∷ []) ≡ xs
  but_last-append [] x = refl
  but_last-append (y ∷ []) x = refl
  but_last-append (y ∷ z ∷ ys) x = ap (◌∷◌ y) (but_last-append (z ∷ ys) x)

  popped-append :
      (fresh : Option A) (xs : List A) (x : A)
      → call fresh pop (free (xs ++ x ∷ [])) ≡ (returned nothing, free xs)
  unfolding call body
  popped-append fresh [] x = refl
  popped-append fresh (y ∷ xs) x =
      ap (λ zs. (returned nothing, free zs)) (but_last-append (y ∷ xs) x)

  -- After `Set` in range, `Get` at the index returns the new value, at another it returns what it
  -- returned before, and the size is the same; `Pop` after `Push` restores the vector.
  pub set_lem :
      (fresh : Option A) (xs : List A) (x : A) (i k : ℕ)
      → i < length xs
      → i ≢ k
      → let v = (call fresh (assign x i) (free xs)).1 in
        ((call fresh (get i) v).0 ≡ returned (element x))
        × ((call fresh (get k) v).0 ≡ (call fresh (get k) (free xs)).0)
        × ((call fresh size v).0 ≡ returned (number (length xs)))
        × (call fresh pop (call fresh (push x) v).1 ≡ (returned nothing, v))
  unfolding call body
  set_lem fresh xs x i k h n = (
    ap (element_at fresh) (get-set xs i (get_in_range xs i h).0 x (get_in_range xs i h).1),
    ap (element_at fresh) (get-set_ne xs i k x n),
    ap (λ m. returned (number m)) (length-set xs i x),
    popped-append fresh (set xs i x) x,
  )
