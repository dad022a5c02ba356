-- ===== src/Types/Deque.antt =====
-- `Deque` of include/Types.h: a pointer to a std::deque, or null, under a lock. Each method but
-- `operator[]` holds the lock of its object, and of the other where it has one. `data` and
-- `reserve` are left out: std::deque has no such methods, so that a call of them does not compile.
pub mod Sequences
use sync_files.Base.{
  ℕ, Bool, false, Option, none, some, List, [], ◌∷◌, length, replicate, get_elem?,
}
use sync_files.Types.{Nothing, Outcome, returned, thrown, undefined, Guarded, guard, guard_both}
use sync_files.Types.Vector.{
  Value, nothing, position, number, truth, elements, view, size_of, is_empty, pushed, made, end_of,
  element, swapped_plain,
}

-- The methods of one object, with their arguments; an iterator is the position it stands at.
pub data DequeCall {ℓ} (A : Type ℓ) : Type ℓ where
  reset : DequeCall A
  size : DequeCall A
  empty : DequeCall A
  clear : DequeCall A
  push_back : A → DequeCall A
  begin : DequeCall A
  end : DequeCall A
  shrink_to_fit : DequeCall A
  swap_plain : List A → DequeCall A  -- with a std::deque
  to_deque : DequeCall A

module _ {ℓ} {A : Type ℓ} where
  abbrev pub deque : Option (List A) → Guarded (Option (List A))
  deque p = record { flag = false; content = p }

  -- The constructors: from nothing, a std::deque, or a number of equal elements.
  unfoldable pub deque_new : Guarded (Option (List A))
  deque_new = deque none

  unfoldable pub deque_of : List A → Guarded (Option (List A))
  deque_of xs = deque (some xs)

  unfoldable pub deque_count : ℕ → A → Guarded (Option (List A))
  deque_count n x = deque (some (replicate n x))

  unfoldable pub deque_body : DequeCall A → Option (List A) → Outcome (Value A) × Option (List A)
  deque_body reset p = (returned nothing, none)
  deque_body size p = (returned (number (size_of p)), p)
  deque_body empty p = (returned (truth (is_empty p)), p)
  deque_body clear p = (returned nothing, none)
  deque_body (push_back x) p = (returned nothing, pushed x p)
  deque_body begin p = (returned (position 0), made p)
  deque_body end p = (returned (position (end_of p)), made p)
  deque_body shrink_to_fit p = (returned nothing, p)
  deque_body (swap_plain ys) p = swapped_plain ys p
  deque_body to_deque p = (returned (elements (view p)), p)

  unfoldable pub deque_call :
      DequeCall A → Guarded (Option (List A)) → Outcome (Value A) × Guarded (Option (List A))
  unfolding deque_body
  deque_call c d = guard (deque_body c) d

  abbrev pub deque_element : Option (List A) → ℕ → Outcome A
  deque_element none i = thrown
  deque_element (some xs) i = element (get_elem? xs i)

  -- `operator[]` takes no lock.
  unfoldable pub deque_subscript : Guarded (Option (List A)) → ℕ → Outcome A
  deque_subscript d i = deque_element d.content i

  abbrev pub deque_copied :
      Option (List A) → Option (List A) → Outcome Nothing × Option (List A) × Option (List A)
  deque_copied p none = (returned tt, none, none)
  deque_copied p (some xs) = (returned tt, some xs, some xs)

  unfoldable pub deque_copy_assign :
      List (Guarded (Option (List A))) → ℕ → ℕ → Outcome Nothing × List (Guarded (Option (List A)))
  deque_copy_assign ds i k = guard_both deque_copied ds i k

  unfoldable pub deque_move_assign :
      List (Guarded (Option (List A))) → ℕ → ℕ → Outcome Nothing × List (Guarded (Option (List A)))
  deque_move_assign ds i k = guard_both (λ p q. (returned tt, q, none)) ds i k

  abbrev pub deque_exchanged :
      Option (List A) → Option (List A) → Outcome Nothing × Option (List A) × Option (List A)
  deque_exchanged (some xs) (some ys) = (returned tt, some ys, some xs)
  deque_exchanged none (some ys) = (returned tt, some ys, some [])
  deque_exchanged (some xs) none = (returned tt, some [], some xs)
  deque_exchanged none none = (returned tt, none, none)

  -- `swap` of two Deques, which is also what `std::swap` calls.
  unfoldable pub deque_swap :
      List (Guarded (Option (List A))) → ℕ → ℕ → Outcome Nothing × List (Guarded (Option (List A)))
  deque_swap ds i k = guard_both deque_exchanged ds i k
