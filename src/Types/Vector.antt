-- ===== src/Types/Vector.antt =====
-- `Vector` of include/Types.h: a pointer to a std::vector, or null, under a lock. Each method but
-- `operator[]` holds the lock of its object, and of the other where it has one. Capacities are
-- left out.
pub mod View
use sync_files.Base.{
  ℕ, suc, ◌+◌, Bool, true, false, Option, none, some, List, [], ◌∷◌, ◌++◌, length, get_elem?,
  replicate, leb,
}
use sync_files.Types.{Nothing, Outcome, returned, thrown, undefined, Guarded, guard, guard_both}

-- The methods of one object, with their arguments; an iterator is the position it stands at.
pub data Call {ℓ} (A : Type ℓ) : Type ℓ where
  reset : Call A
  size : Call A
  data_pointer : Call A
  empty : Call A
  clear : Call A
  push_back : A → Call A
  begin : Call A
  end : Call A
  shrink_to_fit : Call A
  swap_plain : List A → Call A  -- with a std::vector
  reserve : ℕ → Call A
  to_vector : Call A

pub data Value {ℓ} (A : Type ℓ) : Type ℓ where
  nothing : Value A
  position : ℕ → Value A
  number : ℕ → Value A
  truth : Bool → Value A
  elements : List A → Value A
  pointer : Option (List A) → Value A  -- null, or to the elements

module _ {ℓ} {A : Type ℓ} where
  abbrev pub vector : Option (List A) → Guarded (Option (List A))
  vector p = record { flag = false; content = p }

  -- The constructors: from nothing, a std::vector, or a number of equal elements.
  unfoldable pub vector_new : Guarded (Option (List A))
  vector_new = vector none

  unfoldable pub vector_of : List A → Guarded (Option (List A))
  vector_of xs = vector (some xs)

  unfoldable pub vector_count : ℕ → A → Guarded (Option (List A))
  vector_count n x = vector (some (replicate n x))

  -- The elements; null has none.
  abbrev pub view : Option (List A) → List A
  view none = []
  view (some xs) = xs

  abbrev pub size_of : Option (List A) → ℕ
  size_of none = 0
  size_of (some xs) = length xs

  abbrev pub is_empty : Option (List A) → Bool
  is_empty none = true
  is_empty (some xs) = leb (length xs) 0

  abbrev pub pushed : A → Option (List A) → Option (List A)
  pushed x none = some ([] ++ x ∷ [])
  pushed x (some xs) = some (xs ++ x ∷ [])

  -- A null pointer gets an empty std::vector.
  abbrev pub made : Option (List A) → Option (List A)
  made none = some []
  made (some xs) = some xs

  abbrev pub end_of : Option (List A) → ℕ
  end_of none = 0
  end_of (some xs) = length xs

  -- `swap_plain` returns what the std::vector holds afterwards.
  abbrev pub swapped_plain : List A → Option (List A) → Outcome (Value A) × Option (List A)
  swapped_plain ys none = (returned (elements []), some ys)
  swapped_plain ys (some xs) = (returned (elements xs), some ys)

  unfoldable pub body : Call A → Option (List A) → Outcome (Value A) × Option (List A)
  body reset p = (returned nothing, none)
  body size p = (returned (number (size_of p)), p)
  body data_pointer p = (returned (pointer p), p)
  body empty p = (returned (truth (is_empty p)), p)
  body clear p = (returned nothing, none)
  body (push_back x) p = (returned nothing, pushed x p)
  body begin p = (returned (position 0), made p)
  body end p = (returned (position (end_of p)), made p)
  body shrink_to_fit p = (returned nothing, p)
  body (swap_plain ys) p = swapped_plain ys p
  body (reserve n) p = (returned nothing, made p)
  body to_vector p = (returned (elements (view p)), p)

  unfoldable pub call :
      Call A → Guarded (Option (List A)) → Outcome (Value A) × Guarded (Option (List A))
  unfolding body
  call c v = guard (body c) v

  abbrev pub element : Option A → Outcome A
  element none = undefined
  element (some x) = returned x

  abbrev pub element_of : Option (List A) → ℕ → Outcome A
  element_of none i = thrown
  element_of (some xs) i = element (get_elem? xs i)

  -- `operator[]` takes no lock.
  unfoldable pub subscript : Guarded (Option (List A)) → ℕ → Outcome A
  subscript v i = element_of v.content i

  abbrev pub copied :
      Option (List A) → Option (List A) → Outcome Nothing × Option (List A) × Option (List A)
  copied p none = (returned tt, none, none)
  copied p (some xs) = (returned tt, some xs, some xs)

  unfoldable pub copy_assign :
      List (Guarded (Option (List A))) → ℕ → ℕ → Outcome Nothing × List (Guarded (Option (List A)))
  copy_assign vs i k = guard_both copied vs i k

  abbrev pub moved :
      Option (List A) → Option (List A) → Outcome Nothing × Option (List A) × Option (List A)
  moved p q = (returned tt, q, none)

  unfoldable pub move_assign :
      List (Guarded (Option (List A))) → ℕ → ℕ → Outcome Nothing × List (Guarded (Option (List A)))
  move_assign vs i k = guard_both moved vs i k

  abbrev pub exchanged :
      Option (List A) → Option (List A) → Outcome Nothing × Option (List A) × Option (List A)
  exchanged (some xs) (some ys) = (returned tt, some ys, some xs)
  exchanged none (some ys) = (returned tt, some ys, some [])
  exchanged (some xs) none = (returned tt, some [], some xs)
  exchanged none none = (returned tt, none, none)

  -- `swap` of two Vectors, which is also what `std::swap` calls.
  unfoldable pub swap :
      List (Guarded (Option (List A))) → ℕ → ℕ → Outcome Nothing × List (Guarded (Option (List A)))
  swap vs i k = guard_both exchanged vs i k
