-- ===== src/Types/TsDeque.antt =====
-- `ts_deque` of include/Types.h: each method holds the deque's lock while it runs. An iterator is
-- the position it stands at. The calls that cannot be compiled, on a `const` deque, are left out.
pub mod Fifo
pub mod Places
pub mod Making
use sync_files.Base.{
  ℕ, zero, suc, ◌+◌, ◌-◌, Bool, true, false, Option, none, some, List, [], ◌∷◌, ◌++◌, length,
  get_elem?, take, drop, replicate, leb, if◌then◌else◌,
}
use sync_files.Types.{Outcome, returned, thrown, undefined, Guarded, guard, guard_both}

-- The methods, with their arguments.
pub data Call {ℓ} (A : Type ℓ) : Type ℓ where
  assign_count : ℕ → A → Call A
  assign : List A → Call A
  at : ℕ → Call A
  subscript : ℕ → Call A
  front : Call A
  get_pop_front : Call A
  back : Call A
  begin : Call A
  end : Call A
  cbegin : Call A
  cend : Call A
  rbegin : Call A
  rend : Call A
  crbegin : Call A
  crend : Call A
  get_allocator : Call A
  max_size : ℕ → Call A  -- the implementation's bound
  empty : Call A
  size : Call A
  shrink_to_fit : Call A
  clear : Call A
  emplace : ℕ → A → Call A
  emplace_back : A → Call A
  emplace_front : A → Call A
  push_back : A → Call A
  pop_back : Call A
  push_front : A → Call A
  pop_front : Call A
  resize : ℕ → A → Call A
  erase : ℕ → Call A
  erase_range : ℕ → ℕ → Call A
  insert : ℕ → A → Call A
  insert_count : ℕ → ℕ → A → Call A
  insert_range : ℕ → List A → Call A
  ts_front : Call A
  ts_back : Call A

pub data Value {ℓ} (A : Type ℓ) : Type ℓ where
  nothing : Value A
  element : A → Value A
  position : ℕ → Value A
  reverse_position : ℕ → Value A  -- counted from the end
  allocator : Value A
  number : ℕ → Value A
  truth : Bool → Value A
  dangling : Value A  -- a reference to an element that is gone

module _ {ℓ} {A : Type ℓ} where
  -- The last element, and the elements before it.
  abbrev pub last : List A → Option A
  last [] = none
  last (x ∷ []) = some x
  last (x ∷ y ∷ ys) = last (y ∷ ys)

  abbrev pub but_last : List A → List A
  but_last [] = []
  but_last (x ∷ []) = []
  but_last (x ∷ y ∷ ys) = x ∷ but_last (y ∷ ys)

  -- A read of an element, and what it does where there is none.
  abbrev pub read : Outcome (Value A) → List A → Option A → Outcome (Value A) × List A
  read missing xs none = (missing, xs)
  read missing xs (some x) = (returned (element x), xs)

  -- `pop_front` of std::deque, whose result on an empty deque is undefined.
  abbrev pub pop_first : Value A → List A → Outcome (Value A) × List A
  pop_first v [] = (undefined, [])
  pop_first v (x ∷ xs) = (returned v, xs)

  abbrev pub take_front : List A → Outcome (Value A) × List A
  take_front [] = (thrown, [])
  take_front (x ∷ xs) = (returned (element x), xs)

  abbrev pub drop_front : List A → Outcome (Value A) × List A
  drop_front [] = (thrown, [])
  drop_front (x ∷ xs) = (returned dangling, xs)

  abbrev pub drop_back : List A → Outcome (Value A) × List A
  drop_back [] = (thrown, [])
  drop_back (x ∷ xs) = (returned dangling, but_last (x ∷ xs))

  abbrev pub pop_last : List A → Outcome (Value A) × List A
  pop_last [] = (undefined, [])
  pop_last (x ∷ xs) = (returned nothing, but_last (x ∷ xs))

  abbrev pub insert_at : ℕ → List A → List A → Outcome (Value A) × List A
  insert_at pos ys xs =
      if leb pos (length xs)
      then (returned (position pos), take pos xs ++ ys ++ drop pos xs)
      else (undefined, xs)

  abbrev pub erase_at : ℕ → ℕ → List A → Outcome (Value A) × List A
  erase_at first last xs =
      if leb first last
      then if leb last (length xs)
        then (returned (position first), take first xs ++ drop last xs)
        else (undefined, xs)
      else (undefined, xs)

  abbrev pub erase_one : ℕ → List A → Outcome (Value A) × List A
  erase_one pos xs =
      if leb (suc pos) (length xs)
      then (returned (position pos), take pos xs ++ drop (suc pos) xs)
      else (undefined, xs)

  -- The body of a method, under the lock. The `emplace` methods return nothing where they promise
  -- an iterator or a reference.
  unfoldable pub body : Call A → List A → Outcome (Value A) × List A
  body (assign_count n x) xs = (returned nothing, replicate n x)
  body (assign ys) xs = (returned nothing, ys)
  body (at i) xs = read thrown xs (get_elem? xs i)
  body (subscript i) xs = read undefined xs (get_elem? xs i)
  body front xs = read undefined xs (get_elem? xs 0)
  body get_pop_front xs = take_front xs
  body back xs = read undefined xs (last xs)
  body begin xs = (returned (position 0), xs)
  body end xs = (returned (position (length xs)), xs)
  body cbegin xs = (returned (position 0), xs)
  body cend xs = (returned (position (length xs)), xs)
  body rbegin xs = (returned (reverse_position 0), xs)
  body rend xs = (returned (reverse_position (length xs)), xs)
  body crbegin xs = (returned (reverse_position 0), xs)
  body crend xs = (returned (reverse_position (length xs)), xs)
  body get_allocator xs = (returned allocator, xs)
  body (max_size n) xs = (returned (number n), xs)
  body empty xs = (returned (truth (leb (length xs) 0)), xs)
  body size xs = (returned (number (length xs)), xs)
  body shrink_to_fit xs = (returned nothing, xs)
  body clear xs = (returned nothing, [])
  body (emplace i x) xs = (undefined, take i xs ++ x ∷ drop i xs)
  body (emplace_back x) xs = (undefined, xs ++ x ∷ [])
  body (emplace_front x) xs = (undefined, x ∷ xs)
  body (push_back x) xs = (returned nothing, xs ++ x ∷ [])
  body pop_back xs = pop_last xs
  body (push_front x) xs = (returned nothing, x ∷ xs)
  body pop_front xs = pop_first nothing xs
  body (resize n x) xs = (returned nothing, take n xs ++ replicate (n - length xs) x)
  body (erase pos) xs = erase_one pos xs
  body (erase_range first last) xs = erase_at first last xs
  body (insert pos x) xs = insert_at pos (x ∷ []) xs
  body (insert_count pos n x) xs = insert_at pos (replicate n x) xs
  body (insert_range pos ys) xs = insert_at pos ys xs
  body ts_front xs = drop_front xs
  body ts_back xs = drop_back xs

  unfoldable pub call : Call A → Guarded (List A) → Outcome (Value A) × Guarded (List A)
  unfolding body
  call c d = guard (body c) d

  abbrev exchange : List A → List A → Outcome (Value A) × List A × List A
  exchange xs ys = (returned nothing, ys, xs)

  -- `swap` of the deque at `i` with the one at `k`.
  unfoldable pub swap :
      List (Guarded (List A)) → ℕ → ℕ → Outcome (Value A) × List (Guarded (List A))
  swap ds i k = guard_both exchange ds i k
