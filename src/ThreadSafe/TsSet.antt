-- ===== src/ThreadSafe/TsSet.antt =====
-- `ts_set` of include/ThreadSafe.h: each method holds the set's lock while it runs. The constructors
-- but the default one, and the assignment of a list, do not compile where they are used: they take
-- `_set` for a pointer.
pub mod Members
pub mod Order
pub mod KeySet
use sync_files.Base.{
  ℕ, ◌≡◌, Bool, true, false, not, ◌&&◌, ◌||◌, List, [], ◌∷◌, length, leb, if◌then◌else◌,
}
use sync_files.Types.{Outcome, returned, undefined, Guarded, guard}

-- The parameter `Compare`: a test for "less", which orders all keys.
pub record Compare {ℓ} (A : Type ℓ) : Type ℓ where
  pub less : A → A → Bool
  pub irrefl : (a : A) → less a a ≡ false
  pub trans : (a b c : A) → less a b ≡ true → less b c ≡ true → less a c ≡ true
  pub total : (a b : A) → less a b ≡ false → less b a ≡ false → a ≡ b

-- The methods, with their arguments; `max_size` has the implementation's bound.
pub data Call {ℓ} (A : Type ℓ) : Type ℓ where
  begin : Call A
  end : Call A
  rbegin : Call A
  rend : Call A
  empty : Call A
  size : Call A
  max_size : ℕ → Call A
  clear : Call A
  insert : A → Call A
  insert_hint : ℕ → A → Call A
  insert_list : List A → Call A

-- An iterator is the position it stands at; a reverse one counts from the end.
pub data Value : Type 0 where
  nothing : Value
  position : ℕ → Value
  reverse_position : ℕ → Value
  truth : Bool → Value
  number : ℕ → Value

module _ {ℓ} {A : Type ℓ} ⦃c : Compare A⦄ where
  -- `insert` of std::set, whose elements stand in the order of `Compare`.
  unfoldable pub place : A → List A → List A
  place x [] = x ∷ []
  place x (y ∷ ys) =
      let rest = place x ys in
      if c.less x y then x ∷ y ∷ ys else if c.less y x then y ∷ rest else y ∷ ys

  unfoldable pub place_all : List A → List A → List A
  place_all [] s = s
  place_all (x ∷ xs) s = place_all xs (place x s)

  -- The body of a method, under the lock.
  unfoldable pub body : Call A → List A → Outcome Value × List A
  body begin s = (returned (position 0), s)
  body end s = (returned (position (length s)), s)
  body rbegin s = (returned (reverse_position 0), s)
  body rend s = (returned (reverse_position (length s)), s)
  body empty s = (returned (truth (leb (length s) 0)), s)
  body size s = (returned (number (length s)), s)
  body (max_size n) s = (returned (number n), s)
  body clear s = (returned nothing, [])
  body (insert x) s = (returned nothing, place x s)
  body (insert_hint pos x) s =
      if leb pos (length s) then (returned nothing, place x s) else (undefined, s)
  body (insert_list xs) s = (returned nothing, place_all xs s)

  unfoldable pub call : Call A → Guarded (List A) → Outcome Value × Guarded (List A)
  unfolding body
  call k s = guard (body k) s

  -- What a sequence of calls leaves.
  unfoldable pub after : List (Call A) → Guarded (List A) → Guarded (List A)
  after [] s = s
  after (k ∷ ks) s = after ks (call k s).1
