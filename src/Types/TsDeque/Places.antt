-- ===== src/Types/TsDeque/Places.antt =====
-- The methods of `ts_deque` (include/Types.h) at a place, and what they do with the lock.
use sync_files.Base.{
  ℕ, zero, suc, ◌+◌, ◌≤◌, ◌≡◌, ◌≢◌, refl, ap, subst, true, false, some, List, [], ◌∷◌, ◌++◌, length,
  length-append, drop-append, append_assoc, get_elem?, set, take, drop, arith, leb,
}
use sync_files.Types.{returned, stuck, Guarded}
use sync_files.Types.Pairs.{free, guard_both_self, guard_both-ne}
use sync_files.Types.TsDeque.{
  Call, insert_range, erase_range, nothing, position, body, call, swap, insert_at, erase_at,
  exchange,
}

le_leb : (m n : ℕ) → m ≤ n → leb m n ≡ true
le_leb m n h = ground arith

module _ {ℓ} {A : Type ℓ} where
  -- A method of a free deque releases the lock, whatever it returns or throws; a method of a locked
  -- one never returns, and changes nothing.
  pub lock_kept :
      (c : Call A) (xs : List A)
      → ((call c (free xs)).1.flag ≡ false)
        × (call c (record { flag = true; content = xs })
            ≡ (stuck, record { flag = true; content = xs }))
  unfolding call
  lock_kept c xs = (refl, refl)

  take-insert : (n : ℕ) (xs ys : List A) → n ≤ length xs → take n (take n xs ++ ys) ≡ take n xs
  take-insert zero xs ys h = refl
  take-insert (suc n) [] ys h = absurd (omega arith)
  take-insert (suc n) (x ∷ xs) ys h = ap (◌∷◌ x) (take-insert n xs ys (omega arith))

  take-drop : (n : ℕ) (xs : List A) → take n xs ++ drop n xs ≡ xs
  take-drop zero xs = refl
  take-drop (suc n) [] = refl
  take-drop (suc n) (x ∷ xs) = ap (◌∷◌ x) (take-drop n xs)

  drop-insert :
      (n : ℕ) (xs ys zs : List A)
      → n ≤ length xs
      → drop (n + length ys) (take n xs ++ ys ++ zs) ≡ zs
  drop-insert zero xs ys zs h =
      let e : length ys ≡ 0 + length ys = omega arith in
      subst (λ k. drop k (ys ++ zs) ≡ zs) e (drop-append ys zs)
  drop-insert (suc n) [] ys zs h = absurd (omega arith)
  drop-insert (suc n) (x ∷ xs) ys zs h =
      let e : suc (n + length ys) ≡ suc n + length ys = omega arith in
      subst (λ k. drop k (x ∷ (take n xs ++ ys ++ zs)) ≡ zs) e
        (drop-insert n xs ys zs (omega arith))

  length-insert :
      (n : ℕ) (xs ys zs : List A) → n ≤ length xs → n + length ys ≤ length (take n xs ++ ys ++ zs)
  length-insert zero xs ys zs h = omega (arith, length-append ys zs)
  length-insert (suc n) [] ys zs h = absurd (omega arith)
  length-insert (suc n) (x ∷ xs) ys zs h = omega (arith, length-insert n xs ys zs)

  insert_at-eq :
      (pos : ℕ) (ys xs : List A)
      → pos ≤ length xs
      → insert_at pos ys xs ≡ (returned (position pos), take pos xs ++ ys ++ drop pos xs)
  insert_at-eq pos ys xs h = ground arith

  erase_at-eq :
      (first last : ℕ) (xs : List A)
      → first ≤ last
      → last ≤ length xs
      → erase_at first last xs ≡ (returned (position first), take first xs ++ drop last xs)
  erase_at-eq first last xs h k = rw (le_leb first last h, le_leb last (length xs) k, erase_at) refl

  erased :
      (pos : ℕ) (ys xs : List A)
      → pos ≤ length xs
      → take pos (take pos xs ++ ys ++ drop pos xs)
          ++ drop (pos + length ys) (take pos xs ++ ys ++ drop pos xs)
        ≡ xs
  erased pos ys xs h =
      rw
        (
          drop-insert pos xs ys (drop pos xs) h,
          append_assoc (take pos xs) ys (drop pos xs),
          take-insert pos xs (ys ++ drop pos xs) h,
        )
        (take-drop pos xs)

  -- A range that is inserted in an unlocked deque, at a place that it has, and is erased again,
  -- leaves the deque as it was.
  pub erase_range-insert_range :
      (pos : ℕ) (ys xs : List A)
      → pos ≤ length xs
      → call (erase_range pos (pos + length ys)) (call (insert_range pos ys) (free xs)).1
        ≡ (returned (position pos), free xs)
  unfolding call body
  erase_range-insert_range pos ys xs h =
      rw
        (
          insert_at-eq pos ys xs h,
          erase_at-eq pos (pos + length ys) (take pos xs ++ ys ++ drop pos xs) (omega arith)
              (length-insert pos xs ys (drop pos xs) h),
          erased pos ys xs h,
        )
        refl

  -- `swap` exchanges two different deques that are free, and releases both locks; a deque that is
  -- swapped with itself waits for its own lock for ever.
  pub swap_lem :
      (ds : List (Guarded (List A))) (i k : ℕ) (xs ys : List A)
      → i ≢ k
      → get_elem? ds i ≡ some (free xs)
      → get_elem? ds k ≡ some (free ys)
      → (swap ds i k ≡ (returned nothing, set (set ds i (free ys)) k (free xs)))
        × ((swap ds i i).0 ≡ stuck)
  unfolding swap
  swap_lem ds i k xs ys h e f =
      (guard_both-ne exchange ds i k xs ys h e f, guard_both_self exchange ds i xs e)
