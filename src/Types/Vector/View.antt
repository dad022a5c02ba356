-- ===== src/Types/Vector/View.antt =====
-- `Vector` of include/Types.h stands for the list of its elements, whether its pointer is null or
-- not.
use sync_files.Base.{
  ℕ, ◌≡◌, ◌≢◌, ◌∙◌, refl, ap, false, Option, none, some, List, [], ◌∷◌, ◌++◌, length, leb,
  get_elem?,
}
use sync_files.Types.{Outcome, returned, Guarded}
use sync_files.Types.Pairs.{free, guard_both-after}
use sync_files.Types.Vector.{
  Call, reset, size, data_pointer, empty, clear, push_back, begin, end, shrink_to_fit, swap_plain,
  reserve, to_vector, Value, nothing, position, number, truth, elements, pointer, view, body, call,
  copied, moved, exchanged, copy_assign, move_assign, swap,
}

module _ {ℓ} {A : Type ℓ} where
  -- What a method does to a list.
  abbrev pub on_list : Call A → List A → Value A × List A
  on_list reset xs = (nothing, [])
  on_list size xs = (number (length xs), xs)
  on_list data_pointer xs = (elements xs, xs)
  on_list empty xs = (truth (leb (length xs) 0), xs)
  on_list clear xs = (nothing, [])
  on_list (push_back x) xs = (nothing, xs ++ x ∷ [])
  on_list begin xs = (position 0, xs)
  on_list end xs = (position (length xs), xs)
  on_list shrink_to_fit xs = (nothing, xs)
  on_list (swap_plain ys) xs = (elements xs, ys)
  on_list (reserve n) xs = (nothing, xs)
  on_list to_vector xs = (elements xs, xs)

  -- What can be told of an answer: a pointer shows the elements that it points to, and null has
  -- none.
  abbrev pub seen : Outcome (Value A) → Outcome (Value A)
  seen (returned (pointer p)) = returned (elements (view p))
  seen r = r

  -- Every method of a free Vector answers as the same operation on the list of its elements does,
  -- where the pointer that `data` returns stands for the elements it points to; it leaves the Vector
  -- with that list, and releases the lock.
  pub refines :
      (c : Call A) (p : Option (List A))
      → let r = call c (free p) in
        (seen r.0 ≡ returned (on_list c (view p)).0)
        × (view r.1.content ≡ (on_list c (view p)).1)
        × (r.1.flag ≡ false)
  unfolding call body
  refines reset p = (refl, refl, refl)
  refines c none = (refl, refl, refl)
  refines c (some xs) = (refl, refl, refl)

  exchanged-views :
      (p q : Option (List A))
      → (view (exchanged p q).1 ≡ view q) × (view (exchanged p q).2 ≡ view p)
  exchanged-views none none = (refl, refl)
  exchanged-views none (some ys) = (refl, refl)
  exchanged-views (some xs) none = (refl, refl)
  exchanged-views (some xs) (some ys) = (refl, refl)

  copied-both : (p q : Option (List A)) → ((copied p q).1 ≡ q) × ((copied p q).2 ≡ q)
  copied-both p none = (refl, refl)
  copied-both p (some xs) = (refl, refl)

  held : {a b : Option (List A)} → a ≡ b → some (free a) ≡ some (free b)
  held e = ap (λ y. some (free y)) e

  -- Of two different Vectors that are free: `swap` exchanges the lists they stand for, a copy
  -- assignment leaves both with what the other held, and a move assignment leaves the first with it
  -- and the other with nothing; all locks are released.
  pub pair_lem :
      (vs : List (Guarded (Option (List A)))) (i k : ℕ) (p q : Option (List A))
      → i ≢ k
      → get_elem? vs i ≡ some (free p)
      → get_elem? vs k ≡ some (free q)
      → ((r : Option (List A)) × (t : Option (List A)) × (get_elem? (swap vs i k).1 i
            ≡ some (free r))
          × (view r ≡ view q)
          × (get_elem? (swap vs i k).1 k ≡ some (free t))
          × (view t ≡ view p))
        × ((get_elem? (copy_assign vs i k).1 i ≡ some (free q))
            × (get_elem? (copy_assign vs i k).1 k ≡ some (free q)))
        × ((get_elem? (move_assign vs i k).1 i ≡ some (free q))
            × (get_elem? (move_assign vs i k).1 k ≡ some (free none)))
  unfolding swap copy_assign move_assign
  pair_lem vs i k p q h e f =
      let s = guard_both-after exchanged vs i k p q h e f in
      let c = guard_both-after copied vs i k p q h e f in
      let m = guard_both-after moved vs i k p q h e f in
      (
        (
          (exchanged p q).1,
          (exchanged p q).2,
          s.0,
          (exchanged-views p q).0,
          s.1,
          (exchanged-views p q).1,
        ),
        (c.0 ∙ held (copied-both p q).0, c.1 ∙ held (copied-both p q).1),
        (m.0, m.1),
      )
