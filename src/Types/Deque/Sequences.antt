-- ===== src/Types/Deque/Sequences.antt =====
-- `Deque` of include/Types.h stands for the list of its elements, over any sequence of calls.
use sync_files.Base.{
  ℕ, ◌≡◌, ◌≢◌, ◌∙◌, refl, ap, Option, none, some, List, [], ◌∷◌, ◌++◌, length, leb, get_elem?,
}
use sync_files.Types.{Outcome, returned, Guarded}
use sync_files.Types.Pairs.{free, guard_both-after}
use sync_files.Types.Vector.{Value, nothing, position, number, truth, elements, view}
use sync_files.Types.Deque.{
  DequeCall, reset, size, empty, clear, push_back, begin, end, shrink_to_fit, swap_plain, to_deque,
  deque_body, deque_call, deque_exchanged, deque_swap, deque_copied, deque_copy_assign,
  deque_move_assign,
}

module _ {ℓ} {A : Type ℓ} where
  -- What a method does to a list.
  abbrev pub on_elements : DequeCall A → List A → Value A × List A
  on_elements reset xs = (nothing, [])
  on_elements size xs = (number (length xs), xs)
  on_elements empty xs = (truth (leb (length xs) 0), xs)
  on_elements clear xs = (nothing, [])
  on_elements (push_back x) xs = (nothing, xs ++ x ∷ [])
  on_elements begin xs = (position 0, xs)
  on_elements end xs = (position (length xs), xs)
  on_elements shrink_to_fit xs = (nothing, xs)
  on_elements (swap_plain ys) xs = (elements xs, ys)
  on_elements to_deque xs = (elements xs, xs)

  -- The answers of a sequence of calls on a list, and on a Deque.
  abbrev pub answers : List (DequeCall A) → List A → List (Outcome (Value A))
  answers [] xs = []
  answers (c ∷ cs) xs = let (r, ys) = on_elements c xs in returned r ∷ answers cs ys

  abbrev pub deque_calls : List (DequeCall A) → Guarded (Option (List A)) → List (Outcome (Value A))
  deque_calls [] d = []
  deque_calls (c ∷ cs) d = let (r, e) = deque_call c d in r ∷ deque_calls cs e

  body-on_elements :
      (c : DequeCall A) (p : Option (List A))
      → ((deque_body c p).0 ≡ returned (on_elements c (view p)).0)
        × (view (deque_body c p).1 ≡ (on_elements c (view p)).1)
  unfolding deque_body
  body-on_elements reset p = (refl, refl)
  body-on_elements c none = (refl, refl)
  body-on_elements c (some xs) = (refl, refl)

  -- Any sequence of method calls on a free Deque gets the answers of the same operations on the
  -- list of its elements.
  pub answers_lem :
      (cs : List (DequeCall A)) (p : Option (List A))
      → deque_calls cs (free p) ≡ answers cs (view p)
  unfolding deque_call
  answers_lem [] p = refl
  answers_lem (c ∷ cs) p =
      let b = body-on_elements c p in
      let r = answers_lem cs (deque_body c p).1 in cc (b.0, r ∙ ap (answers cs) b.1)

  exchanged-views :
      (p q : Option (List A))
      → (view (deque_exchanged p q).1 ≡ view q) × (view (deque_exchanged p q).2 ≡ view p)
  exchanged-views none none = (refl, refl)
  exchanged-views none (some ys) = (refl, refl)
  exchanged-views (some xs) none = (refl, refl)
  exchanged-views (some xs) (some ys) = (refl, refl)

  copied-both : (p q : Option (List A)) → ((deque_copied p q).1 ≡ q) × ((deque_copied p q).2 ≡ q)
  copied-both p none = (refl, refl)
  copied-both p (some xs) = (refl, refl)

  held : {a b : Option (List A)} → a ≡ b → some (free a) ≡ some (free b)
  held e = ap (λ y. some (free y)) e

  -- Of two different Deques that are free: `swap` exchanges the lists they stand for, a copy
  -- assignment leaves both with what the other held, and a move assignment leaves the first with it
  -- and the other with nothing; all locks are released.
  pub deque_pair_lem :
      (ds : List (Guarded (Option (List A)))) (i k : ℕ) (p q : Option (List A))
      → i ≢ k
      → get_elem? ds i ≡ some (free p)
      → get_elem? ds k ≡ some (free q)
      → ((r : Option (List A)) × (t : Option (List A)) × (get_elem? (deque_swap ds i k).1 i
            ≡ some (free r))
          × (view r ≡ view q)
          × (get_elem? (deque_swap ds i k).1 k ≡ some (free t))
          × (view t ≡ view p))
        × ((get_elem? (deque_copy_assign ds i k).1 i ≡ some (free q))
            × (get_elem? (deque_copy_assign ds i k).1 k ≡ some (free q)))
        × ((get_elem? (deque_move_assign ds i k).1 i ≡ some (free q))
            × (get_elem? (deque_move_assign ds i k).1 k ≡ some (free none)))
  unfolding deque_swap deque_copy_assign deque_move_assign
  deque_pair_lem ds i k p q h e f =
      let s = guard_both-after deque_exchanged ds i k p q h e f in
      let c = guard_both-after deque_copied ds i k p q h e f in
      let m = guard_both-after (λ a b. (returned tt, b, none)) ds i k p q h e f in
      (
        (
          (deque_exchanged p q).1,
          (deque_exchanged p q).2,
          s.0,
          (exchanged-views p q).0,
          s.1,
          (exchanged-views p q).1,
        ),
        (c.0 ∙ held (copied-both p q).0, c.1 ∙ held (copied-both p q).1),
        (m.0, m.1),
      )
