-- ===== src/Types/TsDeque/Fifo.antt =====
-- `push_back` and `get_pop_front` of `ts_deque` (include/Types.h) make a queue: nothing is lost,
-- doubled or reordered.
use sync_files.Base.{◌≡◌, sym, ap, false, List, [], ◌∷◌, ◌++◌, All, append-nil, append_assoc, ◌∙◌}
use sync_files.Types.{Outcome, returned, Guarded}
use sync_files.Types.TsDeque.{Call, push_back, get_pop_front, Value, element, body, call}

module _ {ℓ} {A : Type ℓ} where
  -- What a sequence of calls returns, and the deque after it.
  abbrev pub calls : List (Call A) → Guarded (List A) → List (Outcome (Value A)) × Guarded (List A)
  calls [] d = ([], d)
  calls (c ∷ cs) d = let (r, d') = call c d in let (rs, e) = calls cs d' in (r ∷ rs, e)

  -- A call that pushes at the back, or pops at the front.
  abbrev pub IsTraffic : Call A → Type 0
  IsTraffic (push_back x) = Unit
  IsTraffic get_pop_front = Unit
  IsTraffic _ = ⊥

  -- What the calls push, the earliest first.
  abbrev pub pushed : List (Call A) → List A
  pushed [] = []
  pushed (push_back x ∷ cs) = x ∷ pushed cs
  pushed (_ ∷ cs) = pushed cs

  -- The elements that were returned.
  abbrev pub popped : List (Outcome (Value A)) → List A
  popped [] = []
  popped (returned (element x) ∷ rs) = x ∷ popped rs
  popped (_ ∷ rs) = popped rs

  abbrev queue : List A → Guarded (List A)
  queue xs = record { flag = false; content = xs }

  -- Whatever the sequence in which threads push at the back and pop at the front of an unlocked
  -- deque: what was popped and then what is left is what was there and then what was pushed, in
  -- order.
  pub fifo :
      (cs : List (Call A)) (xs : List A)
      → All IsTraffic cs
      → popped (calls cs (queue xs)).0 ++ (calls cs (queue xs)).1.content ≡ xs ++ pushed cs
  unfolding call body
  fifo [] xs h = sym (append-nil xs)
  fifo (push_back x ∷ cs) xs h = fifo cs (xs ++ x ∷ []) h.1 ∙ append_assoc xs (x ∷ []) (pushed cs)
  fifo (get_pop_front ∷ cs) [] h = fifo cs [] h.1
  fifo (get_pop_front ∷ cs) (x ∷ xs) h = ap (◌∷◌ x) (fifo cs xs h.1)
  fifo (_ ∷ cs) xs h = absurd h.0
