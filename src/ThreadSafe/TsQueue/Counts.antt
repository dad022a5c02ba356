-- ===== src/ThreadSafe/TsQueue/Counts.antt =====
-- What sequences of calls make of a `TSQueue` of include/ThreadSafe.h.
use sync_files.Base.{
  ℕ, suc, ◌≡◌, sym, ap, ◌∙◌, List, [], ◌∷◌, ◌++◌, All, drop, append-nil, append_assoc,
}
use sync_files.Types.{Outcome, undefined, Guarded}
use sync_files.Types.Pairs.{free}
use sync_files.ThreadSafe.TsQueue.{Call, push, pop, empty, size, Value, body, call}

-- A call that did what the language says.
abbrev pub IsDefined : Outcome Value → Type 0
IsDefined undefined = ⊥
IsDefined _ = Unit

module _ {ℓ} {A : Type ℓ} where
  -- What a sequence of calls returns, and the queue after it.
  abbrev pub calls : List (Call A) → Guarded (List A) → List (Outcome Value) × Guarded (List A)
  calls [] q = ([], q)
  calls (c ∷ cs) q = let (r, q') = call c q in let (rs, e) = calls cs q' in (r ∷ rs, e)

  -- What the calls push, the earliest first.
  abbrev pub pushed : List (Call A) → List A
  pushed [] = []
  pushed (push x ∷ cs) = x ∷ pushed cs
  pushed (_ ∷ cs) = pushed cs

  -- How many of the calls pop.
  abbrev pub pops : List (Call A) → ℕ
  pops [] = 0
  pops (pop ∷ cs) = suc (pops cs)
  pops (_ ∷ cs) = pops cs

  -- If none of a sequence of calls on an unlocked queue is undefined, the queue is unlocked after
  -- them and holds what it held and then what they pushed, less as many from the front as they
  -- popped.
  pub calls_lem :
      (cs : List (Call A)) (xs : List A)
      → All IsDefined (calls cs (free xs)).0
      → (calls cs (free xs)).1 ≡ free (drop (pops cs) (xs ++ pushed cs))
  unfolding call body
  calls_lem [] xs h = ap free (sym (append-nil xs))
  calls_lem (push x ∷ cs) xs h =
      calls_lem cs (xs ++ x ∷ []) h.1
      ∙ ap (λ ys. free (drop (pops cs) ys)) (append_assoc xs (x ∷ []) (pushed cs))
  calls_lem (pop ∷ cs) [] h = absurd h.0
  calls_lem (pop ∷ cs) (x ∷ xs) h = calls_lem cs xs h.1
  calls_lem (empty ∷ cs) xs h = calls_lem cs xs h.1
  calls_lem (size ∷ cs) xs h = calls_lem cs xs h.1
