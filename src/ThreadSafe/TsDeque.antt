-- ===== src/ThreadSafe/TsDeque.antt =====
-- `ts_deque` of include/ThreadSafe.h. Its methods and constructors have, word for word, the text of
-- those in include/Types.h, and are modelled by them; it has no destructor of its own.
use sync_files.Base.{ℕ, List}
use sync_files.Types.{Outcome, Guarded}
use sync_files.Types.TsDeque.{Call, Value}
use sync_files.Types.TsDeque as Ts
use sync_files.Types.TsDeque.Making.{Init}
use sync_files.Types.TsDeque.Making as Making

module _ {ℓ} {A : Type ℓ} where
  unfoldable pub deque_call : Call A → Guarded (List A) → Outcome (Value A) × Guarded (List A)
  deque_call c d = Ts.call c d

  unfoldable pub deque_swap :
      List (Guarded (List A)) → ℕ → ℕ → Outcome (Value A) × List (Guarded (List A))
  deque_swap ds i k = Ts.swap ds i k

  unfoldable pub deque_make : Init A → Outcome (Value A) × Guarded (List A)
  deque_make i = Making.make i

  unfoldable pub deque_make_from :
      List (Guarded (List A)) → ℕ → Outcome (Guarded (List A)) × List (Guarded (List A))
  deque_make_from ds k = Making.make_from ds k
