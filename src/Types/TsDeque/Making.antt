-- ===== src/Types/TsDeque/Making.antt =====
-- The constructors of `ts_deque` (include/Types.h): each holds the new deque's lock while it runs.
-- The copy constructors lock a `const` deque, which does not compile where they are used.
use sync_files.Base.{ℕ, true, false, Option, none, some, List, [], set, get_elem?, replicate}
use sync_files.Types.{Outcome, returned, undefined, stuck, Guarded, guard}
use sync_files.Types.TsDeque.{Value, nothing}

-- The constructors without another `ts_deque`, with their arguments.
pub data Init {ℓ} (A : Type ℓ) : Type ℓ where
  of_allocator : Init A
  of_count : ℕ → A → Init A
  of_range : List A → Init A
  of_deque : List A → Init A
  of_list : List A → Init A

module _ {ℓ} {A : Type ℓ} where
  -- What a constructor assigns to `_queue`.
  unfoldable pub assigned : Init A → List A
  assigned of_allocator = []
  assigned (of_count n x) = replicate n x
  assigned (of_range xs) = xs
  assigned (of_deque xs) = xs
  assigned (of_list xs) = xs

  unfoldable pub make : Init A → Outcome (Value A) × Guarded (List A)
  unfolding assigned
  make i = guard (λ xs. (returned nothing, assigned i)) (record { flag = false; content = [] })

  -- The other deque's lock and content, in the constructor from a `ts_deque &&`.
  abbrev pub taken :
      List (Guarded (List A))
      → ℕ
      → Option (Guarded (List A))
      → Outcome (Guarded (List A)) × List (Guarded (List A))
  taken ds k none = (undefined, ds)
  taken ds k (some o) = elim o.flag [
    | true ↦ (stuck, ds)
    | false ↦ (
      returned (record { flag = false; content = o.content }),
      set ds k (record { flag = false; content = o.content }),
    )
  ]

  -- The constructor from a `ts_deque &&`, for the deque at `k`: it copies the other's elements.
  unfoldable pub make_from :
      List (Guarded (List A)) → ℕ → Outcome (Guarded (List A)) × List (Guarded (List A))
  make_from ds k = taken ds k (get_elem? ds k)
