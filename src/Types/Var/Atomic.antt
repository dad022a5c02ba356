-- ===== src/Types/Var/Atomic.antt =====
-- The calls of `ThreadSafeVar` (include/Types.h) act as if each ran alone.
use sync_files.Base.{
  ℕ, zero, suc, ◌≡◌, refl, sym, true, false, Option, some, List, [], ◌∷◌, ◌++◌, arith, get_elem?,
  replicate, All-get, append-nil, Option-cases, Bool-cases, ◌⊎◌, inl, inr,
}
use sync_files.Types.Var.{
  Arithmetic, Op, VarPc, idle, clearing, Var, move, ended, History, step, run,
}
use sync_files.Types.Var.Section.{
  last, returns, last-append, returns-append, calls, calls-append, Inv, Knows, next_base, move-Inv,
}

module _ {ℓ} {A : Type ℓ} where
  -- The log is what its calls return alone, one after the other, and they lead to `base`.
  record Logged (num : Arithmetic A) (v₀ : A) (h : History A) : Type ℓ where
    inv : Inv num (last num v₀ (calls h.1)) h.0
    log : h.1 ≡ returns num v₀ (calls h.1)

  ended_log :
      (num : Arithmetic A) (v₀ v : A) (es : List (Op A × Option A)) (pc : VarPc A)
      → Knows num (last num v₀ (calls es)) v pc
      → es ≡ returns num v₀ (calls es)
      → (last num v₀ (calls (es ++ ended pc)) ≡ next_base num (last num v₀ (calls es)) pc)
        × (es ++ ended pc ≡ returns num v₀ (calls (es ++ ended pc)))
  ended_log num v₀ v es (clearing o r) k h = (
    rw (calls-append es ((o, r) ∷ [])) (last-append num v₀ (calls es) o),
    rw (calls-append es ((o, r) ∷ [])) (sym returned),
  )
    where
      returned : returns num v₀ (calls es ++ o ∷ []) ≡ es ++ (o, r) ∷ []
      returned = cc (returns-append num v₀ (calls es) o, h, k)
  ended_log num v₀ v es pc k h = (rw (append-nil es) refl, rw (append-nil es) h)

  moved-Logged :
      (num : Arithmetic A) (v₀ : A) (s : Var A) (es : List (Op A × Option A)) (i : ℕ) (op : Op A)
      (pc : VarPc A)
      → get_elem? s.threads i ≡ some pc
      → Logged num v₀ (s, es)
      → Logged num v₀ (move num s i op pc, es ++ ended pc)
  moved-Logged num v₀ s es i op pc e v =
      let k = All-get (Knows num (last num v₀ (calls es)) s.value) s.threads i pc v.inv.knows e in
      let l = ended_log num v₀ s.value es pc k v.log in
      record { inv = rw l.0 (move-Inv num (last num v₀ (calls es)) s i op pc e v.inv); log = l.1 }

  step-Logged :
      (num : Arithmetic A) (v₀ : A) (h : History A) (m : ℕ × Op A)
      → Logged num v₀ h
      → Logged num v₀ (step num h m)
  unfolding step
  step-Logged num v₀ (s, es) (i, op) v = elim (Option-cases (get_elem? s.threads i)) [
    | inl e ↦ rw (e, step) v
    | inr (pc, e) ↦ rw (e, step) (moved-Logged num v₀ s es i op pc e v)
  ]

  run-Logged :
      (num : Arithmetic A) (v₀ : A) (h : History A) (ms : List (ℕ × Op A))
      → Logged num v₀ h
      → Logged num v₀ (run num h ms)
  unfolding run
  run-Logged num v₀ h [] v = v
  run-Logged num v₀ h (m ∷ ms) v = run-Logged num v₀ (step num h m) ms (step-Logged num v₀ h m v)

-- Any number of idle threads, and the value unlocked.
abbrev pub fresh {ℓ} : {A : Type ℓ} → A → ℕ → Var A
fresh v n = record { value = v; locked = false; threads = replicate n idle }

fresh-Inv {ℓ} : {A : Type ℓ} (num : Arithmetic A) (v : A) (n : ℕ) → Inv num v (fresh v n)
fresh-Inv num v zero = record { one = refl; knows = tt; free = λ q. refl }
fresh-Inv num v (suc n) =
    let r = fresh-Inv num v n in
    record { one = omega (arith, r.one); knows = (tt, r.knows); free = λ q. refl }

-- However threads interleave their calls of `Get`, `Set`, `Increment` and `Decrement`, what the
-- ended calls return is what they return when each runs alone, in the order of their ends; and
-- the variable is locked or its value is the one that they leave.
pub atomic {ℓ} :
    {A : Type ℓ} (num : Arithmetic A) (v₀ : A) (n : ℕ) (ms : List (ℕ × Op A))
    → let h = run num (fresh v₀ n, []) ms in
      (h.1 ≡ returns num v₀ (calls h.1))
      × ((h.0.locked ≡ true) ⊎ (h.0.value ≡ last num v₀ (calls h.1)))
atomic num v₀ n ms =
    let r = run-Logged num v₀ (fresh v₀ n, []) ms record { inv = fresh-Inv num v₀ n; log = refl } in
    (
      r.log,
      elim (Bool-cases (run num (fresh v₀ n, []) ms).0.locked) [
        | inl e ↦ inl e
        | inr e ↦ inr (sym (r.inv.free e))
      ],
    )
