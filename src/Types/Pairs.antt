-- ===== src/Types/Pairs.antt =====
-- Two objects of include/Types.h whose locks one method takes, one after the other.
use sync_files.Base.{
  ℕ, ◌≡◌, ◌≢◌, ◌∙◌, refl, sym, ap, true, false, some, List, set, get_elem?, get-set, get-set_ne,
  set-set, set_same,
}
use sync_files.Types.{Outcome, returned, stuck, Guarded, guard_both}

-- An unlocked object.
abbrev pub free {ℓ} : {C : Type ℓ} → C → Guarded C
free c = record { flag = false; content = c }

module _ {ℓ κ} {C : Type ℓ} {B : Type κ} where
  -- With two objects that are free, the method runs, and both are free afterwards.
  pub guard_both-ne :
      (body : C → C → Outcome B × C × C) (gs : List (Guarded C)) (i k : ℕ) (c d : C)
      → i ≢ k
      → get_elem? gs i ≡ some (free c)
      → get_elem? gs k ≡ some (free d)
      → let r = body c d in guard_both body gs i k ≡ (r.0, set (set gs i (free r.1)) k (free r.2))
  guard_both-ne body gs i k c d h e f =
      rw
        (
          e,
          guard_both,
          get-set_ne gs i k (record { flag = true; content = c }) h,
          f,
          set-set gs i (record { flag = true; content = c }) (free (body c d).1),
        )
        refl

  -- An object that is its own partner waits for the flag that it has set.
  pub guard_both_self :
      (body : C → C → Outcome B × C × C) (gs : List (Guarded C)) (i : ℕ) (c : C)
      → get_elem? gs i ≡ some (free c)
      → (guard_both body gs i i).0 ≡ stuck
  guard_both_self body gs i c e =
      rw (e, guard_both, get-set gs i (free c) (record { flag = true; content = c }) e) refl

  -- A method that reads two objects leaves both as they are.
  pub guard_both-read :
      (f : C → C → B) (gs : List (Guarded C)) (i k : ℕ) (c d : C)
      → i ≢ k
      → get_elem? gs i ≡ some (free c)
      → get_elem? gs k ≡ some (free d)
      → guard_both (λ a b. (returned (f a b), a, b)) gs i k ≡ (returned (f c d), gs)
  guard_both-read g gs i k c d h e f =
      rw
        (
          guard_both-ne (λ a b. (returned (g a b), a, b)) gs i k c d h e f,
          set_same gs i (free c) e,
          set_same gs k (free d) f,
        )
        refl

  -- What stands at the two places after a method that locks both.
  pub guard_both-after :
      (body : C → C → Outcome B × C × C) (gs : List (Guarded C)) (i k : ℕ) (c d : C)
      → i ≢ k
      → get_elem? gs i ≡ some (free c)
      → get_elem? gs k ≡ some (free d)
      → (get_elem? (guard_both body gs i k).1 i ≡ some (free (body c d).1))
        × (get_elem? (guard_both body gs i k).1 k ≡ some (free (body c d).2))
  guard_both-after body gs i k c d h e f =
      let r = body c d in
      let g = guard_both-ne body gs i k c d h e f in
      (
        ap (λ x. get_elem? x.1 i) g
            ∙ get-set_ne (set gs i (free r.1)) k i (free r.2) (λ x. h (sym x))
            ∙ get-set gs i (free c) (free r.1) e,
        ap (λ x. get_elem? x.1 k) g
            ∙ get-set (set gs i (free r.1)) k (free d) (free r.2)
                (get-set_ne gs i k (free r.1) h ∙ f),
      )
