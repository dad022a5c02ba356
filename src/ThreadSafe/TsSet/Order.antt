-- ===== src/ThreadSafe/TsSet/Order.antt =====
-- The elements of a `ts_set` of include/ThreadSafe.h stand in one order only.
use sync_files.Base.{◌≡◌, refl, sym, ap, ◌∙◌, subst, inl, inr, true, List, [], ◌∷◌, arith}
use sync_files.ThreadSafe.TsSet.{Compare}
use sync_files.ThreadSafe.TsSet.Members.{
  same, holds, IsIncreasing, cases, holds-below, below_trans, asym,
}

module _ {ℓ} {A : Type ℓ} ⦃c : Compare A⦄ where
  abbrev pub SameMembers : List A → List A → Type ℓ
  SameMembers xs ys = (a : A) → holds a xs ≡ holds a ys

  same_refl : (a : A) → same a a ≡ true
  same_refl a = rw (c.irrefl a) refl

  holds-head : (a : A) (xs : List A) → holds a (a ∷ xs) ≡ true
  holds-head a xs = rw (c.irrefl a) refl

  -- The heads of two increasing lists with the same members are equal.
  heads-eq :
      (x y : A) (xs ys : List A)
      → IsIncreasing (x ∷ xs)
      → IsIncreasing (y ∷ ys)
      → SameMembers (x ∷ xs) (y ∷ ys)
      → x ≡ y
  heads-eq x y xs ys h k m = elim (cases x y) [
    | inl e ↦
        absurd (
          ground
            (arith, m x, holds-head x xs, holds-below x (y ∷ ys) (e, below_trans x y ys e k.0)))
    | inr (inl e) ↦ e
    | inr (inr e) ↦
        absurd (
          ground
            (arith, m y, holds-head y ys, holds-below y (x ∷ xs) (e, below_trans y x xs e h.0)))
  ]

  -- Without the common head, the members are still the same.
  tails-SameMembers :
      (x : A) (xs ys : List A)
      → IsIncreasing (x ∷ xs)
      → IsIncreasing (x ∷ ys)
      → SameMembers (x ∷ xs) (x ∷ ys)
      → SameMembers xs ys
  tails-SameMembers x xs ys h k m a = elim (cases a x) [
    | inl e ↦
        holds-below a xs (below_trans a x xs e h.0)
        ∙ sym (holds-below a ys (below_trans a x ys e k.0))
    | inr (inl e) ↦ rw e (holds-below x xs h.0 ∙ sym (holds-below x ys k.0))
    | inr (inr e) ↦ (rw (asym x a e, e) at (m a))
  ]

  pub IsIncreasing-ext :
      (xs ys : List A) → IsIncreasing xs → IsIncreasing ys → SameMembers xs ys → xs ≡ ys
  IsIncreasing-ext [] [] h k m = refl
  IsIncreasing-ext [] (y ∷ ys) h k m = absurd (ground (arith, m y, holds-head y ys))
  IsIncreasing-ext (x ∷ xs) [] h k m = absurd (ground (arith, m x, holds-head x xs))
  IsIncreasing-ext (x ∷ xs) (y ∷ ys) h k m =
      let p = sym (heads-eq x y xs ys h k m) in
      let k' = subst (λ z. IsIncreasing (z ∷ ys)) p k in
      let m' = subst (λ z. SameMembers (x ∷ xs) (z ∷ ys)) p m in
      ap (◌∷◌ x) (IsIncreasing-ext xs ys h.1 k'.1 (tails-SameMembers x xs ys h k' m'))
      ∙ ap (λ z. z ∷ ys) (sym p)
