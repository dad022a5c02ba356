-- ===== src/ThreadSafe/TsSet/Members.antt =====
-- What a `ts_set` of include/ThreadSafe.h holds: the keys that were inserted, each once.
use sync_files.Base.{
  suc, ◌≡◌, refl, ap, subst, ◌⊎◌, inl, inr, Bool, true, false, not, ◌&&◌, ◌||◌, List, [], ◌∷◌, All,
  All-map, Bool-cases, length, leb, arith, if◌then◌else◌,
}
use mathlib.Core.Path.{fun_ext}
use sync_files.Types.{returned, Guarded}
use sync_files.Types.Pairs.{free}
use sync_files.ThreadSafe.TsSet.{
  Compare, Call, begin, end, rbegin, rend, empty, size, max_size, clear, insert, insert_hint,
  insert_list, number, place, place_all, body, call, after,
}

module _ {ℓ} {A : Type ℓ} ⦃c : Compare A⦄ where
  -- Keys of which neither is less.
  abbrev pub same : A → A → Bool
  same a b = not (c.less a b) && not (c.less b a)

  abbrev pub holds : A → List A → Bool
  holds a [] = false
  holds a (y ∷ ys) = same a y || holds a ys

  abbrev pub IsIncreasing : List A → Type 0
  IsIncreasing [] = Unit
  IsIncreasing (x ∷ xs) = All (λ y. c.less x y ≡ true) xs × IsIncreasing xs

  pub asym : (a b : A) → c.less a b ≡ true → c.less b a ≡ false
  asym a b h = elim (Bool-cases (c.less b a)) [
    | inl k ↦ absurd (ground (arith, c.irrefl a, c.trans a b a h k))
    | inr k ↦ k
  ]

  pub cases : (a b : A) → (c.less a b ≡ true) ⊎ ((a ≡ b) ⊎ (c.less b a ≡ true))
  cases a b = elim (Bool-cases (c.less a b)) [
    | inl h ↦ inl h
    | inr h ↦ elim (Bool-cases (c.less b a)) [
      | inl k ↦ inr (inr k)
      | inr k ↦ inr (inl (c.total a b h k))
    ]
  ]

  pub place-lt : (x y : A) (ys : List A) → c.less x y ≡ true → place x (y ∷ ys) ≡ x ∷ y ∷ ys
  unfolding place
  place-lt x y ys h = rw (h, place) refl

  pub place-gt : (x y : A) (ys : List A) → c.less y x ≡ true → place x (y ∷ ys) ≡ y ∷ place x ys
  unfolding place
  place-gt x y ys h = rw (h, asym y x h, place) refl

  pub place-eq : (x y : A) (ys : List A) → x ≡ y → place x (y ∷ ys) ≡ y ∷ ys
  unfolding place
  place-eq x y ys e = rw (e, c.irrefl y, place) refl

  pub holds-place : (a x : A) (s : List A) → holds a (place x s) ≡ (same a x || holds a s)
  unfolding place
  holds-place a x [] = refl
  holds-place a x (y ∷ ys) = ground (arith, holds-place a x ys, c.total x y)

  pub holds-place_all :
      (a : A) (xs s : List A) → holds a (place_all xs s) ≡ (holds a xs || holds a s)
  unfolding place_all
  holds-place_all a [] s = refl
  holds-place_all a (x ∷ xs) s = ground (arith, holds-place_all a xs (place x s), holds-place a x s)

  -- A key below all of an increasing list is not in it.
  pub holds-below : (x : A) (s : List A) → All (λ y. c.less x y ≡ true) s → holds x s ≡ false
  holds-below x [] h = refl
  holds-below x (y ∷ ys) h = rw (h.0) (holds-below x ys h.1)

  below-place :
      (a x : A) (s : List A)
      → c.less a x ≡ true
      → All (λ y. c.less a y ≡ true) s
      → All (λ y. c.less a y ≡ true) (place x s)
  unfolding place
  below-place a x [] h k = (h, tt)
  below-place a x (y ∷ ys) h k = elim (cases x y) [
    | inl e ↦ rw (place-lt x y ys e) (h, k)
    | inr (inl e) ↦ rw (place-eq x y ys e) k
    | inr (inr e) ↦ rw (place-gt x y ys e) (k.0, below-place a x ys h k.1)
  ]

  pub below_trans :
      (a b : A) (s : List A)
      → c.less a b ≡ true
      → All (λ y. c.less b y ≡ true) s
      → All (λ y. c.less a y ≡ true) s
  below_trans a b s h k = All-map _ _ s (λ y e. c.trans a b y h e) k

  pub IsIncreasing-place : (x : A) (s : List A) → IsIncreasing s → IsIncreasing (place x s)
  unfolding place
  IsIncreasing-place x [] h = (tt, tt)
  IsIncreasing-place x (y ∷ ys) h = elim (cases x y) [
    | inl e ↦ rw (place-lt x y ys e) ((e, below_trans x y ys e h.0), h)
    | inr (inl e) ↦ rw (place-eq x y ys e) h
    | inr (inr e) ↦ rw (place-gt x y ys e) (below-place y x ys e h.0, IsIncreasing-place x ys h.1)
  ]

  IsIncreasing-place_all : (xs s : List A) → IsIncreasing s → IsIncreasing (place_all xs s)
  unfolding place_all
  IsIncreasing-place_all [] s h = h
  IsIncreasing-place_all (x ∷ xs) s h =
      IsIncreasing-place_all xs (place x s) (IsIncreasing-place x s h)

  length-place :
      (x : A) (s : List A)
      → IsIncreasing s
      → length (place x s) ≡ (if holds x s then length s else suc (length s))
  unfolding place
  length-place x [] h = refl
  length-place x (y ∷ ys) h = elim (cases x y) [
    | inl e ↦ rw (place-lt x y ys e, e, holds-below x ys (below_trans x y ys e h.0)) refl
    | inr (inl e) ↦ rw (place-eq x y ys e, e, c.irrefl y) refl
    | inr (inr e) ↦ rw (place-gt x y ys e, asym y x e, e) (ground (arith, length-place x ys h.1))
  ]

  -- After the insertion of a key in an unlocked set in order, `size` is one more, or, if an
  -- equivalent key was there, what it was.
  pub size-insert :
      (x : A) (s : List A)
      → IsIncreasing s
      → call size (call (insert x) (free s)).1
        ≡ (returned (number (if holds x s then length s else suc (length s))), free (place x s))
  unfolding call body
  size-insert x s h = ap (λ n. (returned (number n), free (place x s))) (length-place x s h)

  -- The keys that a set has after some calls, by the keys that it had before.
  unfoldable pub present : List (Call A) → (A → Bool) → A → Bool
  present [] p = p
  present (clear ∷ ks) p = present ks (λ a. false)
  present (insert x ∷ ks) p = present ks (λ a. same a x || p a)
  present (insert_hint pos x ∷ ks) p = present ks (λ a. same a x || p a)
  present (insert_list xs ∷ ks) p = present ks (λ a. holds a xs || p a)
  present (_ ∷ ks) p = present ks p

  -- A hint is a position of the set.
  unfoldable pub Hinted : List (Call A) → List A → Type 0
  unfolding body
  Hinted [] s = Unit
  Hinted (insert_hint pos x ∷ ks) s = (leb pos (length s) ≡ true) × Hinted ks (place x s)
  Hinted (k ∷ ks) s = Hinted ks (body k s).1

  -- A set and the keys that it should have.
  pub record Stands (s : Guarded (List A)) (p : A → Bool) : Type ℓ where
    pub unlocked : s.flag ≡ false
    pub increasing : IsIncreasing s.content
    pub members : (a : A) → holds a s.content ≡ p a

  -- After any sequence of calls on an unlocked set in order, whose hints are positions of it, the
  -- set is unlocked and in order, and its keys are those that were inserted or there since the last
  -- `clear`.
  pub after-Stands :
      (ks : List (Call A)) (s : List A)
      → IsIncreasing s
      → Hinted ks s
      → Stands (after ks (free s)) (present ks (λ a. holds a s))
  unfolding after call body present Hinted
  after-Stands [] s h k = record { unlocked = refl; increasing = h; members = λ a. refl }
  after-Stands (clear ∷ ks) s h k = after-Stands ks [] tt k
  after-Stands (insert x ∷ ks) s h k =
      subst (λ p. Stands (after ks (free (place x s))) (present ks p))
        (fun_ext λ a. holds-place a x s) (after-Stands ks (place x s) (IsIncreasing-place x s h) k)
  after-Stands (insert_hint pos x ∷ ks) s h k = rw (k.0) (
      subst (λ p. Stands (after ks (free (place x s))) (present ks p))
        (fun_ext λ a. holds-place a x s)
        (after-Stands ks (place x s) (IsIncreasing-place x s h) k.1))
  after-Stands (insert_list xs ∷ ks) s h k =
      subst (λ p. Stands (after ks (free (place_all xs s))) (present ks p))
        (fun_ext λ a. holds-place_all a xs s)
        (after-Stands ks (place_all xs s) (IsIncreasing-place_all xs s h) k)
  after-Stands (begin ∷ ks) s h k = after-Stands ks s h k
  after-Stands (end ∷ ks) s h k = after-Stands ks s h k
  after-Stands (rbegin ∷ ks) s h k = after-Stands ks s h k
  after-Stands (rend ∷ ks) s h k = after-Stands ks s h k
  after-Stands (empty ∷ ks) s h k = after-Stands ks s h k
  after-Stands (size ∷ ks) s h k = after-Stands ks s h k
  after-Stands (max_size n ∷ ks) s h k = after-Stands ks s h k
