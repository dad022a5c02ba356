-- ===== src/ThreadSafe/TsSet/KeySet.antt =====
-- A `ts_set` of include/ThreadSafe.h as a finite set: neither the order nor the repetition of
-- insertions shows.
use sync_files.Base.{◌≡◌, refl, sym, ap, ◌∙◌, Bool, ◌||◌, List, [], ◌∷◌, ◌++◌, arith}
use mathlib.Core.Bool.{Bool-set}
use mathlib.Core.Quot
use mathlib.Core.Quot.{Quot, Quot-set}
use sync_files.Types.Pairs.{free}
use sync_files.ThreadSafe.TsSet.{
  Compare, Call, begin, end, rbegin, rend, empty, size, max_size, clear, insert, insert_hint,
  insert_list, place, place_all, body, call, after,
}
use sync_files.ThreadSafe.TsSet.Members.{
  holds, IsIncreasing, Hinted, after-Stands, holds-place, holds-place_all,
}
use sync_files.ThreadSafe.TsSet.Order.{SameMembers, IsIncreasing-ext}

-- Lists of keys, up to order and repetition.
abbrev pub KeySet {ℓ} : (A : Type ℓ) → ⦃c : Compare A⦄ → Type ℓ
KeySet A = Quot (SameMembers {A = A})

module _ {ℓ} {A : Type ℓ} ⦃c : Compare A⦄ where
  abbrev pub view : List A → KeySet A
  view s = Quot.mk s

  -- Is the key in the set?
  member : A → KeySet A → Bool
  member a = Quot.lift Bool-set (holds a) (λ xs ys h. h a)

  holds-append : (a : A) (xs ys : List A) → holds a (xs ++ ys) ≡ (holds a xs || holds a ys)
  holds-append a [] ys = refl
  holds-append a (x ∷ xs) ys = ground (arith, holds-append a xs ys)

  pub append-SameMembers :
      (xs ys zs : List A) → SameMembers ys zs → SameMembers (xs ++ ys) (xs ++ zs)
  append-SameMembers xs ys zs h a =
      holds-append a xs ys ∙ ap (λ b. holds a xs || b) (h a) ∙ sym (holds-append a xs zs)

  append_swap-SameMembers : (xs ys zs : List A) → SameMembers (xs ++ (ys ++ zs)) (ys ++ (xs ++ zs))
  append_swap-SameMembers xs ys zs a = ground (
    arith,
    holds-append a xs (ys ++ zs),
    holds-append a ys zs,
    holds-append a ys (xs ++ zs),
    holds-append a xs zs,
  )

  -- The set with the keys of a list.
  unfoldable pub with_all : List A → KeySet A → KeySet A
  with_all xs =
      Quot.lift Quot-set (λ ys. Quot.mk (xs ++ ys))
        (λ ys zs h. Quot.sound (append-SameMembers xs ys zs h))

  -- What a call does to the finite set.
  abbrev pub step : Call A → KeySet A → KeySet A
  step clear s = view []
  step (insert x) s = with_all (x ∷ []) s
  step (insert_hint pos x) s = with_all (x ∷ []) s
  step (insert_list xs) s = with_all xs s
  step _ s = s

  abbrev pub steps : List (Call A) → KeySet A → KeySet A
  steps [] s = s
  steps (k ∷ ks) s = steps ks (step k s)

  pub with_all_comm :
      (xs ys : List A) (s : KeySet A) → with_all xs (with_all ys s) ≡ with_all ys (with_all xs s)
  unfolding with_all
  with_all_comm xs ys =
      Quot.ind (λ s. Quot-set _ _) λ s. Quot.sound (append_swap-SameMembers xs ys s)

  view-place : (x : A) (s : List A) → view (place x s) ≡ with_all (x ∷ []) (view s)
  unfolding with_all
  view-place x s = Quot.sound (λ a. holds-place a x s)

  view-place_all : (xs s : List A) → view (place_all xs s) ≡ with_all xs (view s)
  unfolding with_all
  view-place_all xs s = Quot.sound (λ a. holds-place_all a xs s ∙ sym (holds-append a xs s))

  -- The calls of an unlocked `ts_set`, whose hints are positions of it, do to it what they do to the
  -- finite set of its keys.
  pub view-after :
      (ks : List (Call A)) (s : List A)
      → Hinted ks s
      → view (after ks (free s)).content ≡ steps ks (view s)
  unfolding after call body Hinted
  view-after [] s k = refl
  view-after (clear ∷ ks) s k = view-after ks [] k
  view-after (insert x ∷ ks) s k = view-after ks (place x s) k ∙ ap (steps ks) (view-place x s)
  view-after (insert_hint pos x ∷ ks) s k =
      rw (k.0, after) (view-after ks (place x s) k.1 ∙ ap (steps ks) (view-place x s))
  view-after (insert_list xs ∷ ks) s k =
      view-after ks (place_all xs s) k ∙ ap (steps ks) (view-place_all xs s)
  view-after (begin ∷ ks) s k = view-after ks s k
  view-after (end ∷ ks) s k = view-after ks s k
  view-after (rbegin ∷ ks) s k = view-after ks s k
  view-after (rend ∷ ks) s k = view-after ks s k
  view-after (empty ∷ ks) s k = view-after ks s k
  view-after (size ∷ ks) s k = view-after ks s k
  view-after (max_size n ∷ ks) s k = view-after ks s k

  view_inj : (xs ys : List A) → IsIncreasing xs → IsIncreasing ys → view xs ≡ view ys → xs ≡ ys
  unfolding member
  view_inj xs ys h k e = IsIncreasing-ext xs ys h k λ a. ap (member a) e

  -- For a `Compare` that is a strict order in which two keys, neither of them less than the other,
  -- are equal: two sequences of calls on two unlocked sets in order, each hint a position of its set
  -- when it is given, that do the same to the finite sets of their keys leave the same elements in
  -- the same order.
  pub after_eq :
      (ks js : List (Call A)) (s t : List A)
      → IsIncreasing s
      → IsIncreasing t
      → Hinted ks s
      → Hinted js t
      → steps ks (view s) ≡ steps js (view t)
      → (after ks (free s)).content ≡ (after js (free t)).content
  after_eq ks js s t h i hk hj e =
      let a = after-Stands ks s h hk in
      let b = after-Stands js t i hj in
      view_inj (after ks (free s)).content (after js (free t)).content a.increasing b.increasing
        (view-after ks s hk ∙ e ∙ sym (view-after js t hj))
