-- ===== src/Types/Text/Order.antt =====
-- The order and the equality of `String` (include/Types.h) on its contents.
use sync_files.Base.{
  ℕ, ◌≡◌, ◌≢◌, ◌⊎◌, inl, inr, ◌↔◌, ◌∙◌, refl, sym, ap, Bool, true, false, Option, none, some, List,
  [], ◌∷◌, Str, Bool-cases, arith, get_elem?,
}
use sync_files.Types.{Outcome, returned}
use sync_files.Types.Pairs.{free, guard_both-read}
use sync_files.Types.Text.{
  Text, str_less, str_equal, is_less, is_equal, less, greater, less_equal, greater_equal, equal,
}

str_less_irrefl : (s : Str) → str_less s s ≡ false
str_less_irrefl [] = refl
str_less_irrefl (x ∷ s) = ground (arith, str_less_irrefl s)

str_less_trans : (r s t : Str) → str_less r s ≡ true → str_less s t ≡ true → str_less r t ≡ true
str_less_trans [] [] t h k = absurd cc
str_less_trans [] (y ∷ s) [] h k = absurd cc
str_less_trans [] (y ∷ s) (z ∷ t) h k = refl
str_less_trans (x ∷ r) [] t h k = absurd cc
str_less_trans (x ∷ r) (y ∷ s) [] h k = absurd cc
str_less_trans (x ∷ r) (y ∷ s) (z ∷ t) h k = ground (arith, str_less_trans r s t)

str_less-total : (r s : Str) → (str_less r s ≡ true) ⊎ ((str_less s r ≡ true) ⊎ (r ≡ s))
str_less-total [] [] = inr (inr refl)
str_less-total [] (y ∷ s) = inl refl
str_less-total (x ∷ r) [] = inr (inl refl)
str_less-total (x ∷ r) (y ∷ s) = ground (arith, str_less-total r s)

str_equal-eq : (r s : Str) → str_equal r s ≡ true → r ≡ s
str_equal-eq [] [] h = refl
str_equal-eq [] (y ∷ s) h = absurd cc
str_equal-eq (x ∷ r) [] h = absurd cc
str_equal-eq (x ∷ r) (y ∷ s) h = ground (arith, str_equal-eq r s)

str_equal_refl : (s : Str) → str_equal s s ≡ true
str_equal_refl [] = refl
str_equal_refl (x ∷ s) = ground (arith, str_equal_refl s)

-- A null pointer comes after every text.
is_less_trans : (p q r : Option Str) → is_less p q ≡ true → is_less q r ≡ true → is_less p r ≡ true
is_less_trans (some s) (some t) (some u) h k = str_less_trans s t u h k
is_less_trans (some s) (some t) none h k = refl
is_less_trans (some s) none r h k = absurd (ground arith)
is_less_trans none q r h k = absurd (ground arith)

is_less_irrefl : (p : Option Str) → is_less p p ≡ false
is_less_irrefl none = refl
is_less_irrefl (some s) = str_less_irrefl s

is_less-total : (p q : Option Str) → (is_less p q ≡ true) ⊎ ((is_less q p ≡ true) ⊎ (p ≡ q))
is_less-total none none = inr (inr refl)
is_less-total none (some t) = inr (inl refl)
is_less-total (some s) none = inl refl
is_less-total (some s) (some t) = elim (str_less-total s t) [
  | inl h ↦ inl h
  | inr (inl h) ↦ inr (inl h)
  | inr (inr e) ↦ inr (inr (ap some e))
]

is_less-asym : (p q : Option Str) → is_less p q ≡ true → is_less q p ≡ false
is_less-asym p q h = elim (Bool-cases (is_less q p)) [
  | inl k ↦ absurd (ground (arith, is_less_trans p q p h k, is_less_irrefl p))
  | inr k ↦ k
]

module _ (ts : List Text) (i k : ℕ) (p q : Option Str) where
  less-eq :
      i ≢ k
      → get_elem? ts i ≡ some (free p)
      → get_elem? ts k ≡ some (free q)
      → less ts i k ≡ (returned (is_less p q), ts)
  unfolding less
  less-eq h e f = guard_both-read is_less ts i k p q h e f

  equal-eq :
      i ≢ k
      → get_elem? ts i ≡ some (free p)
      → get_elem? ts k ≡ some (free q)
      → equal ts i k ≡ (returned (is_equal p q), ts)
  unfolding equal
  equal-eq h e f = guard_both-read is_equal ts i k p q h e f

-- Of two different strings that are free, `<` holds, or `>` holds, or they have one content and
-- neither holds; `<=` and `>=` agree with that, and no comparison changes a string or keeps a lock.
pub less-trichotomy :
    (ts : List Text) (i k : ℕ) (p q : Option Str)
    → i ≢ k
    → get_elem? ts i ≡ some (free p)
    → get_elem? ts k ≡ some (free q)
    → ((less ts i k ≡ (returned true, ts))
        × (greater ts i k ≡ (returned false, ts))
        × (less_equal ts i k ≡ (returned true, ts))
        × (greater_equal ts i k ≡ (returned false, ts)))
      ⊎ (((less ts i k ≡ (returned false, ts))
            × (greater ts i k ≡ (returned true, ts))
            × (less_equal ts i k ≡ (returned false, ts))
            × (greater_equal ts i k ≡ (returned true, ts)))
          ⊎ ((p ≡ q)
              × (less ts i k ≡ (returned false, ts))
              × (greater ts i k ≡ (returned false, ts))
              × (less_equal ts i k ≡ (returned true, ts))
              × (greater_equal ts i k ≡ (returned true, ts))))
unfolding greater less_equal greater_equal
less-trichotomy ts i k p q h e f =
    let l : less ts i k ≡ (returned (is_less p q), ts) = less-eq ts i k p q h e f in
    let g : less ts k i ≡ (returned (is_less q p), ts) = less-eq ts k i q p (λ x. h (sym x)) f e in
    elim (is_less-total p q) [
      | inl a ↦
          let b = is_less-asym p q a in
          inl (rw (l, a) refl, rw (g, b) refl, rw (g, b) refl, rw (l, a) refl)
      | inr (inl b) ↦
          let a = is_less-asym q p b in
          inr (inl (rw (l, a) refl, rw (g, b) refl, rw (g, b) refl, rw (l, a) refl))
      | inr (inr c) ↦
          let a : is_less p q ≡ false = rw c (is_less_irrefl q) in
          let b : is_less q p ≡ false = rw c (is_less_irrefl q) in
          inr (inr (c, rw (l, a) refl, rw (g, b) refl, rw (g, b) refl, rw (l, a) refl))
    ]

-- The comparison held, and changed nothing.
abbrev Yes : Outcome Bool × List Text → List Text → Type 0
Yes r us = r ≡ (returned true, us)

answered : (b : Bool) (us : List Text) → Yes (returned b, us) us → b ≡ true
answered b us x = cc

-- `<` is transitive on three different strings that are free.
pub less_trans :
    (ts : List Text) (i k m : ℕ) (p q r : Option Str)
    → i ≢ k
    → k ≢ m
    → i ≢ m
    → get_elem? ts i ≡ some (free p)
    → get_elem? ts k ≡ some (free q)
    → get_elem? ts m ≡ some (free r)
    → less ts i k ≡ (returned true, ts)
    → less ts k m ≡ (returned true, ts)
    → less ts i m ≡ (returned true, ts)
less_trans ts i k m p q r n₁ n₂ n₃ e f g h₁ h₂ =
    less-eq ts i m p r n₃ e g
    ∙ ap (λ b. (returned b, ts))
        (is_less_trans p q r (answered (is_less p q) ts (sym (less-eq ts i k p q n₁ e f) ∙ h₁))
          (answered (is_less q r) ts (sym (less-eq ts k m q r n₂ f g) ∙ h₂)))

is_equal-eq : (p q : Option Str) → is_equal p q ≡ true → (s : Str) × (p ≡ some s) × (q ≡ some s)
is_equal-eq (some s) (some t) h = (t, ap some (str_equal-eq s t h), refl)
is_equal-eq (some s) none h = absurd cc
is_equal-eq none q h = absurd cc

equal-text : (p q : Option Str) → ((s : Str) × (p ≡ some s) × (q ≡ some s)) → is_equal p q ≡ true
equal-text p q (s, e, f) = rw (e, f) (str_equal_refl s)

-- `==` of two different strings that are free holds exactly if both hold a text and the texts are
-- equal: two empty strings without a text are not equal.
pub equal_lem :
    (ts : List Text) (i k : ℕ) (p q : Option Str)
    → i ≢ k
    → get_elem? ts i ≡ some (free p)
    → get_elem? ts k ≡ some (free q)
    → (equal ts i k ≡ (returned true, ts)) ↔ ((s : Str) × (p ≡ some s) × (q ≡ some s))
equal_lem ts i k p q h e f = (
  λ x. is_equal-eq p q (answered (is_equal p q) ts (sym (equal-eq ts i k p q h e f) ∙ x)),
  λ x. rw (equal-eq ts i k p q h e f, equal-text p q x) refl,
)
