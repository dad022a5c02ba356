-- ===== src/Types/Text/View.antt =====
-- The texts that `String` (include/Types.h) stands for: null is the empty text.
use sync_files.Base.{
  ℕ, ◌+◌, ◌≡◌, ◌≢◌, ◌∙◌, refl, sym, ap, false, Option, none, some, List, ◌++◌, Str, arith, length,
  length-append, append-nil, get_elem?,
}
use sync_files.Types.{returned}
use sync_files.Types.Pairs.{free, guard_both-after}
use sync_files.Types.Text.{
  Text, text_of, size_of, appended, copied, moved, joined, size, to_string, append, copy_assign,
  move_assign, append_string,
}

appended-text : (p : Option Str) (s : Str) → text_of (appended p s) ≡ text_of p ++ s
appended-text none s = refl
appended-text (some r) s = refl

appended-size : (p : Option Str) (s : Str) → size_of (appended p s) ≡ size_of p + length s
appended-size none s = omega arith
appended-size (some r) s = length-append r s

-- After `+=` of a text on a free string, its conversion gives the old text and then the new, its
-- size is the sum, and the lock is released.
pub append_lem :
    (p : Option Str) (s : Str)
    → let t = (append (free p) s).1 in
      ((to_string t).0 ≡ returned (text_of p ++ s))
      × ((size t).0 ≡ returned (size_of p + length s))
      × (t.flag ≡ false)
unfolding append to_string size
append_lem p s = (ap returned (appended-text p s), ap returned (appended-size p s), refl)

joined-text : (p q : Option Str) → text_of (joined p q).1 ≡ text_of p ++ text_of q
joined-text none none = refl
joined-text none (some s) = refl
joined-text (some r) none = sym (append-nil r)
joined-text (some r) (some s) = refl

joined-other : (p q : Option Str) → (joined p q).2 ≡ q
joined-other none none = refl
joined-other none (some s) = refl
joined-other (some r) none = refl
joined-other (some r) (some s) = refl

copied-both : (p q : Option Str) → ((copied p q).1 ≡ q) × ((copied p q).2 ≡ q)
copied-both p none = (refl, refl)
copied-both p (some s) = (refl, refl)

-- Of two different strings that are free: after a copy assignment both hold what the other held,
-- after a move assignment the first holds it and the other nothing, and after `+=` the first
-- stands for both texts in order and the other is as it was; all locks are released.
pub assign_lem :
    (ts : List Text) (i k : ℕ) (p q : Option Str)
    → i ≢ k
    → get_elem? ts i ≡ some (free p)
    → get_elem? ts k ≡ some (free q)
    → ((get_elem? (copy_assign ts i k).1 i ≡ some (free q))
        × (get_elem? (copy_assign ts i k).1 k ≡ some (free q)))
      × ((get_elem? (move_assign ts i k).1 i ≡ some (free q))
          × (get_elem? (move_assign ts i k).1 k ≡ some (free none)))
      × ((r : Option Str) × (get_elem? (append_string ts i k).1 i ≡ some (free r))
          × (text_of r ≡ text_of p ++ text_of q)
          × (get_elem? (append_string ts i k).1 k ≡ some (free q)))
unfolding copy_assign move_assign append_string
assign_lem ts i k p q h e f =
    let c = guard_both-after copied ts i k p q h e f in
    let m = guard_both-after moved ts i k p q h e f in
    let j = guard_both-after joined ts i k p q h e f in
    (
      (c.0 ∙ held (copied-both p q).0, c.1 ∙ held (copied-both p q).1),
      (m.0, m.1),
      ((joined p q).1, j.0, joined-text p q, j.1 ∙ held (joined-other p q)),
    )
  where
    held : {a b : Option Str} → a ≡ b → some (free a) ≡ some (free b)
    held x = ap (λ y. some (free y)) x
