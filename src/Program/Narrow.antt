-- ===== src/Program/Narrow.antt =====
-- `ConvertToString` of src/main.cpp, in the C locale and with the wide characters of Windows,
-- which have 2 bytes.
use mathlib.Core.Option.{some-injective}
use sync_files.Base.{
  ℕ, zero, suc, ◌*◌, ◌+◌, ◌-◌, ◌≢◌, ◌≡◌, refl, sym, subst, Bool, true, false, Option, none, some,
  [], ◌∷◌, ◌++◌, Str, All, length, replicate, ltb, ◌==◌, if◌then◌else◌, arith,
}

-- `wcslen`
unfoldable pub wide_size : Str → ℕ
wide_size [] = 0
wide_size (x ∷ s) = let rest = wide_size s in if x == 0 then 0 else suc rest

-- The bytes that `wcstombs` writes: it stops at a 0, and at a character above 255.
unfoldable pub narrowed : Str → Str
narrowed [] = []
narrowed (x ∷ s) =
    let rest = narrowed s in if x == 0 then [] else if ltb x 256 then x ∷ rest else []

-- The buffer afterwards, which had been filled with zeros.
abbrev pub buffer : Str → Str
buffer s = narrowed s ++ replicate ((wide_size s + 1) * 2 - length (narrowed s)) 0

-- `strcmp(out.c_str(), "")`: is the first byte a character?
abbrev pub differs_from_empty : Str → Bool
differs_from_empty [] = false
differs_from_empty (x ∷ s) = if x == 0 then false else true

unfoldable pub convert_to_string : Str → Option Str
unfolding wide_size narrowed
convert_to_string s = if differs_from_empty (buffer s) then none else some (buffer s)

abbrev pub IsZeros : Str → Type 0
IsZeros s = All (λ x. x ≡ 0) s

IsZeros-replicate : (n : ℕ) → IsZeros (replicate n 0)
IsZeros-replicate zero = tt
IsZeros-replicate (suc n) = (refl, IsZeros-replicate n)

narrowed_head : (x : ℕ) (s r : Str) → narrowed s ≡ x ∷ r → x ≢ 0
unfolding narrowed
narrowed_head x [] r e = absurd (ground arith)
narrowed_head x (y ∷ s) r e = ground arith

differs_from_empty-replicate : (n : ℕ) → differs_from_empty (replicate n 0) ≡ false
differs_from_empty-replicate zero = refl
differs_from_empty-replicate (suc n) = refl

-- By the bytes that were written.
returned-IsZeros :
    (w : Str) (n : ℕ) (t : Str)
    → ((x : ℕ) (r : Str) → w ≡ x ∷ r → x ≢ 0)
    → (if differs_from_empty (w ++ replicate n 0) then none else some (w ++ replicate n 0)) ≡ some t
    → IsZeros t
returned-IsZeros [] n t h e =
    subst IsZeros (some-injective _ _ (rw (differs_from_empty-replicate n) at e))
      (IsZeros-replicate n)
returned-IsZeros (x ∷ w) n t h e = absurd (ground (arith, h x w refl))

refused : (x : ℕ) (r : Str) → x ≢ 0 → ltb x 256 ≡ true → convert_to_string (x ∷ r) ≡ none
unfolding convert_to_string narrowed
refused x r h k = ground arith

-- `ConvertToString` never returns a text: what it returns has zeros only, and it returns nothing
-- for every string that starts with a character from 1 to 255.
pub convert_to_string-IsZeros :
    (s : Str)
    → ((t : Str) → convert_to_string s ≡ some t → IsZeros t)
      × ((x : ℕ) (r : Str) → s ≡ x ∷ r → x ≢ 0 → ltb x 256 ≡ true → convert_to_string s ≡ none)
unfolding convert_to_string
convert_to_string-IsZeros s = (
  λ t e.
      returned-IsZeros (narrowed s) ((wide_size s + 1) * 2 - length (narrowed s)) t
        (λ x r. narrowed_head x s r) e,
  λ x r e h k. subst (λ v. convert_to_string v ≡ none) (sym e) (refused x r h k),
)
