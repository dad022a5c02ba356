-- ===== src/Files/Spelling.antt =====
-- The spelling of paths in the table of files that src/Functions.cpp works on.
use sync_files.Base.{
  ◌≡◌, ◌≤◌, refl, sym, ap, ◌∙◌, ℕ, true, false, [], ◌∷◌, arith, Str, length, ◌==◌, Bool-cases, inl,
  inr,
}
use sync_files.Files.{clean, separator}

pub length-clean : (s : Str) → length (clean s) ≤ length s
unfolding clean
length-clean [] = omega arith
length-clean (x ∷ []) = ground arith
length-clean (x ∷ y ∷ r) = ground (arith, length-clean (y ∷ r))

clean_plain : (x : ℕ) (s : Str) → (x == separator) ≡ false → clean (x ∷ s) ≡ x ∷ clean s
unfolding clean
clean_plain x [] h = ground arith
clean_plain x (y ∷ s) h = ground arith

clean_after : (x y : ℕ) (s : Str) → (y == separator) ≡ false → clean (x ∷ y ∷ s) ≡ x ∷ clean (y ∷ s)
unfolding clean
clean_after x y s h = ground arith

clean_doubled :
    (x y : ℕ) (s : Str)
    → (x == separator) ≡ true
    → (y == separator) ≡ true
    → clean (x ∷ y ∷ s) ≡ clean (y ∷ s)
unfolding clean
clean_doubled x y s h k = ground arith

pub clean_idem : (p : Str) → clean (clean p) ≡ clean p
unfolding clean
clean_idem [] = refl
clean_idem (x ∷ []) = ground arith
clean_idem (x ∷ y ∷ r) =
    let rest = clean_idem (y ∷ r) in
    elim (Bool-cases (x == separator)) [
      | inr e ↦
          ap clean (clean_plain x (y ∷ r) e)
          ∙ clean_plain x (clean (y ∷ r)) e
          ∙ ap (◌∷◌ x) rest
          ∙ sym (clean_plain x (y ∷ r) e)
      | inl e ↦ elim (Bool-cases (y == separator)) [
        | inl k ↦ ap clean (clean_doubled x y r e k) ∙ rest ∙ sym (clean_doubled x y r e k)
        | inr k ↦
            ap clean (clean_after x y r k ∙ ap (◌∷◌ x) (clean_plain y r k))
            ∙ clean_after x y (clean r) k
            ∙ ap (◌∷◌ x) (ap clean (sym (clean_plain y r k)) ∙ rest)
            ∙ sym (clean_after x y r k)
      ]
    ]
