-- ===== src/Files/Calls/Making.antt =====
-- What `create_directories`, as src/Functions.cpp calls it, makes, and what it leaves absent.
use sync_files.Base.{
  ℕ, ◌==◌, Bool-cases, append_assoc, append-nil, ◌≡◌, ◌≢◌, ◌≤◌, ◌<◌, ◌+◌, refl, sym, ap, subst, ◌∙◌,
  ◌⊎◌, inl, inr, true, false, none, some, List, [], ◌∷◌, ◌++◌, arith, Str, str_dec, length, All,
  All-map,
}
use sync_files.Files.{dir, Files, clean, lookup, put, is_directory, strip_prefix, separator}
use sync_files.Files.Spelling.{length-clean, clean_idem}
use sync_files.Files.Calls.{below, create_each, create_directories, ancestors}
use sync_files.Files.Laws.{lookup-put, lookup-put_ne, lookup-put_self}
use sync_files.Files.Calls.Directories.{lookup-create_each, lookup-clean}

length-append : (xs ys : Str) → length (xs ++ ys) ≡ length xs + length ys
length-append [] ys = omega arith
length-append (x ∷ xs) ys = omega (arith, length-append xs ys)

length-ancestors :
    (done s : Str) (n : ℕ) → length done + length s ≤ n → All (λ q. length q ≤ n) (ancestors done s)
unfolding ancestors
length-ancestors done [] n h = (omega arith, tt)
length-ancestors done (x ∷ r) n h =
    let rest = length-ancestors (done ++ x ∷ []) r n (omega (arith, length-append done (x ∷ []))) in
    elim (Bool-cases (x == separator)) [
      | inl e ↦ rw (e, ancestors) (omega arith, rest)
      | inr e ↦ rw (e, ancestors) rest
    ]

length-strip_prefix : (p s r : Str) → strip_prefix p s ≡ some r → length p ≤ length s
unfolding strip_prefix
length-strip_prefix [] s r e = omega arith
length-strip_prefix (x ∷ p) [] r e = absurd cc
length-strip_prefix (x ∷ p) (y ∷ s) r e = ground (arith, length-strip_prefix p s r)

length-below : (d q r : Str) → clean d ≢ [] → below d q ≡ some r → length (clean d) < length q
unfolding below
length-below d q r n e = ground (
  arith,
  length-strip_prefix (clean d ++ separator ∷ []) q r,
  length-append (clean d) (separator ∷ []),
)

create_each-absent :
    (ps : List Str) (fs : Files) (q : Str)
    → All (λ p. clean p ≢ clean q) ps
    → lookup fs q ≡ none
    → lookup (create_each fs ps) q ≡ none
unfolding create_each
create_each-absent [] fs q a h = h
create_each-absent ([] ∷ ps) fs q a h = create_each-absent ps fs q a.1 h
create_each-absent ((x ∷ r) ∷ ps) fs q a h = ground (
  arith,
  create_each-absent ps fs q a.1 h,
  create_each-absent ps (put fs (x ∷ r) dir) q a.1 (lookup-put_ne fs (x ∷ r) q dir a.0 ∙ h),
)

-- A path that is not on the way stays absent.
pub create_directories-absent :
    (fs : Files) (d q : Str)
    → All (λ p. clean p ≢ clean q) (ancestors [] (clean d))
    → lookup fs q ≡ none
    → lookup (create_directories fs d) q ≡ none
unfolding create_directories
create_directories-absent fs d q a h = create_each-absent (ancestors [] (clean d)) fs q a h

shorter : (p q : Str) → length p < length (clean q) → clean p ≢ clean q
shorter p q h e = absurd (omega (arith, length-clean p, ap length e))

-- Nothing is made below the path.
pub create_directories-below :
    (fs : Files) (d p r : Str)
    → below d (clean p) ≡ some r
    → lookup fs p ≡ none
    → lookup (create_directories fs d) p ≡ none
unfolding create_directories create_each ancestors
create_directories-below fs d p r b h = elim (str_dec (clean d) []) [
  | yes e ↦ rw e h
  | no n ↦
      create_each-absent (ancestors [] (clean d)) fs p
        (All-map _ _ (ancestors [] (clean d))
          (λ q (l : length q ≤ length (clean d)).
            shorter q p (omega (arith, length-below d (clean p) r n b)))
          (length-ancestors [] (clean d) (length (clean d)) (omega arith)))
        h
]

-- Neither a file nor a refusal is in the way of a directory at the path.
abbrev pub IsClear : Files → Str → Type 0
IsClear fs q = (fs.refused q ≡ false) × ((lookup fs q ≡ none) ⊎ (lookup fs q ≡ some dir))

IsClear-put : (fs : Files) (p q : Str) → IsClear fs q → IsClear (put fs p dir) q
unfolding put
IsClear-put fs p q (r, l) = (r, ground (arith, lookup-put fs p q dir))

create_each-put :
    (ps : List Str) (fs : Files) (x : ℕ) (r : Str)
    → fs.refused (x ∷ r) ≡ false
    → lookup fs (x ∷ r) ≡ none
    → create_each fs ((x ∷ r) ∷ ps) ≡ create_each (put fs (x ∷ r) dir) ps
unfolding create_each
create_each-put ps fs x r f l = ground arith

create_each-skip :
    (ps : List Str) (fs : Files) (x : ℕ) (r : Str)
    → lookup fs (x ∷ r) ≡ some dir
    → create_each fs ((x ∷ r) ∷ ps) ≡ create_each fs ps
unfolding create_each
create_each-skip ps fs x r l = ground arith

create_each-clear :
    (ps : List Str) (fs : Files)
    → All (IsClear fs) ps
    → All (λ q. (q ≡ []) ⊎ (lookup (create_each fs ps) q ≡ some dir)) ps
unfolding create_each
create_each-clear [] fs a = tt
create_each-clear ([] ∷ ps) fs a = (inl refl, create_each-clear ps fs a.1)
create_each-clear ((x ∷ r) ∷ ps) fs ((f, inr l), a) =
    subst (λ g. All (λ q. (q ≡ []) ⊎ (lookup g q ≡ some dir)) ((x ∷ r) ∷ ps))
      (sym (create_each-skip ps fs x r l))
      (inr (lookup-create_each ps fs (x ∷ r) dir l), create_each-clear ps fs a)
create_each-clear ((x ∷ r) ∷ ps) fs ((f, inl l), a) =
    let made = put fs (x ∷ r) dir in
    subst (λ g. All (λ q. (q ≡ []) ⊎ (lookup g q ≡ some dir)) ((x ∷ r) ∷ ps))
      (sym (create_each-put ps fs x r f l))
      (
        inr (lookup-create_each ps made (x ∷ r) dir (lookup-put_self fs (x ∷ r) dir)),
        create_each-clear ps made (All-map _ _ ps (λ q. IsClear-put fs (x ∷ r) q) a),
      )

All-ancestors : (P : Str → Type 0) (done s : Str) → All P (ancestors done s) → P (done ++ s)
unfolding ancestors
All-ancestors P done [] a = subst P (sym (append-nil done)) a.0
All-ancestors P done (x ∷ r) a =
    subst P (append_assoc done (x ∷ []) r) (elim (Bool-cases (x == separator)) [
      | inl e ↦ All-ancestors P (done ++ x ∷ []) r (rw (e, ancestors) at a).1
      | inr e ↦ All-ancestors P (done ++ x ∷ []) r (rw (e, ancestors) at a)
    ])

path-made :
    (fs : Files) (p : Str)
    → All (IsClear fs) (ancestors [] (clean p))
    → (clean p ≡ []) ⊎ (lookup (create_directories fs p) (clean p) ≡ some dir)
unfolding create_directories
path-made fs p a = All-ancestors _ [] (clean p) (create_each-clear (ancestors [] (clean p)) fs a)

-- Where nothing is in the way, the directory is made.
pub create_directories-made :
    (fs : Files) (p : Str)
    → p ≢ []
    → All (IsClear fs) (ancestors [] (clean p))
    → is_directory (create_directories fs p) p ≡ true
unfolding create_directories is_directory
create_directories-made fs [] n a = absurd (n refl)
create_directories-made fs (x ∷ r) n a = elim (path-made fs (x ∷ r) a) [
  | inl e ↦ ground arith
  | inr l ↦
      let m =
        lookup-clean (create_directories fs (x ∷ r)) (clean (x ∷ r)) (x ∷ r) (clean_idem (x ∷ r)) in
      ground arith
]
