-- ===== src/Files/Calls/Trees.antt =====
-- Removing a tree, as src/Functions.cpp does, leaves every node outside it as it was.
use sync_files.Base.{
  ◌≡◌, ◌≢◌, refl, false, none, some, List, [], ◌∷◌, inl, inr, ◌⊎◌, arith, Str, str_dec,
  Option-cases,
}
use sync_files.Files.{Node, Files, clean, find, lookup, without}
use sync_files.Files.Calls.{below, drop_below, remove_all}
use sync_files.Files.Laws.{find-without}

find-drop_below :
    (d q : Str) (t : List (Str × Node)) → below d q ≡ none → find q (drop_below d t) ≡ find q t
unfolding find drop_below
find-drop_below d q [] h = refl
find-drop_below d q ((r, n) ∷ t) h = elim (Option-cases (below d r)) [
  | inl e ↦ rw (e, drop_below) (ground (arith, find-drop_below d q t h))
  | inr (x, e) ↦ rw (e, drop_below) (ground (arith, find-drop_below d q t h))
]

pub lookup-remove_all :
    (fs fs' : Files) (d q : Str)
    → remove_all fs d ≡ some fs'
    → clean d ≢ clean q
    → below d (clean q) ≡ none
    → lookup fs' q ≡ lookup fs q
unfolding lookup remove_all
lookup-remove_all fs fs' d q e n h =
    grind (arith, find-drop_below d (clean q), find-without (clean d) (clean q) fs.nodes)

find-drop_below-none :
    (d q r : Str) (t : List (Str × Node)) → below d q ≡ some r → find q (drop_below d t) ≡ none
unfolding find drop_below
find-drop_below-none d q r [] h = refl
find-drop_below-none d q r ((p, n) ∷ t) h = elim (Option-cases (below d p)) [
  | inl e ↦ rw (e, drop_below) (ground (arith, find-drop_below-none d q r t h))
  | inr (x, e) ↦ rw (e, drop_below) (find-drop_below-none d q r t h)
]

-- Nothing stands below a tree that was removed.
pub lookup-remove_all-below :
    (fs fs' : Files) (d q r : Str)
    → remove_all fs d ≡ some fs'
    → below d (clean q) ≡ some r
    → lookup fs' q ≡ none
unfolding lookup remove_all
lookup-remove_all-below fs fs' d q r e h =
    grind (arith, find-drop_below-none d (clean q) r (without (clean d) fs.nodes))

lookup-remove_all_self :
    (fs fs' : Files) (d q : Str)
    → remove_all fs d ≡ some fs'
    → clean d ≡ clean q
    → below d (clean q) ≡ none
    → lookup fs' q ≡ none
unfolding lookup remove_all
lookup-remove_all_self fs fs' d q e p b =
    grind (arith, find-drop_below d (clean q), find-without (clean d) (clean q) fs.nodes)

-- A path names after the removal what it named before, or nothing.
pub lookup-remove_all-or :
    (fs fs' : Files) (d q : Str)
    → remove_all fs d ≡ some fs'
    → (lookup fs' q ≡ none) ⊎ (lookup fs' q ≡ lookup fs q)
lookup-remove_all-or fs fs' d q e = elim (Option-cases (below d (clean q))) [
  | inr (r, b) ↦ inl (lookup-remove_all-below fs fs' d q r e b)
  | inl b ↦ elim (str_dec (clean d) (clean q)) [
    | no n ↦ inr (lookup-remove_all fs fs' d q e n b)
    | yes p ↦ inl (lookup-remove_all_self fs fs' d q e p b)
  ]
]

-- What may be removed is removed.
pub remove_all_done :
    (fs : Files) (d : Str)
    → fs.refused d ≡ false
    → (fs' : Files) × (remove_all fs d ≡ some fs') × (fs'.refused ≡ fs.refused)
unfolding remove_all
remove_all_done fs d h =
    (record fs { nodes = drop_below d (without (clean d) fs.nodes) }, rw (h, remove_all) refl, refl)
