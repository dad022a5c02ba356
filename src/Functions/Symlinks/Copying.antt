-- ===== src/Functions/Symlinks/Copying.antt =====
-- The copy of a tree, as `ReconstitueSymlinks` of src/Functions.cpp calls it, changes no node that
-- was there.
use sync_files.Base.{
  ℕ, ◌≡◌, ◌≢◌, refl, sym, ap, subst, ◌∙◌, true, false, Option, none, some, List, [], ◌∷◌, ◌++◌, Str,
  Bool-cases, Option-cases, inl, inr, arith,
}
use sync_files.Files.{
  Node, Files, clean, join, lookup, exists, filename, separator, ends_with_separator,
}
use sync_files.Files.Calls.{Entry, create_directories}
use sync_files.Files.Calls.Names.{names}
use sync_files.Files.Calls.Directories.{lookup-clean, lookup-create_directories}
use sync_files.Files.Laws.{lookup-copy_file_ne}
use sync_files.Functions.Symlinks.{copy_new, copy_entries, copied_file, copy_recursive}

join-cons : (d r : Str) → (x : ℕ) × (s : Str) × (join d r ≡ x ∷ s)
unfolding join ends_with_separator
join-cons [] r = (separator, r, refl)
join-cons (x ∷ d) r = elim (Bool-cases (ends_with_separator (x ∷ d))) [
  | inl e ↦ (x, d ++ r, rw (e, join) refl)
  | inr e ↦ (x, d ++ separator ∷ r, rw (e, join) refl)
]

lookup_exists :
    (fs : Files) (x : ℕ) (s q : Str) (n : Node)
    → lookup fs q ≡ some n
    → exists fs (x ∷ s) ≡ false
    → clean (x ∷ s) ≢ clean q
unfolding lookup exists
lookup_exists fs x s q n h k e = ground (arith, lookup-clean fs (x ∷ s) q e ∙ h)

-- A copy that does not overwrite changes no node.
pub lookup-copy_new :
    (fs fs' : Files) (from to r q : Str) (n : Node)
    → copy_new fs from (join to r) ≡ some fs'
    → lookup fs q ≡ some n
    → lookup fs' q ≡ some n
unfolding copy_new
lookup-copy_new fs fs' from to r q n e h = elim (Bool-cases (exists fs (join to r))) [
  | inl k ↦ absurd (ground arith)
  | inr k ↦
      let (x, s, j) = join-cons to r in
      lookup-copy_file_ne fs fs' from (join to r) q (ground arith) (λ c.
        lookup_exists fs x s q n h (subst (λ p. exists fs p ≡ false) j k) (ap clean (sym j) ∙ c))
      ∙ h
]

pub lookup-copy_entries :
    (es : List Entry) (fs : Files) (from to q : Str) (n : Node)
    → lookup fs q ≡ some n
    → lookup (copy_entries fs from to es).1 q ≡ some n
unfolding copy_entries
lookup-copy_entries [] fs from to q n h = h
lookup-copy_entries ((r, true) ∷ es) fs from to q n h =
    let k = lookup-create_directories fs (join to r) q n h in
    ground (arith, k, lookup-copy_entries es (create_directories fs (join to r)) from to q n k)
lookup-copy_entries ((r, false) ∷ es) fs from to q n h =
    elim (Option-cases (copy_new fs (join from r) (join to r))) [
      | inl e ↦ rw (e, copy_entries) h
      | inr (fs', e) ↦
          rw (e, copy_entries)
            (lookup-copy_entries es fs' from to q n
              (lookup-copy_new fs fs' (join from r) to r q n e h))
    ]

lookup-copied_file :
    (fs : Files) (o : Option Files) (q : Str) (n : Node)
    → lookup fs q ≡ some n
    → ((fs' : Files) → o ≡ some fs' → lookup fs' q ≡ some n)
    → lookup (copied_file fs o).1 q ≡ some n
lookup-copied_file fs none q n h k = h
lookup-copied_file fs (some fs') q n h k = k fs' refl

-- A copy to a new directory changes no node that was there.
pub lookup-copy_recursive :
    (fs : Files) (from to q : Str) (n : Node)
    → lookup fs q ≡ some n
    → lookup (copy_recursive fs from to).1 q ≡ some n
unfolding copy_recursive
lookup-copy_recursive fs from to q n h = ground (
  arith,
  lookup-copy_entries (names fs from) fs from to q n h,
  lookup-copied_file fs (copy_new fs from (join to (filename from))) q n h
      (λ fs' e. lookup-copy_new fs fs' from to (filename from) q n e h),
)
