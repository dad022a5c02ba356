-- ===== src/Files/Calls/Directories.antt =====
-- Making directories, as src/Functions.cpp does, leaves every node as it was.
use sync_files.Base.{◌≡◌, sym, ◌∙◌, none, some, List, [], ◌∷◌, arith, Str}
use sync_files.Files.{Node, dir, Files, clean, lookup, put}
use sync_files.Files.Calls.{create_each, create_directories, ancestors}
use sync_files.Files.Laws.{lookup-put_ne}

pub lookup-clean : (fs : Files) (p q : Str) → clean p ≡ clean q → lookup fs p ≡ lookup fs q
unfolding lookup
lookup-clean fs p q e = rw e

lookup-put_dir :
    (fs : Files) (p q : Str) (n : Node)
    → lookup fs p ≡ none
    → lookup fs q ≡ some n
    → lookup (put fs p dir) q ≡ some n
lookup-put_dir fs p q n absent h =
    lookup-put_ne fs p q dir (λ e. none-ne-node (sym absent ∙ (lookup-clean fs p q e ∙ h))) ∙ h
  where
    none-ne-node : none ≡ some n → ⊥
    none-ne-node e = cc

pub lookup-create_each :
    (ps : List Str) (fs : Files) (q : Str) (n : Node)
    → lookup fs q ≡ some n
    → lookup (create_each fs ps) q ≡ some n
unfolding create_each
lookup-create_each [] fs q n h = h
lookup-create_each ([] ∷ ps) fs q n h = lookup-create_each ps fs q n h
lookup-create_each ((x ∷ r) ∷ ps) fs q n h = ground (
  arith,
  lookup-create_each ps fs q n h,
  λ (e : lookup fs (x ∷ r) ≡ none).
      lookup-create_each ps (put fs (x ∷ r) dir) q n (lookup-put_dir fs (x ∷ r) q n e h),
)

pub lookup-create_directories :
    (fs : Files) (p q : Str) (n : Node)
    → lookup fs q ≡ some n
    → lookup (create_directories fs p) q ≡ some n
unfolding create_directories
lookup-create_directories fs p q n h = lookup-create_each (ancestors [] (clean p)) fs q n h
