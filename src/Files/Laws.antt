-- ===== src/Files/Laws.antt =====
-- How a change of the table shows at every path, in src/Functions.cpp's calls.
use sync_files.Base.{ℕ, ◌≡◌, ◌≢◌, none, some, List, [], ◌∷◌, arith, ite, Str, str_dec}
use sync_files.Files.{Node, file, Files, clean, find, lookup, without, put, unlink}
use sync_files.Files.Calls.{copy_file, rename, remove}

pub find-without :
    (p q : Str) (t : List (Str × Node)) → find q (without p t) ≡ ite (str_dec p q) none (find q t)
unfolding find without
find-without p q [] = ground arith
find-without p q ((r, n) ∷ t) = ground (arith, find-without p q t)

pub lookup-put :
    (fs : Files) (p q : Str) (n : Node)
    → lookup (put fs p n) q ≡ ite (str_dec (clean p) (clean q)) (some n) (lookup fs q)
unfolding lookup put
lookup-put fs p q n = ground (arith, find-without (clean p) (clean q) fs.nodes)

pub lookup-unlink :
    (fs : Files) (p q : Str)
    → lookup (unlink fs p) q ≡ ite (str_dec (clean p) (clean q)) none (lookup fs q)
unfolding lookup unlink
lookup-unlink fs p q = find-without (clean p) (clean q) fs.nodes

pub lookup-put_ne :
    (fs : Files) (p q : Str) (n : Node) → clean p ≢ clean q → lookup (put fs p n) q ≡ lookup fs q
lookup-put_ne fs p q n h = ground (arith, lookup-put fs p q n)

pub lookup-put_self : (fs : Files) (p : Str) (n : Node) → lookup (put fs p n) p ≡ some n
lookup-put_self fs p n = ground (arith, lookup-put fs p p n)

pub lookup-unlink_ne :
    (fs : Files) (p q : Str) → clean p ≢ clean q → lookup (unlink fs p) q ≡ lookup fs q
lookup-unlink_ne fs p q h = ground (arith, lookup-unlink fs p q)

-- What a change of one node does to the lookup of it, and of another.
ruleset node_laws = (arith, lookup-put_ne, lookup-put_self, lookup-unlink_ne)

-- A copy changes its target alone.
pub lookup-copy_file_ne :
    (fs fs' : Files) (from to q : Str)
    → copy_file fs from to ≡ some fs'
    → clean to ≢ clean q
    → lookup fs' q ≡ lookup fs q
unfolding copy_file
lookup-copy_file_ne fs fs' from to q e n = grind node_laws

-- A rename changes its two ends alone.
pub lookup-rename_ne :
    (fs fs' : Files) (from to q : Str)
    → rename fs from to ≡ some fs'
    → clean from ≢ clean q
    → clean to ≢ clean q
    → lookup fs' q ≡ lookup fs q
unfolding rename
lookup-rename_ne fs fs' from to q e m n = grind node_laws

pub lookup-remove_ne :
    (fs fs' : Files) (p q : Str)
    → remove fs p ≡ some fs'
    → clean p ≢ clean q
    → lookup fs' q ≡ lookup fs q
unfolding remove
lookup-remove_ne fs fs' p q e n = grind node_laws

-- What a copy leaves at its target.
pub lookup-copy_file_self :
    (fs fs' : Files) (from to bytes : Str) (t : ℕ)
    → lookup fs from ≡ some (file t bytes)
    → copy_file fs from to ≡ some fs'
    → lookup fs' to ≡ some (file (fs.copy_time t) bytes)
unfolding copy_file
lookup-copy_file_self fs fs' from to bytes t h e = grind node_laws

-- What a rename leaves at its target.
pub lookup-rename_self :
    (fs fs' : Files) (from to bytes : Str) (t : ℕ)
    → lookup fs from ≡ some (file t bytes)
    → rename fs from to ≡ some fs'
    → lookup fs' to ≡ some (file t bytes)
unfolding rename
lookup-rename_self fs fs' from to bytes t h e = grind node_laws
