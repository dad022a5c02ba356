-- ===== src/Functions/Work/Transfer.antt =====
-- What one copy or move of `DoStuff` (src/Functions.cpp) does to a file that it is about, and to
-- another one.
use sync_files.Base.{
  ℕ, ◌≡◌, ◌≢◌, refl, Bool, true, false, some, List, [], ◌∷◌, ◌++◌, arith, ite, Str, str_dec,
}
use sync_files.Files.{file, Files, clean, lookup}
use sync_files.Files.Calls.{copy_file, rename}
use sync_files.Files.Laws.{
  lookup-copy_file_ne, lookup-copy_file_self, lookup-rename_ne, lookup-rename_self,
}
use sync_files.Functions.State.{Functions, Fault, copy_fault, delete_fault}
use sync_files.Functions.Work.{transfer}

-- Is a failed copy of the name among the errors?
abbrev pub reported : Str → List Fault → Bool
reported name [] = false
reported name (copy_fault g ∷ es) = ite (str_dec g name) true (reported name es)
reported name (delete_fault g ∷ es) = reported name es

pub reported-append :
    (name : Str) (es ds : List Fault) → reported name es ≡ true → reported name (es ++ ds) ≡ true
reported-append name [] ds h = cc
reported-append name (copy_fault g ∷ es) ds h = ground (arith, reported-append name es ds)
reported-append name (delete_fault g ∷ es) ds h = reported-append name es ds h

pub reported-append_self :
    (name : Str) (es : List Fault) → reported name (es ++ copy_fault name ∷ []) ≡ true
reported-append_self name [] = ground arith
reported-append_self name (copy_fault g ∷ es) = ground (arith, reported-append_self name es)
reported-append_self name (delete_fault g ∷ es) = reported-append_self name es

pub lookup-transfer_ne :
    (fn : Functions) (fs fs' : Files) (g q : Str)
    → transfer fn fs g ≡ some fs'
    → clean (fn.input_prefix ++ g) ≢ clean q
    → clean (fn.output_prefix ++ g) ≢ clean q
    → lookup fs' q ≡ lookup fs q
unfolding transfer
lookup-transfer_ne fn fs fs' g q e m n = grind (
  arith,
  lookup-copy_file_ne fs fs' (fn.input_prefix ++ g) (fn.output_prefix ++ g) q,
  lookup-rename_ne fs fs' (fn.input_prefix ++ g) (fn.output_prefix ++ g) q,
)

-- The file stands at the path, with these bytes.
abbrev pub Holds : Files → Str → Str → Type 0
Holds fs path bytes = (t : ℕ) × (lookup fs path ≡ some (file t bytes))

pub transfer-Holds :
    (fn : Functions) (fs fs' : Files) (g bytes : Str)
    → Holds fs (fn.input_prefix ++ g) bytes
    → transfer fn fs g ≡ some fs'
    → Holds fs' (fn.output_prefix ++ g) bytes
unfolding transfer
transfer-Holds fn fs fs' g bytes (t, h) e = moves fn.move (grind arith) (grind arith)
  where
    moves :
        (b : Bool)
        → (b ≡ true → rename fs (fn.input_prefix ++ g) (fn.output_prefix ++ g) ≡ some fs')
        → (b ≡ false → copy_file fs (fn.input_prefix ++ g) (fn.output_prefix ++ g) ≡ some fs')
        → Holds fs' (fn.output_prefix ++ g) bytes
    moves true r c = (t, lookup-rename_self fs fs' _ _ bytes t h (r refl))
    moves false r c = (fs.copy_time t, lookup-copy_file_self fs fs' _ _ bytes t h (c refl))
