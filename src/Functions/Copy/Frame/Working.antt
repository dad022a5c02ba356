-- ===== src/Functions/Copy/Frame/Working.antt =====
-- `DoStuff` (src/Functions.cpp) changes only the paths of the names that it holds.
use sync_files.Base.{◌≡◌, ◌≢◌, refl, true, Option, none, some, List, [], ◌∷◌, ◌++◌, arith, Str, All}
use sync_files.Files.{Files, clean, lookup}
use sync_files.Files.Calls.{remove}
use sync_files.Files.Laws.{lookup-copy_file_ne, lookup-rename_ne, lookup-remove_ne}
use sync_files.Functions.State.{Functions}
use sync_files.Functions.Work.{
  WorkPc, check_done, check_copy, check_delete, pop_copy, copying, pop_delete, deleting, left,
  work_step, transfer, after_transfer, after_remove, take_copy, take_delete,
}
use sync_files.Functions.Copy.Frame.{Watch, CopySafe, DeleteSafe, WorkSafe, Clear}

-- A copy changes its target, a move also its source.
lookup-transfer_safe :
    (fn : Functions) (fs fs' : Files) (g q : Str)
    → transfer fn fs g ≡ some fs'
    → (fn.move ≡ true → clean (fn.input_prefix ++ g) ≢ clean q)
    → clean (fn.output_prefix ++ g) ≢ clean q
    → lookup fs' q ≡ lookup fs q
unfolding transfer
lookup-transfer_safe fn fs fs' g q e m n = grind (
  arith,
  lookup-copy_file_ne fs fs' (fn.input_prefix ++ g) (fn.output_prefix ++ g) q,
  lookup-rename_ne fs fs' (fn.input_prefix ++ g) (fn.output_prefix ++ g) q,
)

module _ (w : Watch) where
  open w use {inp, out, path, node, moves, deletes}

  after_transfer-Clear :
      (fn : Functions) (fs : Files) (g : Str) (o : Option Files)
      → Clear w fn
      → Clear w (after_transfer fn fs g o).0
  after_transfer-Clear fn fs g none v = ground arith
  after_transfer-Clear fn fs g (some fs') v = ground arith

  after_remove-Clear :
      (fn : Functions) (fs : Files) (g : Str) (o : Option Files)
      → Clear w fn
      → Clear w (after_remove fn fs g o).0
  after_remove-Clear fn fs g none v = ground arith
  after_remove-Clear fn fs g (some fs') v = ground arith

  take_copy-Clear :
      (l : List Str) (fn : Functions) (fs : Files)
      → Clear w fn
      → All (CopySafe w) l
      → Clear w (take_copy fn fs l).1 × WorkSafe w (take_copy fn fs l).0
  take_copy-Clear [] fn fs v h = (v, tt)
  take_copy-Clear (g ∷ l) fn fs v h = (
    record {
      from_eq = v.from_eq;
      to_eq = v.to_eq;
      move_eq = v.move_eq;
      inputs = v.inputs;
      copies = h.1;
      removals = v.removals;
      extras = v.extras;
      dirs = v.dirs;
    },
    h.0,
  )

  take_delete-Clear :
      (l : List Str) (fn : Functions) (fs : Files)
      → Clear w fn
      → All (DeleteSafe w) l
      → Clear w (take_delete fn fs l).1 × WorkSafe w (take_delete fn fs l).0
  take_delete-Clear [] fn fs v h = (v, tt)
  take_delete-Clear (g ∷ l) fn fs v h = (
    record {
      from_eq = v.from_eq;
      to_eq = v.to_eq;
      move_eq = v.move_eq;
      inputs = v.inputs;
      copies = v.copies;
      removals = h.1;
      extras = v.extras;
      dirs = v.dirs;
    },
    h.0,
  )

  pub work_step-Clear :
      (pc : WorkPc) (fn : Functions) (fs : Files)
      → Clear w fn
      → WorkSafe w pc
      → Clear w (work_step pc fn fs).1 × WorkSafe w (work_step pc fn fs).0
  unfolding work_step
  work_step-Clear check_done fn fs v k = ground arith
  work_step-Clear check_copy fn fs v k = ground arith
  work_step-Clear check_delete fn fs v k = ground arith
  work_step-Clear pop_copy fn fs v k = take_copy-Clear fn.copy_queue fn fs v v.copies
  work_step-Clear (copying g) fn fs v k = (after_transfer-Clear fn fs g (transfer fn fs g) v, tt)
  work_step-Clear pop_delete fn fs v k = take_delete-Clear fn.delete_queue fn fs v v.removals
  work_step-Clear (deleting g) fn fs v k =
      (after_remove-Clear fn fs g (remove fs (fn.output_prefix ++ g)) v, tt)
  work_step-Clear left fn fs v k = (v, tt)

  lookup-after_transfer :
      (fn : Functions) (fs : Files) (g : Str) (o : Option Files)
      → Clear w fn
      → CopySafe w g
      → transfer fn fs g ≡ o
      → lookup (after_transfer fn fs g o).1 path ≡ lookup fs path
  lookup-after_transfer fn fs g none v k e = refl
  lookup-after_transfer fn fs g (some fs') v k e =
      lookup-transfer_safe fn fs fs' g path e (λ m. rw v.from_eq (k.source (rw (← v.move_eq) m)))
        (rw v.to_eq k.target)

  lookup-after_remove :
      (fn : Functions) (fs : Files) (g : Str) (o : Option Files)
      → Clear w fn
      → DeleteSafe w g
      → remove fs (fn.output_prefix ++ g) ≡ o
      → lookup (after_remove fn fs g o).1 path ≡ lookup fs path
  lookup-after_remove fn fs g none v k e = refl
  lookup-after_remove fn fs g (some fs') v k e =
      lookup-remove_ne fs fs' (fn.output_prefix ++ g) path e (rw v.to_eq k)

  take_copy-files : (l : List Str) (fn : Functions) (fs : Files) → (take_copy fn fs l).2 ≡ fs
  take_copy-files [] fn fs = refl
  take_copy-files (g ∷ l) fn fs = refl

  take_delete-files : (l : List Str) (fn : Functions) (fs : Files) → (take_delete fn fs l).2 ≡ fs
  take_delete-files [] fn fs = refl
  take_delete-files (g ∷ l) fn fs = refl

  pub lookup-work_step :
      (pc : WorkPc) (fn : Functions) (fs : Files)
      → Clear w fn
      → WorkSafe w pc
      → lookup (work_step pc fn fs).2 path ≡ lookup fs path
  unfolding work_step
  lookup-work_step check_done fn fs v k = refl
  lookup-work_step check_copy fn fs v k = refl
  lookup-work_step check_delete fn fs v k = refl
  lookup-work_step pop_copy fn fs v k = rw (take_copy-files fn.copy_queue fn fs) refl
  lookup-work_step (copying g) fn fs v k = lookup-after_transfer fn fs g (transfer fn fs g) v k refl
  lookup-work_step pop_delete fn fs v k = rw (take_delete-files fn.delete_queue fn fs) refl
  lookup-work_step (deleting g) fn fs v k =
      lookup-after_remove fn fs g (remove fs (fn.output_prefix ++ g)) v k refl
  lookup-work_step left fn fs v k = refl
