-- ===== src/Functions/Copy/Delivery/Working.antt =====
-- The other steps of `DoStuff` (src/Functions.cpp), and the fate of one file.
use sync_files.Base.{
  ℕ, ◌+◌, ◌≡◌, refl, ap, Option, none, some, List, [], ◌∷◌, arith, Str, count, count-append, All,
}
use sync_files.Files.{Files}
use sync_files.Functions.State.{Functions}
use sync_files.Functions.Work.{
  WorkPc, check_done, check_copy, check_delete, pop_copy, copying, pop_delete, deleting, left,
  work_step, transfer, after_transfer, take_copy, take_delete,
}
use sync_files.Functions.Copy.Delivery.Defs.{Parcel, Harmless, work_count, Keepers, Fate, Steady}

abbrev pub IsCopying : WorkPc → Type 0
IsCopying (copying g) = Unit
IsCopying _ = ⊥

module _ (parcel : Parcel) where
  open parcel use {inp, out, name, bytes}

  pub after_transfer-Steady :
      (fn : Functions) (fs : Files) (g : Str) (o : Option Files)
      → Steady parcel fn
      → Steady parcel (after_transfer fn fs g o).0
  after_transfer-Steady fn fs g none v = ground arith
  after_transfer-Steady fn fs g (some fs') v = ground arith

  pub after_transfer-queues :
      (fn : Functions) (fs : Files) (g : Str) (o : Option Files)
      → let fn' = (after_transfer fn fs g o).0 in
        (fn'.input_files_set ≡ fn.input_files_set) × (fn'.copy_queue ≡ fn.copy_queue)
  after_transfer-queues fn fs g none = (refl, refl)
  after_transfer-queues fn fs g (some fs') = (refl, refl)

  pub take_copy-Steady :
      (l : List Str) (fn : Functions) (fs : Files)
      → Steady parcel fn
      → All (Harmless parcel) l
      → Steady parcel (take_copy fn fs l).1 × Keepers parcel (take_copy fn fs l).0
  take_copy-Steady [] fn fs v h = (v, tt)
  take_copy-Steady (g ∷ l) fn fs v h = (
    record {
      from_eq = v.from_eq;
      to_eq = v.to_eq;
      no_deletes = v.no_deletes;
      unmatched = v.unmatched;
      safe_inputs = v.safe_inputs;
      safe_queue = h.1;
    },
    h.0,
  )

  pub work_step-Steady :
      (pc : WorkPc) (fn : Functions) (fs : Files)
      → Steady parcel fn
      → Keepers parcel pc
      → Steady parcel (work_step pc fn fs).1 × Keepers parcel (work_step pc fn fs).0
  unfolding work_step
  work_step-Steady check_done fn fs v k = ground arith
  work_step-Steady check_copy fn fs v k = ground arith
  work_step-Steady check_delete fn fs v k = ground arith
  work_step-Steady pop_copy fn fs v k = take_copy-Steady fn.copy_queue fn fs v v.safe_queue
  work_step-Steady (copying g) fn fs v k = (after_transfer-Steady fn fs g (transfer fn fs g) v, tt)
  work_step-Steady pop_delete fn fs v k = rw (v.no_deletes, take_delete) (v, tt)
  work_step-Steady (deleting g) fn fs v k = absurd k
  work_step-Steady left fn fs v k = (v, tt)

  -- How often the shared queues and one worker hold the named file.
  abbrev pub held : Functions → WorkPc → ℕ
  held fn pc = count name fn.input_files_set + count name fn.copy_queue + work_count parcel pc

  pub take_copy-held :
      (l : List Str) (fn : Functions) (fs : Files)
      → fn.copy_queue ≡ l
      → let (pc', fn', fs') = take_copy fn fs l in
        (held fn' pc' ≡ held fn pop_copy) × (fn'.errors ≡ fn.errors) × (fs' ≡ fs)
  take_copy-held [] fn fs e = (refl, refl, refl)
  take_copy-held (g ∷ l) fn fs e =
      (omega (arith, ap (count name) e, count-append name (g ∷ []) l), refl, refl)

  -- A worker that is not copying neither drops the named file nor touches the file system.
  pub work_step-held :
      (pc : WorkPc) (fn : Functions) (fs : Files)
      → ¬ IsCopying pc
      → Steady parcel fn
      → Keepers parcel pc
      → let (pc', fn', fs') = work_step pc fn fs in
        (held fn' pc' ≡ held fn pc) × (fn'.errors ≡ fn.errors) × (fs' ≡ fs)
  unfolding work_step
  work_step-held check_done fn fs c v k = ground arith
  work_step-held check_copy fn fs c v k = ground arith
  work_step-held check_delete fn fs c v k = ground arith
  work_step-held pop_copy fn fs c v k = take_copy-held fn.copy_queue fn fs refl
  work_step-held (copying g) fn fs c v k = absurd (c tt)
  work_step-held pop_delete fn fs c v k = rw (v.no_deletes, take_delete) (refl, refl, refl)
  work_step-held (deleting g) fn fs c v k = absurd k
  work_step-held left fn fs c v k = (refl, refl, refl)

  pub Fate-same :
      (m n : ℕ) (fn fn' : Functions) (fs fs' : Files)
      → n ≡ m
      → fn'.errors ≡ fn.errors
      → fs' ≡ fs
      → Fate parcel m fn fs
      → Fate parcel n fn' fs'
  Fate-same m n fn fn' fs fs' a b c f = rw (a, b, c) f
