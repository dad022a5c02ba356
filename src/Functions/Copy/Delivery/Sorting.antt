-- ===== src/Functions/Copy/Delivery/Sorting.antt =====
-- `Helper_SortFiles` (src/Functions.cpp) and a file that the output lacks.
use sync_files.Base.{
  ◌+◌, ◌≡◌, refl, true, false, List, [], ◌∷◌, ◌⊎◌, inl, inr, arith, Str, str_dec, contains, count,
  count-append, contains-erase_of_absent, All, All-append_one,
}
use sync_files.Files.{Files}
use sync_files.Functions.State.{Functions}
use sync_files.Functions.Sort.{
  take_input, judge_file, SortPc, check, pop, judge, enqueue, measure, forget, stopped, sort_step,
}
use sync_files.Functions.Copy.Delivery.Defs.{Parcel, Harmless, sorted_name, sort_count, Steady}

pub check-name : (l : List Str) → sorted_name (elim l [ [] ↦ stopped | x ∷ r ↦ pop ]) ≡ []
check-name [] = refl
check-name (x ∷ r) = refl

pub judge_file-name :
    (fn : Functions) (fs : Files) (g : Str)
    → (sorted_name (judge_file fn fs g) ≡ g ∷ []) ⊎ (sorted_name (judge_file fn fs g) ≡ [])
unfolding judge_file
judge_file-name fn fs g = ground arith

module _ (parcel : Parcel) where
  open parcel use {inp, out, name, bytes}

  pub take_input-Steady :
      (l : List Str) (fn : Functions)
      → Steady parcel fn
      → All (Harmless parcel) l
      → Steady parcel (take_input fn l).1 × All (Harmless parcel) (sorted_name (take_input fn l).0)
  take_input-Steady [] fn v h = (v, tt)
  take_input-Steady (g ∷ l) fn v h = (
    record {
      from_eq = v.from_eq;
      to_eq = v.to_eq;
      no_deletes = v.no_deletes;
      unmatched = v.unmatched;
      safe_inputs = h.1;
      safe_queue = v.safe_queue;
    },
    (h.0, tt),
  )

  pub sort_step-Steady :
      (pc : SortPc) (fn : Functions) (fs : Files)
      → Steady parcel fn
      → All (Harmless parcel) (sorted_name pc)
      → Steady parcel (sort_step pc fn fs).1
        × All (Harmless parcel) (sorted_name (sort_step pc fn fs).0)
  unfolding sort_step
  sort_step-Steady check fn fs v h = (v, rw (check-name fn.input_files_set) tt)
  sort_step-Steady pop fn fs v h = take_input-Steady fn.input_files_set fn v v.safe_inputs
  sort_step-Steady (judge g) fn fs v h = elim (judge_file-name fn fs g) [
    | inl e ↦ (v, rw e h)
    | inr e ↦ (v, rw e tt)
  ]
  sort_step-Steady (enqueue g matched) fn fs v h = (
    record {
      from_eq = v.from_eq;
      to_eq = v.to_eq;
      no_deletes = v.no_deletes;
      unmatched = v.unmatched;
      safe_inputs = v.safe_inputs;
      safe_queue = All-append_one (Harmless parcel) fn.copy_queue g v.safe_queue h.0;
    },
    tt,
  )
  sort_step-Steady (measure g true) fn fs v h = (ground arith, tt)
  sort_step-Steady (measure g false) fn fs v h = (ground arith, tt)
  sort_step-Steady (forget g) fn fs v h = (
    record {
      from_eq = v.from_eq;
      to_eq = v.to_eq;
      no_deletes = v.no_deletes;
      unmatched = contains-erase_of_absent name g fn.output_files_set v.unmatched;
      safe_inputs = v.safe_inputs;
      safe_queue = v.safe_queue;
    },
    tt,
  )
  sort_step-Steady stopped fn fs v h = (v, tt)

  pub judge_file-new :
      (fn : Functions) (fs : Files)
      → contains fn.output_files_set name ≡ false
      → judge_file fn fs name ≡ enqueue name false
  unfolding judge_file
  judge_file-new fn fs u = ground arith

  pub judge_file-count :
      (fn : Functions) (fs : Files) (g : Str)
      → contains fn.output_files_set name ≡ false
      → sort_count parcel (judge_file fn fs g) ≡ count name (g ∷ [])
  judge_file-count fn fs g u = elim (str_dec g name) [
    | yes e ↦ rw (e, judge_file-new fn fs u) refl
    | no n ↦ elim (judge_file-name fn fs g) [ inl e ↦ rw e refl | inr e ↦ rw e (ground arith) ]
  ]

  -- A sorter moves the named file on and never drops it.
  pub sort_step-count :
      (pc : SortPc) (fn : Functions) (fs : Files)
      → contains fn.output_files_set name ≡ false
      → let (pc', fn') = sort_step pc fn fs in
        count name fn'.input_files_set + sort_count parcel pc' + count name fn'.copy_queue
        ≡ count name fn.input_files_set + sort_count parcel pc + count name fn.copy_queue
  unfolding sort_step
  sort_step-count (enqueue g matched) fn fs u =
      ground (arith, count-append name fn.copy_queue (g ∷ []))
  sort_step-count (judge g) fn fs u = omega (arith, judge_file-count fn fs g u)
  sort_step-count _ fn fs u = ground arith

  pub sort_step-errors :
      (pc : SortPc) (fn : Functions) (fs : Files) → (sort_step pc fn fs).1.errors ≡ fn.errors
  unfolding sort_step
  sort_step-errors stopped fn fs = refl
  sort_step-errors _ fn fs = ground arith
