-- ===== src/Functions/Copy/Frame/Sorting.antt =====
-- `Helper_SortFiles` (src/Functions.cpp) passes on only names that it was given.
use sync_files.Base.{
  true, false, List, [], ◌∷◌, inl, inr, Str, str_dec, erase, All, All-append_one, Bool,
  if◌then◌else◌, if_pos, if_neg,
}
use sync_files.Files.{Files}
use sync_files.Functions.State.{Functions}
use sync_files.Functions.Sort.{
  take_input, SortPc, check, pop, judge, enqueue, measure, forget, stopped, sort_step,
}
use sync_files.Functions.Copy.Delivery.Sorting.{check-name, judge_file-name}
use sync_files.Functions.Copy.Frame.{Watch, CopySafe, ExtraSafe, SortSafe, Clear}

-- What holds of all names of a set holds after an erasure.
pub All-erase {ℓ} : (P : Str → Type ℓ) (a : Str) (xs : List Str) → All P xs → All P (erase a xs)
All-erase P a [] h = tt
All-erase P a (x ∷ xs) h = elim (str_dec x a) [
  | yes e ↦ rw (if_pos _ e) (All-erase P a xs h.1)
  | no n ↦ rw (if_neg _ n) (h.0, All-erase P a xs h.1)
]

module _ (w : Watch) where
  take_input-Clear :
      (l : List Str) (fn : Functions)
      → Clear w fn
      → All (CopySafe w) l
      → Clear w (take_input fn l).1 × SortSafe w (take_input fn l).0
  take_input-Clear [] fn v h = (v, tt)
  take_input-Clear (g ∷ l) fn v h = (
    record {
      from_eq = v.from_eq;
      to_eq = v.to_eq;
      move_eq = v.move_eq;
      inputs = h.1;
      copies = v.copies;
      removals = v.removals;
      extras = v.extras;
      dirs = v.dirs;
    },
    (h.0, tt),
  )

  pub sort_step-Clear :
      (pc : SortPc) (fn : Functions) (fs : Files)
      → Clear w fn
      → SortSafe w pc
      → Clear w (sort_step pc fn fs).1 × SortSafe w (sort_step pc fn fs).0
  unfolding sort_step
  sort_step-Clear check fn fs v h = (v, rw (check-name fn.input_files_set) tt)
  sort_step-Clear pop fn fs v h = take_input-Clear fn.input_files_set fn v v.inputs
  sort_step-Clear (judge g) fn fs v h = elim (judge_file-name fn fs g) [
    | inl e ↦ (v, rw e h)
    | inr e ↦ (v, rw e tt)
  ]
  sort_step-Clear (enqueue g matched) fn fs v h = (
    record {
      from_eq = v.from_eq;
      to_eq = v.to_eq;
      move_eq = v.move_eq;
      inputs = v.inputs;
      copies = All-append_one (CopySafe w) fn.copy_queue g v.copies h.0;
      removals = v.removals;
      extras = v.extras;
      dirs = v.dirs;
    },
    tt,
  )
  sort_step-Clear (measure g matched) fn fs v h = (
    record {
      from_eq = v.from_eq;
      to_eq = v.to_eq;
      move_eq = v.move_eq;
      inputs = v.inputs;
      copies = v.copies;
      removals = v.removals;
      extras = v.extras;
      dirs = v.dirs;
    },
    measured matched,
  )
    where
      measured : (m : Bool) → SortSafe w (if m then forget g else check)
      measured true = tt
      measured false = tt
  sort_step-Clear (forget g) fn fs v h = (
    record {
      from_eq = v.from_eq;
      to_eq = v.to_eq;
      move_eq = v.move_eq;
      inputs = v.inputs;
      copies = v.copies;
      removals = v.removals;
      extras = All-erase (ExtraSafe w) g fn.output_files_set v.extras;
      dirs = v.dirs;
    },
    tt,
  )
  sort_step-Clear stopped fn fs v h = (v, tt)
