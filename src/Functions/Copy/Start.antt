-- ===== src/Functions/Copy/Start.antt =====
-- What `Copy` of src/Functions.cpp has set up when it starts its threads.
use sync_files.Base.{
  ℕ, zero, suc, ◌≡◌, refl, false, some, List, [], ◌∷◌, arith, contains, replicate, total, All, Str,
  Bool-cases, inl, inr,
}
use mathlib.Core.Path.{subst}
use mathlib.Core.Option.{some-injective}
use sync_files.Base.Partial.{>>=-eq-some}
use sync_files.Files.{Files}
use sync_files.Functions.State.{Functions, initial}
use sync_files.Functions.Listing.{helper_ifiles, helper_ofiles, helper_idirset, helper_odirset}
use sync_files.Functions.Sort.{SortPc}
use sync_files.Functions.Work.{WorkPc}
use sync_files.Functions.Copy.{
  Settings, Job, join_sorters, make_output, drop_dir, handle_dirs, gather, launch, start,
}
use sync_files.Functions.Copy.Phases.{Flow, Knows}
use sync_files.Functions.Copy.Balance.{Balance, underway}

-- Nothing is queued, counted or reported yet.
pub record Fresh (fn : Functions) : Type 0 where
  pub undone : fn.done_stuff ≡ false
  pub unfinished : fn.finished ≡ false
  pub no_copies : fn.copy_queue ≡ []
  pub no_deletes : fn.delete_queue ≡ []
  pub none_to_copy : fn.files_to_copy ≡ 0
  pub none_copied : fn.files_copied ≡ 0
  pub no_errors : fn.errors ≡ []

helper_ifiles-Fresh : (fn fn' : Functions) → Fresh fn → helper_ifiles fn ≡ some fn' → Fresh fn'
unfolding helper_ifiles
helper_ifiles-Fresh fn fn' v e = ground arith

helper_ofiles-Fresh : (fn fn' : Functions) → Fresh fn → helper_ofiles fn ≡ some fn' → Fresh fn'
unfolding helper_ofiles
helper_ofiles-Fresh fn fn' v e = ground arith

helper_idirset-Fresh : (fn fn' : Functions) → Fresh fn → helper_idirset fn ≡ some fn' → Fresh fn'
unfolding helper_idirset
helper_idirset-Fresh fn fn' v e = ground arith

helper_odirset-Fresh : (fn fn' : Functions) → Fresh fn → helper_odirset fn ≡ some fn' → Fresh fn'
unfolding helper_odirset
helper_odirset-Fresh fn fn' v e = ground arith

gather-Fresh :
    (set : Settings) (fn fn' : Functions) (fs : Files) (input output : Str)
    → Fresh fn
    → gather set fn fs input output ≡ some fn'
    → Fresh fn'
unfolding gather
gather-Fresh set fn fn' fs input output v e =
    grind
      (arith, helper_ifiles-Fresh, helper_ofiles-Fresh, helper_idirset-Fresh, helper_odirset-Fresh)

handle_dirs-Fresh :
    (dirs : List Str) (fn : Functions) (fs : Files) → Fresh fn → Fresh (handle_dirs fn fs dirs).0
unfolding handle_dirs
handle_dirs-Fresh [] fn fs v = v
handle_dirs-Fresh (d ∷ ds) fn fs v = elim (Bool-cases (contains fn.output_dir_set d)) [
  | inl h ↦ rw (h, handle_dirs) (handle_dirs-Fresh ds (drop_dir d fn) fs (ground arith))
  | inr h ↦ rw (h, handle_dirs) (handle_dirs-Fresh ds fn _ v)
]

-- The threads as they start.
pub record Starts (set : Settings) (j : Job) : Type 0 where
  pub fresh : Fresh j.fn
  pub settings_eq : j.settings ≡ set
  pub main_eq : j.main ≡ join_sorters
  pub sorters_eq : j.sorters ≡ replicate 4 SortPc.check
  pub workers_eq : j.workers ≡ replicate set.processors WorkPc.check_done

initial-Fresh : Fresh initial
initial-Fresh = ground arith

launch-Starts :
    (set : Settings) (fn : Functions) (fs : Files) → Fresh fn → Starts set (launch set fn fs)
launch-Starts set fn fs v = record {
  fresh = ground arith;
  settings_eq = refl;
  main_eq = refl;
  sorters_eq = refl;
  workers_eq = refl;
}

pub start-Starts :
    (set : Settings) (fs : Files) (input output : Str) (j : Job)
    → start set initial fs input output ≡ some j
    → Starts set j
unfolding start
start-Starts set fs input output j e =
    let (fs₁, _, e₁) = >>=-eq-some (make_output fs output) _ e in
    let (fn₁, g, e₂) = >>=-eq-some (gather set initial fs₁ input output) _ e₁ in
    subst (Starts set) (some-injective _ _ e₂) (
      launch-Starts set _ _ (
        handle_dirs-Fresh fn₁.input_dir_set fn₁ fs₁
          (gather-Fresh set initial fn₁ fs₁ input output initial-Fresh g)))

check_done-Knows : (fn : Functions) (n : ℕ) → All (Knows fn) (replicate n WorkPc.check_done)
check_done-Knows fn zero = tt
check_done-Knows fn (suc n) = (tt, check_done-Knows fn n)

check_done-underway : (n : ℕ) → total underway (replicate n WorkPc.check_done) ≡ 0
check_done-underway zero = refl
check_done-underway (suc n) = omega (arith, check_done-underway n)

pub Starts-Flow : (set : Settings) (j : Job) → Starts set j → Flow j
Starts-Flow set j v = record {
  sorted = λ p. absurd (grind (arith, v.main_eq));
  flagged = λ p. absurd (grind (arith, v.fresh.undone));
  raised = λ p. absurd (grind (arith, v.main_eq));
  joined = λ p. absurd (grind (arith, v.main_eq));
  known = rw v.workers_eq (check_done-Knows j.fn set.processors);
}

pub Starts-Balance : (set : Settings) (j : Job) → Starts set j → Balance j
Starts-Balance set j v = record {
  balanced =
      rw
        (
          v.workers_eq, v.sorters_eq, v.fresh.none_to_copy, v.fresh.none_copied, v.fresh.no_errors,
          v.fresh.no_copies,
        )
        (omega (arith, check_done-underway set.processors));
  to_copy_small = rw v.fresh.none_to_copy (omega arith);
  copied_small = rw v.fresh.none_copied (omega arith);
}
