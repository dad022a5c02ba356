-- ===== src/Functions/Copy/Fair/Delivered.antt =====
-- Every fair schedule of `Copy` (src/Functions.cpp) brings a file that the output lacks to it.
use sync_files.Base.{
  ℕ, zero, suc, ◌<◌, ◌≡◌, refl, sym, ap, ◌∙◌, ◌⊎◌, true, false, some, List, [], ◌++◌, Str, All,
  count, contains,
}
use mathlib.Core.Path.{subst}
use sync_files.Files.{Files, file, lookup}
use sync_files.Functions.State.{initial}
use sync_files.Functions.Listing.{prefix_of}
use sync_files.Functions.Work.Transfer.{Holds, reported}
use sync_files.Functions.Copy.{Settings, Job, Thread, ended, start, run}
use sync_files.Functions.Copy.Progress.{run-append}
use sync_files.Functions.Copy.Delivery.Defs.{Parcel, Harmless}
use sync_files.Functions.Copy.Delivery.Outcome.{delivered}
use sync_files.Functions.Copy.Fair.{IsFair, run_rounds}
use sync_files.Functions.Copy.Fair.Ends.{fair_end}

-- The steps of the first rounds.
unfoldable pub steps_of : ℕ → (ℕ → List Thread) → List Thread
steps_of zero rounds = []
steps_of (suc n) rounds = rounds 0 ++ steps_of n (λ k. rounds (suc k))

pub run_rounds-eq :
    (n : ℕ) (j : Job) (rounds : ℕ → List Thread) → run_rounds n j rounds ≡ run j (steps_of n rounds)
unfolding run_rounds steps_of run
run_rounds-eq zero j rounds = refl
run_rounds-eq (suc n) j rounds =
    run_rounds-eq n (run j (rounds 0)) (λ k. rounds (suc k))
    ∙ sym (run-append j (rounds 0) (steps_of n (λ k. rounds (suc k))))

-- With at least one worker and without `-d`, take a file that the input has and the output's listing
-- has not, whose two paths no other listed name uses. If every thread takes a step in each round,
-- and others may take any number of them in any order, then after some number of rounds `Copy` has
-- ended, and the file's bytes stand under its name in the output, or `errors` has its failed copy.
pub delivered_fairly :
    (set : Settings) (fs : Files) (input output name bytes : Str) (t : ℕ) (j : Job)
    (rounds : ℕ → List Thread)
    → let parcel : Parcel = record {
      inp = prefix_of input;
      out = prefix_of output;
      name = name;
      bytes = bytes;
    } in
      0 < set.processors
      → set.delete_without_match ≡ false
      → start set initial fs input output ≡ some j
      → count name j.fn.input_files_set ≡ 1
      → contains j.fn.output_files_set name ≡ false
      → All (Harmless parcel) j.fn.input_files_set
      → lookup fs (prefix_of input ++ name) ≡ some (file t bytes)
      → IsFair j rounds
      → (n : ℕ) × ((run_rounds n j rounds).main ≡ ended)
        × (Holds (run_rounds n j rounds).fs (prefix_of output ++ name) bytes
            ⊎ (reported name (run_rounds n j rounds).fn.errors ≡ true))
unfolding run
delivered_fairly set fs input output name bytes t j rounds h d e once new safe there f =
    let (n, over) = fair_end set fs input output j [] rounds e f in
    let same = run_rounds-eq n j rounds in
    (
      n,
      over,
      subst (λ k. Holds k.fs (prefix_of output ++ name) bytes ⊎ (reported name k.fn.errors ≡ true))
          (sym same)
          (delivered set fs input output name bytes t j (steps_of n rounds) h d e once new safe
            there (ap (λ k. k.main) (sym same) ∙ over)),
    )
