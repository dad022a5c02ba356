-- ===== src/Functions/Sort.antt =====
-- `Helper_SortFiles` of src/Functions.cpp, run by four threads. A step is one access
-- to a queue or a set, with the reads of one name's two files or the two counters as one.
pub mod Decision
use sync_files.Base.{
  ℕ, ◌+◌, ◌%◌, Bool, true, false, not, ◌&&◌, Option, none, some, List, [], ◌∷◌, ◌++◌, Str, contains,
  erase, ltb, ◌==◌, if◌then◌else◌,
}
use sync_files.Files.{Files}
use sync_files.Files.Calls.{last_write_time, file_size, file_size?}
use sync_files.Functions.State.{Functions, word}

-- Where a thread stands. `matched` says that the output has a file of the name.
pub data SortPc : Type 0 where
  check : SortPc  -- the test of the loop
  pop : SortPc
  judge : Str → SortPc
  enqueue : Str → (matched : Bool) → SortPc
  measure : Str → (matched : Bool) → SortPc
  forget : Str → SortPc
  stopped : SortPc

abbrev is_empty : Str → Bool
is_empty [] = true
is_empty (x ∷ s) = false

-- Do two sizes differ? `none` where one of the calls throws.
abbrev differ : Option ℕ → Option ℕ → Option Bool
differ (some a) (some b) = some (not (a == b))
differ _ _ = none

-- The choice for a file that both sides have; the `catch` goes back to the loop's test.
unfoldable pub judge_matched : Functions → Files → Str → SortPc
judge_matched fn fs name =
    let itime = last_write_time fs (fn.input_prefix ++ name) in
    let otime = last_write_time fs (fn.output_prefix ++ name) in
    if ltb otime itime
    then enqueue name true
    else if ltb itime otime
    then if fn.force then enqueue name true else forget name
    else if fn.overwrite_existing
    then enqueue name true
    else elim (differ (file_size? fs (fn.input_prefix ++ name))
        (file_size? fs (fn.output_prefix ++ name))) [
          | none ↦ check
          | some true ↦ enqueue name true
          | some false ↦ forget name
        ]

unfoldable pub judge_file : Functions → Files → Str → SortPc
unfolding judge_matched
judge_file fn fs name =
    if not (is_empty name) && contains fn.output_files_set name
    then judge_matched fn fs name
    else enqueue name false

abbrev pub take_input : Functions → List Str → SortPc × Functions
take_input fn [] = (check, fn)
take_input fn (name ∷ rest) = (judge name, record fn { input_files_set = rest })

unfoldable pub sort_step : SortPc → Functions → Files → SortPc × Functions
unfolding judge_file
sort_step check fn fs = (elim fn.input_files_set [ [] ↦ stopped | x ∷ r ↦ pop ], fn)
sort_step pop fn fs = take_input fn fn.input_files_set
sort_step (judge name) fn fs = (judge_file fn fs name, fn)
sort_step (enqueue name matched) fn fs =
    (measure name matched, record fn { copy_queue = fn.copy_queue ++ name ∷ [] })
sort_step (measure name matched) fn fs = (
  (if matched then forget name else check),
  record fn {
    bytes_to_copy = (fn.bytes_to_copy + file_size fs (fn.input_prefix ++ name)) % word;
    files_to_copy = (fn.files_to_copy + 1) % word;
  },
)
sort_step (forget name) fn fs =
    (check, record fn { output_files_set = erase name fn.output_files_set })
sort_step stopped fn fs = (stopped, fn)
