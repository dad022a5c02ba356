-- ===== src/Functions/Work.antt =====
-- `DoStuff` of src/Functions.cpp, run by `processors` threads. A step is one access to a
-- queue or the flag, or one call of the file system with the counters or the error that follow it.
-- The timed wait only delays a thread, and is left out.
pub mod Transfer
use sync_files.Base.{
  ◌+◌, ◌%◌, Bool, true, false, Option, none, some, List, [], ◌∷◌, ◌++◌, Str, if◌then◌else◌,
}
use sync_files.Files.{Files}
use sync_files.Files.Calls.{file_size, copy_file, rename, remove}
use sync_files.Functions.State.{Functions, copy_fault, delete_fault, word}

pub data WorkPc : Type 0 where
  check_done : WorkPc  -- the three parts of the loop's test
  check_copy : WorkPc
  check_delete : WorkPc
  pop_copy : WorkPc
  copying : Str → WorkPc
  pop_delete : WorkPc
  deleting : Str → WorkPc
  left : WorkPc

abbrev pub is_nil : List Str → Bool
is_nil [] = true
is_nil (x ∷ xs) = false

-- `rename` or `copy_file`, as `_move` says.
unfoldable pub transfer : Functions → Files → Str → Option Files
transfer fn fs name =
    if fn.move
    then rename fs (fn.input_prefix ++ name) (fn.output_prefix ++ name)
    else copy_file fs (fn.input_prefix ++ name) (fn.output_prefix ++ name)

abbrev pub after_transfer : Functions → Files → Str → Option Files → Functions × Files
after_transfer fn fs name (some fs') = (
  record fn {
    files_copied = (fn.files_copied + 1) % word;
    bytes_copied = (fn.bytes_copied + file_size fs' (fn.output_prefix ++ name)) % word;
  },
  fs',
)
after_transfer fn fs name none = (record fn { errors = fn.errors ++ copy_fault name ∷ [] }, fs)

abbrev pub after_remove : Functions → Files → Str → Option Files → Functions × Files
after_remove fn fs name (some fs') = (record fn { cdeleted = fn.cdeleted + 1 }, fs')
after_remove fn fs name none = (record fn { errors = fn.errors ++ delete_fault name ∷ [] }, fs)

unfoldable pub work_copy : Functions → Files → Str → Functions × Files
unfolding transfer
work_copy fn fs name = after_transfer fn fs name (transfer fn fs name)

unfoldable pub work_delete : Functions → Files → Str → Functions × Files
work_delete fn fs name = after_remove fn fs name (remove fs (fn.output_prefix ++ name))

abbrev pub take_copy : Functions → Files → List Str → WorkPc × Functions × Files
take_copy fn fs [] = (pop_delete, fn, fs)
take_copy fn fs (name ∷ rest) = (copying name, record fn { copy_queue = rest }, fs)

abbrev pub take_delete : Functions → Files → List Str → WorkPc × Functions × Files
take_delete fn fs [] = (check_done, fn, fs)
take_delete fn fs (name ∷ rest) = (deleting name, record fn { delete_queue = rest }, fs)

unfoldable pub work_step : WorkPc → Functions → Files → WorkPc × Functions × Files
unfolding work_copy work_delete
work_step check_done fn fs = ((if fn.done_stuff then check_copy else pop_copy), fn, fs)
work_step check_copy fn fs = ((if is_nil fn.copy_queue then check_delete else pop_copy), fn, fs)
work_step check_delete fn fs = ((if is_nil fn.delete_queue then left else pop_copy), fn, fs)
work_step pop_copy fn fs = take_copy fn fs fn.copy_queue
work_step (copying name) fn fs = let (fn', fs') = work_copy fn fs name in (pop_delete, fn', fs')
work_step pop_delete fn fs = take_delete fn fs fn.delete_queue
work_step (deleting name) fn fs = let (fn', fs') = work_delete fn fs name in (check_done, fn', fs')
work_step left fn fs = (left, fn, fs)
