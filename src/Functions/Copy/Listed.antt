-- ===== src/Functions/Copy/Listed.antt =====
-- What the part of `Copy` (src/Functions.cpp) before its threads makes of the two directories.
use sync_files.Base.{◌≡◌, refl, true, false, some, List, [], map, Str, All}
use sync_files.Files.{Files, is_directory, join}
use sync_files.Files.Calls.Names.{names}
use sync_files.Functions.State.{Functions, initial}
use sync_files.Functions.Listing.{
  prefix_of, helper_ifiles, helper_ofiles, helper_idirset, helper_odirset,
}
use sync_files.Functions.Listing.Names.{
  of_kind, insert_all, seen, IsNonempty, of_kind_Nonempty, get_files-names, push_relative-names,
  insert_relative-names,
}
use sync_files.Functions.Copy.{Settings, gather}

-- A directory that can be listed.
pub record Listable (fs : Files) (d : Str) : Type 0 where
  pub is_dir : is_directory fs d ≡ true
  pub readable : fs.unreadable d ≡ false
  pub nonempty : All (λ e. IsNonempty e.0) (names fs d)

abbrev file_names : Files → Str → List Str
file_names fs d = map (seen d) (of_kind false (names fs d))

abbrev dir_names : Files → Str → List Str
dir_names fs d = map (seen d) (of_kind true (names fs d))

-- What `Copy` knows of the directories before its threads start.
pub record Gathered (fs : Files) (input output : Str) (fn : Functions) : Type 0 where
  pub inputs : fn.input_files_set ≡ file_names fs input
  pub input_dirs : fn.input_dir_set ≡ insert_all (dir_names fs input) []
  pub outputs : fn.output_files_set ≡ insert_all (file_names fs output) []
  pub output_dirs : fn.output_dir_set ≡ insert_all (dir_names fs output) []

gathered : Settings → Files → Str → Str → Functions
gathered set fs input output = record initial {
  finished = false;
  move = set.move;
  overwrite_existing = set.overwrite_existing;
  force = set.force;
  files_input = map (join input) (of_kind false (names fs input));
  dirs_input = map (join input) (of_kind true (names fs input));
  files_output = map (join output) (of_kind false (names fs output));
  dirs_output = map (join output) (of_kind true (names fs output));
  input_prefix = prefix_of input;
  output_prefix = prefix_of output;
  input_files_set = file_names fs input;
  input_dir_set = insert_all (dir_names fs input) [];
  output_files_set = insert_all (file_names fs output) [];
  output_dir_set = insert_all (dir_names fs output) [];
}

-- For two directories that can be listed, `Copy` has the names of the input's files in their order,
-- and the sets of the output's file names and of both's directory names; all names are in full, or
-- without their first character where the directory's path ends with a separator.
pub gather-Gathered :
    (set : Settings) (fs : Files) (input output : Str)
    → Listable fs input
    → Listable fs output
    → (fn : Functions) × (gather set initial fs input output ≡ some fn)
      × Gathered fs input output fn
unfolding gather gathered helper_ifiles helper_ofiles helper_idirset helper_odirset
gather-Gathered set fs input output i o = (
  gathered set fs input output,
  rw
      (
        gather,
        get_files-names fs input [] [] i.is_dir i.readable,
        get_files-names fs output [] [] o.is_dir o.readable,
        push_relative-names input (of_kind false (names fs input)) []
            (of_kind_Nonempty false (names fs input) i.nonempty),
        insert_relative-names output (of_kind false (names fs output)) []
            (of_kind_Nonempty false (names fs output) o.nonempty),
        insert_relative-names input (of_kind true (names fs input)) []
            (of_kind_Nonempty true (names fs input) i.nonempty),
        insert_relative-names output (of_kind true (names fs output)) []
            (of_kind_Nonempty true (names fs output) o.nonempty),
      )
      refl,
  record { inputs = refl; input_dirs = refl; outputs = refl; output_dirs = refl },
)
