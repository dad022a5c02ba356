-- ===== src/Functions/State.antt =====
-- The fields of the class `Functions` of include/Functions.h that its operations read or write.
-- Sets are lists without repetition, and `size_t` counters are kept modulo `2 ^ 64`.
use sync_files.Base.{ℕ, ◌^◌, Bool, false, List, [], Str}

-- An entry of `errors`: which call failed, and at which name.
pub data Fault : Type 0 where
  copy_fault : Str → Fault
  delete_fault : Str → Fault

-- The modulus of `size_t`.
abbrev pub word : ℕ
word = 2 ^ 64

pub record Functions : Type 0 where
  pub copy_queue : List Str
  pub delete_queue : List Str
  pub done_stuff : Bool
  pub input_prefix : Str
  pub output_prefix : Str
  pub input_files_set : List Str
  pub input_dir_set : List Str
  pub output_files_set : List Str
  pub output_dir_set : List Str
  pub files_input : List Str
  pub dirs_input : List Str
  pub files_output : List Str
  pub dirs_output : List Str
  pub cdeleted : ℕ
  pub move : Bool
  pub force : Bool
  pub overwrite_existing : Bool
  pub finished : Bool
  pub active_copy : Bool
  pub bytes_to_copy : ℕ
  pub files_to_copy : ℕ
  pub bytes_copied : ℕ
  pub files_copied : ℕ
  pub errors : List Fault

-- `Functions()`
abbrev pub initial : Functions
initial = record {
  copy_queue = [];
  delete_queue = [];
  done_stuff = false;
  input_prefix = [];
  output_prefix = [];
  input_files_set = [];
  input_dir_set = [];
  output_files_set = [];
  output_dir_set = [];
  files_input = [];
  dirs_input = [];
  files_output = [];
  dirs_output = [];
  cdeleted = 0;
  move = false;
  force = false;
  overwrite_existing = false;
  finished = false;
  active_copy = false;
  bytes_to_copy = 0;
  files_to_copy = 0;
  bytes_copied = 0;
  files_copied = 0;
  errors = [];
}
