-- ===== src/Functions/Copy/Delivery/Defs.antt =====
-- Following one file through `Copy` (src/Functions.cpp): what the shared state and the threads hold.
use sync_files.Base.{ℕ, ◌≡◌, ◌≢◌, true, false, List, [], ◌∷◌, ◌++◌, ◌⊎◌, Str, contains, count, All}
use sync_files.Files.{Files, clean}
use sync_files.Functions.State.{Functions}
use sync_files.Functions.Sort.{SortPc, judge, enqueue}
use sync_files.Functions.Work.{WorkPc, copying, deleting}
use sync_files.Functions.Work.Transfer.{reported, Holds}

-- A file with its two prefixes and its bytes.
pub record Parcel : Type 0 where
  pub inp : Str
  pub out : Str
  pub name : Str
  pub bytes : Str

-- The names that the threads hold.
abbrev pub sorted_name : SortPc → List Str
sorted_name (judge g) = g ∷ []
sorted_name (enqueue g matched) = g ∷ []
sorted_name _ = []

abbrev pub worked_name : WorkPc → List Str
worked_name (copying g) = g ∷ []
worked_name _ = []

module _ (parcel : Parcel) where
  open parcel use {inp, out, name, bytes}

  -- A file whose two paths are not those of the named file, unless it is that file.
  pub record Harmless (g : Str) : Type 0 where
    pub target : clean (out ++ g) ≢ clean (inp ++ name)
    pub source : clean (inp ++ g) ≢ clean (out ++ name)
    pub other_target : g ≢ name → clean (out ++ g) ≢ clean (out ++ name)
    pub other_source : g ≢ name → clean (inp ++ g) ≢ clean (inp ++ name)

  -- How often a thread holds the named file before it is queued or copied.
  abbrev pub sort_count : SortPc → ℕ
  sort_count pc = count name (sorted_name pc)

  abbrev pub work_count : WorkPc → ℕ
  work_count pc = count name (worked_name pc)

  abbrev pub Keepers : WorkPc → Type 0
  Keepers (deleting g) = ⊥
  Keepers (copying g) = Harmless g
  Keepers _ = Unit

  -- Delivered, or reported.
  abbrev pub Settled : Functions → Files → Type 0
  Settled fn fs = Holds fs (out ++ name) bytes ⊎ (reported name fn.errors ≡ true)

  -- On its way with its source intact, or settled.
  abbrev pub Fate : ℕ → Functions → Files → Type 0
  Fate n fn fs = ((n ≡ 1) × Holds fs (inp ++ name) bytes) ⊎ ((n ≡ 0) × Settled fn fs)

  -- What the steps keep of the shared state.
  pub record Steady (fn : Functions) : Type 0 where
    pub from_eq : fn.input_prefix ≡ inp
    pub to_eq : fn.output_prefix ≡ out
    pub no_deletes : fn.delete_queue ≡ []
    pub unmatched : contains fn.output_files_set name ≡ false
    pub safe_inputs : All Harmless fn.input_files_set
    pub safe_queue : All Harmless fn.copy_queue
