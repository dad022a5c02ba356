-- ===== src/Tests/Sorting.antt =====
-- The choice of `Helper_SortFiles` (src/Functions.cpp) for one file of the small disk.
use sync_files.Base.{◌≡◌, ◌⊎◌, refl, true, [], ◌∷◌, codes}
use sync_files.Functions.State.{Functions, initial}
use sync_files.Functions.Sort.{enqueue, forget, judge_file}
use sync_files.Functions.Sort.Decision.{Kept, Wanted, decides}
use sync_files.Tests.Samples.{disk, file_calls}

-- The output's listing has `a`, of time 3, and the input's `a` is of time 5.
abbrev listed : Functions
listed = record initial {
  input_prefix = codes "in/";
  output_prefix = codes "out/";
  output_files_set = codes "a" ∷ [];
}

decides_example :
    ((judge_file listed disk (codes "a") ≡ forget (codes "a")) × Kept listed 5 3 2 1)
    ⊎ ((judge_file listed disk (codes "a") ≡ enqueue (codes "a") true) × Wanted listed 5 3 2 1)
unfolding file_calls
decides_example = decides listed disk 97 [] (codes "xy") (codes "w") 5 3 refl refl refl
