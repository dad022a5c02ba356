-- ===== src/Tests/Sizes.antt =====
-- `GetSize` (src/main.cpp) of some numbers.
use sync_files.Base.{ℕ, ◌^◌, ◌-◌, ◌≡◌, refl, some, arith, codes}
use sync_files.Utility.{shown}
use sync_files.Doubles.{to_double}
use sync_files.Program.Sizes.{get_size, printed, decimal}
use sync_files.Program.Sizes.Buffer.{InUnit, get_size-Sized}

-- Unfolding this runs `GetSize`.
unfoldable sizes : ℕ
unfolding get_size printed decimal to_double shown
sizes = 0

bytes : get_size 1023 ≡ some (codes "1023.000000 B ")
unfolding sizes
bytes = refl

kilobytes : get_size 1537 ≡ some (codes "1.500977 KB")
unfolding sizes
kilobytes = refl

most : get_size (2 ^ 64 - 1) ≡ some (codes "16384.000000 PB")
unfolding sizes
most = refl

get_size-Sized_example : InUnit 1537
get_size-Sized_example = get_size-Sized 1537 (omega arith)
