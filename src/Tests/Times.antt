-- ===== src/Tests/Times.antt =====
-- The times of `Utility` (src/Functions.cpp).
use sync_files.Base.{ℕ, pos, negsuc, arith, ◌≡◌, refl, codes, ◌++◌}
use sync_files.Doubles.{to_double, trunc_quotient}
use sync_files.Utility.{format_time, format_time_ns, part, left, shown, micro}
use sync_files.Utility.Parts.{Told, ToldNs, format_time_lem, format_time_ns_lem}

-- Unfolding this prints a time.
unfoldable time_calls : ℕ
unfolding format_time format_time_ns part left shown trunc_quotient to_double
time_calls = 0

-- A unit's own length is not above the unit.
one_minute : format_time (pos 60000000) ≡ codes "        60s         0" ++ micro
unfolding time_calls
one_minute = refl

negative : format_time (negsuc 4) ≡ codes "                   -5" ++ micro
unfolding time_calls
negative = refl

-- From 2^53 on the quotient can be rounded up to a whole number.
rounded_up : format_time (pos 9007199279999999) ≡ codes "150119988m            -1" ++ micro
unfolding time_calls
rounded_up = refl

rounded_up_ns : format_time_ns (pos 9007199999999999) ≡ codes "150120m                  -1ns"
unfolding time_calls
rounded_up_ns = refl

format_time_lem_example : Told 61002003
format_time_lem_example = format_time_lem 61002003 (omega arith)

format_time_ns_lem_example : ToldNs 61002003004
format_time_ns_lem_example = format_time_ns_lem 61002003004 (omega arith)
