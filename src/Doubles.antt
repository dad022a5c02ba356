-- ===== src/Doubles.antt =====
-- The numbers with a significand of 53 bits: the `double` of src/main.cpp and the `long double` of
-- src/Functions.cpp, which is a `double` with the library that has `file_type::junction`.
pub mod Rounding
pub mod Quotients
use sync_files.Base.{ℕ, zero, suc, ◌+◌, ◌*◌, ◌/◌, ◌%◌, ◌^◌, ltb, ◌==◌, if◌then◌else◌}

-- The quotient rounded to the nearest number, and to the even one of two that are equally near.
abbrev pub round_even : ℕ → ℕ → ℕ
round_even n u =
    if ltb (2 * (n % u)) u
    then n / u
    else if ltb u (2 * (n % u))
    then n / u + 1
    else if n / u % 2 == 0
    then n / u
    else n / u + 1

-- `double(value)` of a number below 2^64, whose significand has 53 bits.
unfoldable pub to_double : ℕ → ℕ
to_double n =
    if ltb n (2 ^ 53)
    then n
    else if ltb n (2 ^ 54)
    then round_even n 2 * 2
    else if ltb n (2 ^ 55)
    then round_even n 4 * 4
    else if ltb n (2 ^ 56)
    then round_even n 8 * 8
    else if ltb n (2 ^ 57)
    then round_even n 16 * 16
    else if ltb n (2 ^ 58)
    then round_even n 32 * 32
    else if ltb n (2 ^ 59)
    then round_even n 64 * 64
    else if ltb n (2 ^ 60)
    then round_even n 128 * 128
    else if ltb n (2 ^ 61)
    then round_even n 256 * 256
    else if ltb n (2 ^ 62)
    then round_even n 512 * 512
    else if ltb n (2 ^ 63)
    then round_even n 1024 * 1024
    else round_even n 2048 * 2048

-- `trunc` of a quotient of at least 1, given enough fuel: the dividend is doubled until the quotient
-- has 53 bits, and that is rounded.
abbrev pub scaled : ℕ → ℕ → ℕ → ℕ → ℕ
scaled zero n u p = round_even n u / p
scaled (suc fuel) n u p =
    let more = scaled fuel (2 * n) u (2 * p) in
    if ltb (n / u) (2 ^ 52) then more else round_even n u / p

-- `trunc((long double)n / u)`
unfoldable pub trunc_quotient : ℕ → ℕ → ℕ
unfolding to_double
trunc_quotient n u = scaled 53 (to_double n) u 1
