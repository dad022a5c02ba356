-- ===== src/Utility.antt =====
-- `Utility::FormatTime` and `Utility::FormatTimeNS` of src/Functions.cpp. A `long double` has 53
-- bits, as with the library that has `file_type::junction`: a quotient can be rounded up to a whole
-- number, and what is left of the time is then negative.
pub mod Parts
use sync_files.Base.{
  ℤ, pos, negsuc, ℕ, zero, suc, ◌+◌, ◌-◌, ◌*◌, ◌/◌, ◌%◌, Bool, true, false, List, [], ◌∷◌, ◌++◌,
  Str, codes, ltb, leb, length, replicate, if◌then◌else◌,
}
use sync_files.Doubles.{trunc_quotient}

-- The decimal digits of a number, given enough fuel for them.
abbrev pub digits_of : ℕ → ℕ → Str
digits_of zero n = []
digits_of (suc fuel) n =
    let rest = digits_of fuel (n / 10) in
    if ltb n 10 then (48 + n) ∷ [] else rest ++ (48 + n % 10) ∷ []

-- An `int64_t` has at most 19 digits.
unfoldable pub shown : ℕ → Str
shown n = digits_of 20 n

-- `std::setw(w)`
abbrev pub padded : ℕ → Str → Str
padded w s = replicate (w - length s) 32 ++ s

abbrev pub spaces : ℕ → Str
spaces n = replicate n 32

abbrev pub shown_int : ℤ → Str
shown_int (pos n) = shown n
shown_int (negsuc n) = 45 ∷ shown (suc n)

-- `n - k`
abbrev pub minus : ℕ → ℕ → ℤ
minus n k = if leb k n then pos (n - k) else negsuc (k - n - 1)

-- What is above a unit, and what it leaves: nothing is taken where the value is not above the unit.
unfoldable pub taken : ℤ → ℕ → ℕ
unfolding trunc_quotient
taken (pos n) unit = if ltb unit n then trunc_quotient n unit else 0
taken (negsuc n) unit = 0

unfoldable pub left : ℤ → ℕ → ℤ
unfolding trunc_quotient
left (pos n) unit = if ltb unit n then minus n (trunc_quotient n unit * unit) else pos n
left (negsuc n) unit = negsuc n

abbrev pub blank : ℕ → Str → Str
blank w suffix = spaces (w + length suffix)

-- One part of the text.
unfoldable pub part : ℤ → ℕ → ℕ → Str → Str
unfolding shown trunc_quotient
part (pos n) unit w suffix =
    if ltb unit n then padded w (shown (trunc_quotient n unit)) ++ suffix else blank w suffix
part (negsuc n) unit w suffix = blank w suffix

abbrev pub micro : Str
micro = 956 ∷ 115 ∷ []

unfoldable pub format_time : ℤ → Str
unfolding part shown left
format_time t =
    let t₁ = left t 60000000 in
    let t₂ = left t₁ 1000000 in
    let t₃ = left t₂ 1000 in
    part t 60000000 6 (codes "m ")
    ++ part t₁ 1000000 2 (codes "s ")
    ++ part t₂ 1000 3 (codes "ms ")
    ++ padded 3 (shown_int t₃)
    ++ micro

unfoldable pub format_time_ns : ℤ → Str
unfolding part shown left
format_time_ns t =
    let t₁ = left t 60000000000 in
    let t₂ = left t₁ 1000000000 in
    let t₃ = left t₂ 1000000 in
    let t₄ = left t₃ 1000 in
    part t 60000000000 6 (codes "m ")
    ++ part t₁ 1000000000 2 (codes "s ")
    ++ part t₂ 1000000 3 (codes "ms ")
    ++ part t₃ 1000 3 (micro ++ codes " ")
    ++ padded 3 (shown_int t₄)
    ++ codes "ns"
