-- ===== src/Program/Sizes.antt =====
-- `GetSize` of src/main.cpp, with the rounding of `double` and of `sprintf`.
pub mod Buffer
use sync_files.Base.{
  ℕ, ◌+◌, ◌-◌, ◌*◌, ◌/◌, ◌%◌, ◌^◌, Option, none, some, List, [], ◌∷◌, ◌++◌, Str, codes, ltb, ◌==◌,
  length, replicate, if◌then◌else◌,
}
use sync_files.Doubles.{round_even, to_double}
use sync_files.Utility.{shown, padded}

-- Six digits after the point.
unfoldable pub decimal : ℕ → Str
decimal millionths =
    let digits = shown (millionths % 1000000) in
    shown (millionths / 1000000) ++ 46 ∷ (replicate (6 - length digits) 48 ++ digits)

-- "%7f" and a suffix, for a `double` over a power of two, which is divided without rounding.
unfoldable pub printed : ℕ → ℕ → Str → Str
unfolding decimal
printed value unit suffix = padded 7 (decimal (round_even (value * 1000000) unit)) ++ suffix

-- `sprintf` to a buffer of 20 characters; `none` is a write past its end.
abbrev pub buffered : Str → Option Str
buffered s = if ltb (length s) 20 then some s else none

unfoldable pub get_size : ℕ → Option Str
unfolding printed to_double
get_size value =
    let d = to_double value in
    if ltb value 1024
    then buffered (printed d 1 (codes " B "))
    else if ltb value 1048576
    then buffered (printed d 1024 (codes " KB"))
    else if ltb value 1073741824
    then buffered (printed d 1048576 (codes " MB"))
    else if ltb value 1099511627776
    then buffered (printed d 1073741824 (codes " GB"))
    else if ltb value 1125899906842624
    then buffered (printed d 1099511627776 (codes " TB"))
    else buffered (printed d 1125899906842624 (codes " PB"))
