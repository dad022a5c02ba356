-- ===== src/Program/Sizes/Buffer.antt =====
-- What `GetSize` of src/main.cpp writes fits its buffer, and is near the number.
use sync_files.Base.{
  Bool-cases, inl, inr, lt→ltb, ℕ, zero, suc, ◌+◌, ◌-◌, ◌*◌, ◌/◌, ◌%◌, ◌^◌, ◌≤◌, ◌<◌, ◌≡◌, refl,
  ◌∙◌, some, Str, codes, arith, ltb, length, length-append, length-replicate, replicate, [], ◌∷◌,
  ◌++◌,
}
use sync_files.Utility.{shown, padded, digits_of}
use sync_files.Doubles.{round_even, to_double}
use sync_files.Program.Sizes.{decimal, printed, buffered, get_size}
use sync_files.Doubles.Rounding.{round_even-near, round_even-le, to_double-le, to_double_exact}

abbrev ten : ℕ → ℕ
ten zero = 1
ten (suc k) = 10 * ten k

length-digits_of : (fuel k n : ℕ) → n < ten k → 1 ≤ k → length (digits_of fuel n) ≤ k
length-digits_of zero k n h p = omega arith
length-digits_of (suc fuel) zero n h p = absurd (omega arith)
length-digits_of (suc fuel) (suc zero) n h p = ground (arith)
length-digits_of (suc fuel) (suc (suc k)) n h p = ground (
  arith,
  length-digits_of fuel (suc k) (n / 10),
  length-append (digits_of fuel (n / 10)) ((48 + n % 10) ∷ []),
)

length-shown : (k n : ℕ) → n < ten k → 1 ≤ k → length (shown n) ≤ k
unfolding shown
length-shown k n h p = length-digits_of 20 k n h p

length-decimal : (m : ℕ) → m ≤ 16384000000 → length (decimal m) ≤ 12
unfolding decimal
length-decimal m h =
    let low = shown (m % 1000000) in
    let zeros = replicate {A = ℕ} (6 - length low) 48 in
    omega (
      arith,
      length-append (shown (m / 1000000)) (46 ∷ (zeros ++ low)),
      length-append zeros low,
      length-replicate {A = ℕ} (6 - length low) 48,
      length-shown 5 (m / 1000000) (omega arith) (omega arith),
      length-shown 6 (m % 1000000) (omega arith) (omega arith),
    )

length-line :
    (m : ℕ) (suffix : Str)
    → m ≤ 16384000000
    → length suffix ≡ 3
    → length (padded 7 (decimal m) ++ suffix) ≤ 15
length-line m suffix h e =
    let blanks = replicate {A = ℕ} (7 - length (decimal m)) 32 in
    omega (
      arith,
      length-append (blanks ++ decimal m) suffix,
      length-append blanks (decimal m),
      length-replicate {A = ℕ} (7 - length (decimal m)) 32,
      length-decimal m h,
    )

-- The units, and the texts for them.
abbrev pub unit_of : ℕ → ℕ
unit_of zero = 1
unit_of (suc zero) = 1024
unit_of (suc (suc zero)) = 1048576
unit_of (suc (suc (suc zero))) = 1073741824
unit_of (suc (suc (suc (suc zero)))) = 1099511627776
unit_of _ = 1125899906842624

abbrev pub suffix_of : ℕ → Str
suffix_of zero = codes " B "
suffix_of (suc zero) = codes " KB"
suffix_of (suc (suc zero)) = codes " MB"
suffix_of (suc (suc (suc zero))) = codes " GB"
suffix_of (suc (suc (suc (suc zero)))) = codes " TB"
suffix_of _ = codes " PB"

-- A text of the number in a unit, with a number of millionths that is nearest to it.
pub record Sized (value unit : ℕ) (suffix : Str) : Type 0 where
  pub millionths : ℕ
  pub text : get_size value ≡ some (padded 7 (decimal millionths) ++ suffix)
  pub fits : length (padded 7 (decimal millionths) ++ suffix) ≤ 15
  pub not_above : 2 * (millionths * unit) ≤ 2 * (to_double value * 1000000) + unit
  pub not_below : 2 * (to_double value * 1000000) ≤ 2 * (millionths * unit) + unit
  pub exact : value < 2 ^ 53 → to_double value ≡ value

buffered-Sized :
    (value unit : ℕ) (suffix : Str)
    → 0 < unit
    → to_double value ≤ 16384 * unit
    → length suffix ≡ 3
    → get_size value ≡ buffered (printed (to_double value) unit suffix)
    → Sized value unit suffix
unfolding printed
buffered-Sized value unit suffix h l e q =
    let m = round_even (to_double value * 1000000) unit in
    let b = round_even-le (to_double value * 1000000) 16384000000 unit h (omega arith) in
    let f = length-line m suffix b e in
    record {
      millionths = m;
      text = q ∙ rw (lt→ltb (length (padded 7 (decimal m) ++ suffix)) 20 (omega (arith, f))) refl;
      fits = f;
      not_above = (round_even-near (to_double value * 1000000) unit h).0;
      not_below = (round_even-near (to_double value * 1000000) unit h).1;
      exact = to_double_exact value;
    }

-- The number is in the range of the unit: the last has no upper end.
abbrev pub InRange : ℕ → ℕ → Type 0
InRange zero n = n < 1024
InRange (suc zero) n = (1024 ≤ n) × (n < 1048576)
InRange (suc (suc zero)) n = (1048576 ≤ n) × (n < 1073741824)
InRange (suc (suc (suc zero))) n = (1073741824 ≤ n) × (n < 1099511627776)
InRange (suc (suc (suc (suc zero)))) n = (1099511627776 ≤ n) × (n < 1125899906842624)
InRange (suc (suc (suc (suc (suc zero))))) n = 1125899906842624 ≤ n
InRange _ n = ⊥

abbrev pub InUnit : ℕ → Type 0
InUnit n = (k : ℕ) × InRange k n × Sized n (unit_of k) (suffix_of k)

-- A unit below the last.
small-InUnit :
    (k n : ℕ)
    → 0 < unit_of k
    → n < 1125899906842624
    → n < 1024 * unit_of k
    → length (suffix_of k) ≡ 3
    → InRange k n
    → get_size n ≡ buffered (printed (to_double n) (unit_of k) (suffix_of k))
    → InUnit n
small-InUnit k n p h l e r q =
    let d = to_double_exact n (omega arith) in
    (k, r, buffered-Sized n (unit_of k) (suffix_of k) p (omega arith) e q)

-- For a number below 2^64, `GetSize` does not write past its buffer. Its text has the number in the
-- unit whose range it is in, to the nearest millionth; a number from 2^53 on is rounded to a
-- `double` first.
pub get_size-Sized : (n : ℕ) → n < 2 ^ 64 → InUnit n
unfolding get_size
get_size-Sized n h = elim (Bool-cases (ltb n 1024)) [
  | inl a ↦
      small-InUnit 0 n (omega arith) (ground arith) (ground arith) refl (ground arith)
        (rw (a, get_size) refl)
  | inr a ↦ elim (Bool-cases (ltb n 1048576)) [
    | inl b ↦
        small-InUnit 1 n (omega arith) (ground arith) (ground arith) refl (ground arith)
          (rw (a, b, get_size) refl)
    | inr b ↦ elim (Bool-cases (ltb n 1073741824)) [
      | inl c ↦
          small-InUnit 2 n (omega arith) (ground arith) (ground arith) refl (ground arith)
            (rw (a, b, c, get_size) refl)
      | inr c ↦ elim (Bool-cases (ltb n 1099511627776)) [
        | inl d ↦
            small-InUnit 3 n (omega arith) (ground arith) (ground arith) refl (ground arith)
              (rw (a, b, c, d, get_size) refl)
        | inr d ↦ elim (Bool-cases (ltb n 1125899906842624)) [
          | inl e ↦
              small-InUnit 4 n (omega arith) (ground arith) (ground arith) refl (ground arith)
                (rw (a, b, c, d, e, get_size) refl)
          | inr e ↦ (
            5,
            ground arith,
            buffered-Sized n 1125899906842624 (codes " PB") (omega arith) (to_double-le n h) refl
                (rw (a, b, c, d, e, get_size) refl),
          )
        ]
      ]
    ]
  ]
]
