-- ===== src/Utility/Parts.antt =====
-- The parts of the times that `Utility` of src/Functions.cpp prints.
use sync_files.Base.{
  pos, ℕ, zero, suc, ◌+◌, ◌*◌, ◌/◌, ◌%◌, ◌^◌, sym, subst, ◌≤◌, ◌<◌, ◌≡◌, refl, ◌++◌, Str, codes,
  arith, ltb, length, Bool-cases, inl, inr, ltb→lt,
}
use native.Mathlib.Nat.{div-add-mod', mod-lt, le-div_iff_mul-le}
use sync_files.Doubles.{trunc_quotient}
use sync_files.Doubles.Quotients.{trunc_quotient_exact}
use sync_files.Utility.{
  minus, shown, padded, spaces, taken, left, part, micro, format_time, format_time_ns,
}

-- A part that is nothing is left blank.
abbrev pub field : ℕ → ℕ → Str → Str
field zero w suffix = spaces (w + length suffix)
field (suc k) w suffix = padded w (shown (suc k)) ++ suffix

part-field :
    (n unit w : ℕ) (suffix : Str)
    → (unit < n → trunc_quotient n unit ≡ n / unit)
    → (unit < n → 1 ≤ n / unit)
    → part (pos n) unit w suffix ≡ field (taken (pos n) unit) w suffix
unfolding part taken
part-field n unit w suffix q h = elim (Bool-cases (ltb unit n)) [
  | inl e ↦
      let k = ltb→lt unit n e in
      rw (e, taken) (above (trunc_quotient n unit) (subst (λ x. 1 ≤ x) (sym (q k)) (h k)))
  | inr e ↦ rw (e, taken) refl
]
  where
    above : (k : ℕ) → 1 ≤ k → padded w (shown k) ++ suffix ≡ field k w suffix
    above zero k = absurd (omega arith)
    above (suc m) k = refl

-- What a unit leaves of a time, and the part that is taken.
record Splits (n unit : ℕ) : Type 0 where
  pub rest : ℕ
  pub left_eq : left (pos n) unit ≡ pos rest
  pub sum : n ≡ taken (pos n) unit * unit + rest
  pub rest_le : rest ≤ unit
  pub part_eq :
      (w : ℕ) (suffix : Str) → part (pos n) unit w suffix ≡ field (taken (pos n) unit) w suffix

minus-multiple : (n q unit r : ℕ) → n ≡ q * unit + r → minus n (q * unit) ≡ pos r
minus-multiple n q unit r e = ground arith

whole_unit : (n unit : ℕ) → 0 < unit → unit < n → 1 ≤ n / unit
whole_unit n unit h l = (le-div_iff_mul-le h).1 (omega arith)

-- A time below 2^53 is split as numbers are.
split : (n unit : ℕ) → 0 < unit → unit < 2 ^ 53 → n < 2 ^ 53 → Splits n unit
unfolding taken left
split n unit h u k =
    let exact = trunc_quotient_exact n unit h k u in
    let field_of =
      λ (w : ℕ) (suffix : Str). part-field n unit w suffix (λ l. exact) (whole_unit n unit h) in
    elim (Bool-cases (ltb unit n)) [
      | inl e ↦ record {
        rest = n % unit;
        left_eq =
            rw (e, left, exact)
              (minus-multiple n (n / unit) unit (n % unit) (sym (div-add-mod' n unit)));
        sum = rw (e, taken, exact) (sym (div-add-mod' n unit));
        rest_le = omega (arith, mod-lt n h);
        part_eq = field_of;
      }
      | inr e ↦ record {
        rest = n;
        left_eq = rw (e, left) refl;
        sum = rw (e, taken) (omega arith);
        rest_le = ground arith;
        part_eq = field_of;
      }
    ]

-- What the text of a time in microseconds tells.
abbrev pub Told : ℕ → Type 0
Told n =
    (m s ms us : ℕ) × (n ≡ m * 60000000 + s * 1000000 + ms * 1000 + us)
    × (s ≤ 60)
    × (ms ≤ 1000)
    × (us ≤ 1000)
    × (format_time (pos n)
        ≡ field m 6 (codes "m ")
          ++ field s 2 (codes "s ")
          ++ field ms 3 (codes "ms ")
          ++ padded 3 (shown us)
          ++ micro)

-- What the text of a time in nanoseconds tells.
abbrev pub ToldNs : ℕ → Type 0
ToldNs n =
    (m s ms us ns : ℕ) × (n ≡ m * 60000000000 + s * 1000000000 + ms * 1000000 + us * 1000 + ns)
    × (s ≤ 60)
    × (ms ≤ 1000)
    × (us ≤ 1000)
    × (ns ≤ 1000)
    × (format_time_ns (pos n)
        ≡ field m 6 (codes "m ")
          ++ field s 2 (codes "s ")
          ++ field ms 3 (codes "ms ")
          ++ field us 3 (micro ++ codes " ")
          ++ padded 3 (shown ns)
          ++ codes "ns")

-- The text of a time from 0 to 2^53 - 1 has minutes, seconds, milliseconds and microseconds that
-- add up to the time, with at most 60 seconds, 1000 milliseconds and 1000 microseconds; a part of
-- nothing before the last is blank.
pub format_time_lem : (n : ℕ) → n < 2 ^ 53 → Told n
unfolding format_time
format_time_lem n h =
    let m = split n 60000000 (omega arith) (omega arith) h in
    let s = split m.rest 1000000 (omega arith) (omega arith) (omega (arith, m.rest_le)) in
    let ms = split s.rest 1000 (omega arith) (omega arith) (omega (arith, s.rest_le)) in
    (
      taken (pos n) 60000000,
      taken (pos m.rest) 1000000,
      taken (pos s.rest) 1000,
      ms.rest,
      omega (arith, m.sum, s.sum, ms.sum),
      omega (arith, s.sum, m.rest_le),
      omega (arith, ms.sum, s.rest_le),
      ms.rest_le,
      rw
          (
            m.left_eq,
            s.left_eq,
            ms.left_eq,
            m.part_eq 6 (codes "m "),
            s.part_eq 2 (codes "s "),
            ms.part_eq 3 (codes "ms "),
          )
          refl,
    )

-- The text of a number of nanoseconds from 0 to 2^53 - 1 has minutes, seconds, milliseconds,
-- microseconds and nanoseconds that add up to the number, with at most 60 seconds and 1000 of each
-- of the others; a part of nothing before the last is blank.
pub format_time_ns_lem : (n : ℕ) → n < 2 ^ 53 → ToldNs n
unfolding format_time_ns
format_time_ns_lem n h =
    let m = split n 60000000000 (omega arith) (omega arith) h in
    let s = split m.rest 1000000000 (omega arith) (omega arith) (omega (arith, m.rest_le)) in
    let ms = split s.rest 1000000 (omega arith) (omega arith) (omega (arith, s.rest_le)) in
    let us = split ms.rest 1000 (omega arith) (omega arith) (omega (arith, ms.rest_le)) in
    (
      taken (pos n) 60000000000,
      taken (pos m.rest) 1000000000,
      taken (pos s.rest) 1000000,
      taken (pos ms.rest) 1000,
      us.rest,
      omega (arith, m.sum, s.sum, ms.sum, us.sum),
      omega (arith, s.sum, m.rest_le),
      omega (arith, ms.sum, s.rest_le),
      omega (arith, us.sum, ms.rest_le),
      us.rest_le,
      rw
          (
            m.left_eq,
            s.left_eq,
            ms.left_eq,
            us.left_eq,
            m.part_eq 6 (codes "m "),
            s.part_eq 2 (codes "s "),
            ms.part_eq 3 (codes "ms "),
            us.part_eq 3 (micro ++ codes " "),
          )
          refl,
    )
