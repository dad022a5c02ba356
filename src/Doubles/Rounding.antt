-- ===== src/Doubles/Rounding.antt =====
-- How far a number is rounded to a `double` (src/main.cpp).
use sync_files.Base.{
  Bool, true, false, lt→ltb, dec_le, ℕ, ◌+◌, ◌*◌, ◌/◌, ◌^◌, ◌≤◌, ◌<◌, ◌≡◌, refl, arith, ltb,
  if◌then◌else◌,
}
use native.Mathlib.Nat.{div-add-mod', mod-lt, mul-le-mul_left, add-mul, mul_comm}
use sync_files.Doubles.{round_even, to_double}

-- The rounding is off by half a unit at most.
pub round_even-near :
    (n u : ℕ)
    → 0 < u
    → (2 * (round_even n u * u) ≤ 2 * n + u) × (2 * n ≤ 2 * (round_even n u * u) + u)
round_even-near n u h = ground (arith, div-add-mod' n u, add-mul (n / u) 1 u, mod-lt n h)

le_of_near : (a k u : ℕ) → 0 < u → 2 * (a * u) ≤ 2 * (k * u) + u → a ≤ k
le_of_near a k u h l = elim (dec_le a k) [
  | yes p ↦ p
  | no n ↦ absurd (
      omega (
        arith,
        mul-le-mul_left {m = k + 1} {n = a} u (omega arith),
        mul_comm u (k + 1),
        mul_comm u a,
        add-mul k 1 u,
      ))
]

pub round_even-le : (n k u : ℕ) → 0 < u → n ≤ k * u → round_even n u ≤ k
round_even-le n k u h l =
    le_of_near (round_even n u) k u h (omega (arith, (round_even-near n u h).0))

either-le : (b : Bool) (x y m : ℕ) → x ≤ m → y ≤ m → (if b then x else y) ≤ m
either-le true x y m h k = h
either-le false x y m h k = k

-- A number below 2^64 stays below it when it is rounded to a multiple of a power of two.
rounded-le : (n k u : ℕ) → 0 < u → n ≤ k * u → round_even n u * u ≤ k * u
rounded-le n k u h l = omega (
  arith,
  mul-le-mul_left {m = round_even n u} {n = k} u (round_even-le n k u h l),
  mul_comm u k,
  mul_comm u (round_even n u),
)

pub to_double-le : (n : ℕ) → n < 2 ^ 64 → to_double n ≤ 2 ^ 64
unfolding to_double
to_double-le n h = either-le (ltb n (2 ^ 53)) n _ (2 ^ 64) (omega arith) (
    either-le (ltb n (2 ^ 54)) _ _ (2 ^ 64) (rounded-le n (2 ^ 63) 2 (omega arith) (omega arith)) (
      either-le (ltb n (2 ^ 55)) _ _ (2 ^ 64) (rounded-le n (2 ^ 62) 4 (omega arith) (omega arith))
        (either-le (ltb n (2 ^ 56)) _ _ (2 ^ 64)
          (rounded-le n (2 ^ 61) 8 (omega arith) (omega arith))
          (either-le (ltb n (2 ^ 57)) _ _ (2 ^ 64)
            (rounded-le n (2 ^ 60) 16 (omega arith) (omega arith))
            (either-le (ltb n (2 ^ 58)) _ _ (2 ^ 64)
              (rounded-le n (2 ^ 59) 32 (omega arith) (omega arith))
              (either-le (ltb n (2 ^ 59)) _ _ (2 ^ 64)
                (rounded-le n (2 ^ 58) 64 (omega arith) (omega arith))
                (either-le (ltb n (2 ^ 60)) _ _ (2 ^ 64)
                  (rounded-le n (2 ^ 57) 128 (omega arith) (omega arith))
                  (either-le (ltb n (2 ^ 61)) _ _ (2 ^ 64)
                    (rounded-le n (2 ^ 56) 256 (omega arith) (omega arith))
                    (either-le (ltb n (2 ^ 62)) _ _ (2 ^ 64)
                      (rounded-le n (2 ^ 55) 512 (omega arith) (omega arith))
                      (either-le (ltb n (2 ^ 63)) _ _ (2 ^ 64)
                        (rounded-le n (2 ^ 54) 1024 (omega arith) (omega arith))
                        (rounded-le n (2 ^ 53) 2048 (omega arith) (omega arith))))))))))))

pub to_double_exact : (n : ℕ) → n < 2 ^ 53 → to_double n ≡ n
unfolding to_double
to_double_exact n h = rw (lt→ltb n (2 ^ 53) h) refl
