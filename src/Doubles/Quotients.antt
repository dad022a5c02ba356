-- ===== src/Doubles/Quotients.antt =====
-- Where the truncated quotient of two doubles is the quotient of numbers.
use sync_files.Base.{
  ℕ, zero, suc, ◌+◌, ◌-◌, ◌*◌, ◌/◌, ◌^◌, ◌≤◌, ◌<◌, ◌≡◌, ◌∙◌, sym, ap, subst, arith, Bool-cases, inl,
  inr, ltb, dec_le,
}
use native.Mathlib.Nat.{
  div-add-mod', mod-lt, div-eq_of_lt-le, mul_assoc, mul_comm, add-mul, pow-suc,
}
use sync_files.Doubles.{round_even, to_double, scaled, trunc_quotient}
use sync_files.Doubles.Rounding.{round_even-near, to_double_exact}

swap_last : (q p u : ℕ) → q * p * u ≡ q * u * p
swap_last q p u = mul_assoc q p u ∙ ap (λ x. q * x) (mul_comm p u) ∙ sym (mul_assoc q u p)

mono : (a b p : ℕ) → a ≤ b → a * p ≤ b * p
mono a b p h = grind arith

not_below : (R n u p q : ℕ) → 0 < u → q * u ≤ n → 2 * (n * p) ≤ 2 * (R * u) + u → q * p ≤ R
not_below R n u p q h l m = elim (dec_le (q * p) R) [
  | yes k ↦ k
  | no k ↦ absurd (
      omega (
        arith,
        mono (R + 1) (q * p) u (omega arith),
        add-mul R 1 u,
        swap_last q p u,
        mono (q * u) n p l,
      ))
]

not_above :
    (R n u p q : ℕ)
    → n + 1 ≤ (q + 1) * u
    → u < 2 * p
    → 2 * (R * u) ≤ 2 * (n * p) + u
    → R < (q + 1) * p
not_above R n u p q l k m = elim (dec_le ((q + 1) * p) R) [
  | no h ↦ omega arith
  | yes h ↦ absurd (
      omega (
        arith,
        mono ((q + 1) * p) R u h,
        swap_last (q + 1) p u,
        mono (n + 1) ((q + 1) * u) p l,
        add-mul n 1 p,
      ))
]

-- A quotient that is rounded to a fraction with a step smaller than its own is not rounded up.
round_even-scaled : (n u p : ℕ) → 0 < u → u < 2 * p → round_even (n * p) u / p ≡ n / u
round_even-scaled n u p h k =
    let near = round_even-near (n * p) u h in
    let whole = div-add-mod' n u in
    let rest = mod-lt n h in
    div-eq_of_lt-le p (not_below (round_even (n * p) u) n u p (n / u) h (omega arith) near.1)
      (not_above (round_even (n * p) u) n u p (n / u) (omega (arith, add-mul (n / u) 1 u)) k near.0)

twice : (n p : ℕ) → n * (2 * p) ≡ 2 * (n * p)
twice n p = grind arith

regroup : (fuel p : ℕ) → 2 ^ suc fuel * (2 * p) ≡ 2 ^ fuel * (2 * (2 * p))
regroup fuel p = ap (λ x. x * (2 * p)) (pow-suc 2 fuel) ∙ mul_assoc (2 ^ fuel) 2 (2 * p)

-- A quotient of 53 bits has steps smaller than those of a dividend of 53 bits.
fine : (d n u p : ℕ) → 0 < u → d ≡ n * p → n < 2 ^ 53 → 2 ^ 52 ≤ d / u → u < 2 * p
fine d n u p h e k l = elim (dec_le (2 * p) u) [
  | no m ↦ omega arith
  | yes m ↦ absurd (
      omega
        (arith, div-add-mod' d u, mono (2 ^ 52) (d / u) u l, mono n (2 ^ 53 - 1) p (omega arith)))
]

scaled-quotient :
    (fuel n d u p : ℕ)
    → 0 < u
    → d ≡ n * p
    → n < 2 ^ 53
    → u < 2 ^ fuel * (2 * p)
    → scaled fuel d u p ≡ n / u
scaled-quotient zero n d u p h e k l = rw e (round_even-scaled n u p h (omega arith))
scaled-quotient (suc fuel) n d u p h e k l = elim (Bool-cases (ltb (d / u) (2 ^ 52))) [
  | inl b ↦ rw b (
      scaled-quotient fuel n (2 * d) u (2 * p) h (omega (arith, e, twice n p)) k
        (subst (λ x. u < x) (regroup fuel p) l))
  | inr b ↦ rw (b, e) (round_even-scaled n u p h (fine d n u p h e k (ground arith)))
]

pub trunc_quotient_exact : (n u : ℕ) → 0 < u → n < 2 ^ 53 → u < 2 ^ 53 → trunc_quotient n u ≡ n / u
unfolding trunc_quotient
trunc_quotient_exact n u h k l =
    scaled-quotient 53 n (to_double n) u 1 h (to_double_exact n k ∙ omega arith) k (omega arith)
