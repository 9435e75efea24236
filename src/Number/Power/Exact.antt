-- ===== src/Number/Power/Exact.antt =====
-- `int_pow` is exact: its result is an integer exactly if the power fits into 64 bits.
use covscript.Prelude.{
  ℕ, zero, suc, ◌*◌, ◌/◌, ◌%◌, ◌^◌, ◌<◌, ◌≤◌, true, false, Option, none, some, Result, ok,
  Bool-cases, inl, inr, ◌⊎◌, leb, leb→le, ◌==◌, if◌then◌else◌, ◌≡◌, ◌≢◌, refl, sym, arith,
}
use native.Mathlib.Nat.{mul-le-mul, pow-suc}
use covscript.Number.Integer.{
  ℤ, pos, negsuc, magnitude, two_63, ◌*ℤ◌, ◌^ℤ◌, fits, wrap-fits, magnitude-*ℤ, *ℤ_one, *ℤ_assoc,
  eq_ℤ,
}
use covscript.Number.Integer.Powers.{
  pow-odd, pow-even, pow-magnitude, one_*ℤ, one_pow, minus_one_pow, zero_power,
}
use covscript.Number.Overflow.{would_overflow-fits}
use covscript.Number.Power.{Numeric, float, integer, FloatOps, pow_square, pow_loop, int_pow}

out_lem : (z : ℤ) → two_63 < magnitude z → fits z ≡ false
unfolding fits
out_lem z h = ground arith

out_le : (z : ℤ) → fits z ≡ false → two_63 ≤ magnitude z
unfolding fits
out_le z h = ground arith

-- No integer has the square 2 ^ 63.
square_lem : (m : ℕ) → m * m ≢ two_63
square_lem m h = elim (Bool-cases (leb m 3037000499)) [
  | inl le ↦ absurd (
      ground (
        arith,
        le,
        h,
        mul-le-mul {n₁ = m} {m₁ = m} {n₂ = 3037000499} {m₂ = 3037000499} (leb→le m 3037000499 le)
            (leb→le m 3037000499 le),
      ))
  | inr gt ↦ absurd (
      ground (
        arith,
        gt,
        h,
        mul-le-mul {n₁ = 3037000500} {m₁ = 3037000500} {n₂ = m} {m₂ = m} (ground arith)
            (ground arith),
      ))
]

-- What the loop returns for a product.
abbrev exact : ℤ → Option ℤ
exact z = if fits z then some z else none

above_bound : (m n : ℕ) → two_63 ≤ m → 4 ≤ n → two_63 < m * n
above_bound m n h g = ground (arith, mul-le-mul {n₁ = two_63} {m₁ = 4} h g)

not_zero : (k : ℕ) → (suc k == 0) ≡ false
not_zero k = ground arith

module _ (b : ℤ) (large : 2 ≤ magnitude b) where
  square-magnitude : 4 ≤ magnitude (b *ℤ b)
  square-magnitude = rw (magnitude-*ℤ b b) (mul-le-mul {n₁ = 2} {m₁ = 2} large large)

  power-magnitude : (k : ℕ) → 4 ≤ magnitude ((b *ℤ b) ^ℤ suc k)
  unfolding ◌^ℤ◌
  power-magnitude k = rw (magnitude-*ℤ (b *ℤ b) ((b *ℤ b) ^ℤ k)) (
      mul-le-mul {n₁ = 4} {m₁ = 1} square-magnitude
        (pow-magnitude (b *ℤ b) k (omega (arith, square-magnitude))))

  out_stays : (z : ℤ) (k : ℕ) → fits z ≡ false → fits (z *ℤ (b *ℤ b) ^ℤ k) ≡ false
  unfolding ◌^ℤ◌
  out_stays z zero h = rw (*ℤ_one z) h
  out_stays z (suc k) h = out_lem _ (
      rw (magnitude-*ℤ z ((b *ℤ b) ^ℤ suc k))
        (above_bound (magnitude z) _ (out_le z h) (power-magnitude k)))

  square_above : fits (b *ℤ b) ≡ false → two_63 < magnitude (b *ℤ b)
  square_above g = ground (arith, out_le (b *ℤ b) g, square_lem (magnitude b), magnitude-*ℤ b b)

  square_out :
      (r : ℤ) (k : ℕ)
      → 1 ≤ magnitude r
      → fits (b *ℤ b) ≡ false
      → fits (r *ℤ (b *ℤ b) ^ℤ suc k) ≡ false
  unfolding ◌^ℤ◌
  square_out r k h g = out_lem _ (
      rw (magnitude-*ℤ r ((b *ℤ b) ^ℤ suc k), magnitude-*ℤ (b *ℤ b) ((b *ℤ b) ^ℤ k))
        (mul-le-mul {n₁ = 1} {m₁ = suc two_63} h (
          mul-le-mul {n₁ = suc two_63} {m₁ = 1} (square_above g)
            (pow-magnitude (b *ℤ b) k (omega (arith, square-magnitude))))))

  pow_square-exact :
      (again : ℤ → ℤ → Result (Option ℤ)) (r : ℤ) (k : ℕ)
      → fits b ≡ true
      → fits r ≡ true
      → 1 ≤ magnitude r
      → (fits (b *ℤ b) ≡ true → again r (b *ℤ b) ≡ ok (exact (r *ℤ (b *ℤ b) ^ℤ k)))
      → pow_square again b k r ≡ ok (exact (r *ℤ (b *ℤ b) ^ℤ k))
  unfolding pow_square ◌^ℤ◌
  pow_square-exact again r zero b_fits r_fits h next = rw (*ℤ_one r, r_fits) refl
  pow_square-exact again r (suc k) b_fits r_fits h next = elim (Bool-cases (fits (b *ℤ b))) [
    | inl in_range ↦
        rw
          (not_zero k, would_overflow-fits b b b_fits b_fits, in_range, wrap-fits (b *ℤ b) in_range)
          (next in_range)
    | inr out ↦
        rw (not_zero k, would_overflow-fits b b b_fits b_fits, out, square_out r k h out) refl
  ]

larger : (r b : ℤ) → 1 ≤ magnitude r → 2 ≤ magnitude b → 1 ≤ magnitude (r *ℤ b)
larger r b h g = rw (magnitude-*ℤ r b) (mul-le-mul {n₁ = 1} {m₁ = 1} h (omega (arith, g)))

half_bound : (n f : ℕ) → n < 2 ^ suc f → n / 2 < 2 ^ f
half_bound n f h = ground (arith, h, pow-suc 2 f)

pow_loop-exact :
    (fuel exp : ℕ) (result base : ℤ)
    → exp < 2 ^ fuel
    → fits result ≡ true
    → fits base ≡ true
    → 2 ≤ magnitude base
    → 1 ≤ magnitude result
    → pow_loop fuel result base exp ≡ ok (exact (result *ℤ base ^ℤ exp))
unfolding pow_loop ◌^ℤ◌
pow_loop-exact zero zero result base bound r_fits b_fits large h = rw (*ℤ_one result, r_fits) refl
pow_loop-exact zero (suc exp) result base bound r_fits b_fits large h = absurd (omega arith)
pow_loop-exact (suc fuel) zero result base bound r_fits b_fits large h =
    rw (*ℤ_one result, r_fits) refl
pow_loop-exact (suc fuel) (suc exp) result base bound r_fits b_fits large h =
    elim (Bool-cases (suc exp % 2 == 1)) [
      | inl odd ↦
          rw
            (
              not_zero exp,
              odd,
              would_overflow-fits result base r_fits b_fits,
              pow-odd base (suc exp) odd,
              sym (*ℤ_assoc result base ((base *ℤ base) ^ℤ (suc exp / 2))),
            )
            (elim (Bool-cases (fits (result *ℤ base))) [
              | inl in_range ↦
                  rw (in_range, wrap-fits (result *ℤ base) in_range)
                    (pow_square-exact base large (λ r b. pow_loop fuel r b (suc exp / 2))
                      (result *ℤ base) (suc exp / 2) b_fits in_range (larger result base h large)
                      (λ squared.
                        pow_loop-exact fuel (suc exp / 2) (result *ℤ base) (base *ℤ base)
                          (half_bound (suc exp) fuel bound) in_range squared
                          (omega (arith, square-magnitude base large))
                          (larger result base h large)))
              | inr out ↦ rw (out, out_stays base large (result *ℤ base) (suc exp / 2) out) refl
            ])
      | inr even ↦
          rw (not_zero exp, even, pow-even base (suc exp) even)
            (pow_square-exact base large (λ r b. pow_loop fuel r b (suc exp / 2)) result
              (suc exp / 2) b_fits r_fits h
              (λ squared.
                pow_loop-exact fuel (suc exp / 2) result (base *ℤ base)
                  (half_bound (suc exp) fuel bound) r_fits squared
                  (omega (arith, square-magnitude base large)) h))
    ]

at_least_two :
    (base : ℤ)
    → eq_ℤ base (pos 0) ≡ false
    → eq_ℤ base (pos 1) ≡ false
    → eq_ℤ base (negsuc 0) ≡ false
    → 2 ≤ magnitude base
unfolding eq_ℤ
at_least_two base h g f = ground arith

one_fits : fits (pos 1) ≡ true
unfolding fits
one_fits = refl

-- The exponent 0 aside.
power_cases :
    (base : ℤ)
    → (base ≡ pos 0)
      ⊎ (base ≡ pos 1)
      ⊎ (base ≡ negsuc 0)
      ⊎ ((eq_ℤ base (pos 0) ≡ false) × (eq_ℤ base (pos 1) ≡ false) × (eq_ℤ base (negsuc 0) ≡ false))
unfolding eq_ℤ
power_cases (pos zero) = inl refl
power_cases (pos (suc zero)) = inr (inl refl)
power_cases (pos (suc (suc n))) = inr (inr (inr (ground arith, ground arith, refl)))
power_cases (negsuc zero) = inr (inr (inl refl))
power_cases (negsuc (suc n)) = inr (inr (inr (refl, refl, ground arith)))

module _ {F : Type 0} (ops : FloatOps F) where
  -- The float that the function falls back to.
  abbrev power : ℤ → ℕ → Numeric F
  power base n =
      if fits (base ^ℤ n)
      then integer (base ^ℤ n)
      else float (ops.pow (ops.of_integer base) (ops.of_integer (pos n)))

  loop-power :
      (fuel : ℕ) (base : ℤ) (n : ℕ)
      → eq_ℤ base (pos 0) ≡ false
      → eq_ℤ base (pos 1) ≡ false
      → eq_ℤ base (negsuc 0) ≡ false
      → fits base ≡ true
      → suc n < 2 ^ fuel
      → int_pow ops fuel base (pos (suc n)) ≡ ok (power base (suc n))
  unfolding int_pow ◌^ℤ◌
  loop-power fuel base n not_0 not_1 not_minus_1 h bound =
      rw
        (
          not_0,
          not_1,
          not_minus_1,
          pow_loop-exact fuel (suc n) (pos 1) base bound one_fits h
              (at_least_two base not_0 not_1 not_minus_1) (omega arith),
          one_*ℤ (base ^ℤ suc n),
        )
        (elim (Bool-cases (fits (base *ℤ base ^ℤ n))) [
          | inl in_range ↦ rw in_range refl
          | inr out ↦ rw out refl
        ])

  zero-int_pow : (fuel n : ℕ) → int_pow ops fuel (pos 0) (pos (suc n)) ≡ ok (power (pos 0) (suc n))
  unfolding int_pow eq_ℤ fits
  zero-int_pow fuel n = rw (zero_power n) refl

  one-int_pow : (fuel n : ℕ) → int_pow ops fuel (pos 1) (pos (suc n)) ≡ ok (power (pos 1) (suc n))
  unfolding int_pow eq_ℤ fits
  one-int_pow fuel n = rw (one_pow (suc n)) refl

  minus_one-int_pow :
      (fuel n : ℕ) → int_pow ops fuel (negsuc 0) (pos (suc n)) ≡ ok (power (negsuc 0) (suc n))
  unfolding int_pow eq_ℤ fits
  minus_one-int_pow fuel n =
      rw (minus_one_pow (suc n))
        (elim (Bool-cases (suc n % 2 == 1)) [ inl odd ↦ rw odd refl | inr even ↦ rw even refl ])

  no_power : (fuel : ℕ) (base : ℤ) → int_pow ops fuel base (pos 0) ≡ ok (power base 0)
  unfolding int_pow ◌^ℤ◌ fits
  no_power fuel base = refl

  -- For a base of 64 bits and an exponent of fewer bits than the fuel, the result is the exact power as an
  -- integer if that fits into 64 bits, and else the float that `pow` returns.
  pub int_pow-exact :
      (fuel : ℕ) (base : ℤ) (n : ℕ)
      → fits base ≡ true
      → n < 2 ^ fuel
      → int_pow ops fuel base (pos n) ≡ ok (power base n)
  int_pow-exact fuel base zero h bound = no_power fuel base
  int_pow-exact fuel base (suc n) h bound = elim (power_cases base) [
    | inl at_0 ↦ rw at_0 (zero-int_pow fuel n)
    | inr (inl at_1) ↦ rw at_1 (one-int_pow fuel n)
    | inr (inr (inl at_minus_1)) ↦ rw at_minus_1 (minus_one-int_pow fuel n)
    | inr (inr (inr (not_0, not_1, not_minus_1))) ↦
        loop-power fuel base n not_0 not_1 not_minus_1 h bound
  ]
