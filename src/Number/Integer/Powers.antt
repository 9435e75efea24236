-- ===== src/Number/Integer/Powers.antt =====
-- Laws of the powers of an integer: halved exponents, and the bases 0, 1 and -1.
use covscript.Prelude.{
  ℕ, zero, suc, ◌+◌, ◌/◌, ◌%◌, ◌≤◌, true, false, Bool-cases, inl, inr, ◌==◌, ==_iff, if◌then◌else◌,
  ◌≡◌, refl, sym, ap, ◌∙◌, arith,
}
use native.Mathlib.Nat.{mul-le-mul}
use covscript.Number.Integer.{ℤ, pos, negsuc, magnitude, ◌*ℤ◌, ◌^ℤ◌, magnitude-*ℤ, *ℤ_one, *ℤ_assoc}

add_suc : (k : ℕ) → suc k + suc k ≡ suc (suc (k + k))
add_suc k = omega arith

pow_twice : (b : ℤ) (k : ℕ) → b ^ℤ (k + k) ≡ (b *ℤ b) ^ℤ k
unfolding ◌^ℤ◌
pow_twice b zero = refl
pow_twice b (suc k) = rw (add_suc k, pow_twice b k) (sym (*ℤ_assoc b b ((b *ℤ b) ^ℤ k)))

odd_half : (n : ℕ) → (n % 2 == 1) ≡ true → n ≡ suc (n / 2 + n / 2)
odd_half n h = ground (arith, ==_iff (n % 2) 1, h)

even_half : (n : ℕ) → (n % 2 == 1) ≡ false → n ≡ n / 2 + n / 2
even_half n h = ground (arith, ==_iff (n % 2) 1, h)

-- One step of the exponent.
pub pow-odd : (b : ℤ) (n : ℕ) → (n % 2 == 1) ≡ true → b ^ℤ n ≡ b *ℤ (b *ℤ b) ^ℤ (n / 2)
unfolding ◌^ℤ◌
pow-odd b n h = ap (λ m. b ^ℤ m) (odd_half n h) ∙ ap (λ x. b *ℤ x) (pow_twice b (n / 2))

pub pow-even : (b : ℤ) (n : ℕ) → (n % 2 == 1) ≡ false → b ^ℤ n ≡ (b *ℤ b) ^ℤ (n / 2)
pow-even b n h = ap (λ m. b ^ℤ m) (even_half n h) ∙ pow_twice b (n / 2)

pub pow-magnitude : (b : ℤ) (n : ℕ) → 1 ≤ magnitude b → 1 ≤ magnitude (b ^ℤ n)
unfolding ◌^ℤ◌
pow-magnitude b zero h = omega arith
pow-magnitude b (suc n) h =
    rw (magnitude-*ℤ b (b ^ℤ n)) (mul-le-mul {n₁ = 1} {m₁ = 1} h (pow-magnitude b n h))

pub one_*ℤ : (z : ℤ) → pos 1 *ℤ z ≡ z
unfolding ◌*ℤ◌
one_*ℤ (pos n) = ground arith
one_*ℤ (negsuc n) = ground arith

pub one_pow : (n : ℕ) → pos 1 ^ℤ n ≡ pos 1
unfolding ◌^ℤ◌
one_pow zero = refl
one_pow (suc n) = one_*ℤ (pos 1 ^ℤ n) ∙ one_pow n

square_one : negsuc 0 *ℤ negsuc 0 ≡ pos 1
unfolding ◌*ℤ◌
square_one = refl

pub minus_one_pow : (n : ℕ) → negsuc 0 ^ℤ n ≡ (if n % 2 == 1 then negsuc 0 else pos 1)
minus_one_pow n = elim (Bool-cases (n % 2 == 1)) [
  | inl odd ↦ rw (odd, pow-odd (negsuc 0) n odd, square_one, one_pow (n / 2)) (*ℤ_one (negsuc 0))
  | inr even ↦ rw (even, pow-even (negsuc 0) n even, square_one) (one_pow (n / 2))
]

pub zero_power : (n : ℕ) → pos 0 ^ℤ suc n ≡ pos 0
unfolding ◌^ℤ◌ ◌*ℤ◌
zero_power n = ground arith
