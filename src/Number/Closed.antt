-- ===== src/Number/Closed.antt =====
-- What the operators return is a number again: an integer of 64 bits, or a float.
use covscript.Prelude.{
  zero, suc, ◌/◌, ◌%◌, Bool, true, false, Bool-cases, inl, inr, Option, none, some, Error, Result,
  ok, err, lang_error, if◌then◌else◌, ltb→lt, ◌≡◌, refl, arith,
}
use covscript.Number.Integer.{
  ℤ, pos, negsuc, magnitude, two_63, ◌+ℤ◌, ◌*ℤ◌, ◌/ℤ◌, ◌%ℤ◌, ◌^ℤ◌, neg_ℤ, eq_ℤ, fits, fits-wrap,
}
use native.Mathlib.Nat.{div-lt_iff_lt-mul, div-le_self, mod-le}
use covscript.Number.Overflow.{fits-minus}
use covscript.Number.Division.{is_extreme}
use covscript.Number.Power.{Numeric, float, integer, FloatOps}
use covscript.Number.Power.Exact.{int_pow-exact}
use covscript.Number.Numeric.{add, sub, mul, div, mod_num, pow_num, exponent_bits}

-- The binary operators.
pub data BinaryOperator : Type 0 where
  plus : BinaryOperator
  minus_of : BinaryOperator
  times : BinaryOperator
  over : BinaryOperator
  modulo : BinaryOperator
  power_of : BinaryOperator

fits-div :
    (a b : ℤ)
    → fits a ≡ true
    → eq_ℤ b (pos 0) ≡ false
    → is_extreme a b ≡ false
    → fits (a /ℤ b) ≡ true
unfolding fits ◌/ℤ◌ eq_ℤ
fits-div (pos m) (pos n) h not_0 usual = ground (arith, div-le_self m n)
fits-div (pos m) (negsuc n) h not_0 usual =
    rw (fits-minus (m / suc n)) (ground (arith, div-le_self m (suc n)))
fits-div (negsuc m) (pos n) h not_0 usual =
    rw (fits-minus (suc m / n)) (ground (arith, div-le_self (suc m) n))
fits-div (negsuc m) (negsuc zero) h not_0 usual = ground arith
fits-div (negsuc m) (negsuc (suc n)) h not_0 usual =
    ground (arith, div-lt_iff_lt-mul {k = suc (suc n)} {x = suc m} {y = two_63})

fits-mod : (a b : ℤ) → fits a ≡ true → fits (a %ℤ b) ≡ true
unfolding fits ◌%ℤ◌
fits-mod (pos m) b h = ground (arith, mod-le m (magnitude b))
fits-mod (negsuc m) b h =
    rw (fits-minus (suc m % magnitude b)) (ground (arith, mod-le (suc m) (magnitude b)))

module _ {F : Type 0} (ops : FloatOps F) where
  -- An integer has 64 bits.
  unfoldable pub is_valid : Numeric F → Bool
  unfolding fits
  is_valid (float a) = true
  is_valid (integer a) = fits a

  unfoldable pub apply : BinaryOperator → Numeric F → Numeric F → Result (Numeric F)
  unfolding add sub mul div mod_num pow_num
  apply plus a b = ok (add ops a b)
  apply minus_of a b = ok (sub ops a b)
  apply times a b = ok (mul ops a b)
  apply over a b = div ops a b
  apply modulo a b = mod_num ops a b
  apply power_of a b = pow_num ops a b

  -- `/` and `%` by the integer 0, whatever is divided.
  unfoldable pub zero_divisor : BinaryOperator → Numeric F → Numeric F → Option Error
  unfolding eq_ℤ
  zero_divisor over (integer a) (integer b) =
      if eq_ℤ b (pos 0) then some (lang_error "Integer division by zero") else none
  zero_divisor modulo (integer a) (integer b) =
      if eq_ℤ b (pos 0) then some (lang_error "Integer modulo by zero") else none
  zero_divisor o a b = none

  -- The error that is expected, or a valid number where none is.
  unfoldable pub IsAnswer : Option Error → Result (Numeric F) → Type 0
  unfolding is_valid
  IsAnswer none (ok c) = is_valid c ≡ true
  IsAnswer (some expected) (err e) = e ≡ expected
  IsAnswer none (err e) = true ≡ false
  IsAnswer (some expected) (ok c) = true ≡ false

  div-IsAnswer :
      (a b : ℤ)
      → fits a ≡ true
      → IsAnswer (zero_divisor over (integer a) (integer b)) (div ops (integer a) (integer b))
  unfolding IsAnswer div zero_divisor
  div-IsAnswer a b h = elim (Bool-cases (eq_ℤ b (pos 0))) [
    | inl at_0 ↦ rw at_0 refl
    | inr not_0 ↦ rw not_0 (elim (Bool-cases (is_extreme a b)) [
      | inl extreme ↦ rw extreme refl
      | inr usual ↦ rw usual (elim (Bool-cases (eq_ℤ (a %ℤ b) (pos 0))) [
        | inl divides ↦ rw divides (fits-div a b h not_0 usual)
        | inr other ↦ rw other refl
      ])
    ])
  ]

  mod_num-IsAnswer :
      (a b : ℤ)
      → fits a ≡ true
      → IsAnswer (zero_divisor modulo (integer a) (integer b)) (mod_num ops (integer a) (integer b))
  unfolding IsAnswer mod_num zero_divisor
  mod_num-IsAnswer a b h = elim (Bool-cases (eq_ℤ b (pos 0))) [
    | inl at_0 ↦ rw at_0 refl
    | inr not_0 ↦ rw not_0 (elim (Bool-cases (is_extreme a b)) [
      | inl extreme ↦ rw extreme refl
      | inr usual ↦ rw usual (fits-mod a b h)
    ])
  ]

  pow_num-IsAnswer :
      (a b : ℤ)
      → fits a ≡ true
      → fits b ≡ true
      → IsAnswer none (pow_num ops (integer a) (integer b))
  unfolding IsAnswer pow_num fits
  pow_num-IsAnswer a (pos n) h g =
      rw (int_pow-exact ops exponent_bits a n h (ltb→lt _ _ g)) (elim (Bool-cases (fits (a ^ℤ n))) [
        | inl in_range ↦ rw in_range in_range
        | inr out ↦ rw out refl
      ])
  pow_num-IsAnswer a (negsuc n) h g = elim (Bool-cases (eq_ℤ a (pos 0))) [
    | inl at_0 ↦ rw at_0 refl
    | inr not_0 ↦ rw not_0 refl
  ]

  -- An operator on two numbers whose integers have 64 bits returns such a number, except that / and % of
  -- two integers throw an error of their own, and do throw it, exactly where the divisor is 0.
  pub apply-IsAnswer :
      (o : BinaryOperator) (a b : Numeric F)
      → is_valid a ≡ true
      → is_valid b ≡ true
      → IsAnswer (zero_divisor o a b) (apply o a b)
  unfolding apply zero_divisor IsAnswer is_valid add sub mul div mod_num pow_num
  apply-IsAnswer plus (integer a) (integer b) h g = fits-wrap (a +ℤ b)
  apply-IsAnswer minus_of (integer a) (integer b) h g = fits-wrap (a +ℤ neg_ℤ b)
  apply-IsAnswer times (integer a) (integer b) h g = fits-wrap (a *ℤ b)
  apply-IsAnswer over (integer a) (integer b) h g = div-IsAnswer a b h
  apply-IsAnswer modulo (integer a) (integer b) h g = mod_num-IsAnswer a b h
  apply-IsAnswer power_of (integer a) (integer b) h g = pow_num-IsAnswer a b h g
  apply-IsAnswer plus (float a) (float b) h g = refl
  apply-IsAnswer plus (float a) (integer b) h g = refl
  apply-IsAnswer plus (integer a) (float b) h g = refl
  apply-IsAnswer minus_of (float a) (float b) h g = refl
  apply-IsAnswer minus_of (float a) (integer b) h g = refl
  apply-IsAnswer minus_of (integer a) (float b) h g = refl
  apply-IsAnswer times (float a) (float b) h g = refl
  apply-IsAnswer times (float a) (integer b) h g = refl
  apply-IsAnswer times (integer a) (float b) h g = refl
  apply-IsAnswer over (float a) (float b) h g = refl
  apply-IsAnswer over (float a) (integer b) h g = refl
  apply-IsAnswer over (integer a) (float b) h g = refl
  apply-IsAnswer modulo (float a) (float b) h g = refl
  apply-IsAnswer modulo (float a) (integer b) h g = refl
  apply-IsAnswer modulo (integer a) (float b) h g = refl
  apply-IsAnswer power_of (float a) (float b) h g = refl
  apply-IsAnswer power_of (float a) (integer b) h g = refl
  apply-IsAnswer power_of (integer a) (float b) h g = refl
