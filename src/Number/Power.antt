-- ===== src/Number/Power.antt =====
-- `numeric::int_pow`. `F` is `numeric_float`, whose operations are a parameter.
pub mod Exact
use covscript.Prelude.{
  ℕ, zero, suc, ◌+◌, ◌*◌, ◌/◌, ◌%◌, Bool, true, false, Option, none, some, Result, ok, err,
  out_of_fuel, ◌>>=◌, ◌==◌, if◌then◌else◌,
}
use covscript.Number.Integer.{ℤ, pos, negsuc, ◌*ℤ◌, ltb_ℤ, eq_ℤ, wrap}
use covscript.Number.Overflow.{would_overflow}

-- `numeric`: its tag says which member of the union holds the number.
pub data Numeric (F : Type 0) : Type 0 where
  float : F → Numeric F
  integer : ℤ → Numeric F

-- Floating-point arithmetic, conversion and the functions of <cmath> that the class calls. The
-- cast to an integer is asked only within its range.
pub record FloatOps (F : Type 0) : Type 0 where
  pub of_integer : ℤ → F
  pub to_integer : F → ℤ
  pub plus : F → F → F
  pub subtract : F → F → F
  pub times : F → F → F
  pub over : F → F → F
  pub fmod : F → F → F
  pub pow : F → F → F
  pub negate : F → F
  pub less : F → F → Bool
  pub equal : F → F → Bool
  pub infinity : F

-- The end of a round: the last square, which nothing would use, is left out.
unfoldable pub pow_square : (ℤ → ℤ → Result (Option ℤ)) → ℤ → ℕ → ℤ → Result (Option ℤ)
unfolding would_overflow ◌*ℤ◌ wrap
pow_square again base exp result =
    if exp == 0
    then ok (some result)
    else if would_overflow base base
    then ok none
    else again result (wrap (base *ℤ base))

-- The loop of `int_pow`; `none` is its fallback to floating point. A round halves `exp`.
unfoldable pub pow_loop : ℕ → ℤ → ℤ → ℕ → Result (Option ℤ)
unfolding pow_square would_overflow ◌*ℤ◌ wrap
pow_loop zero result base exp = if exp == 0 then ok (some result) else err out_of_fuel
pow_loop (suc fuel) result base exp =
    let again = λ (r b : ℤ). pow_loop fuel r b (exp / 2) in
    if exp == 0
    then ok (some result)
    else if exp % 2 == 1
    then if would_overflow result base
      then ok none
      else pow_square again base (exp / 2) (wrap (result *ℤ base))
    else pow_square again base (exp / 2) result

-- A negative exponent is `negsuc n`.
unfoldable pub int_pow : {F : Type 0} → FloatOps F → ℕ → ℤ → ℤ → Result (Numeric F)
unfolding pow_loop eq_ℤ
int_pow ops fuel base (negsuc n) =
    if eq_ℤ base (pos 0)
    then ok (float ops.infinity)
    else ok (float (ops.pow (ops.of_integer base) (ops.of_integer (negsuc n))))
int_pow ops fuel base (pos zero) = ok (integer (pos 1))
int_pow ops fuel base (pos (suc n)) =
    let exp = suc n in
    let looped = pow_loop fuel (pos 1) base exp in
    if eq_ℤ base (pos 0)
    then ok (integer (pos 0))
    else if eq_ℤ base (pos 1)
    then ok (integer (pos 1))
    else if eq_ℤ base (negsuc 0)
    then ok (integer (if exp % 2 == 1 then negsuc 0 else pos 1))
    else looped >>= λ result. elim result [
      | some r ↦ ok (integer r)
      | none ↦ ok (float (ops.pow (ops.of_integer base) (ops.of_integer (pos exp))))
    ]
