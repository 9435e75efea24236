-- ===== src/Tests/Numbers.antt =====
-- Numbers at the edge of 64 bits. Floats are whole numbers here.
use covscript.Prelude.{◌<◌, not, ◌||◌, some, lang_error, ok, ◌≡◌, ◌↔◌, refl, arith}
use covscript.Number.Integer.{
  ℤ, pos, negsuc, neg_ℤ, ◌+ℤ◌, ◌*ℤ◌, ◌/ℤ◌, ◌%ℤ◌, ◌^ℤ◌, ltb_ℤ, eq_ℤ, fits, magnitude,
}
use covscript.Number.Overflow.{would_overflow, would_overflow-fits, max_int, min_int}
use covscript.Number.Power.{integer, float, FloatOps, int_pow}
use covscript.Number.Power.Exact.{int_pow-exact}
use covscript.Number.Numeric.{
  div, mod_num, less, less_equal, greater, greater_equal, equal_num, not_equal,
}
use covscript.Number.Division.{div-exact, mod_num-remainder}
use covscript.Number.Comparison.{comparisons_agree}
use covscript.Number.Closed.{modulo, is_valid, zero_divisor, IsAnswer, apply, apply-IsAnswer}

abbrev whole_floats : FloatOps ℤ
unfolding ◌+ℤ◌ neg_ℤ ◌*ℤ◌ ◌/ℤ◌ ◌%ℤ◌ ltb_ℤ eq_ℤ
whole_floats = record {
  of_integer = λ i. i;
  to_integer = λ f. f;
  plus = λ a b. a +ℤ b;
  subtract = λ a b. a +ℤ neg_ℤ b;
  times = λ a b. a *ℤ b;
  over = λ a b. a /ℤ b;
  fmod = λ a b. a %ℤ b;
  pow = λ a b. a *ℤ b;
  negate = neg_ℤ;
  less = ltb_ℤ;
  equal = eq_ℤ;
  infinity = pos 0;
}

eq_ℤ_sym : (a b : ℤ) → eq_ℤ a b ≡ eq_ℤ b a
unfolding eq_ℤ
eq_ℤ_sym a b = ground arith

would_overflow-fits_example : would_overflow min_int (negsuc 0) ≡ not (fits (min_int *ℤ negsuc 0))
unfolding fits
would_overflow-fits_example = would_overflow-fits min_int (negsuc 0) refl refl

int_pow-exact_example : int_pow whole_floats 6 (negsuc 1) (pos 63) ≡ ok (integer min_int)
unfolding fits ◌^ℤ◌ ◌*ℤ◌
int_pow-exact_example = int_pow-exact whole_floats 6 (negsuc 1) 63 refl (omega arith)

div-exact_example :
    (div whole_floats (integer (negsuc 41)) (integer (pos 7)) ≡ ok (integer (negsuc 5)))
    ↔ (negsuc 5 *ℤ pos 7 ≡ negsuc 41)
unfolding fits eq_ℤ
div-exact_example = div-exact whole_floats (negsuc 41) (pos 7) (negsuc 5) refl refl

mod_num-remainder_example :
    (r : ℤ) × (mod_num whole_floats (integer min_int) (integer (negsuc 0)) ≡ ok (integer r))
    × (min_int /ℤ negsuc 0 *ℤ negsuc 0 +ℤ r ≡ min_int)
    × (magnitude r < 1)
unfolding eq_ℤ
mod_num-remainder_example = mod_num-remainder whole_floats min_int (negsuc 0) refl

comparisons_agree_example :
    (greater whole_floats (integer max_int) (float (pos 3))
      ≡ less whole_floats (float (pos 3)) (integer max_int))
    × (less_equal whole_floats (integer max_int) (float (pos 3)) ≡ (
        less whole_floats (integer max_int) (float (pos 3))
        || equal_num whole_floats (integer max_int) (float (pos 3))))
    × (greater_equal whole_floats (integer max_int) (float (pos 3)) ≡ (
        greater whole_floats (integer max_int) (float (pos 3))
        || equal_num whole_floats (integer max_int) (float (pos 3))))
    × (equal_num whole_floats (integer max_int) (float (pos 3))
        ≡ equal_num whole_floats (float (pos 3)) (integer max_int))
    × (not_equal whole_floats (integer max_int) (float (pos 3))
        ≡ not (equal_num whole_floats (integer max_int) (float (pos 3))))
unfolding whole_floats eq_ℤ
comparisons_agree_example =
    comparisons_agree whole_floats eq_ℤ_sym (integer max_int) (float (pos 3))

apply-IsAnswer_example :
    IsAnswer whole_floats
      (some (lang_error "Integer modulo by zero"))
      (apply whole_floats modulo (integer (pos 7)) (integer (pos 0)))
unfolding fits is_valid zero_divisor
apply-IsAnswer_example =
    apply-IsAnswer whole_floats modulo (integer (pos 7)) (integer (pos 0)) refl refl
