-- ===== src/Number/Comparison.antt =====
-- The six comparisons of two numbers agree with each other, an integer against a float and NaN included.
use covscript.Prelude.{not, ◌||◌, ◌≡◌, refl, sym, ap, ◌∙◌, arith}
use covscript.Number.Integer.{ℤ, ltb_ℤ, eq_ℤ}
use covscript.Number.Power.{Numeric, float, integer, FloatOps}
use covscript.Number.Order.{
  Order, before, same, after, unordered, opposite, compare_less, compare_less_equal, compare_equal,
  compare_greater, compare_greater_equal, compare_int_float, compare_float_int,
}
use covscript.Number.Numeric.{less, less_equal, greater, greater_equal, equal_num, not_equal}

opposite-less : (c : Order) → compare_less (opposite c) ≡ compare_greater c
opposite-less before = refl
opposite-less same = refl
opposite-less after = refl
opposite-less unordered = refl

opposite-greater : (c : Order) → compare_greater (opposite c) ≡ compare_less c
opposite-greater before = refl
opposite-greater same = refl
opposite-greater after = refl
opposite-greater unordered = refl

less_equal-or : (c : Order) → compare_less_equal c ≡ (compare_less c || compare_equal c)
less_equal-or before = refl
less_equal-or same = refl
less_equal-or after = refl
less_equal-or unordered = refl

greater_equal-or : (c : Order) → compare_greater_equal c ≡ (compare_greater c || compare_equal c)
greater_equal-or before = refl
greater_equal-or same = refl
greater_equal-or after = refl
greater_equal-or unordered = refl

opposite-equal : (c : Order) → compare_equal (opposite c) ≡ compare_equal c
opposite-equal before = refl
opposite-equal same = refl
opposite-equal after = refl
opposite-equal unordered = refl

integer-or : (a b : ℤ) → not (ltb_ℤ b a) ≡ (ltb_ℤ a b || eq_ℤ a b)
unfolding ltb_ℤ eq_ℤ
integer-or a b = ground arith

eq_ℤ_sym : (a b : ℤ) → eq_ℤ a b ≡ eq_ℤ b a
unfolding eq_ℤ
eq_ℤ_sym a b = ground arith

module _ {F : Type 0} (ops : FloatOps F) where
  greater-less : (a b : Numeric F) → greater ops a b ≡ less ops b a
  unfolding greater less compare_float_int
  greater-less (float a) (float b) = refl
  greater-less (float a) (integer b) = opposite-greater (compare_int_float ops b a)
  greater-less (integer a) (float b) = sym (opposite-less (compare_int_float ops a b))
  greater-less (integer a) (integer b) = refl

  less_equal-less : (a b : Numeric F) → less_equal ops a b ≡ (less ops a b || equal_num ops a b)
  unfolding less_equal less equal_num
  less_equal-less (float a) (float b) = refl
  less_equal-less (float a) (integer b) = less_equal-or (compare_float_int ops a b)
  less_equal-less (integer a) (float b) = less_equal-or (compare_int_float ops a b)
  less_equal-less (integer a) (integer b) = integer-or a b

  not_equal-equal_num : (a b : Numeric F) → not_equal ops a b ≡ not (equal_num ops a b)
  unfolding not_equal equal_num
  not_equal-equal_num (float a) (float b) = refl
  not_equal-equal_num (float a) (integer b) = refl
  not_equal-equal_num (integer a) (float b) = refl
  not_equal-equal_num (integer a) (integer b) = refl

  module _ (equal_sym : (f g : F) → ops.equal f g ≡ ops.equal g f) where
    greater_equal-greater :
        (a b : Numeric F) → greater_equal ops a b ≡ (greater ops a b || equal_num ops a b)
    unfolding greater_equal greater equal_num
    greater_equal-greater (float a) (float b) = ap (λ e. ops.less b a || e) (equal_sym b a)
    greater_equal-greater (float a) (integer b) = greater_equal-or (compare_float_int ops a b)
    greater_equal-greater (integer a) (float b) = greater_equal-or (compare_int_float ops a b)
    greater_equal-greater (integer a) (integer b) =
        integer-or b a ∙ ap (λ e. ltb_ℤ b a || e) (eq_ℤ_sym b a)

    equal_num_sym : (a b : Numeric F) → equal_num ops a b ≡ equal_num ops b a
    unfolding equal_num compare_float_int
    equal_num_sym (float a) (float b) = equal_sym a b
    equal_num_sym (float a) (integer b) = opposite-equal (compare_int_float ops b a)
    equal_num_sym (integer a) (float b) = sym (opposite-equal (compare_int_float ops a b))
    equal_num_sym (integer a) (integer b) = eq_ℤ_sym a b

    -- If equality of floats is symmetric, the six comparisons of any two numbers agree: > is the
    -- converse of <, <= and >= are < and > or ==, == is symmetric and != is its negation.
    pub comparisons_agree :
        (a b : Numeric F)
        → (greater ops a b ≡ less ops b a)
          × (less_equal ops a b ≡ (less ops a b || equal_num ops a b))
          × (greater_equal ops a b ≡ (greater ops a b || equal_num ops a b))
          × (equal_num ops a b ≡ equal_num ops b a)
          × (not_equal ops a b ≡ not (equal_num ops a b))
    comparisons_agree a b = (
      greater-less a b,
      less_equal-less a b,
      greater_equal-greater a b,
      equal_num_sym a b,
      not_equal-equal_num a b,
    )
