-- ===== src/Number/Numeric.antt =====
-- The operators of `numeric`: include/covscript/core/components.hpp, on two numbers and on one.
-- The same operators on a number and a C++ value follow C++ and are not modelled.
use covscript.Prelude.{ℕ, Bool, true, false, not, ◌&&◌, Result, ok, err, lang_error, if◌then◌else◌}
use covscript.Number.Integer.{ℤ, pos, negsuc, neg_ℤ, ◌+ℤ◌, ◌*ℤ◌, ◌/ℤ◌, ◌%ℤ◌, ltb_ℤ, eq_ℤ, wrap}
use covscript.Number.Overflow.{min_int, max_int}
use covscript.Number.Power.{Numeric, float, integer, FloatOps, int_pow}
use covscript.Number.Order.{
  compare_less, compare_less_equal, compare_equal, compare_greater, compare_greater_equal, is_nan,
  less_equal_float, compare_int_float, compare_float_int,
}

-- The exponent has 63 bits, and a round of `int_pow` takes one.
abbrev pub exponent_bits : ℕ
exponent_bits = 63

module _ {F : Type 0} (ops : FloatOps F) where
  unfoldable pub add : Numeric F → Numeric F → Numeric F
  unfolding ◌+ℤ◌ wrap
  add (float a) (float b) = float (ops.plus a b)
  add (float a) (integer b) = float (ops.plus a (ops.of_integer b))
  add (integer a) (float b) = float (ops.plus (ops.of_integer a) b)
  add (integer a) (integer b) = integer (wrap (a +ℤ b))

  unfoldable pub sub : Numeric F → Numeric F → Numeric F
  unfolding ◌+ℤ◌ neg_ℤ wrap
  sub (float a) (float b) = float (ops.subtract a b)
  sub (float a) (integer b) = float (ops.subtract a (ops.of_integer b))
  sub (integer a) (float b) = float (ops.subtract (ops.of_integer a) b)
  sub (integer a) (integer b) = integer (wrap (a +ℤ neg_ℤ b))

  unfoldable pub mul : Numeric F → Numeric F → Numeric F
  unfolding ◌*ℤ◌ wrap
  mul (float a) (float b) = float (ops.times a b)
  mul (float a) (integer b) = float (ops.times a (ops.of_integer b))
  mul (integer a) (float b) = float (ops.times (ops.of_integer a) b)
  mul (integer a) (integer b) = integer (wrap (a *ℤ b))

  -- `lldiv` gives the quotient and the remainder.
  unfoldable pub div : Numeric F → Numeric F → Result (Numeric F)
  unfolding ◌/ℤ◌ ◌%ℤ◌ eq_ℤ
  div (float a) (float b) = ok (float (ops.over a b))
  div (float a) (integer b) = ok (float (ops.over a (ops.of_integer b)))
  div (integer a) (float b) = ok (float (ops.over (ops.of_integer a) b))
  div (integer a) (integer b) =
      let quotient = float (ops.over (ops.of_integer a) (ops.of_integer b)) in
      if eq_ℤ b (pos 0)
      then err (lang_error "Integer division by zero")
      else if eq_ℤ a min_int && eq_ℤ b (negsuc 0)
      then ok quotient
      else if eq_ℤ (a %ℤ b) (pos 0)
      then ok (integer (a /ℤ b))
      else ok quotient

  unfoldable pub mod_num : Numeric F → Numeric F → Result (Numeric F)
  unfolding ◌%ℤ◌ eq_ℤ
  mod_num (float a) (float b) = ok (float (ops.fmod a b))
  mod_num (float a) (integer b) = ok (float (ops.fmod a (ops.of_integer b)))
  mod_num (integer a) (float b) = ok (float (ops.fmod (ops.of_integer a) b))
  mod_num (integer a) (integer b) =
      if eq_ℤ b (pos 0)
      then err (lang_error "Integer modulo by zero")
      else if eq_ℤ a min_int && eq_ℤ b (negsuc 0)
      then ok (integer (pos 0))
      else ok (integer (a %ℤ b))

  unfoldable pub pow_num : Numeric F → Numeric F → Result (Numeric F)
  unfolding int_pow
  pow_num (float a) (float b) = ok (float (ops.pow a b))
  pow_num (float a) (integer b) = ok (float (ops.pow a (ops.of_integer b)))
  pow_num (integer a) (float b) = ok (float (ops.pow (ops.of_integer a) b))
  pow_num (integer a) (integer b) = int_pow ops exponent_bits a b

  unfoldable pub less : Numeric F → Numeric F → Bool
  unfolding compare_float_int compare_int_float ltb_ℤ
  less (float a) (float b) = ops.less a b
  less (float a) (integer b) = compare_less (compare_float_int ops a b)
  less (integer a) (float b) = compare_less (compare_int_float ops a b)
  less (integer a) (integer b) = ltb_ℤ a b

  unfoldable pub less_equal : Numeric F → Numeric F → Bool
  unfolding compare_float_int compare_int_float ltb_ℤ
  less_equal (float a) (float b) = less_equal_float ops a b
  less_equal (float a) (integer b) = compare_less_equal (compare_float_int ops a b)
  less_equal (integer a) (float b) = compare_less_equal (compare_int_float ops a b)
  less_equal (integer a) (integer b) = not (ltb_ℤ b a)

  unfoldable pub greater : Numeric F → Numeric F → Bool
  unfolding compare_float_int compare_int_float ltb_ℤ
  greater (float a) (float b) = ops.less b a
  greater (float a) (integer b) = compare_greater (compare_float_int ops a b)
  greater (integer a) (float b) = compare_greater (compare_int_float ops a b)
  greater (integer a) (integer b) = ltb_ℤ b a

  unfoldable pub greater_equal : Numeric F → Numeric F → Bool
  unfolding compare_float_int compare_int_float ltb_ℤ
  greater_equal (float a) (float b) = less_equal_float ops b a
  greater_equal (float a) (integer b) = compare_greater_equal (compare_float_int ops a b)
  greater_equal (integer a) (float b) = compare_greater_equal (compare_int_float ops a b)
  greater_equal (integer a) (integer b) = not (ltb_ℤ a b)

  unfoldable pub equal_num : Numeric F → Numeric F → Bool
  unfolding compare_float_int compare_int_float eq_ℤ
  equal_num (float a) (float b) = ops.equal a b
  equal_num (float a) (integer b) = compare_equal (compare_float_int ops a b)
  equal_num (integer a) (float b) = compare_equal (compare_int_float ops a b)
  equal_num (integer a) (integer b) = eq_ℤ a b

  unfoldable pub not_equal : Numeric F → Numeric F → Bool
  unfolding compare_float_int compare_int_float eq_ℤ
  not_equal (float a) (float b) = not (ops.equal a b)
  not_equal (float a) (integer b) = not (compare_equal (compare_float_int ops a b))
  not_equal (integer a) (float b) = not (compare_equal (compare_int_float ops a b))
  not_equal (integer a) (integer b) = not (eq_ℤ a b)

  -- `++` and `--` before a number, which return it changed.
  unfoldable pub increment : Numeric F → Numeric F
  unfolding ◌+ℤ◌ wrap
  increment (integer a) = integer (wrap (a +ℤ pos 1))
  increment (float a) = float (ops.plus a (ops.of_integer (pos 1)))

  unfoldable pub decrement : Numeric F → Numeric F
  unfolding ◌+ℤ◌ wrap
  decrement (integer a) = integer (wrap (a +ℤ negsuc 0))
  decrement (float a) = float (ops.subtract a (ops.of_integer (pos 1)))

  -- `++` and `--` after a number: what they return, and the number from then on.
  abbrev pub post_increment : Numeric F → Numeric F × Numeric F
  unfolding increment
  post_increment a = (a, increment a)

  abbrev pub post_decrement : Numeric F → Numeric F × Numeric F
  unfolding decrement
  post_decrement a = (a, decrement a)

  unfoldable pub negate_num : Numeric F → Numeric F
  unfolding neg_ℤ wrap
  negate_num (integer a) = integer (wrap (neg_ℤ a))
  negate_num (float a) = float (ops.negate a)

  abbrev pub is_integer : Numeric F → Bool
  is_integer (integer a) = true
  is_integer (float a) = false

  abbrev pub is_float : Numeric F → Bool
  is_float a = not (is_integer a)

  unfoldable pub as_integer : Numeric F → ℤ
  as_integer (integer a) = a
  as_integer (float a) =
      let fmax = ops.of_integer max_int in
      let fmin = ops.of_integer min_int in
      if is_nan ops a
      then pos 0
      else if less_equal_float ops fmax a
      then max_int
      else if less_equal_float ops a fmin
      then min_int
      else ops.to_integer a

  unfoldable pub as_float : Numeric F → F
  as_float (integer a) = ops.of_integer a
  as_float (float a) = a
