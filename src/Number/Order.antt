-- ===== src/Number/Order.antt =====
-- How `numeric` compares an integer and a float.
use covscript.Prelude.{Bool, true, false, not, ◌||◌, if◌then◌else◌}
use covscript.Number.Integer.{ℤ, pos, ltb_ℤ, eq_ℤ}
use covscript.Number.Overflow.{min_int}
use covscript.Number.Power.{FloatOps}

-- What `compare_int_float` returns: -1, 0, 1, or 2 for NaN.
pub data Order : Type 0 where
  before : Order
  same : Order
  after : Order
  unordered : Order

-- `c == 2 ? 2 : -c`
abbrev pub opposite : Order → Order
opposite before = after
opposite same = same
opposite after = before
opposite unordered = unordered

-- `c < 0`, `c <= 0`, `c == 0`.
abbrev pub compare_less : Order → Bool
compare_less before = true
compare_less _ = false

abbrev pub compare_less_equal : Order → Bool
compare_less_equal before = true
compare_less_equal same = true
compare_less_equal _ = false

abbrev pub compare_equal : Order → Bool
compare_equal same = true
compare_equal _ = false

abbrev pub compare_greater : Order → Bool
compare_greater after = true
compare_greater _ = false

abbrev pub compare_greater_equal : Order → Bool
compare_greater_equal same = true
compare_greater_equal after = true
compare_greater_equal _ = false

module _ {F : Type 0} (ops : FloatOps F) where
  abbrev pub zero_float : F
  zero_float = ops.of_integer (pos 0)

  -- `f != f`
  abbrev pub is_nan : F → Bool
  is_nan f = not (ops.equal f f)

  -- `f <= g`
  abbrev pub less_equal_float : F → F → Bool
  less_equal_float f g = ops.less f g || ops.equal f g

  unfoldable pub compare_int_float : ℤ → F → Order
  unfolding ltb_ℤ eq_ℤ
  compare_int_float i f =
      let lo = ops.of_integer min_int in
      let hi = ops.negate lo in
      let fi = ops.to_integer f in
      let frac = ops.subtract f (ops.of_integer fi) in
      if is_nan f
      then unordered
      else if less_equal_float hi f
      then before
      else if ops.less f lo
      then after
      else if not (eq_ℤ i fi)
      then if ltb_ℤ i fi then before else after
      else if ops.less zero_float frac
      then before
      else if ops.less frac zero_float
      then after
      else same

  unfoldable pub compare_float_int : F → ℤ → Order
  unfolding compare_int_float
  compare_float_int f i = opposite (compare_int_float i f)
