-- ===== src/Number/Overflow.antt =====
-- `would_overflow` of `numeric::int_pow`.
use covscript.Prelude.{
  ℕ, zero, suc, ◌*◌, ◌/◌, ◌<◌, ◌≤◌, Bool, true, false, not, ◌&&◌, ◌||◌, ltb, ltb→lt, if◌then◌else◌,
  ◌≡◌, ◌↔◌, arith,
}
use native.Mathlib.Nat.{div-lt_iff_lt-mul, mul-le-mul, mul_comm}
use covscript.Number.Integer.{ℤ, pos, negsuc, minus, two_63, ◌*ℤ◌, ◌/ℤ◌, ltb_ℤ, eq_ℤ, fits}

-- 2 ^ 30
abbrev pub small_bound : ℕ
small_bound = 1073741824

abbrev pub min_int : ℤ
min_int = negsuc 9223372036854775807

abbrev pub max_int : ℤ
max_int = pos 9223372036854775807

abbrev pub is_small : ℤ → Bool
is_small a = not (ltb_ℤ a (minus small_bound)) && not (ltb_ℤ (pos small_bound) a)

unfoldable pub would_overflow : ℤ → ℤ → Bool
unfolding ◌/ℤ◌ ltb_ℤ eq_ℤ
would_overflow a b =
    if eq_ℤ a (pos 0) || eq_ℤ b (pos 0) || eq_ℤ a (pos 1) || eq_ℤ b (pos 1)
    then false
    else if is_small a && is_small b
    then false
    else if ltb_ℤ (pos 0) a
    then if ltb_ℤ (pos 0) b then ltb_ℤ (max_int /ℤ b) a else ltb_ℤ b (min_int /ℤ a)
    else if ltb_ℤ (pos 0) b
    then ltb_ℤ a (min_int /ℤ b)
    else ltb_ℤ a (max_int /ℤ b)

ltb_lem : (a b c d : ℕ) → (a < b) ↔ (c < d) → ltb a b ≡ ltb c d
ltb_lem a b c d h = ground (arith, h)

-- The quotient of a bound tells whether a product passes it.
div_lem : (x a b : ℕ) → 0 < b → ltb (x / b) a ≡ ltb x (a * b)
div_lem x a b h = ltb_lem (x / b) a x (a * b) (div-lt_iff_lt-mul {k = b} {x = x} {y = a} h)

small_lem : (m n : ℕ) → m ≤ small_bound → n ≤ small_bound → m * n ≤ small_bound * small_bound
small_lem m n h g = mul-le-mul {n₁ = m} {m₁ = n} {n₂ = small_bound} {m₂ = small_bound} h g

pub fits-minus : (k : ℕ) → fits (minus k) ≡ not (ltb two_63 k)
unfolding fits
fits-minus zero = ground arith
fits-minus (suc k) = ground arith

negsuc-minus : (n q : ℕ) → 0 < q → ltb_ℤ (negsuc n) (minus q) ≡ ltb q (suc n)
unfolding ltb_ℤ
negsuc-minus n zero h = absurd (omega arith)
negsuc-minus n (suc q) h = ground arith

min_quotient : (m : ℕ) → 1 < m → m < two_63 → 0 < two_63 / m
min_quotient m h g = ground (arith, div_lem two_63 1 m)

-- The four cases of two signs, apart from 0 and 1.
module _ (m n : ℕ) where
  pos-pos : 1 < m → 1 < n → would_overflow (pos m) (pos n) ≡ not (fits (pos m *ℤ pos n))
  unfolding would_overflow fits ◌*ℤ◌ ◌/ℤ◌ ltb_ℤ eq_ℤ
  pos-pos h g = ground (arith, small_lem m n, div_lem 9223372036854775807 m n)

  negsuc-negsuc :
      m < two_63
      → n < two_63
      → would_overflow (negsuc m) (negsuc n) ≡ not (fits (negsuc m *ℤ negsuc n))
  unfolding would_overflow fits ◌*ℤ◌ ◌/ℤ◌ ltb_ℤ eq_ℤ
  negsuc-negsuc h g =
      ground (arith, small_lem (suc m) (suc n), div_lem 9223372036854775807 (suc m) (suc n))

  pos-negsuc :
      1 < m
      → m < two_63
      → n < two_63
      → would_overflow (pos m) (negsuc n) ≡ not (fits (pos m *ℤ negsuc n))
  unfolding would_overflow ◌*ℤ◌ ◌/ℤ◌ ltb_ℤ eq_ℤ
  pos-negsuc h m_fits n_fits = rw (fits-minus (m * suc n)) (
      ground (
        arith,
        small_lem m (suc n),
        negsuc-minus n (two_63 / m) (min_quotient m h m_fits),
        div_lem two_63 (suc n) m,
        mul_comm m (suc n),
      ))

  negsuc-pos :
      1 < n
      → n < two_63
      → m < two_63
      → would_overflow (negsuc m) (pos n) ≡ not (fits (negsuc m *ℤ pos n))
  unfolding would_overflow ◌*ℤ◌ ◌/ℤ◌ ltb_ℤ eq_ℤ
  negsuc-pos h n_fits m_fits = rw (fits-minus (suc m * n)) (
      ground (
        arith,
        small_lem (suc m) n,
        negsuc-minus m (two_63 / n) (min_quotient n h n_fits),
        div_lem two_63 (suc m) n,
      ))

-- On two integers of 64 bits the test is right: it tells whether the product needs more.
pub would_overflow-fits :
    (a b : ℤ) → fits a ≡ true → fits b ≡ true → would_overflow a b ≡ not (fits (a *ℤ b))
unfolding would_overflow fits ◌*ℤ◌ eq_ℤ
would_overflow-fits (pos zero) b h g = ground arith
would_overflow-fits (pos (suc zero)) b h g = ground arith
would_overflow-fits a (pos zero) h g = ground arith
would_overflow-fits a (pos (suc zero)) h g = ground arith
would_overflow-fits (pos (suc (suc m))) (pos (suc (suc n))) h g =
    pos-pos (suc (suc m)) (suc (suc n)) (omega arith) (omega arith)
would_overflow-fits (pos (suc (suc m))) (negsuc n) h g =
    pos-negsuc (suc (suc m)) n (omega arith) (ltb→lt _ _ h) (ltb→lt _ _ g)
would_overflow-fits (negsuc m) (pos (suc (suc n))) h g =
    negsuc-pos m (suc (suc n)) (omega arith) (ltb→lt _ _ g) (ltb→lt _ _ h)
would_overflow-fits (negsuc m) (negsuc n) h g = negsuc-negsuc m n (ltb→lt _ _ h) (ltb→lt _ _ g)
