-- ===== src/Number/Integer.antt =====
-- Integers, and `numeric_integer`, the signed ones of 64 bits. Where a sum or product does not fit,
-- which is undefined in C++, the model wraps it, as processors do.
pub mod Powers
use covscript.Prelude.{
  ℕ, zero, suc, ◌+◌, ◌-◌, ◌*◌, ◌/◌, ◌%◌, ◌<◌, ◌≤◌, Bool, true, false, not, ltb, leb, ◌==◌,
  if◌then◌else◌, ◌≡◌, refl, sym, ap, ◌∙◌, arith,
}

-- `negsuc n` is - (n + 1).
pub data ℤ : Type 0 where
  pos : ℕ → ℤ
  negsuc : ℕ → ℤ

-- - n
abbrev pub minus : ℕ → ℤ
minus zero = pos zero
minus (suc n) = negsuc n

abbrev pub magnitude : ℤ → ℕ
magnitude (pos n) = n
magnitude (negsuc n) = suc n

-- m - n
abbrev pub difference : ℕ → ℕ → ℤ
difference m n = if leb n m then pos (m - n) else minus (n - m)

infixl 65 ◌+ℤ◌
infixl 70 ◌*ℤ◌ ◌/ℤ◌ ◌%ℤ◌
infixr 75 ◌^ℤ◌
unfoldable pub ◌+ℤ◌ : ℤ → ℤ → ℤ
pos m +ℤ pos n = pos (m + n)
pos m +ℤ negsuc n = difference m (suc n)
negsuc m +ℤ pos n = difference n (suc m)
negsuc m +ℤ negsuc n = negsuc (m + suc n)

unfoldable pub neg_ℤ : ℤ → ℤ
neg_ℤ (pos n) = minus n
neg_ℤ (negsuc n) = pos (suc n)

unfoldable pub ◌*ℤ◌ : ℤ → ℤ → ℤ
pos m *ℤ pos n = pos (m * n)
pos m *ℤ negsuc n = minus (m * suc n)
negsuc m *ℤ pos n = minus (suc m * n)
negsuc m *ℤ negsuc n = pos (suc m * suc n)

-- Division towards zero, as in C++. The quotient by 0 is of no use.
unfoldable pub ◌/ℤ◌ : ℤ → ℤ → ℤ
pos m /ℤ pos n = pos (m / n)
pos m /ℤ negsuc n = minus (m / suc n)
negsuc m /ℤ pos n = minus (suc m / n)
negsuc m /ℤ negsuc n = pos (suc m / suc n)

-- The remainder has the sign of the dividend.
unfoldable pub ◌%ℤ◌ : ℤ → ℤ → ℤ
pos m %ℤ b = pos (m % magnitude b)
negsuc m %ℤ b = minus (suc m % magnitude b)

unfoldable pub ◌^ℤ◌ : ℤ → ℕ → ℤ
unfolding ◌*ℤ◌
b ^ℤ zero = pos 1
b ^ℤ suc n = b *ℤ b ^ℤ n

unfoldable pub ltb_ℤ : ℤ → ℤ → Bool
ltb_ℤ (pos m) (pos n) = ltb m n
ltb_ℤ (pos m) (negsuc n) = false
ltb_ℤ (negsuc m) (pos n) = true
ltb_ℤ (negsuc m) (negsuc n) = ltb n m

unfoldable pub eq_ℤ : ℤ → ℤ → Bool
eq_ℤ (pos m) (pos n) = m == n
eq_ℤ (negsuc m) (negsuc n) = m == n
eq_ℤ _ _ = false

-- The least and the greatest `numeric_integer` have this magnitude, less one for the greatest.
abbrev pub two_63 : ℕ
two_63 = 9223372036854775808

unfoldable pub fits : ℤ → Bool
fits (pos n) = ltb n two_63
fits (negsuc n) = ltb n two_63

unfoldable pub wrap : ℤ → ℤ
wrap (pos n) =
    let m = n % 18446744073709551616 in
    if ltb m two_63 then pos m else negsuc (18446744073709551615 - m)
wrap (negsuc n) =
    let m = n % 18446744073709551616 in
    if ltb m two_63 then negsuc m else pos (18446744073709551615 - m)

pub wrap-fits : (z : ℤ) → fits z ≡ true → wrap z ≡ z
unfolding wrap fits
wrap-fits (pos n) h = ground arith
wrap-fits (negsuc n) h = ground arith

pub fits-wrap : (z : ℤ) → fits (wrap z) ≡ true
unfolding wrap fits
fits-wrap (pos n) = ground arith
fits-wrap (negsuc n) = ground arith

pub magnitude-*ℤ : (a b : ℤ) → magnitude (a *ℤ b) ≡ magnitude a * magnitude b
unfolding ◌*ℤ◌
magnitude-*ℤ a b = ground arith

pub *ℤ_one : (a : ℤ) → a *ℤ pos 1 ≡ a
unfolding ◌*ℤ◌
*ℤ_one (pos n) = ground arith
*ℤ_one (negsuc n) = ground arith

-- An integer as what it has above 0 and what below.
abbrev above : ℤ → ℕ
above (pos n) = n
above (negsuc n) = 0

abbrev below : ℤ → ℕ
below (pos n) = 0
below (negsuc n) = suc n

above-*ℤ : (a b : ℤ) → above (a *ℤ b) ≡ above a * above b + below a * below b
unfolding ◌*ℤ◌
above-*ℤ a b = ground arith

below-*ℤ : (a b : ℤ) → below (a *ℤ b) ≡ above a * below b + below a * above b
unfolding ◌*ℤ◌
below-*ℤ a b = ground arith

same_sides : (a b : ℤ) → above a ≡ above b → below a ≡ below b → a ≡ b
same_sides a b h g = ground arith

pub *ℤ_assoc : (a b c : ℤ) → a *ℤ b *ℤ c ≡ a *ℤ (b *ℤ c)
*ℤ_assoc a b c =
    same_sides (a *ℤ b *ℤ c) (a *ℤ (b *ℤ c)) (simp (above-*ℤ, below-*ℤ) (grind arith))
      (simp (above-*ℤ, below-*ℤ) (grind arith))
