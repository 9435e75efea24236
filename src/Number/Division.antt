-- ===== src/Number/Division.antt =====
-- Division and remainder of two integers.
use covscript.Prelude.{
  ℕ, zero, suc, ◌*◌, ◌/◌, ◌%◌, ◌<◌, Bool, true, false, ◌&&◌, Bool-cases, inl, inr, ok, ◌≡◌, ◌≢◌,
  ◌↔◌, refl, sym, ap, ◌∙◌, arith,
}
use native.Mathlib.Nat.{div-add-mod', mod-lt, mul-div_cancel, mul-mod_left}
use covscript.Number.Integer.{ℤ, pos, negsuc, minus, magnitude, ◌+ℤ◌, ◌*ℤ◌, ◌/ℤ◌, ◌%ℤ◌, eq_ℤ, fits}
use covscript.Number.Overflow.{min_int}
use covscript.Number.Power.{Numeric, integer, FloatOps}
use covscript.Number.Numeric.{div, mod_num}

div-mod : (a b : ℤ) → 0 < magnitude b → a /ℤ b *ℤ b +ℤ a %ℤ b ≡ a
unfolding ◌+ℤ◌ ◌*ℤ◌ ◌/ℤ◌ ◌%ℤ◌
div-mod (pos m) (pos n) h = ground (arith, div-add-mod' m n)
div-mod (pos m) (negsuc n) h = ground (arith, div-add-mod' m (suc n))
div-mod (negsuc m) (pos n) h = ground (arith, div-add-mod' (suc m) n)
div-mod (negsuc m) (negsuc n) h = ground (arith, div-add-mod' (suc m) (suc n))

mod-magnitude : (a b : ℤ) → 0 < magnitude b → magnitude (a %ℤ b) < magnitude b
unfolding ◌%ℤ◌
mod-magnitude (pos m) b h = mod-lt m h
mod-magnitude (negsuc m) b h = ground (arith, mod-lt (suc m) {m = magnitude b} h)

pub eq_ℤ-eq : (a b : ℤ) → eq_ℤ a b ≡ true → a ≡ b
unfolding eq_ℤ
eq_ℤ-eq a b h = ground arith

eq_ℤ_self : (a : ℤ) → eq_ℤ a a ≡ true
unfolding eq_ℤ
eq_ℤ_self (pos n) = ground arith
eq_ℤ_self (negsuc n) = ground arith

pub not_zero-magnitude : (b : ℤ) → eq_ℤ b (pos 0) ≡ false → 0 < magnitude b
unfolding eq_ℤ
not_zero-magnitude b h = ground arith

minus-div-pos : (k n : ℕ) → minus k /ℤ pos n ≡ minus (k / n)
unfolding ◌/ℤ◌
minus-div-pos zero n = ground arith
minus-div-pos (suc k) n = refl

minus-div-negsuc : (k n : ℕ) → minus k /ℤ negsuc n ≡ pos (k / suc n)
unfolding ◌/ℤ◌
minus-div-negsuc zero n = ground arith
minus-div-negsuc (suc k) n = refl

minus-mod : (k : ℕ) (b : ℤ) → minus k %ℤ b ≡ minus (k % magnitude b)
unfolding ◌%ℤ◌
minus-mod zero b = ground arith
minus-mod (suc k) b = refl

div-*ℤ : (q b : ℤ) → 0 < magnitude b → q *ℤ b /ℤ b ≡ q
unfolding ◌*ℤ◌ ◌/ℤ◌
div-*ℤ (pos m) (pos n) h = ap pos (mul-div_cancel m h)
div-*ℤ (pos m) (negsuc n) h = minus-div-negsuc (m * suc n) n ∙ ap pos (mul-div_cancel m h)
div-*ℤ (negsuc m) (pos n) h = minus-div-pos (suc m * n) n ∙ ap minus (mul-div_cancel (suc m) h)
div-*ℤ (negsuc m) (negsuc n) h = ap minus (mul-div_cancel (suc m) h)

mod-*ℤ : (q b : ℤ) → q *ℤ b %ℤ b ≡ pos 0
unfolding ◌*ℤ◌ ◌%ℤ◌
mod-*ℤ (pos m) (pos n) = ap pos (mul-mod_left m n)
mod-*ℤ (pos m) (negsuc n) = minus-mod (m * suc n) (negsuc n) ∙ ap minus (mul-mod_left m (suc n))
mod-*ℤ (negsuc m) (pos n) = minus-mod (suc m * n) (pos n) ∙ ap minus (mul-mod_left (suc m) n)
mod-*ℤ (negsuc m) (negsuc n) = ap pos (mul-mod_left (suc m) (suc n))

+ℤ_zero : (a : ℤ) → a +ℤ pos 0 ≡ a
unfolding ◌+ℤ◌
+ℤ_zero (pos n) = ground arith
+ℤ_zero (negsuc n) = ground arith

-- The quotient that does not fit.
no_quotient : (q : ℤ) → fits q ≡ true → q *ℤ negsuc 0 ≢ min_int
unfolding ◌*ℤ◌ fits
no_quotient (pos zero) h g = absurd (ground arith)
no_quotient (pos (suc n)) h g = absurd (ground arith)
no_quotient (negsuc n) h g = absurd (ground arith)

divides_lem : (a b : ℤ) → 0 < magnitude b → eq_ℤ (a %ℤ b) (pos 0) ≡ true → a /ℤ b *ℤ b ≡ a
divides_lem a b h divides =
    sym (+ℤ_zero (a /ℤ b *ℤ b))
    ∙ ap (λ r. a /ℤ b *ℤ b +ℤ r) (sym (eq_ℤ-eq (a %ℤ b) (pos 0) divides))
    ∙ div-mod a b h

product-divides : (a b q : ℤ) → q *ℤ b ≡ a → eq_ℤ (a %ℤ b) (pos 0) ≡ true
product-divides a b q product =
    ap (λ r. eq_ℤ r (pos 0)) (ap (λ x. x %ℤ b) (sym product) ∙ mod-*ℤ q b) ∙ eq_ℤ_self (pos 0)

-- The case that both operators single out.
abbrev pub is_extreme : ℤ → ℤ → Bool
unfolding eq_ℤ
is_extreme a b = eq_ℤ a min_int && eq_ℤ b (negsuc 0)

pub extreme_lem : (a b : ℤ) → is_extreme a b ≡ true → (a ≡ min_int) × (b ≡ negsuc 0)
unfolding eq_ℤ
extreme_lem a b h = elim (Bool-cases (eq_ℤ a min_int)) [
  | inl is_min ↦ elim (Bool-cases (eq_ℤ b (negsuc 0))) [
    | inl is_one ↦ (eq_ℤ-eq a min_int is_min, eq_ℤ-eq b (negsuc 0) is_one)
    | inr other ↦ absurd (ground (arith, is_min, other, h))
  ]
  | inr other ↦ absurd (ground (arith, other, h))
]

extreme-mod : min_int %ℤ negsuc 0 ≡ pos 0
unfolding ◌%ℤ◌
extreme-mod = refl

module _ {F : Type 0} (ops : FloatOps F) where
  abbrev an_integer : ℤ → Numeric F
  an_integer = integer

  same_result : (x y : ℤ) → ok (an_integer x) ≡ ok (an_integer y) → x ≡ y
  same_result x y h = cc

  -- If the divisor is not 0, a quotient of two integers is an integer `q` of 64 bits exactly if `q`
  -- times the divisor is the dividend.
  pub div-exact :
      (a b q : ℤ)
      → eq_ℤ b (pos 0) ≡ false
      → fits q ≡ true
      → (div ops (integer a) (integer b) ≡ ok (integer q)) ↔ (q *ℤ b ≡ a)
  unfolding div
  div-exact a b q h g = elim (Bool-cases (is_extreme a b)) [
    | inl extreme ↦
        let at = extreme_lem a b extreme in
        rw (h, extreme)
          (
            (λ returned. absurd (ground (arith, returned))),
            λ product. absurd (no_quotient q g (sym (ap (λ x. q *ℤ x) at.1) ∙ product ∙ at.0)),
          )
    | inr usual ↦
        rw (h, usual)
          (elim (Bool-cases (eq_ℤ (a %ℤ b) (pos 0))) [
            | inl divides ↦ rw divides (
              (λ returned.
                  ap (λ x. x *ℤ b) (sym (same_result (a /ℤ b) q returned))
                  ∙ divides_lem a b (not_zero-magnitude b h) divides),
              λ product.
                  ap (λ x. ok (integer x))
                    (ap (λ x. x /ℤ b) (sym product) ∙ div-*ℤ q b (not_zero-magnitude b h)),
            )
            | inr other ↦ rw other (
              (λ returned. absurd (ground (arith, returned))),
              λ product. absurd (ground (arith, other, product-divides a b q product)),
            )
          ])
  ]

  -- If the divisor is not 0, the remainder of two integers is an integer that completes quotient
  -- times divisor to the dividend, and it is smaller than the divisor in magnitude.
  pub mod_num-remainder :
      (a b : ℤ)
      → eq_ℤ b (pos 0) ≡ false
      → (r : ℤ) × (mod_num ops (integer a) (integer b) ≡ ok (integer r))
        × (a /ℤ b *ℤ b +ℤ r ≡ a)
        × (magnitude r < magnitude b)
  unfolding mod_num
  mod_num-remainder a b h = (
    a %ℤ b,
    elim (Bool-cases (is_extreme a b)) [
      | inl extreme ↦
          let at = extreme_lem a b extreme in
          rw (h, extreme)
            (ap (λ r. ok (integer r))
              (sym (ap (λ x. x %ℤ b) at.0 ∙ ap (λ y. min_int %ℤ y) at.1 ∙ extreme-mod)))
      | inr usual ↦ rw (h, usual) refl
    ],
    div-mod a b (not_zero-magnitude b h),
    mod-magnitude a b (not_zero-magnitude b h),
  )
