-- ===== src/Compiler/Translate/Depth.antt =====
-- The depth of loops, and the loops among the open blocks.
use covscript.Prelude.{
  ℕ, suc, ◌+◌, ◌<◌, ◌≤◌, true, List, [], ◌∷◌, Bool-cases, inl, inr, if◌then◌else◌, ◌≡◌, refl, ap,
  ◌∙◌, subst, arith,
}
use covscript.Compiler.Method.{Method, is_loop_block}
use covscript.Compiler.Translate.{increment_depth, decrement_depth, leave_loop, is_empty}

-- The loops among the open blocks.
unfoldable pub loops : List Method → ℕ
unfolding is_loop_block
loops [] = 0
loops (m ∷ methods) = let n = loops methods in if is_loop_block m then suc n else n

-- 2 ^ 64
abbrev pub sizes : ℕ
sizes = 18446744073709551616

pub down : (d k : ℕ) → d + suc k < sizes → decrement_depth (d + suc k) ≡ d + k
down d k h = ground (arith, h)

pub up : (d k : ℕ) → d + suc k < sizes → increment_depth (d + k) ≡ d + suc k
up d k h = ground (arith, h)

pub loops_tail : (m : Method) (methods : List Method) → loops methods ≤ loops (m ∷ methods)
unfolding loops
loops_tail m methods = elim (Bool-cases (is_loop_block m)) [
  | inl is_loop ↦ rw is_loop (omega arith)
  | inr other ↦ rw other (omega arith)
]

pub leave_loop-loops :
    (m : Method) (methods : List Method) (depth : ℕ)
    → depth + loops (m ∷ methods) < sizes
    → leave_loop m (depth + loops (m ∷ methods)) ≡ depth + loops methods
unfolding leave_loop loops
leave_loop-loops m methods depth h = elim (Bool-cases (is_loop_block m)) [
  | inl is_loop ↦ rw is_loop (
      down depth (loops methods)
        (subst (λ b. depth + (if b then suc (loops methods) else loops methods) < sizes) is_loop h))
  | inr other ↦ rw other refl
]

pub enter :
    (m : Method) (methods : List Method) (n now depth : ℕ)
    → depth + suc n < sizes
    → now ≡ depth + loops methods
    → loops methods ≤ n
    → ((if is_loop_block m then increment_depth now else now) ≡ depth + loops (m ∷ methods))
      × (loops (m ∷ methods) ≤ suc n)
unfolding loops
enter m methods n now depth bound h few = elim (Bool-cases (is_loop_block m)) [
  | inl is_loop ↦ rw is_loop (
    ap increment_depth h ∙ up depth (loops methods) (omega (arith, bound, few)),
    omega (arith, few),
  )
  | inr other ↦ rw other (h, omega (arith, few))
]

pub plus_zero : (n : ℕ) → n ≡ n + 0
plus_zero n = omega arith

pub no_loops : (methods : List Method) → is_empty methods ≡ true → loops methods ≡ 0
unfolding loops is_empty
no_loops [] h = refl
no_loops (m ∷ methods) h = absurd (ground (arith, h))

pub plus_suc : (n k : ℕ) → suc n + k ≡ n + suc k
plus_suc n k = omega arith
