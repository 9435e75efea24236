-- ===== src/Compiler/Translate/Balance.antt =====
-- What `translate` keeps of blocks and loops, whatever the methods do.
use covscript.Prelude.{
  ℕ, suc, ◌+◌, ◌<◌, ◌≤◌, Bool, true, false, List, [], ◌∷◌, Option, Result, ok, err, compile_error,
  length, bind-eq-ok, ok-injective, Bool-cases, inl, inr, if◌then◌else◌, ◌≡◌, refl, sym, ap, ◌∙◌,
  subst, arith,
}
use covscript.Syntax.Token.{Token}
use covscript.Lexer.Preprocessor.{rethrow}
use covscript.Compiler.Method.{
  Method, MethodType, null_method, single, block, jit_command, get_type, is_end,
}
use covscript.Compiler.Match.{match}
use covscript.Compiler.Translate.{
  TranslateEnv, Translation, leave_loop, close_scope, preprocess_if_raw, close_block, defer_line,
  translate_now, single_in, translate_single, open_scope, is_empty, translate_block, translate_type,
  process_if_raw, tail_line, translate_line, translate_loop, first_translation, translate_lines,
}
use covscript.Compiler.Translate.Depth.{
  loops, sizes, loops_tail, leave_loop-loops, enter, plus_zero, no_loops, plus_suc,
}

-- A method that returns has put the depth of loops back, as `value_guard` does and `translate` itself, which
-- the methods of blocks call for what is in them.
pub record Restoring {V C S D : Type 0} (env : TranslateEnv V C S D) : Type 0 where
  pub translates :
      (m : Method) (c : C) (depth : ℕ) (lines : List (List (Token V))) (r : Option S × C × ℕ)
      → env.translate m c depth lines ≡ ok r
      → r.2 ≡ depth
  pub translates_end :
      (m top : Method) (c : C) (depth : ℕ) (lines : List (List (Token V))) (line : List (Token V))
      (r : Option S × C × ℕ)
      → env.translate_end m top c depth lines line ≡ ok r
      → r.2 ≡ depth

-- What `rethrow` returns was returned.
rethrow-ok : {T : Type 0} (n : ℕ) (m : Result T) (t : T) → rethrow n m ≡ ok t → m ≡ ok t
unfolding rethrow
rethrow-ok n (ok a) t h = h
rethrow-ok n (err e) t h = absurd cc

module _ {V C S D : Type 0} (env : TranslateEnv V C S D) (restoring : Restoring env) (raw : Bool)
    (depth : ℕ) where
  -- The depth counts the open loops, of which there are at most `n`, above the starting depth, and lines
  -- wait only for open blocks.
  abbrev Open : ℕ → Translation V C S → Type 0
  Open n s =
      (s.loop_depth ≡ depth + loops s.methods)
      × (loops s.methods ≤ n)
      × (is_empty s.methods ≡ true → s.tmp ≡ [])

  Open-returned : (n : ℕ) (s t : Translation V C S) → Open n s → ok s ≡ ok t → Open n t
  Open-returned n s t is_open returned = subst (Open n) (ok-injective s t returned) is_open

  -- The block at the top is left.
  left_depth :
      (n : ℕ) (top : Method) (rest : List Method) (s : Translation V C S)
      → depth + n < sizes
      → s.methods ≡ top ∷ rest
      → Open n s
      → (leave_loop top s.loop_depth ≡ depth + loops rest) × (loops rest ≤ n)
  left_depth n top rest s bound at is_open =
      let few = subst (λ ms. loops ms ≤ n) at is_open.1 in
      (
        ap (leave_loop top) (is_open.0 ∙ ap (λ ms. depth + loops ms) at)
            ∙ leave_loop-loops top rest depth (omega (arith, few, bound)),
        omega (arith, few, loops_tail top rest),
      )

  close_block-Open :
      (n : ℕ) (m : Method) (line_num : ℕ) (line : List (Token V)) (top : Method)
      (rest : List Method) (s t : Translation V C S)
      → depth + n < sizes
      → s.methods ≡ top ∷ rest
      → Open n s
      → close_block env raw m line_num line top rest s ≡ ok t
      → Open n t
  unfolding close_block is_empty
  close_block-Open n m line_num line top [] s t bound at is_open returned =
      let scope = bind-eq-ok (rethrow line_num (close_scope env raw top s.context)) _ returned in
      let ended =
        bind-eq-ok
          (rethrow s.method_line_num (env.translate_end m top scope.0 s.loop_depth s.tmp line)) _
          scope.2 in
      let back =
        restoring.translates_end m top scope.0 s.loop_depth s.tmp line ended.0
          (rethrow-ok s.method_line_num _ ended.0 ended.1) in
      let left = left_depth n top [] s bound at is_open in
      Open-returned n _ t (ap (leave_loop top) back ∙ left.0, left.1, λ h. refl) ended.2
  close_block-Open n m line_num line top (next ∷ rest) s t bound at is_open returned =
      let scope = bind-eq-ok (rethrow line_num (close_scope env raw top s.context)) _ returned in
      let ended =
        bind-eq-ok (rethrow line_num (preprocess_if_raw env raw m scope.0 line)) _ scope.2 in
      let left = left_depth n top (next ∷ rest) s bound at is_open in
      Open-returned n _ t (left.0, left.1, λ h. absurd (ground (arith, h))) ended.2

  translate_now-Open :
      (n : ℕ) (m : Method) (line_num : ℕ) (line : List (Token V)) (s t : Translation V C S)
      → Open n s
      → translate_now env raw m line_num line s ≡ ok t
      → Open n t
  unfolding translate_now
  translate_now-Open n m line_num line s t is_open returned =
      let prepared =
        bind-eq-ok (rethrow line_num (preprocess_if_raw env raw m s.context line)) _ returned in
      let made =
        bind-eq-ok (rethrow line_num (env.translate m prepared.0 s.loop_depth (line ∷ []))) _
          prepared.2 in
      let back =
        restoring.translates m prepared.0 s.loop_depth (line ∷ []) made.0
          (rethrow-ok line_num _ made.0 made.1) in
      Open-returned n _ t (back ∙ is_open.0, is_open.1, is_open.2) made.2

  defer_line-Open :
      (n : ℕ) (m : Method) (line_num : ℕ) (line : List (Token V)) (s t : Translation V C S)
      → is_empty s.methods ≡ false
      → Open n s
      → defer_line env raw m line_num line s ≡ ok t
      → Open n t
  unfolding defer_line
  defer_line-Open n m line_num line s t inside is_open returned =
      let prepared =
        bind-eq-ok (rethrow line_num (preprocess_if_raw env raw m s.context line)) _ returned in
      Open-returned n _ t (is_open.0, is_open.1, λ h. absurd (ground (arith, h, inside))) prepared.2

  single_in-Open :
      (n : ℕ) (m : Method) (line_num : ℕ) (line : List (Token V)) (methods : List Method)
      (s t : Translation V C S)
      → depth + n < sizes
      → s.methods ≡ methods
      → Open n s
      → single_in env raw m line_num line methods s ≡ ok t
      → Open n t
  unfolding single_in is_empty rethrow
  single_in-Open n m line_num line [] s t bound at is_open returned = elim (Bool-cases (is_end m)) [
    | inl ends ↦ absurd (ground (arith, rw ends at returned))
    | inr other ↦ translate_now-Open n m line_num line s t is_open (rw other at returned)
  ]
  single_in-Open n m line_num line (top ∷ rest) s t bound at is_open returned =
      elim (Bool-cases (is_end m)) [
        | inl ends ↦
            close_block-Open n m line_num line top rest s t bound at is_open (rw ends at returned)
        | inr other ↦
            defer_line-Open n m line_num line s t (ap is_empty at) is_open (rw other at returned)
      ]

  translate_block-Open :
      (n : ℕ) (m : Method) (line_num : ℕ) (line : List (Token V)) (s t : Translation V C S)
      → depth + suc n < sizes
      → Open n s
      → translate_block env raw m line_num line s ≡ ok t
      → Open (suc n) t
  unfolding translate_block is_empty
  translate_block-Open n m line_num line s t bound is_open returned =
      let opened = bind-eq-ok (rethrow line_num (open_scope env raw m s.context line)) _ returned in
      let deeper = enter m s.methods n s.loop_depth depth bound is_open.0 is_open.1 in
      Open-returned (suc n) _ t (deeper.0, deeper.1, λ h. absurd (ground (arith, h))) opened.2

  wider : (n : ℕ) (s : Translation V C S) → Open n s → Open (suc n) s
  wider n s is_open = (is_open.0, omega (arith, is_open.1), is_open.2)

  translate_type-Open :
      (n : ℕ) (type : MethodType) (m : Method) (line_num : ℕ) (line : List (Token V))
      (s t : Translation V C S)
      → depth + suc n < sizes
      → Open n s
      → translate_type env raw type m line_num line s ≡ ok t
      → Open (suc n) t
  unfolding translate_type translate_single rethrow
  translate_type-Open n null_method m line_num line s t bound is_open returned =
      absurd (ground (arith, returned))
  translate_type-Open n single m line_num line s t bound is_open returned =
      wider n t (
        single_in-Open n m line_num line s.methods s t (omega (arith, bound)) refl is_open returned)
  translate_type-Open n block m line_num line s t bound is_open returned =
      translate_block-Open n m line_num line s t bound is_open returned
  translate_type-Open n jit_command m line_num line s t bound is_open returned =
      let ran =
        bind-eq-ok (rethrow line_num (env.translate m s.context s.loop_depth (line ∷ []))) _
          returned in
      let back =
        restoring.translates m s.context s.loop_depth (line ∷ []) ran.0
          (rethrow-ok line_num _ ran.0 ran.1) in
      let wide = wider n s is_open in
      Open-returned (suc n) _ t (back ∙ wide.0, wide.1, wide.2) ran.2

  translate_line-Open :
      (n : ℕ) (line : List (Token V)) (s t : Translation V C S)
      → depth + suc n < sizes
      → Open n s
      → translate_line env raw line s ≡ ok t
      → Open (suc n) t
  unfolding translate_line
  translate_line-Open n line s t bound is_open returned =
      let tail = bind-eq-ok (tail_line line) _ returned in
      let processed =
        bind-eq-ok (rethrow tail.0 (process_if_raw env raw line s.context)) _ tail.2 in
      let matched = bind-eq-ok (rethrow tail.0 (match env.m_data processed.0.0)) _ processed.2 in
      translate_type-Open n (get_type matched.0) matched.0 tail.0 processed.0.0
        (record s { context = processed.0.1 }) t bound is_open matched.2

  translate_loop-Open :
      (n : ℕ) (lines : List (List (Token V))) (s t : Translation V C S)
      → depth + (n + length lines) < sizes
      → Open n s
      → translate_loop env raw lines s ≡ ok t
      → Open (n + length lines) t
  unfolding translate_loop
  translate_loop-Open n [] s t bound is_open returned =
      subst (λ k. Open k t) (plus_zero n) (Open-returned n s t is_open returned)
  translate_loop-Open n (line ∷ lines) s t bound is_open returned =
      let one = bind-eq-ok (translate_line env raw line s) _ returned in
      let first = translate_line-Open n line s one.0 (omega (arith, bound)) is_open one.1 in
      subst (λ k. Open k t) (plus_suc n (length lines))
        (translate_loop-Open (suc n) lines one.0 t (omega (arith, bound)) first one.2)

  closed_if :
      (s t : Translation V C S)
      → (if is_empty s.methods
          then ok s
          else err (compile_error "Missing 'end' to close the current block"))
        ≡ ok t
      → (is_empty s.methods ≡ true) × (ok s ≡ ok t)
  closed_if s t returned = elim (Bool-cases (is_empty s.methods)) [
    | inl closed ↦ (closed, rw closed at returned)
    | inr left ↦ absurd (ground (arith, rw left at returned))
  ]

  -- If `translate` returns, all blocks are closed, no line waits, and the depth of loops is what it was
  -- before; for fewer than 2 ^ 64 lines and loops, and methods that put the depth back when they return.
  pub translate_lines-loop_depth :
      (lines : List (List (Token V))) (statements : List S) (context : C) (t : Translation V C S)
      → depth + length lines < sizes
      → translate_lines env raw lines statements depth context ≡ ok t
      → (t.loop_depth ≡ depth) × (is_empty t.methods ≡ true) × (t.tmp ≡ [])
  unfolding translate_lines first_translation loops is_empty
  translate_lines-loop_depth lines statements context t bound returned =
      let run =
        bind-eq-ok (translate_loop env raw lines (first_translation statements depth context)) _
          returned in
      let is_open =
        translate_loop-Open 0 lines (first_translation statements depth context) run.0
          (omega (arith, bound)) (omega arith, omega arith, λ h. refl) run.1 in
      let closed = closed_if run.0 t run.2 in
      subst (λ u. (u.loop_depth ≡ depth) × (is_empty u.methods ≡ true) × (u.tmp ≡ []))
        (ok-injective run.0 t closed.1)
        (
          is_open.0 ∙ ap (λ k. depth + k) (no_loops run.0.methods closed.0) ∙ sym (plus_zero depth),
          closed.0,
          is_open.2 closed.0,
        )
