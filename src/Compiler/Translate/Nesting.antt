-- ===== src/Compiler/Translate/Nesting.antt =====
-- Which programs `translate` accepts, apart from what the methods refuse.
use covscript.Prelude.{
  ℕ, zero, suc, Bool, true, false, List, [], ◌∷◌, length, Option, none, some, Error, Result, ok,
  err, compile_error, ◌>>=◌, Result-cases, Bool-cases, inl, inr, if◌then◌else◌, ◌⊎◌, ◌≡◌, refl, sym,
  ap, ◌∙◌, arith,
}
use covscript.Syntax.Token.{Token}
use covscript.Lexer.Preprocessor.{located, rethrow}
use covscript.Compiler.Method.{
  Method, MethodType, null_method, single, block, jit_command, get_type, is_end,
}
use covscript.Compiler.Match.{match}
use covscript.Compiler.Translate.{
  TranslateEnv, Translation, close_scope, preprocess_if_raw, close_block, defer_line, translate_now,
  single_in, translate_single, open_scope, is_empty, translate_block, translate_type,
  process_if_raw, tail_line, translate_line, translate_loop, first_translation, translate_lines,
}

-- The blocks that are open after a line, of `depth` before; none where there is no such number.
unfoldable pub nest_type : MethodType → Bool → ℕ → Option ℕ
nest_type null_method ends depth = none
nest_type single true zero = none
nest_type single true (suc depth) = some depth
nest_type single false depth = some depth
nest_type block ends depth = some (suc depth)
nest_type jit_command ends depth = some depth

some_same : (m n : ℕ) → some m ≡ some n → m ≡ n
some_same m n h = cc

module _ {V C S D : Type 0} (env : TranslateEnv V C S D) where
  nest_method : Result Method → ℕ → Option ℕ
  unfolding nest_type get_type is_end
  nest_method (err e) depth = none
  nest_method (ok m) depth = nest_type (get_type m) (is_end m) depth

  -- A line ends properly and has a grammar.
  nest_tail : Result ℕ → List (Token V) → ℕ → Option ℕ
  unfolding nest_method match
  nest_tail (err e) line depth = none
  nest_tail (ok n) line depth = nest_method (match env.m_data line) depth

  nest_on : Option ℕ → (ℕ → Option ℕ) → Option ℕ
  nest_on none next = none
  nest_on (some depth) next = next depth

  unfoldable pub nest : List (List (Token V)) → ℕ → Option ℕ
  unfolding nest_on nest_tail tail_line
  nest [] depth = some depth
  nest (line ∷ lines) depth = nest_on (nest_tail (tail_line line) line depth) (nest lines)

  -- The error of a method that was called with some line or lines, with its place.
  pub data FromMethod : Error → Type 0 where
    by_translate :
        (line_num : ℕ) (m : Method) (c : C) (depth : ℕ) (lines : List (List (Token V))) (e : Error)
        → env.translate m c depth lines ≡ err e
        → FromMethod (located line_num e)
    by_translate_end :
        (line_num : ℕ) (m top : Method) (c : C) (depth : ℕ) (lines : List (List (Token V)))
        (line : List (Token V)) (e : Error)
        → env.translate_end m top c depth lines line ≡ err e
        → FromMethod (located line_num e)

  -- A step that returns reaches the depth; one that throws does so where there is none, or for a method.
  unfoldable Agrees : Result (Translation V C S) → Option ℕ → Type 0
  Agrees (err e) o = (o ≡ none) ⊎ FromMethod e
  Agrees (ok t) o = o ≡ some (length t.methods)

  Agrees-bind :
      (m : Result (Translation V C S)) (o : Option ℕ)
      (f : Translation V C S → Result (Translation V C S)) (next : ℕ → Option ℕ)
      → Agrees m o
      → ((t : Translation V C S) → Agrees (f t) (next (length t.methods)))
      → Agrees (m >>= f) (nest_on o next)
  unfolding Agrees nest_on
  Agrees-bind (err e) o f next (inl refused) g = inl (rw refused refl)
  Agrees-bind (err e) o f next (inr thrown) g = inr thrown
  Agrees-bind (ok t) o f next h g = rw h (g t)

  -- What a method made, in one place or another.
  made_Agrees :
      (made : Result (Option S × C × ℕ)) (line_num : ℕ)
      (next : Option S × C × ℕ → Translation V C S) (o : Option ℕ)
      → ((e : Error) → made ≡ err e → FromMethod (located line_num e))
      → ((r : Option S × C × ℕ) → o ≡ some (length (next r).methods))
      → Agrees (rethrow line_num made >>= λ r. ok (next r)) o
  unfolding rethrow Agrees
  made_Agrees (err e) line_num next o thrown reached = inr (thrown e refl)
  made_Agrees (ok r) line_num next o thrown reached = reached r

  single_in-Agrees :
      (m : Method) (line_num : ℕ) (line : List (Token V)) (methods : List Method)
      (s : Translation V C S)
      → s.methods ≡ methods
      → Agrees
          (single_in env false m line_num line methods s)
          (nest_type single (is_end m) (length methods))
  unfolding single_in Agrees nest_type translate_now close_block defer_line preprocess_if_raw
      close_scope rethrow
  single_in-Agrees m line_num line [] s at = elim (Bool-cases (is_end m)) [
    | inl ends ↦ rw ends (inl refl)
    | inr other ↦ rw other (
        made_Agrees (env.translate m s.context s.loop_depth (line ∷ [])) line_num _ (some 0)
          (λ e. by_translate line_num m s.context s.loop_depth (line ∷ []) e)
          (λ r. ap (λ ms. some (length ms)) (sym at)))
  ]
  single_in-Agrees m line_num line (top ∷ []) s at = elim (Bool-cases (is_end m)) [
    | inl ends ↦ rw ends (
        made_Agrees (env.translate_end m top s.context s.loop_depth s.tmp line) s.method_line_num _
          (some 0)
          (λ e. by_translate_end s.method_line_num m top s.context s.loop_depth s.tmp line e)
          (λ r. refl))
    | inr other ↦ rw other (ap (λ ms. some (length ms)) (sym at))
  ]
  single_in-Agrees m line_num line (top ∷ next ∷ rest) s at = elim (Bool-cases (is_end m)) [
    | inl ends ↦ rw ends refl
    | inr other ↦ rw other (ap (λ ms. some (length ms)) (sym at))
  ]

  translate_type-Agrees :
      (type : MethodType) (m : Method) (line_num : ℕ) (line : List (Token V))
      (s : Translation V C S)
      → Agrees
          (translate_type env false type m line_num line s)
          (nest_type type (is_end m) (length s.methods))
  unfolding translate_type Agrees nest_type translate_single translate_block open_scope rethrow
  translate_type-Agrees null_method m line_num line s = inl refl
  translate_type-Agrees single m line_num line s = single_in-Agrees m line_num line s.methods s refl
  translate_type-Agrees block m line_num line s = refl
  translate_type-Agrees jit_command m line_num line s =
      made_Agrees (env.translate m s.context s.loop_depth (line ∷ [])) line_num _
        (some (length s.methods))
        (λ e. by_translate line_num m s.context s.loop_depth (line ∷ []) e) (λ r. refl)

  translate_line-Agrees :
      (line : List (Token V)) (s : Translation V C S)
      → Agrees
          (translate_line env false line s)
          (nest_tail (tail_line line) line (length s.methods))
  unfolding translate_line Agrees nest_tail nest_method process_if_raw rethrow
  translate_line-Agrees line s = elim (Result-cases (tail_line line)) [
    | inl (e, thrown) ↦ rw thrown (inl refl)
    | inr (n, returned) ↦ elim (Result-cases (match env.m_data line)) [
      | inl (e, unknown) ↦ rw (returned, unknown) (inl refl)
      | inr (m, known) ↦ rw (returned, known) (translate_type-Agrees (get_type m) m n line s)
    ]
  ]

  translate_loop-Agrees :
      (lines : List (List (Token V))) (s : Translation V C S)
      → Agrees (translate_loop env false lines s) (nest lines (length s.methods))
  unfolding translate_loop Agrees nest
  translate_loop-Agrees [] s = refl
  translate_loop-Agrees (line ∷ lines) s =
      Agrees-bind (translate_line env false line s)
        (nest_tail (tail_line line) line (length s.methods)) _ (nest lines)
        (translate_line-Agrees line s) (translate_loop-Agrees lines)

  -- What `translate` does behind the loop.
  abbrev close : Translation V C S → Result (Translation V C S)
  close s =
      if is_empty s.methods
      then ok s
      else err (compile_error "Missing 'end' to close the current block")

  empty-length : (methods : List Method) → is_empty methods ≡ true → length methods ≡ 0
  unfolding is_empty
  empty-length [] h = refl
  empty-length (m ∷ methods) h = absurd (ground (arith, h))

  length-empty : (methods : List Method) → length methods ≡ 0 → is_empty methods ≡ true
  unfolding is_empty
  length-empty [] h = refl
  length-empty (m ∷ methods) h = absurd (omega (arith, h))

  -- It returns only for lines that nest, and refuses such lines only for a method.
  unfoldable pub Verdict : Result (Translation V C S) → Option ℕ → Type 0
  Verdict (ok t) o = o ≡ some 0
  Verdict (err e) o = (¬ (o ≡ some 0)) ⊎ FromMethod e

  close-Verdict :
      (m : Result (Translation V C S)) (o : Option ℕ) → Agrees m o → Verdict (m >>= close) o
  unfolding Agrees Verdict
  close-Verdict (err e) o (inl refused) = inl (λ nested. absurd (ground (arith, refused, nested)))
  close-Verdict (err e) o (inr thrown) = inr thrown
  close-Verdict (ok s) o h = elim (Bool-cases (is_empty s.methods)) [
    | inl closed ↦ rw closed (h ∙ ap some (empty-length s.methods closed))
    | inr left ↦ rw left (
        inl (λ nested.
          ground (
            arith,
            left,
            length-empty s.methods (some_same (length s.methods) 0 (sym h ∙ nested)),
          )))
  ]

  -- Without the preprocessing of `code_gen`, `translate` returns only for programs whose lines all end properly
  -- and have a grammar, whose 'end' lines each close an open block, and whose blocks are all closed; and
  -- such a program it refuses only with the error that a method has thrown.
  pub translate_lines-nest :
      (lines : List (List (Token V))) (statements : List S) (loop_depth : ℕ) (context : C)
      → Verdict (translate_lines env false lines statements loop_depth context) (nest lines 0)
  unfolding translate_lines first_translation
  translate_lines-nest lines statements loop_depth context =
      close-Verdict
        (translate_loop env false lines (first_translation statements loop_depth context))
        (nest lines 0)
        (translate_loop-Agrees lines (first_translation statements loop_depth context))
