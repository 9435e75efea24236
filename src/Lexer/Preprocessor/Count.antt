-- ===== src/Lexer/Preprocessor/Count.antt =====
-- How many lines the preprocessor keeps.
use covscript.Prelude.{
  ℕ, suc, ◌+◌, Bool, true, false, List, [], ◌∷◌, ok, err, compile_error, bind-eq-ok, ok-injective,
  Bool-cases, inl, inr, ◌==◌, if◌then◌else◌, length, length-append, ◌≡◌, refl, sym, subst, ◌∙◌,
  arith,
}
use covscript.Prelude.Names.{Bytes}
use covscript.Syntax.Token.{Token}
use covscript.Lexer.Preprocessor.{
  Encoding, Preprocessor, PreEnv, run_command, rethrow, preprocessor,
}
use covscript.Lexer.Preprocessor.Reader.{
  LineKind, blank, annotation, command_line, code, lines, Progress, classify, empty, read_line,
  read_lines, at_start, first_progress,
}
use covscript.Lexer.Preprocessor.Lines.{preprocessor-lines}

-- The ends of lines in a text.
unfoldable pub newlines : Bytes → ℕ
newlines [] = 0
newlines (ch ∷ text) = let n = newlines text in if ch == 10 then suc n else n

length-lines : (text : Bytes) → length (lines text).1 ≡ newlines text
unfolding lines newlines
length-lines [] = refl
length-lines (ch ∷ text) = elim (Bool-cases (ch == 10)) [
  | inl at_end ↦ rw (at_end, length-lines text) refl
  | inr inner ↦ rw (inner, length-lines text) refl
]

module _ {V : Type 0} (env : PreEnv V) where
  -- Both counts of lines grow by `n`.
  abbrev Grown : ℕ → Progress V → Progress V → Type 0
  Grown n p q = (length q.file_buff ≡ length p.file_buff + n) × (q.line_num ≡ p.line_num + n)

  Grown-returned : (n : ℕ) (p t q : Progress V) → Grown n p t → ok t ≡ ok q → Grown n p q
  Grown-returned n p t q grown returned = subst (λ x. Grown n p x) (ok-injective t q returned) grown

  read_line-Grown : (kind : LineKind) (p q : Progress V) → read_line env kind p ≡ ok q → Grown 1 p q
  unfolding read_line
  read_line-Grown blank p q returned =
      Grown-returned _ p (empty p) q (length-append p.file_buff ([] ∷ []), omega arith) returned
  read_line-Grown annotation p q returned =
      Grown-returned _ p (empty p) q (length-append p.file_buff ([] ∷ []), omega arith) returned
  read_line-Grown (command_line name) p q returned =
      let ran =
        bind-eq-ok (run_command env name p.line_num p.last_line_num p.settings) _ returned in
      Grown-returned _ p _ q (length-append p.file_buff ([] ∷ []), omega arith) ran.2
  read_line-Grown (code text) p q returned =
      let lexed =
        bind-eq-ok
          (rethrow p.line_num (env.process_char_buff text p.settings.tokens p.settings.encoding)) _
          returned in
      Grown-returned _ p _ q (length-append p.file_buff (text ∷ []), omega arith) lexed.2

  read_lines-Grown :
      (texts : List Bytes) (p q : Progress V)
      → read_lines env texts p ≡ ok q
      → Grown (length texts) p q
  unfolding read_lines
  read_lines-Grown [] p q returned = Grown-returned _ p p q (omega arith, omega arith) returned
  read_lines-Grown (text ∷ texts) p q returned =
      let both =
        bind-eq-ok (read_line env (classify env text) p) (λ t. read_lines env texts t) returned in
      let one = read_line-Grown (classify env text) p both.0 both.1 in
      let rest = read_lines-Grown texts both.0 q both.2 in
      (omega (arith, one.0, rest.0), omega (arith, one.1, rest.1))

  closed_if :
      (b : Bool) (p : Progress V) (t : Preprocessor V)
      → (if b
          then err (compile_error "Missing '@end' command to close the multi-line statement")
          else ok (at_start p))
        ≡ ok t
      → (b ≡ false) × (at_start p ≡ t)
  closed_if true p t returned = absurd (ground (arith, returned))
  closed_if false p t returned = (refl, ok-injective (at_start p) t returned)

  -- If the preprocessor returns, it has kept an entry for every line of the text, code or not, the
  -- number of the next line is one more than their number, and no block is open.
  pub preprocessor-newlines :
      (text : Bytes) (tokens : List (Token V)) (encoding : Encoding) (t : Preprocessor V)
      → preprocessor env text tokens encoding ≡ ok t
      → (length t.file_buff ≡ suc (newlines text))
        × (t.line_num ≡ suc (suc (newlines text)))
        × (t.settings.multi_line ≡ false)
  preprocessor-newlines text tokens encoding t returned =
      let read =
        bind-eq-ok
          (read_lines env ((lines text).0 ∷ (lines text).1) (first_progress tokens encoding)) _
          (sym (preprocessor-lines env text tokens encoding) ∙ returned) in
      let grown =
        read_lines-Grown ((lines text).0 ∷ (lines text).1) (first_progress tokens encoding) read.0
          read.1 in
      let last = closed_if read.0.settings.multi_line read.0 t read.2 in
      subst
        (λ u.
          (length u.file_buff ≡ suc (newlines text))
          × (u.line_num ≡ suc (suc (newlines text)))
          × (u.settings.multi_line ≡ false))
        last.1
        (
          omega (arith, grown.0, length-lines text),
          omega (arith, grown.1, length-lines text),
          last.0,
        )
