-- ===== src/Lexer/Preprocessor/Lines.antt =====
-- The preprocessor by lines: it does, character by character, what a reader does line by line.
use covscript.Prelude.{
  ℕ, true, false, List, [], ◌∷◌, ◌++◌, append_assoc, append-nil, bind_assoc, Result, ok, err,
  compile_error, ◌>>=◌, Bool-cases, inl, inr, ◌==◌, if◌then◌else◌, ◌≡◌, sym, ap, ◌∙◌,
}
use covscript.Prelude.Names.{Bytes}
use covscript.Syntax.Token.{Token}
use covscript.Lexer.Preprocessor.{
  Encoding, Preprocessor, PreEnv, process_endline, preprocess_loop, first_state, preprocessor,
}
use covscript.Lexer.Preprocessor.Reader.{
  command_line, code, lines, Progress, without_spaces, classify, empty, read_line, read_lines,
  inside, at_start, first_progress,
}
use covscript.Lexer.Preprocessor.Steps.{
  whole, go_on, restart, end_annotation, end_command, end_code, end_blank, whole-end, end_first,
  inner_first, step_to, in_annotation, in_command_space, in_command, in_code, at_space, at_hash,
  at_command, at_code,
}

module _ {V : Type 0} (env : PreEnv V) where
  -- What the class does with the rest of a text from each state in a line.
  module _ (text : Bytes) where
    record Claims : Type 0 where
      annotated :
          (p : Progress V)
          → whole env text (inside p true false true [] []) ≡ go_on env text (ok (empty p))
      commanded :
          (p : Progress V) (c : Bytes)
          → whole env text (inside p false true true c [])
            ≡ go_on env text
                (read_line env (command_line (c ++ without_spaces env (lines text).0)) p)
      coded :
          (p : Progress V) (b : Bytes)
          → whole env text (inside p false false false [] b)
            ≡ go_on env text (read_line env (code (b ++ (lines text).0)) p)
      started :
          (p : Progress V)
          → whole env text (at_start p)
            ≡ go_on env text (read_line env (classify env (lines text).0) p)

  end-Claims : Claims []
  unfolding restart lines read_lines read_line preprocess_loop classify without_spaces
  end-Claims = record {
    annotated = λ p. end_annotation env p;
    commanded = λ p c. rw (append-nil c) (end_command env p c);
    coded = λ p b. rw (append-nil b) (end_code env p b);
    started = λ p. end_blank env p;
  }

  newline-Claims : (ch : ℕ) (text : Bytes) → (ch == 10) ≡ true → Claims text → Claims (ch ∷ text)
  unfolding restart read_line classify without_spaces
  newline-Claims ch text at_end next = record {
    annotated = λ p.
        whole-end env ch text at_end (inside p true false true [] []) (ok (empty p))
          (end_annotation env p) next.started;
    commanded = λ p c.
        rw (end_first env ch text at_end, append-nil c)
          (whole-end env ch text at_end (inside p false true true c [])
            (read_line env (command_line c) p) (end_command env p c) next.started);
    coded = λ p b.
        rw (end_first env ch text at_end, append-nil b)
          (whole-end env ch text at_end (inside p false false false [] b) (read_line env (code b) p)
            (end_code env p b) next.started);
    started = λ p.
        rw (end_first env ch text at_end)
          (whole-end env ch text at_end (at_start p) (ok (empty p)) (end_blank env p) next.started);
  }

  char-commanded :
      (ch : ℕ) (text : Bytes)
      → (ch == 10) ≡ false
      → Claims text
      → (p : Progress V) (c : Bytes)
      → whole env (ch ∷ text) (inside p false true true c [])
        ≡ go_on env
            (ch ∷ text)
            (read_line env (command_line (c ++ without_spaces env (lines (ch ∷ text)).0)) p)
  unfolding without_spaces
  char-commanded ch text inner next p c =
      rw (inner_first env ch text inner) (elim (Bool-cases (env.isspace ch)) [
        | inl space ↦ rw space (
            step_to env ch text inner _ _ _ (in_command_space env ch text inner p c space)
              (next.commanded p c))
        | inr visible ↦
            rw (visible, sym (append_assoc c (ch ∷ []) (without_spaces env (lines text).0)))
              (step_to env ch text inner _ _ _ (in_command env ch text inner p c visible)
                (next.commanded p (c ++ ch ∷ [])))
      ])

  char-coded :
      (ch : ℕ) (text : Bytes)
      → (ch == 10) ≡ false
      → Claims text
      → (p : Progress V) (b : Bytes)
      → whole env (ch ∷ text) (inside p false false false [] b)
        ≡ go_on env (ch ∷ text) (read_line env (code (b ++ (lines (ch ∷ text)).0)) p)
  char-coded ch text inner next p b =
      rw (inner_first env ch text inner, sym (append_assoc b (ch ∷ []) (lines text).0))
        (step_to env ch text inner _ _ _ (in_code env ch text inner p b)
          (next.coded p (b ++ ch ∷ [])))

  char-started :
      (ch : ℕ) (text : Bytes)
      → (ch == 10) ≡ false
      → Claims text
      → (p : Progress V)
      → whole env (ch ∷ text) (at_start p)
        ≡ go_on env (ch ∷ text) (read_line env (classify env (lines (ch ∷ text)).0) p)
  unfolding classify read_line
  char-started ch text inner next p =
      rw (inner_first env ch text inner) (elim (Bool-cases (env.isspace ch)) [
        | inl space ↦
            rw space (
              step_to env ch text inner _ _ _ (at_space env ch text inner p space) (next.started p))
        | inr visible ↦ elim (Bool-cases (ch == 35)) [
          | inl hash ↦
              rw (visible, hash)
                (step_to env ch text inner _ _ _ (at_hash env ch text inner p visible hash)
                  (next.annotated p))
          | inr no_hash ↦ elim (Bool-cases (ch == 64)) [
            | inl at ↦
                rw (visible, no_hash, at)
                  (step_to env ch text inner _ _ _
                    (at_command env ch text inner p visible no_hash at) (next.commanded p []))
            | inr no_at ↦
                rw (visible, no_hash, no_at)
                  (step_to env ch text inner _ _ _
                    (at_code env ch text inner p visible no_hash no_at) (next.coded p (ch ∷ [])))
          ]
        ]
      ])

  char-Claims : (ch : ℕ) (text : Bytes) → (ch == 10) ≡ false → Claims text → Claims (ch ∷ text)
  char-Claims ch text inner next = record {
    annotated =
        λ p. step_to env ch text inner _ _ _ (in_annotation env ch text inner p) (next.annotated p);
    commanded = char-commanded ch text inner next;
    coded = char-coded ch text inner next;
    started = char-started ch text inner next;
  }

  all-Claims : (text : Bytes) → Claims text
  all-Claims [] = end-Claims
  all-Claims (ch ∷ text) = elim (Bool-cases (ch == 10)) [
    | inl at_end ↦ newline-Claims ch text at_end (all-Claims text)
    | inr inner ↦ char-Claims ch text inner (all-Claims text)
  ]

  -- What the constructor checks at the end.
  abbrev close : Preprocessor V → Result (Preprocessor V)
  close t =
      if t.settings.multi_line
      then err (compile_error "Missing '@end' command to close the multi-line statement")
      else ok t

  restart-close :
      (m : Result (Progress V)) → (restart env m >>= close) ≡ (m >>= λ p. close (at_start p))
  unfolding restart lines read_lines
  restart-close m = bind_assoc m (λ p. ok (at_start p)) close

  close_all :
      (text : Bytes) (m : Result (Progress V))
      → (go_on env text m >>= close)
        ≡ ((m >>= λ p. read_lines env (lines text).1 p) >>= λ p. close (at_start p))
  unfolding restart lines read_lines
  close_all text m =
      ap (λ r. r >>= close)
        (sym (bind_assoc m (λ p. read_lines env (lines text).1 p) (λ q. ok (at_start q))))
      ∙ restart-close (m >>= λ p. read_lines env (lines text).1 p)

  -- The preprocessor, which goes character by character, does what reading line by line does: of each line the
  -- leading spaces are dropped, '#' makes a comment and '@' a command of it without its spaces, a line of
  -- code goes to the lexer, and at the end no block may be open.
  pub preprocessor-lines :
      (text : Bytes) (tokens : List (Token V)) (encoding : Encoding)
      → preprocessor env text tokens encoding ≡ (
          read_lines env ((lines text).0 ∷ (lines text).1) (first_progress tokens encoding) >>= λ p.
          if p.settings.multi_line
          then err (compile_error "Missing '@end' command to close the multi-line statement")
          else ok (at_start p))
  unfolding preprocessor first_state read_lines
  preprocessor-lines text tokens encoding =
      sym (
        bind_assoc (preprocess_loop env text (first_state env tokens encoding))
          (process_endline env) close)
      ∙ ap (λ r. r >>= close) ((all-Claims text).started (first_progress tokens encoding))
      ∙ close_all text
          (read_line env (classify env (lines text).0) (first_progress tokens encoding))
