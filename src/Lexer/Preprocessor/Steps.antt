-- ===== src/Lexer/Preprocessor/Steps.antt =====
-- What the class preprocessor does with one character, and at the end of a line.
use covscript.Prelude.{
  ℕ, true, false, [], ◌∷◌, ◌++◌, bind_assoc, Result, ok, err, ◌>>=◌, Result-cases, inl, inr, ◌==◌,
  ◌≡◌, refl, sym, ◌∙◌,
}
use covscript.Prelude.Names.{Bytes}
use covscript.Lexer.Preprocessor.{
  Preprocessor, rethrow, PreEnv, new_empty_line, finish_command, run_command, process_line,
  process_endline, push_char, preprocess_char, preprocess_loop,
}
use covscript.Lexer.Preprocessor.Reader.{
  command_line, code, lines, Progress, classify, empty, read_line, read_lines, inside, at_start,
}

module _ {V : Type 0} (env : PreEnv V) where
  -- The loop, and the end of the last line.
  abbrev pub whole : Bytes → Preprocessor V → Result (Preprocessor V)
  unfolding preprocess_loop process_endline
  whole text s = preprocess_loop env text s >>= λ t. process_endline env t

  -- What lines are left to read after the current one.
  abbrev pub go_on : Bytes → Result (Progress V) → Result (Preprocessor V)
  unfolding read_lines lines
  go_on text current = current >>= λ p. read_lines env (lines text).1 p >>= λ q. ok (at_start q)

  unfoldable pub restart : Result (Progress V) → Result (Preprocessor V)
  restart current = current >>= λ p. ok (at_start p)

  pub end_annotation :
      (p : Progress V)
      → process_endline env (inside p true false true [] []) ≡ ok (at_start (empty p))
  unfolding process_endline new_empty_line
  end_annotation p = refl

  pub end_command :
      (p : Progress V) (c : Bytes)
      → process_endline env (inside p false true true c [])
        ≡ restart (read_line env (command_line c) p)
  unfolding process_endline finish_command new_empty_line restart read_line
  end_command p c = elim (Result-cases (run_command env c p.line_num p.last_line_num p.settings)) [
    | inl (e, thrown) ↦ rw thrown refl
    | inr (settings, returned) ↦ rw returned refl
  ]

  pub end_code :
      (p : Progress V) (b : Bytes)
      → process_endline env (inside p false false false [] b) ≡ restart (read_line env (code b) p)
  unfolding process_endline process_line restart read_line
  end_code p b =
      elim (Result-cases
        (rethrow p.line_num (env.process_char_buff b p.settings.tokens p.settings.encoding))) [
          | inl (e, thrown) ↦ rw thrown refl
          | inr (tokens, returned) ↦ rw returned refl
        ]

  pub end_blank : (p : Progress V) → process_endline env (at_start p) ≡ ok (at_start (empty p))
  unfolding process_endline new_empty_line
  end_blank p = refl

  module _ (ch : ℕ) (text : Bytes) (at_end : (ch == 10) ≡ true) where
    -- A line ends.
    pub whole-end :
        (s : Preprocessor V) (current : Result (Progress V))
        → process_endline env s ≡ restart current
        → ((p : Progress V)
            → whole text (at_start p) ≡ go_on text (read_line env (classify env (lines text).0) p))
        → whole (ch ∷ text) s ≡ go_on (ch ∷ text) current
    unfolding preprocess_loop preprocess_char lines read_lines restart
    whole-end s (err e) h next = rw (at_end, h) refl
    whole-end s (ok p) h next =
        rw (at_end, h)
          (next p
            ∙ sym (
                bind_assoc (read_line env (classify env (lines text).0) p)
                  (λ q. read_lines env (lines text).1 q) (λ q. ok (at_start q))))

    pub end_first : (lines (ch ∷ text)).0 ≡ []
    unfolding lines
    end_first = rw at_end refl

  module _ (ch : ℕ) (text : Bytes) (inner : (ch == 10) ≡ false) where
    -- A character stands in a line.
    pub whole-step :
        (s t : Preprocessor V)
        → preprocess_char env ch s ≡ ok t
        → whole (ch ∷ text) s ≡ whole text t
    unfolding preprocess_loop
    whole-step s t h = rw h refl

    pub inner_first : (lines (ch ∷ text)).0 ≡ ch ∷ (lines text).0
    unfolding lines
    inner_first = rw inner refl

    pub inner_rest :
        (current : Result (Progress V)) → go_on (ch ∷ text) current ≡ go_on text current
    unfolding lines go_on
    inner_rest current = rw inner refl

    pub step_to :
        (s t : Preprocessor V) (current : Result (Progress V))
        → preprocess_char env ch s ≡ ok t
        → whole text t ≡ go_on text current
        → whole (ch ∷ text) s ≡ go_on (ch ∷ text) current
    step_to s t current h g = whole-step s t h ∙ g ∙ sym (inner_rest current)

    pub in_annotation :
        (p : Progress V)
        → preprocess_char env ch (inside p true false true [] [])
          ≡ ok (inside p true false true [] [])
    unfolding preprocess_char
    in_annotation p = rw inner refl

    pub in_command_space :
        (p : Progress V) (c : Bytes)
        → env.isspace ch ≡ true
        → preprocess_char env ch (inside p false true true c [])
          ≡ ok (inside p false true true c [])
    unfolding preprocess_char
    in_command_space p c space = rw (inner, space) refl

    pub in_command :
        (p : Progress V) (c : Bytes)
        → env.isspace ch ≡ false
        → preprocess_char env ch (inside p false true true c [])
          ≡ ok (inside p false true true (c ++ ch ∷ []) [])
    unfolding preprocess_char
    in_command p c space = rw (inner, space) refl

    pub in_code :
        (p : Progress V) (b : Bytes)
        → preprocess_char env ch (inside p false false false [] b)
          ≡ ok (inside p false false false [] (b ++ ch ∷ []))
    unfolding preprocess_char push_char
    in_code p b = rw inner refl

    pub at_space :
        (p : Progress V)
        → env.isspace ch ≡ true
        → preprocess_char env ch (at_start p) ≡ ok (at_start p)
    unfolding preprocess_char push_char
    at_space p space = rw (inner, space) refl

    module _ (p : Progress V) (visible : env.isspace ch ≡ false) where
      pub at_hash :
          (ch == 35) ≡ true
          → preprocess_char env ch (at_start p) ≡ ok (inside p true false true [] [])
      unfolding preprocess_char
      at_hash h = rw (inner, visible, h) refl

      pub at_command :
          (ch == 35) ≡ false
          → (ch == 64) ≡ true
          → preprocess_char env ch (at_start p) ≡ ok (inside p false true true [] [])
      unfolding preprocess_char
      at_command h g = rw (inner, visible, h, g) refl

      pub at_code :
          (ch == 35) ≡ false
          → (ch == 64) ≡ false
          → preprocess_char env ch (at_start p) ≡ ok (inside p false false false [] (ch ∷ []))
      unfolding preprocess_char push_char
      at_code h g = rw (inner, visible, h, g) refl
