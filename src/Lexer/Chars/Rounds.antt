-- ===== src/Lexer/Chars/Rounds.antt =====
-- Each round of the loop lowers the measure.
use covscript.Prelude.{
  ℕ, ◌+◌, ◌*◌, ◌<◌, Bool, true, false, ◌||◌, List, [], ◌∷◌, ◌++◌, length, Option, none, some,
  Result, ok, err, Error, ok-injective, ◌>>=◌, bind-eq-ok, Bool-cases, inl, inr, ◌==◌,
  if◌then◌else◌, ◌≡◌, subst, ◌∙◌, arith,
}
use covscript.Syntax.Token.{Token}
use covscript.Lexer.Signals.{issignal}
use covscript.Lexer.Chars.{
  CharMode, null_mode, id_mode, literal_mode, signal_mode, value_mode, Scan, CharEnv, char_round,
  continues, flush, dispatch, quoted, close_char, close_str, finish_token,
}
use covscript.Lexer.Chars.Measure.{
  mode_rounds, rounds, rounds-le, going, going-injective, used_lem, outside,
}

module _ {V : Type 0} (env : CharEnv V) where
  boundary_lem :
      (tmp : List ℕ) (mode : CharMode) (escape : Bool) (tokens : List (Token V)) (s' : Scan V)
      (ch : ℕ) (buff buff' : List ℕ)
      → (flush env (outside env tmp mode escape tokens) >>= λ s''. going env s'' (ch ∷ buff))
        ≡ going env s' buff'
      → rounds env s' buff' ≡ 4 + length buff * 3
  unfolding rounds flush mode_rounds
  boundary_lem tmp mode escape tokens s' ch buff buff' h =
      let s = outside env tmp mode escape tokens in
      let (s'', flushed, e) =
        bind-eq-ok (flush env s) (λ s''. going env s'' (ch ∷ buff)) {t = some (s', buff')} h in
      let (tokens', _, e') =
        bind-eq-ok (finish_token env s) (λ tokens'. ok (outside env [] null_mode escape tokens'))
          {t = s''} flushed in
      let same = going-injective env s'' s' (ch ∷ buff) buff' e in
      subst (λ b. rounds env s' b ≡ 4 + length buff * 3) same.1
        (subst (λ u. rounds env u (ch ∷ buff) ≡ 4 + length buff * 3) (ok-injective _ _ e' ∙ same.0)
          (omega arith))

  abbrev dispatched : Scan V → Bool → Result (Scan V × Bool)
  dispatched s used = ok (s, used)

  not_used : (a s' : Scan V) → dispatched a true ≡ dispatched s' false → ⊥
  not_used a s' h = cc

  skip_lem :
      (c : Bool) (a s' : Scan V) (rest : Result (Scan V × Bool))
      → (if c then ok (a, true) else rest) ≡ ok (s', false)
      → rest ≡ ok (s', false)
  skip_lem true a s' rest h = absurd (not_used a s' h)
  skip_lem false a s' rest h = h

  take_lem :
      (c : Bool) (a s' : Scan V) (rest : Result (Scan V × Bool))
      → c ≡ true
      → (if c then ok (a, false) else rest) ≡ ok (s', false)
      → a ≡ s'
  take_lem true a s' rest e h = cc
  take_lem false a s' rest e h = absurd cc

  drop_lem :
      (c : Bool) (a s' : Scan V) (rest : Result (Scan V × Bool))
      → c ≡ false
      → (if c then ok (a, false) else rest) ≡ ok (s', false)
      → rest ≡ ok (s', false)
  drop_lem true a s' rest e h = absurd cc
  drop_lem false a s' rest e h = h

  not_thrown : {e : Error} {p : Scan V × Bool} → err e ≡ ok p → ⊥
  not_thrown h = cc

  dispatch_lem :
      (tmp : List ℕ) (escape : Bool) (tokens : List (Token V)) (s' : Scan V) (ch : ℕ)
      (buff : List ℕ)
      → dispatch env ch (outside env tmp null_mode escape tokens) ≡ ok (s', false)
      → rounds env s' (ch ∷ buff) ≡ 3 + length buff * 3
  unfolding rounds dispatch mode_rounds continues
  dispatch_lem tmp escape tokens s' ch buff h =
      let start = λ (mode : CharMode). outside env tmp mode escape tokens in
      let own =
        skip_lem (ch == 65279 || env.iswspace ch) _ s' _
          (skip_lem (ch == 39) _ s' _ (skip_lem (ch == 34) _ s' _ h)) in
      elim (Bool-cases (issignal ch)) [
        | inl sign ↦
            subst (λ u. rounds env u (ch ∷ buff) ≡ 3 + length buff * 3)
              (take_lem (issignal ch) (start signal_mode) s' _ sign own) (rw sign (omega arith))
        | inr plain ↦
            let named = drop_lem (issignal ch) (start signal_mode) s' _ plain own in
            elim (Bool-cases (env.iswdigit ch)) [
              | inl digit ↦
                  subst (λ u. rounds env u (ch ∷ buff) ≡ 3 + length buff * 3)
                    (take_lem (env.iswdigit ch) (start value_mode) s' _ digit named)
                    (rw digit (omega arith))
              | inr letter ↦
                  let last = drop_lem (env.iswdigit ch) (start value_mode) s' _ letter named in
                  elim (Bool-cases (env.cvt.is_identifier ch)) [
                    | inl name ↦
                        subst (λ u. rounds env u (ch ∷ buff) ≡ 3 + length buff * 3)
                          (take_lem (env.cvt.is_identifier ch) (start id_mode) s' _ name last)
                          (rw (plain, name) (omega arith))
                    | inr unknown ↦ absurd (
                        not_thrown
                          (drop_lem (env.cvt.is_identifier ch) (start id_mode) s' _ unknown last))
                  ]
            ]
      ]

  -- A character of a token, or the end of the token before it.
  token_lem :
      (tmp : List ℕ) (mode : CharMode) (escape : Bool) (tokens : List (Token V)) (s' : Scan V)
      (ch : ℕ) (buff buff' : List ℕ) (c : Bool)
      → (if c
          then going env (outside env (tmp ++ ch ∷ []) mode escape tokens) buff
          else flush env (outside env tmp mode escape tokens) >>= λ s''. going env s'' (ch ∷ buff))
        ≡ going env s' buff'
      → rounds env s' buff' < 3 + length buff * 3 + (if c then 0 else 2)
  token_lem tmp mode escape tokens s' ch buff buff' true h =
      subst (λ b. rounds env s' b < 3 + length buff * 3 + 0)
        ((going-injective env (outside env (tmp ++ ch ∷ []) mode escape tokens) s' buff buff' h).1)
        (omega (arith, rounds-le env s' buff))
  token_lem tmp mode escape tokens s' ch buff buff' false h =
      omega (arith, boundary_lem tmp mode escape tokens s' ch buff buff' h)

  null_lem :
      (tmp : List ℕ) (escape : Bool) (tokens : List (Token V)) (s' : Scan V) (ch : ℕ)
      (buff buff' : List ℕ)
      → (dispatch env ch (outside env tmp null_mode escape tokens) >>= λ (s'', used).
          going env s'' (if used then buff else ch ∷ buff))
        ≡ going env s' buff'
      → rounds env s' buff' < 4 + length buff * 3
  null_lem tmp escape tokens s' ch buff buff' h =
      let ((s'', used), sent, e) =
        bind-eq-ok (dispatch env ch (outside env tmp null_mode escape tokens))
          (λ (s'', used). going env s'' (if used then buff else ch ∷ buff)) {t = some (s', buff')}
          h in
      go s'' used sent e
    where
      go :
          (s'' : Scan V) (used : Bool)
          → dispatch env ch (outside env tmp null_mode escape tokens) ≡ ok (s'', used)
          → going env s'' (if used then buff else ch ∷ buff) ≡ going env s' buff'
          → rounds env s' buff' < 4 + length buff * 3
      go s'' true sent e =
          subst (λ b. rounds env s' b < 4 + length buff * 3)
            ((going-injective env s'' s' buff buff' e).1) (omega (arith, rounds-le env s' buff))
      go s'' false sent e =
          let same = going-injective env s'' s' (ch ∷ buff) buff' e in
          subst (λ b. rounds env s' b < 4 + length buff * 3) same.1
            (subst (λ u. rounds env u (ch ∷ buff) < 4 + length buff * 3) same.0
              (omega (arith, dispatch_lem tmp escape tokens s'' ch buff sent)))

  comment_lem :
      (c : Bool) (rest : Result (Option (Scan V × List ℕ))) (s' : Scan V) (buff' : List ℕ)
      → (if c then ok none else rest) ≡ going env s' buff'
      → rest ≡ going env s' buff'
  comment_lem true rest s' buff' h = absurd cc
  comment_lem false rest s' buff' h = h

  pub round_lem :
      (tmp : List ℕ) (mode : CharMode) (inside_char inside_str escape : Bool)
      (tokens : List (Token V)) (s' : Scan V) (ch : ℕ) (buff buff' : List ℕ)
      → let s : Scan V = record {
        tmp = tmp;
        mode = mode;
        inside_char = inside_char;
        inside_str = inside_str;
        escape = escape;
        tokens = tokens;
      } in
        char_round env ch buff s ≡ going env s' buff'
        → rounds env s' buff' < rounds env s (ch ∷ buff)
  unfolding char_round rounds mode_rounds
  round_lem tmp mode true inside_str escape tokens s' ch buff buff' h =
      let s : Scan V = record {
        tmp = tmp;
        mode = mode;
        inside_char = true;
        inside_str = inside_str;
        escape = escape;
        tokens = tokens;
      } in
      omega (arith, used_lem env (quoted 39 ch (close_char env s) s) buff buff' s' h)
  round_lem tmp mode false true escape tokens s' ch buff buff' h =
      let s : Scan V = record {
        tmp = tmp;
        mode = mode;
        inside_char = false;
        inside_str = true;
        escape = escape;
        tokens = tokens;
      } in
      omega (arith, used_lem env (quoted 34 ch (ok (close_str env buff s)) s) buff buff' s' h)
  round_lem tmp null_mode false false escape tokens s' ch buff buff' h =
      omega
        (arith, null_lem tmp escape tokens s' ch buff buff' (comment_lem (ch == 35) _ s' buff' h))
  round_lem tmp id_mode false false escape tokens s' ch buff buff' h =
      token_lem tmp id_mode escape tokens s' ch buff buff' (continues env id_mode ch)
        (comment_lem (ch == 35) _ s' buff' h)
  round_lem tmp literal_mode false false escape tokens s' ch buff buff' h =
      token_lem tmp literal_mode escape tokens s' ch buff buff' (continues env literal_mode ch)
        (comment_lem (ch == 35) _ s' buff' h)
  round_lem tmp signal_mode false false escape tokens s' ch buff buff' h =
      token_lem tmp signal_mode escape tokens s' ch buff buff' (continues env signal_mode ch)
        (comment_lem (ch == 35) _ s' buff' h)
  round_lem tmp value_mode false false escape tokens s' ch buff buff' h =
      token_lem tmp value_mode escape tokens s' ch buff buff' (continues env value_mode ch)
        (comment_lem (ch == 35) _ s' buff' h)
