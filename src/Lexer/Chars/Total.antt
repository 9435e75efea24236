-- ===== src/Lexer/Chars/Total.antt =====
-- The loop of `process_char_buff` ends.
use covscript.Prelude.{
  ℕ, zero, suc, ◌+◌, ◌*◌, ◌<◌, List, [], ◌∷◌, length, none, some, Result, ok, err, Error, ◌>>=◌,
  Result-cases, inl, inr, ◌≡◌, refl, arith,
}
use covscript.Prelude.Names.{Bytes}
use covscript.Syntax.Token.{Token}
use covscript.Lexer.Chars.{
  Scan, CharEnv, char_round, char_loop, first_scan, process_char_buff, finish,
}
use covscript.Lexer.Chars.Measure.{rounds, rounds-le}
use covscript.Lexer.Chars.Rounds.{round_lem}

module _ {V : Type 0} (env : CharEnv V) where
  -- The rounds that lead from a state to what the loop returns or throws.
  pub data Runs : List ℕ → Scan V → Result (Scan V) → Type 0 where
    at_end : (s : Scan V) → Runs [] s (ok s)
    at_comment :
        (ch : ℕ) (buff : List ℕ) (s : Scan V)
        → char_round env ch buff s ≡ ok none
        → Runs (ch ∷ buff) s (ok s)
    throws :
        (ch : ℕ) (buff : List ℕ) (s : Scan V) (e : Error)
        → char_round env ch buff s ≡ err e
        → Runs (ch ∷ buff) s (err e)
    goes_on :
        (ch : ℕ) (buff buff' : List ℕ) (s s' : Scan V) (r : Result (Scan V))
        → char_round env ch buff s ≡ ok (some (s', buff'))
        → Runs buff' s' r
        → Runs (ch ∷ buff) s r

  char_loop-Runs :
      (fuel : ℕ) (buff : List ℕ) (s : Scan V)
      → rounds env s buff < fuel
      → Runs buff s (char_loop env fuel buff s)
  unfolding char_loop
  char_loop-Runs fuel [] s h = at_end s
  char_loop-Runs zero (ch ∷ buff) s h = absurd (omega arith)
  char_loop-Runs (suc fuel) (ch ∷ buff) s h = elim (Result-cases (char_round env ch buff s)) [
    | inl (e, thrown) ↦ rw (char_loop, thrown) (throws ch buff s e thrown)
    | inr (none, stopped) ↦ rw (char_loop, stopped) (at_comment ch buff s stopped)
    | inr (some (s', buff'), on) ↦
        let fewer =
          round_lem env s.tmp s.mode s.inside_char s.inside_str s.escape s.tokens s' ch buff buff'
            on in
        rw (char_loop, on)
          (goes_on ch buff buff' s s' (char_loop env fuel buff' s') on
            (char_loop-Runs fuel buff' s' (omega (arith, fewer, h))))
  ]

  -- Fuel for three rounds for each wide character, and two more, is enough: what the function
  -- returns or throws is what the rounds of its loop lead to, without a bound on their number.
  pub process_char_buff-Runs :
      (fuel c : ℕ) (raw_buff : Bytes) (wide : List ℕ) (tokens : List (Token V))
      → env.cvt.local2wide (c ∷ raw_buff) ≡ ok wide
      → length wide * 3 + 2 < fuel
      → (r : Result (Scan V)) × Runs wide (first_scan tokens) r
        × (process_char_buff env fuel (c ∷ raw_buff) tokens ≡ (r >>= λ s. finish env s))
  unfolding process_char_buff
  process_char_buff-Runs fuel c raw_buff wide tokens decoded enough = (
    char_loop env fuel wide (first_scan tokens),
    char_loop-Runs fuel wide (first_scan tokens)
        (omega (arith, rounds-le env (first_scan tokens) wide)),
    rw (process_char_buff, decoded) refl,
  )
