-- ===== src/Lexer/Chars/Measure.antt =====
-- How many rounds of the loop are left, at most: three for each character that is left, one of
-- them to finish the token before it, one to find the kind of its own, one to take it.
use covscript.Prelude.{
  ℕ, ◌+◌, ◌*◌, ◌<◌, ◌≤◌, Bool, false, ◌||◌, List, [], ◌∷◌, length, Option, some, Result, ok, ◌>>=◌,
  bind-eq-ok, if◌then◌else◌, ◌≡◌, subst, arith,
}
use covscript.Syntax.Token.{Token}
use covscript.Lexer.Chars.{
  CharMode, null_mode, id_mode, literal_mode, signal_mode, value_mode, Scan, CharEnv, continues,
}

module _ {V : Type 0} (env : CharEnv V) where
  -- The rounds before the next character is used up, less one.
  unfoldable pub mode_rounds : CharMode → ℕ → ℕ
  mode_rounds null_mode ch = 1
  mode_rounds mode ch = if continues env mode ch then 0 else 2

  unfoldable pub rounds : Scan V → List ℕ → ℕ
  unfolding mode_rounds
  rounds s [] = 0
  rounds s (ch ∷ buff) =
      3 + length buff * 3 + (if s.inside_char || s.inside_str then 0 else mode_rounds s.mode ch)

  mode_rounds-le : (mode : CharMode) (ch : ℕ) → mode_rounds mode ch ≤ 2
  unfolding mode_rounds
  mode_rounds-le null_mode ch = omega arith
  mode_rounds-le id_mode ch = ground (arith)
  mode_rounds-le literal_mode ch = ground (arith)
  mode_rounds-le signal_mode ch = ground (arith)
  mode_rounds-le value_mode ch = ground (arith)

  pub rounds-le : (s : Scan V) (buff : List ℕ) → rounds s buff ≤ length buff * 3 + 2
  unfolding rounds
  rounds-le s [] = omega arith
  rounds-le s (ch ∷ buff) = ground (arith, mode_rounds-le s.mode ch)

  abbrev pub going : Scan V → List ℕ → Result (Option (Scan V × List ℕ))
  going s buff = ok (some (s, buff))

  pub going-injective :
      (s s' : Scan V) (buff buff' : List ℕ)
      → going s buff ≡ going s' buff'
      → (s ≡ s') × (buff ≡ buff')
  going-injective s s' buff buff' h = (cc, cc)

  -- A round that used the character up.
  pub used_lem :
      (step : Result (Scan V)) (buff buff' : List ℕ) (s' : Scan V)
      → (step >>= λ s''. going s'' buff) ≡ going s' buff'
      → rounds s' buff' < 3 + length buff * 3
  used_lem step buff buff' s' h =
      let (s'', _, e) = bind-eq-ok step (λ s''. going s'' buff) {t = some (s', buff')} h in
      subst (λ b. rounds s' b < 3 + length buff * 3) ((going-injective s'' s' buff buff' e).1)
        (omega (arith, rounds-le s' buff))

  -- A state outside of quotes.
  abbrev pub outside : List ℕ → CharMode → Bool → List (Token V) → Scan V
  outside tmp mode escape tokens = record {
    tmp = tmp;
    mode = mode;
    inside_char = false;
    inside_str = false;
    escape = escape;
    tokens = tokens;
  }
