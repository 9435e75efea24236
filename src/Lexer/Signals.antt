-- ===== src/Lexer/Signals.antt =====
-- `signal_map` and `signals` of sources/compiler/compiler.cpp, and the loop of
-- `process_char_buff` (sources/compiler/lexer.cpp) that splits a run of signal characters.
-- Characters are by their ASCII codes.
pub mod Pieces
use covscript.Prelude.{
  ℕ, Bool, true, false, ◌||◌, List, [], ◌∷◌, ◌++◌, Option, none, some, Result, ok, err, ◌>>=◌, ◌==◌,
}
use covscript.Prelude.Names.{Bytes, find}
use covscript.Syntax.Signal.{
  Signal, match_entry, abo_, add_, addasi_, addr_, aeq_, and_, arrow_, asi_, choice_, com_, dec_,
  div_, divasi_, dot_, elb_, emb_, endline_, equ_, error_, esb_, inc_, llb_, lnkasi_, lrb_, mlb_,
  mod_, modasi_, mrb_, mul_, mulasi_, neq_, not_, or_, pair_, pow_, powasi_, slb_, srb_, sub_,
  subasi_, ueq_, und_, vargs_,
}
use covscript.Syntax.Token.{Token, signal}

abbrev pub signal_map : List (Bytes × Signal)
signal_map =
    (59 ∷ [], endline_)
    ∷ (43 ∷ [], add_)
    ∷ (43 ∷ 61 ∷ [], addasi_)
    ∷ (45 ∷ [], sub_)
    ∷ (45 ∷ 61 ∷ [], subasi_)
    ∷ (42 ∷ [], mul_)
    ∷ (42 ∷ 61 ∷ [], mulasi_)
    ∷ (47 ∷ [], div_)
    ∷ (47 ∷ 61 ∷ [], divasi_)
    ∷ (37 ∷ [], mod_)
    ∷ (37 ∷ 61 ∷ [], modasi_)
    ∷ (94 ∷ [], pow_)
    ∷ (94 ∷ 61 ∷ [], powasi_)
    ∷ (62 ∷ [], abo_)
    ∷ (60 ∷ [], und_)
    ∷ (61 ∷ [], asi_)
    ∷ (58 ∷ 61 ∷ [], lnkasi_)
    ∷ (38 ∷ [], addr_)
    ∷ (124 ∷ [], error_)
    ∷ (38 ∷ 38 ∷ [], and_)
    ∷ (124 ∷ 124 ∷ [], or_)
    ∷ (33 ∷ [], not_)
    ∷ (61 ∷ 61 ∷ [], equ_)
    ∷ (33 ∷ 61 ∷ [], neq_)
    ∷ (62 ∷ 61 ∷ [], aeq_)
    ∷ (60 ∷ 61 ∷ [], ueq_)
    ∷ (40 ∷ [], slb_)
    ∷ (41 ∷ [], srb_)
    ∷ (91 ∷ [], mlb_)
    ∷ (93 ∷ [], mrb_)
    ∷ (123 ∷ [], llb_)
    ∷ (125 ∷ [], lrb_)
    ∷ (44 ∷ [], com_)
    ∷ (46 ∷ [], dot_)
    ∷ (40 ∷ 41 ∷ [], esb_)
    ∷ (91 ∷ 93 ∷ [], emb_)
    ∷ (123 ∷ 125 ∷ [], elb_)
    ∷ (43 ∷ 43 ∷ [], inc_)
    ∷ (45 ∷ 45 ∷ [], dec_)
    ∷ (58 ∷ [], pair_)
    ∷ (63 ∷ [], choice_)
    ∷ (45 ∷ 62 ∷ [], arrow_)
    ∷ (46 ∷ 46 ∷ [], error_)
    ∷ (46 ∷ 46 ∷ 46 ∷ [], vargs_)
    ∷ []

abbrev pub signals : List ℕ
signals =
    43 ∷ 45 ∷ 42 ∷ 47 ∷ 37 ∷ 94 ∷ 44 ∷ 46 ∷ 62 ∷ 60 ∷ 61 ∷ 38 ∷ 124 ∷ 33 ∷ 40 ∷ 41 ∷ 91 ∷ 93 ∷ 123
    ∷ 125 ∷ 58 ∷ 63 ∷ 59 ∷ []

-- `set_t::count` of one character.
pub contains : ℕ → List ℕ → Bool
contains ch [] = false
contains ch (c ∷ cs) = c == ch || contains ch cs

unfoldable pub issignal : ℕ → Bool
unfolding contains
issignal ch = contains ch signals

module _ {V : Type 0} where
  -- The loop over `tmp`, and the signal that is left after it.
  unfoldable pub split_loop :
      (List ℕ → Bytes) → List ℕ → List ℕ → List (Token V) → Result (List (Token V))
  unfolding find match_entry
  split_loop wide2local [] [] tokens = ok tokens
  split_loop wide2local [] (c ∷ sig) tokens =
      match_entry (find (wide2local (c ∷ sig)) signal_map) >>= λ s. ok (tokens ++ signal s ∷ [])
  split_loop wide2local (ch ∷ tmp) sig tokens =
      let longer = split_loop wide2local tmp (sig ++ ch ∷ []) tokens in
      let apart = λ (s : Signal). split_loop wide2local tmp (ch ∷ []) (tokens ++ signal s ∷ []) in
      elim (find (wide2local (sig ++ ch ∷ [])) signal_map) [
        | some _ ↦ longer
        | none ↦ match_entry (find (wide2local sig) signal_map) >>= apart
      ]

  unfoldable pub split_signals :
      (List ℕ → Bytes) → List ℕ → List (Token V) → Result (List (Token V))
  unfolding split_loop
  split_signals wide2local tmp tokens = split_loop wide2local tmp [] tokens
