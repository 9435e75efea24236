-- ===== src/Lexer/Signals/Pieces.antt =====
-- A run of signal characters is cut into signals.
use covscript.Prelude.{
  ℕ, true, List, [], ◌∷◌, ◌++◌, append-nil, append_assoc, All, All-append, none, some, Option-cases,
  Bool-cases, inl, inr, ok, ◌==◌, ==_iff, ◌≡◌, refl, sym, ap, subst, ◌∙◌, arith,
}
use covscript.Prelude.Names.{Bytes, find}
use covscript.Syntax.Signal.{
  Signal, match_entry, abo_, add_, addr_, asi_, choice_, com_, div_, dot_, endline_, error_, llb_,
  lrb_, mlb_, mod_, mrb_, mul_, not_, pair_, pow_, slb_, srb_, sub_, und_,
}
use covscript.Syntax.Token.{Token, signal}
use covscript.Lexer.Signals.{signal_map, signals, contains, issignal, split_loop, split_signals}

-- The character alone is a signal.
abbrev Single : ℕ → Type 0
Single c = (s : Signal) × (find (c ∷ []) signal_map ≡ some s)

signals-Single : All Single signals
unfolding find
signals-Single = (
  (add_, refl),
  (
    (sub_, refl),
    (
      (mul_, refl),
      (
        (div_, refl),
        (
          (mod_, refl),
          (
            (pow_, refl),
            (
              (com_, refl),
              (
                (dot_, refl),
                (
                  (abo_, refl),
                  (
                    (und_, refl),
                    (
                      (asi_, refl),
                      (
                        (addr_, refl),
                        (
                          (error_, refl),
                          (
                            (not_, refl),
                            (
                              (slb_, refl),
                              (
                                (srb_, refl),
                                (
                                  (mlb_, refl),
                                  (
                                    (mrb_, refl),
                                    (
                                      (llb_, refl),
                                      (
                                        (lrb_, refl),
                                        ((pair_, refl), ((choice_, refl), ((endline_, refl), tt))),
                                      ),
                                    ),
                                  ),
                                ),
                              ),
                            ),
                          ),
                        ),
                      ),
                    ),
                  ),
                ),
              ),
            ),
          ),
        ),
      ),
    ),
  ),
)

contains-Single : (ch : ℕ) (cs : List ℕ) → All Single cs → contains ch cs ≡ true → Single ch
unfolding contains
contains-Single ch [] singles h = absurd cc
contains-Single ch (c ∷ cs) singles h = elim (Bool-cases (c == ch)) [
  | inl e ↦ subst Single ((==_iff c ch).0 e) singles.0
  | inr e ↦ contains-Single ch cs singles.1 (ground (arith, h, e))
]

-- A text with the signal that it spells.
abbrev pub IsPiece : Bytes × Signal → Type 0
IsPiece p = find p.0 signal_map ≡ some p.1

abbrev pub joined : List (Bytes × Signal) → Bytes
joined [] = []
joined (p ∷ pieces) = p.0 ++ joined pieces

-- The text would not be a signal with one more character of what follows.
abbrev pub NoLonger : Bytes → Bytes → Type 0
NoLonger text [] = Unit
NoLonger text (ch ∷ rest) = find (text ++ ch ∷ []) signal_map ≡ none

abbrev pub AreLongest : List (Bytes × Signal) → Type 0
AreLongest [] = Unit
AreLongest (p ∷ pieces) = NoLonger p.0 (joined pieces) × AreLongest pieces

pub signals_of : {V : Type 0} → List (Bytes × Signal) → List (Token V)
signals_of [] = []
signals_of (p ∷ pieces) = signal p.1 ∷ signals_of pieces

module _ {V : Type 0} (wide2local : List ℕ → Bytes) where
  -- The run that is left is cut, the first piece beginning with `sig`.
  abbrev Cut : Bytes → List ℕ → List (Token V) → Type 0
  Cut sig tmp tokens =
      (pieces : List (Bytes × Signal)) × All IsPiece pieces
      × AreLongest pieces
      × (joined pieces ≡ sig ++ tmp)
      × (split_loop wide2local tmp sig tokens ≡ ok (tokens ++ signals_of pieces))

  module _
      (keeps : (text : List ℕ) → All (λ c. issignal c ≡ true) text → wide2local text ≡ text) where
    split_loop-Cut :
        (tmp sig : List ℕ) (c : ℕ) (s : Signal) (tokens : List (Token V))
        → All (λ c. issignal c ≡ true) (c ∷ sig)
        → All (λ c. issignal c ≡ true) tmp
        → find (c ∷ sig) signal_map ≡ some s
        → Cut (c ∷ sig) tmp tokens
    unfolding split_loop match_entry signals_of issignal
    split_loop-Cut [] sig c s tokens all_sig all_tmp here = (
      (c ∷ sig, s) ∷ [],
      (here, tt),
      (tt, tt),
      refl,
      rw (split_loop, keeps (c ∷ sig) all_sig, here) refl,
    )
    split_loop-Cut (ch ∷ tmp) sig c s tokens all_sig all_tmp here =
        let all_longer =
          All-append (λ c. issignal c ≡ true) (c ∷ sig) (ch ∷ []) all_sig (all_tmp.0, tt) in
        elim (Option-cases (find (c ∷ sig ++ ch ∷ []) signal_map)) [
          | inr (s', there) ↦
              let (pieces, are_pieces, longest, same_text, returned) =
                split_loop-Cut tmp (sig ++ ch ∷ []) c s' tokens all_longer all_tmp.1 there in
              (
                pieces,
                are_pieces,
                longest,
                same_text ∙ append_assoc (c ∷ sig) (ch ∷ []) tmp,
                rw (split_loop, keeps (c ∷ sig ++ ch ∷ []) all_longer, there) returned,
              )
          | inl out ↦
              let (s', alone) = contains-Single ch signals signals-Single all_tmp.0 in
              let (pieces, are_pieces, longest, same_text, returned) =
                split_loop-Cut tmp [] ch s' (tokens ++ signal s ∷ []) (all_tmp.0, tt) all_tmp.1
                  alone in
              (
                (c ∷ sig, s) ∷ pieces,
                (here, are_pieces),
                (subst (NoLonger (c ∷ sig)) (sym same_text) out, longest),
                ap (λ text. (c ∷ sig) ++ text) same_text,
                rw
                    (
                      split_loop,
                      keeps (c ∷ sig ++ ch ∷ []) all_longer,
                      out,
                      keeps (c ∷ sig) all_sig,
                      here,
                    )
                    (returned
                      ∙ ap (λ l. ok l) (append_assoc tokens (signal s ∷ []) (signals_of pieces))),
              )
        ]

-- A run of signal characters never fails to be split, in a character set that keeps them: it is
-- cut, without loss, into pieces that spell signals, each as long as it can be made character by
-- character, whose tokens are added in order.
pub split_signals-joined :
    {V : Type 0} (wide2local : List ℕ → Bytes) (tmp : List ℕ) (tokens : List (Token V))
    → ((text : List ℕ) → All (λ c. issignal c ≡ true) text → wide2local text ≡ text)
    → All (λ c. issignal c ≡ true) tmp
    → (pieces : List (Bytes × Signal)) × All IsPiece pieces
      × AreLongest pieces
      × (joined pieces ≡ tmp)
      × (split_signals wide2local tmp tokens ≡ ok (tokens ++ signals_of pieces))
unfolding split_signals split_loop issignal signals_of
split_signals-joined wide2local [] tokens keeps all_tmp =
    ([], tt, tt, refl, ap (λ l. ok l) (sym (append-nil tokens)))
split_signals-joined wide2local (ch ∷ tmp) tokens keeps all_tmp =
    let (s, alone) = contains-Single ch signals signals-Single all_tmp.0 in
    let (pieces, are_pieces, longest, same_text, returned) =
      split_loop-Cut wide2local keeps tmp [] ch s tokens (all_tmp.0, tt) all_tmp.1 alone in
    (
      pieces,
      are_pieces,
      longest,
      same_text,
      rw (split_loop, keeps (ch ∷ []) (all_tmp.0, tt), alone) returned,
    )
