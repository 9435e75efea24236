-- ===== src/Tests/Signals.antt =====
-- `a+=-b` and `f(...)`: runs of signal characters.
use covscript.Prelude.{ℕ, true, List, [], ◌∷◌, ◌++◌, All, ok, ◌≡◌, refl}
use covscript.Prelude.Names.{Bytes}
use covscript.Syntax.Signal.{Signal, addasi_, sub_, slb_, vargs_, srb_}
use covscript.Syntax.Token.{signal}
use covscript.Lexer.Signals.{issignal, split_signals}
use covscript.Lexer.Signals.Pieces.{IsPiece, AreLongest, joined, signals_of, split_signals-joined}

abbrev as_bytes : List ℕ → Bytes
as_bytes text = text

abbrev run : List ℕ
run = 40 ∷ 46 ∷ 46 ∷ 46 ∷ 41 ∷ []

split_run :
    split_signals {V = ℕ} as_bytes run [] ≡ ok (signal slb_ ∷ signal vargs_ ∷ signal srb_ ∷ [])
unfolding split_signals
split_run = refl

split_assignment :
    split_signals {V = ℕ} as_bytes (43 ∷ 61 ∷ 45 ∷ []) [] ≡ ok (signal addasi_ ∷ signal sub_ ∷ [])
unfolding split_signals
split_assignment = refl

run-issignal : All (λ c. issignal c ≡ true) run
unfolding issignal
run-issignal = (refl, (refl, (refl, (refl, (refl, tt)))))

as_bytes_lem : (text : List ℕ) → All (λ c. issignal c ≡ true) text → as_bytes text ≡ text
as_bytes_lem text h = refl

split_signals-joined_example :
    (pieces : List (Bytes × Signal)) × All IsPiece pieces
    × AreLongest pieces
    × (joined pieces ≡ run)
    × (split_signals {V = ℕ} as_bytes run [] ≡ ok ([] ++ signals_of pieces))
split_signals-joined_example = split_signals-joined as_bytes run [] as_bytes_lem run-issignal
