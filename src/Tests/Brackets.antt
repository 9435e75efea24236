-- ===== src/Tests/Brackets.antt =====
-- Brackets: `f ( a , [ b ] , ( ) )`.
use covscript.Prelude.{ℕ, List, [], ◌∷◌, ok, err, out_of_fuel, ◌↔◌, ◌≡◌, ◌≢◌, refl, arith}
use covscript.Syntax.Signal.{com_, slb_, srb_, mlb_, mrb_, esb_}
use covscript.Syntax.Token.{Token, value, signal, sblist, mblist, of_lists}
use covscript.Lexer.Brackets.{process_empty_brackets, process_brackets, mismatch, middle, unclosed}
use covscript.Lexer.Brackets.Balance.{Balanced, process_empty_brackets-Balanced}
use covscript.Lexer.Brackets.Spell.{spell}
use covscript.Lexer.Brackets.Boxes.{spell-process_brackets}
use covscript.Lexer.Brackets.Fuel.{process_brackets-fuel}

abbrev call : List (Token ℕ)
call =
    value 1
    ∷ signal slb_
    ∷ value 2
    ∷ signal com_
    ∷ signal mlb_
    ∷ value 3
    ∷ signal mrb_
    ∷ signal com_
    ∷ signal slb_
    ∷ signal srb_
    ∷ signal srb_
    ∷ []

abbrev boxed_call : List (Token ℕ)
boxed_call =
    value 1
    ∷ sblist (
        of_lists (
          (value 2 ∷ [])
          ∷ (mblist (of_lists ((value 3 ∷ []) ∷ [])) ∷ [])
          ∷ (signal esb_ ∷ [])
          ∷ []))
    ∷ []

process_call : process_brackets 12 call ≡ ok boxed_call
unfolding process_brackets of_lists
process_call = refl

errors :
    (process_brackets {V = ℕ} 5 (signal slb_ ∷ value 1 ∷ signal mrb_ ∷ []) ≡ err (mismatch middle))
    × (process_brackets {V = ℕ} 5 (signal slb_ ∷ value 1 ∷ []) ≡ err unclosed)
unfolding process_brackets
errors = (refl, refl)

process_empty_brackets-Balanced_example :
    ((out : List (Token ℕ)) × (process_empty_brackets call ≡ ok out))
    ↔ ((call ≢ []) × Balanced call)
process_empty_brackets-Balanced_example = process_empty_brackets-Balanced call

spell-process_brackets_example : spell boxed_call ≡ spell call
spell-process_brackets_example = spell-process_brackets 12 call boxed_call process_call

process_brackets-fuel_example : process_brackets 12 call ≢ err out_of_fuel
process_brackets-fuel_example = process_brackets-fuel 12 call (omega arith)
