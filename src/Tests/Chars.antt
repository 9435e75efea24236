-- ===== src/Tests/Chars.antt =====
-- The line `ab+=12 'c' #x`.
use covscript.Prelude.{
  ℕ, ◌+◌, ◌*◌, ◌-◌, ◌<◌, ◌&&◌, leb, ◌==◌, List, [], ◌∷◌, length, Result, ok, ◌>>=◌, ◌≡◌, refl,
  arith,
}
use covscript.Prelude.Names.{Bytes}
use covscript.Syntax.Signal.{addasi_}
use covscript.Syntax.Token.{id, value, signal}
use covscript.Lexer.Charset.{ascii}
use covscript.Lexer.Signals.{issignal}
use covscript.Lexer.Chars.{Scan, CharEnv, process_char_buff, first_scan, finish}
use covscript.Lexer.Chars.Total.{Runs, process_char_buff-Runs}

abbrev number : ℕ → Bytes → ℕ
number n [] = n
number n (c ∷ text) = number (n * 10 + (c - 48)) text

abbrev env : CharEnv ℕ
env = record {
  cvt = ascii (λ c. leb 97 c && leb c 122);
  iswspace = λ c. c == 32;
  iswdigit = λ c. leb 48 c && leb c 57;
  local_namespace = 1;
  global_namespace = 2;
  null_pointer = 3;
  true_value = 4;
  false_value = 5;
  new_char = λ c. c;
  new_string = λ text. length text;
  parse_number = λ text. ok (number 0 text);
}

abbrev raw : Bytes
raw = 98 ∷ 43 ∷ 61 ∷ 49 ∷ 50 ∷ 32 ∷ 39 ∷ 99 ∷ 39 ∷ 32 ∷ 35 ∷ 120 ∷ []

abbrev wide : List ℕ
wide = 97 ∷ 98 ∷ 43 ∷ 61 ∷ 49 ∷ 50 ∷ 32 ∷ 39 ∷ 99 ∷ 39 ∷ 32 ∷ 35 ∷ 120 ∷ []

lexes_line :
    process_char_buff env 50 (97 ∷ raw) []
    ≡ ok (id (97 ∷ 98 ∷ []) ∷ signal addasi_ ∷ value 12 ∷ value 99 ∷ [])
unfolding process_char_buff ascii issignal
lexes_line = refl

decoded : env.cvt.local2wide (97 ∷ raw) ≡ ok wide
unfolding ascii
decoded = refl

enough : length wide * 3 + 2 < 50
enough = omega arith

process_char_buff-Runs_example :
    (r : Result (Scan ℕ)) × Runs env wide (first_scan []) r
    × (process_char_buff env 50 (97 ∷ raw) [] ≡ (r >>= λ s. finish env s))
process_char_buff-Runs_example = process_char_buff-Runs env 50 97 raw wide [] decoded enough
