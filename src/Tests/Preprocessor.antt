-- ===== src/Tests/Preprocessor.antt =====
-- The text " #x", "@begin", "a", "@end", "b": the lexer makes one literal of a line.
use covscript.Prelude.{
  ℕ, true, false, [], ◌∷◌, ◌++◌, length, ok, err, compile_error, ◌>>=◌, ◌==◌, if◌then◌else◌, ◌≡◌,
  refl,
}
use covscript.Prelude.Names.{Bytes}
use covscript.Syntax.Token.{literal, endline}
use covscript.Lexer.Preprocessor.{Preprocessor, PreEnv, ascii, preprocessor}
use covscript.Lexer.Preprocessor.Reader.{lines, read_lines, first_progress, at_start}
use covscript.Lexer.Preprocessor.Lines.{preprocessor-lines}
use covscript.Lexer.Preprocessor.Count.{preprocessor-newlines, newlines}

abbrev env : PreEnv ℕ
env = record {
  isspace = λ c. c == 32;
  version_str = [];
  process_char_buff = λ buff tokens encoding. ok (tokens ++ literal buff [] ∷ []);
}

abbrev text : Bytes
text =
    32 ∷ 35 ∷ 120 ∷ 10 ∷ 64 ∷ 98 ∷ 101 ∷ 103 ∷ 105 ∷ 110 ∷ 10 ∷ 97 ∷ 10 ∷ 64 ∷ 101 ∷ 110 ∷ 100 ∷ 10
    ∷ 98 ∷ []

abbrev final : Preprocessor ℕ
final = record {
  last_line_num = 5;
  line_num = 6;
  is_annotation = false;
  is_command = false;
  empty_buff = true;
  empty_line = true;
  buff = [];
  command = [];
  line = [];
  file_buff = [] ∷ [] ∷ (97 ∷ []) ∷ [] ∷ (98 ∷ []) ∷ [];
  settings = record {
    multi_line = false;
    tokens = literal (97 ∷ []) [] ∷ endline 3 ∷ literal (98 ∷ []) [] ∷ endline 5 ∷ [];
    encoding = ascii;
  };
}

run : preprocessor env text [] ascii ≡ ok final
unfolding preprocessor
run = refl

preprocessor-lines_example : preprocessor env text [] ascii ≡ (
    read_lines env ((lines text).0 ∷ (lines text).1) (first_progress [] ascii) >>= λ p.
    if p.settings.multi_line
    then err (compile_error "Missing '@end' command to close the multi-line statement")
    else ok (at_start p))
preprocessor-lines_example = preprocessor-lines env text [] ascii

preprocessor-newlines_example :
    (length final.file_buff ≡ 5) × (final.line_num ≡ 6) × (final.settings.multi_line ≡ false)
unfolding newlines
preprocessor-newlines_example = preprocessor-newlines env text [] ascii final run
