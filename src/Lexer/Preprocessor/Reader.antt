-- ===== src/Lexer/Preprocessor/Reader.antt =====
-- A reader that takes a text line by line: what the preprocessor is for.
use covscript.Prelude.{
  ℕ, suc, Bool, true, false, List, [], ◌∷◌, ◌++◌, Result, ok, ◌>>=◌, ◌==◌, if◌then◌else◌,
}
use covscript.Prelude.Names.{Bytes}
use covscript.Syntax.Token.{Token, endline}
use covscript.Lexer.Preprocessor.{Encoding, Settings, Preprocessor, rethrow, PreEnv, run_command}

-- What a line is.
pub data LineKind : Type 0 where
  blank : LineKind
  annotation : LineKind
  command_line : Bytes → LineKind
  code : Bytes → LineKind

-- The lines of a text; it has one more than ends of lines.
unfoldable pub lines : Bytes → Bytes × List Bytes
lines [] = ([], [])
lines (ch ∷ text) =
    let rest = lines text in if ch == 10 then ([], rest.0 ∷ rest.1) else (ch ∷ rest.0, rest.1)

-- What a reader keeps from line to line.
pub record Progress (V : Type 0) : Type 0 where
  pub last_line_num : ℕ
  pub line_num : ℕ
  pub file_buff : List Bytes
  pub settings : Settings V

module _ {V : Type 0} where
  abbrev pub empty : Progress V → Progress V
  empty p = record p { file_buff = p.file_buff ++ [] ∷ []; line_num = suc p.line_num }

  -- The state of the class in a line.
  abbrev pub inside : Progress V → Bool → Bool → Bool → Bytes → Bytes → Preprocessor V
  inside p is_annotation is_command empty command text = record {
    last_line_num = p.last_line_num;
    line_num = p.line_num;
    is_annotation = is_annotation;
    is_command = is_command;
    empty_buff = empty;
    empty_line = empty;
    buff = text;
    command = command;
    line = text;
    file_buff = p.file_buff;
    settings = p.settings;
  }

  abbrev pub at_start : Progress V → Preprocessor V
  at_start p = inside p false false true [] []

  abbrev pub first_progress : List (Token V) → Encoding → Progress V
  first_progress tokens encoding = record {
    last_line_num = 1;
    line_num = 1;
    file_buff = [];
    settings = record { multi_line = false; tokens = tokens; encoding = encoding };
  }

module _ {V : Type 0} (env : PreEnv V) where
  unfoldable pub without_spaces : Bytes → Bytes
  without_spaces [] = []
  without_spaces (ch ∷ text) =
      let rest = without_spaces text in if env.isspace ch then rest else ch ∷ rest

  unfoldable pub classify : Bytes → LineKind
  unfolding without_spaces
  classify [] = blank
  classify (ch ∷ text) =
      let rest = classify text in
      if env.isspace ch
      then rest
      else if ch == 35
      then annotation
      else if ch == 64
      then command_line (without_spaces text)
      else code (ch ∷ text)

  -- A line at a time: a line of code is tokens, any other an empty line.
  unfoldable pub read_line : LineKind → Progress V → Result (Progress V)
  unfolding run_command rethrow
  read_line blank p = ok (empty p)
  read_line annotation p = ok (empty p)
  read_line (command_line name) p =
      run_command env name p.line_num p.last_line_num p.settings >>= λ settings.
      ok (empty (record p { settings = settings }))
  read_line (code text) p =
      rethrow p.line_num (env.process_char_buff text p.settings.tokens p.settings.encoding)
      >>= λ tokens. ok (record {
        last_line_num = p.line_num;
        line_num = suc p.line_num;
        file_buff = p.file_buff ++ text ∷ [];
        settings = record (p.settings) {
          tokens = if p.settings.multi_line then tokens else tokens ++ endline p.line_num ∷ [];
        };
      })

  unfoldable pub read_lines : List Bytes → Progress V → Result (Progress V)
  unfolding read_line classify
  read_lines [] p = ok p
  read_lines (text ∷ rest) p = read_line (classify text) p >>= λ q. read_lines rest q
