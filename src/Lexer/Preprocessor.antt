-- ===== src/Lexer/Preprocessor.antt =====
-- The class `preprocessor` of sources/compiler/lexer.cpp: lines, comments and commands.
pub mod Reader
pub mod Steps
pub mod Lines
pub mod Count
use covscript.Prelude.{
  ℕ, suc, Bool, true, false, not, ◌&&◌, List, [], ◌∷◌, ◌++◌, Option, none, some, String, Error,
  compile_error, runtime_error, internal_error, lang_error, out_of_range, exception, out_of_fuel,
  Result, ok, err, ◌>>=◌, ltb, ◌==◌, if◌then◌else◌,
}
use covscript.Prelude.Names.{Bytes, same}
use covscript.Syntax.Token.{Token, endline}

-- `enum class charset`
pub data Encoding : Type 0 where
  ascii utf8 gbk : Encoding

-- What a command changes: the member `multi_line` and two arguments.
pub record Settings (V : Type 0) : Type 0 where
  pub multi_line : Bool
  pub tokens : List (Token V)
  pub encoding : Encoding

-- The other members of the class, and `context->file_buff`.
pub record Preprocessor (V : Type 0) : Type 0 where
  pub last_line_num : ℕ
  pub line_num : ℕ
  pub is_annotation : Bool
  pub is_command : Bool
  pub empty_buff : Bool
  pub empty_line : Bool
  pub buff : Bytes
  pub command : Bytes
  pub line : Bytes
  pub file_buff : List Bytes
  pub settings : Settings V

-- `std::isspace`, `CS_GET_VERSION_STR(COVSCRIPT_STD_VERSION)`, and `process_char_buff`.
pub record PreEnv (V : Type 0) : Type 0 where
  pub isspace : ℕ → Bool
  pub version_str : Bytes
  pub process_char_buff : Bytes → List (Token V) → Encoding → Result (List (Token V))

abbrev begin_word : Bytes
begin_word = 98 ∷ 101 ∷ 103 ∷ 105 ∷ 110 ∷ []

abbrev end_word : Bytes
end_word = 101 ∷ 110 ∷ 100 ∷ []

abbrev charset_word : Bytes
charset_word = 99 ∷ 104 ∷ 97 ∷ 114 ∷ 115 ∷ 101 ∷ 116 ∷ []

abbrev require_word : Bytes
require_word = 114 ∷ 101 ∷ 113 ∷ 117 ∷ 105 ∷ 114 ∷ 101 ∷ []

abbrev ascii_word : Bytes
ascii_word = 97 ∷ 115 ∷ 99 ∷ 105 ∷ 105 ∷ []

abbrev utf8_word : Bytes
utf8_word = 117 ∷ 116 ∷ 102 ∷ 56 ∷ []

abbrev gbk_word : Bytes
gbk_word = 103 ∷ 98 ∷ 107 ∷ []

-- What stands before the first ':' and what behind it.
unfoldable pub split_colon : Bytes → Bytes × Bytes
split_colon [] = ([], [])
split_colon (c ∷ text) =
    let rest = split_colon text in if c == 58 then ([], text) else (c ∷ rest.0, rest.1)

-- `operator>` of two strings.
unfoldable pub greater_text : Bytes → Bytes → Bool
greater_text [] t = false
greater_text (c ∷ s) [] = true
greater_text (c ∷ s) (d ∷ t) =
    let rest = greater_text s t in if ltb d c then true else if ltb c d then false else rest

-- `exception_message`
unfoldable pub message : Error → String
message (compile_error what) = what
message (runtime_error what) = what
message (internal_error what) = what
message (lang_error what) = what
message (exception line what) = what
message out_of_range = "out of range"
message out_of_fuel = ""

-- The two catch clauses; `lang_error` is no `std::exception`.
unfoldable pub located : ℕ → Error → Error
unfolding message
located line (exception thrown what) = exception thrown what
located line (lang_error what) = lang_error what
located line out_of_fuel = out_of_fuel
located line e = exception line (message e)

unfoldable pub rethrow : {T : Type 0} → ℕ → Result T → Result T
unfolding located
rethrow line (err e) = err (located line e)
rethrow line (ok t) = ok t

module _ {V : Type 0} (env : PreEnv V) where
  unfoldable pub new_empty_line : Preprocessor V → Preprocessor V
  new_empty_line s = record s {
    file_buff = s.file_buff ++ [] ∷ [];
    empty_line = true;
    line_num = suc s.line_num;
  }

  unfoldable pub set_charset : Bytes → ℕ → Result Encoding
  unfolding same
  set_charset arg line_num =
      if same arg ascii_word
      then ok ascii
      else if same arg utf8_word
      then ok utf8
      else if same arg gbk_word
      then ok gbk
      else err (exception line_num "Unavailable encoding.")

  -- A command, without the '@', at the current line and the last line of code.
  unfoldable pub run_command : Bytes → ℕ → ℕ → Settings V → Result (Settings V)
  unfolding same split_colon greater_text set_charset
  run_command command line_num last_line_num s =
      let name = (split_colon command).0 in
      let arg = (split_colon command).1 in
      if same command begin_word && not s.multi_line
      then ok (record s { multi_line = true })
      else if same command end_word && s.multi_line
      then ok (record s { multi_line = false; tokens = s.tokens ++ endline last_line_num ∷ [] })
      else if same name charset_word
      then (set_charset arg line_num >>= λ encoding. ok (record s { encoding = encoding }))
      else if same name require_word
      then if greater_text arg env.version_str
        then err (exception line_num "Newer Language Standard required")
        else ok s
      else err (exception line_num "Invalid preprocessor command")

  unfoldable pub finish_command : Preprocessor V → Result (Preprocessor V)
  unfolding run_command
  finish_command s = run_command s.command s.line_num s.last_line_num s.settings >>= λ settings.
      ok (record s { is_command = false; command = []; settings = settings })

  -- The line in `buff` to tokens.
  unfoldable pub process_line : Preprocessor V → Result (Preprocessor V)
  unfolding rethrow
  process_line s =
      rethrow s.line_num (env.process_char_buff s.buff s.settings.tokens s.settings.encoding)
      >>= λ tokens. ok (record s {
        settings = record (s.settings) {
          tokens = if s.settings.multi_line then tokens else tokens ++ endline s.line_num ∷ [];
        };
        file_buff = s.file_buff ++ s.line ∷ [];
        last_line_num = s.line_num;
        line_num = suc s.line_num;
        buff = [];
        line = [];
        empty_buff = true;
        empty_line = true;
      })

  unfoldable pub process_endline : Preprocessor V → Result (Preprocessor V)
  unfolding new_empty_line finish_command process_line
  process_endline s =
      if s.is_annotation
      then ok (new_empty_line (record s { is_annotation = false }))
      else ((if s.is_command then finish_command s else ok s) >>= λ t.
          if t.empty_buff then ok (new_empty_line t) else process_line t)

  -- A character that goes into the line, unless the line has not begun.
  unfoldable pub push_char : ℕ → Preprocessor V → Preprocessor V
  push_char ch s =
      if not s.empty_buff
      then record s { buff = s.buff ++ ch ∷ []; line = s.line ++ ch ∷ [] }
      else s

  -- A round of the loop.
  unfoldable pub preprocess_char : ℕ → Preprocessor V → Result (Preprocessor V)
  unfolding process_endline push_char
  preprocess_char ch s =
      if ch == 10
      then process_endline s
      else if s.is_annotation
      then ok s
      else if s.is_command
      then ok (if not (env.isspace ch) then record s { command = s.command ++ ch ∷ [] } else s)
      else if s.empty_line && not (env.isspace ch)
      then if ch == 35
        then ok (record s { is_annotation = true })
        else if ch == 64
        then ok (record s { is_command = true })
        else ok (push_char ch (record s { empty_buff = false; empty_line = false }))
      else ok (push_char ch s)

  unfoldable pub preprocess_loop : Bytes → Preprocessor V → Result (Preprocessor V)
  unfolding preprocess_char
  preprocess_loop [] s = ok s
  preprocess_loop (ch ∷ char_buff) s = preprocess_char ch s >>= λ t. preprocess_loop char_buff t

  unfoldable pub first_state : List (Token V) → Encoding → Preprocessor V
  first_state tokens encoding = record {
    last_line_num = 1;
    line_num = 1;
    is_annotation = false;
    is_command = false;
    empty_buff = true;
    empty_line = true;
    buff = [];
    command = [];
    line = [];
    file_buff = [];
    settings = record { multi_line = false; tokens = tokens; encoding = encoding };
  }

  -- The constructor, which does all the work.
  unfoldable pub preprocessor : Bytes → List (Token V) → Encoding → Result (Preprocessor V)
  unfolding preprocess_loop process_endline first_state
  preprocessor char_buff tokens encoding =
      preprocess_loop char_buff (first_state tokens encoding) >>= λ s. process_endline s >>= λ t.
      if t.settings.multi_line
      then err (compile_error "Missing '@end' command to close the multi-line statement")
      else ok t
