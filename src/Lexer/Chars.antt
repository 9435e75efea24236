-- ===== src/Lexer/Chars.antt =====
-- `process_char_buff` of sources/compiler/lexer.cpp: the characters of a line to tokens.
pub mod Measure
pub mod Rounds
pub mod Total
use covscript.Prelude.{
  ℕ, zero, suc, Bool, true, false, not, ◌&&◌, ◌||◌, List, [], ◌∷◌, ◌++◌, Option, none, some, Result,
  ok, err, compile_error, out_of_fuel, ◌>>=◌, ltb, ◌==◌, if◌then◌else◌,
}
use covscript.Prelude.Names.{Bytes, find}
use covscript.Syntax.Signal.{match_entry, and_, or_, not_, typeid_, new_, gcnew_}
use covscript.Syntax.Token.{Token, id, value, literal, signal}
use covscript.Lexer.Charset.{Charset}
use covscript.Lexer.Signals.{issignal, split_signals}

-- The values of `token_types` that `type` takes.
pub data CharMode : Type 0 where
  null_mode id_mode literal_mode signal_mode value_mode : CharMode

-- The variables of the function.
pub record Scan (V : Type 0) : Type 0 where
  pub tmp : List ℕ
  pub mode : CharMode
  pub inside_char : Bool
  pub inside_str : Bool
  pub escape : Bool
  pub tokens : List (Token V)

unfoldable pub escape_map : ℕ → Option ℕ
escape_map ch =
    if ch == 97
    then some 7
    else if ch == 98
    then some 8
    else if ch == 102
    then some 12
    else if ch == 110
    then some 10
    else if ch == 114
    then some 13
    else if ch == 116
    then some 9
    else if ch == 118
    then some 11
    else if ch == 92
    then some 92
    else if ch == 39
    then some 39
    else if ch == 34
    then some 34
    else if ch == 48
    then some 0
    else none

-- What the function calls: the charset, `iswspace` and `iswdigit` of the C library, the constants
-- of `reserved_map`, `new_value` on a char and on a string, and `parse_number`.
pub record CharEnv (V : Type 0) : Type 0 where
  pub cvt : Charset
  pub iswspace : ℕ → Bool
  pub iswdigit : ℕ → Bool
  pub local_namespace : V
  pub global_namespace : V
  pub null_pointer : V
  pub true_value : V
  pub false_value : V
  pub new_char : ℕ → V
  pub new_string : Bytes → V
  pub parse_number : Bytes → Result V

module _ {V : Type 0} where
  pub reserved_map : CharEnv V → List (Bytes × Token V)
  reserved_map env =
      (97 ∷ 110 ∷ 100 ∷ [], signal and_)
      ∷ (111 ∷ 114 ∷ [], signal or_)
      ∷ (110 ∷ 111 ∷ 116 ∷ [], signal not_)
      ∷ (116 ∷ 121 ∷ 112 ∷ 101 ∷ 105 ∷ 100 ∷ [], signal typeid_)
      ∷ (110 ∷ 101 ∷ 119 ∷ [], signal new_)
      ∷ (103 ∷ 99 ∷ 110 ∷ 101 ∷ 119 ∷ [], signal gcnew_)
      ∷ (108 ∷ 111 ∷ 99 ∷ 97 ∷ 108 ∷ [], value env.local_namespace)
      ∷ (103 ∷ 108 ∷ 111 ∷ 98 ∷ 97 ∷ 108 ∷ [], value env.global_namespace)
      ∷ (110 ∷ 117 ∷ 108 ∷ 108 ∷ [], value env.null_pointer)
      ∷ (116 ∷ 114 ∷ 117 ∷ 101 ∷ [], value env.true_value)
      ∷ (102 ∷ 97 ∷ 108 ∷ 115 ∷ 101 ∷ [], value env.false_value)
      ∷ []

  -- `static_cast<token_literal *>(tokens.back())->m_literal = text`
  pub set_literal : Bytes → List (Token V) → List (Token V)
  set_literal text [] = []
  set_literal text (literal data' old ∷ []) = literal data' text ∷ []
  set_literal text (t ∷ []) = t ∷ []
  set_literal text (t ∷ u ∷ tokens) = t ∷ set_literal text (u ∷ tokens)

  -- The end of a character literal.
  pub close_char : CharEnv V → Scan V → Result (Scan V)
  close_char env s = elim s.tmp [
    | [] ↦ err (compile_error "Empty character literal")
    | c ∷ rest ↦ elim rest [
      | [] ↦
          if ltb 127 c
          then err (compile_error "Unicode characters are not supported in character literals")
          else ok (record s {
            tmp = [];
            inside_char = false;
            tokens = s.tokens ++ value (env.new_char c) ∷ [];
          })
      | _ ∷ _ ↦ err (compile_error "Multi-character literal")
    ]
  ]

  -- The next character is there and can stand in an identifier.
  pub names_literal : CharEnv V → List ℕ → Bool
  names_literal env [] = false
  names_literal env (next ∷ buff) = not (issignal next) && env.cvt.is_identifier next

  -- The end of a string; a name directly behind it makes it a literal.
  pub close_str : CharEnv V → List ℕ → Scan V → Scan V
  unfolding names_literal
  close_str env buff s =
      let text = env.cvt.wide2local s.tmp in
      if names_literal env buff
      then record s {
        tmp = [];
        mode = literal_mode;
        inside_str = false;
        tokens = s.tokens ++ literal text [] ∷ [];
      }
      else record s {
        tmp = [];
        inside_str = false;
        tokens = s.tokens ++ value (env.new_string text) ∷ [];
      }

  -- A character between quotes, the closing one by `close`.
  pub quoted : ℕ → ℕ → Result (Scan V) → Scan V → Result (Scan V)
  unfolding escape_map match_entry
  quoted quote ch close s =
      if s.escape
      then (match_entry (escape_map ch) >>= λ c.
          ok (record s { tmp = s.tmp ++ c ∷ []; escape = false }))
      else if ch == 92
      then ok (record s { escape = true })
      else if ch == quote
      then close
      else ok (record s { tmp = s.tmp ++ ch ∷ [] })

  -- A character that goes on with the token in `tmp`.
  pub continues : CharEnv V → CharMode → ℕ → Bool
  continues env null_mode ch = false
  continues env id_mode ch = not (issignal ch) && env.cvt.is_identifier ch
  continues env literal_mode ch = not (issignal ch) && env.cvt.is_identifier ch
  continues env signal_mode ch = issignal ch
  continues env value_mode ch = env.iswdigit ch || ch == 46

  -- The token that `tmp` holds.
  pub finish_token : CharEnv V → Scan V → Result (List (Token V))
  unfolding split_signals set_literal find reserved_map
  finish_token env s = elim s.mode [
    | null_mode ↦ ok s.tokens
    | id_mode ↦
        let name = env.cvt.wide2local s.tmp in
        elim (find name (reserved_map env)) [
          | some t ↦ ok (s.tokens ++ t ∷ [])
          | none ↦ ok (s.tokens ++ id name ∷ [])
        ]
    | literal_mode ↦ ok (set_literal (env.cvt.wide2local s.tmp) s.tokens)
    | signal_mode ↦ split_signals env.cvt.wide2local s.tmp s.tokens
    | value_mode ↦
        env.parse_number (env.cvt.wide2local s.tmp) >>= λ n. ok (s.tokens ++ value n ∷ [])
  ]

  pub flush : CharEnv V → Scan V → Result (Scan V)
  unfolding finish_token
  flush env s =
      finish_token env s >>= λ tokens. ok (record s { tmp = []; mode = null_mode; tokens = tokens })

  -- At a token boundary: a state, and whether the character is used up.
  pub dispatch : CharEnv V → ℕ → Scan V → Result (Scan V × Bool)
  dispatch env ch s =
      if ch == 34
      then ok (record s { inside_str = true }, true)
      else if ch == 39
      then ok (record s { inside_char = true }, true)
      else if ch == 65279 || env.iswspace ch
      then ok (s, true)
      else if issignal ch
      then ok (record s { mode = signal_mode }, false)
      else if env.iswdigit ch
      then ok (record s { mode = value_mode }, false)
      else if env.cvt.is_identifier ch
      then ok (record s { mode = id_mode }, false)
      else err (compile_error "Unknown character")

  -- A round of the loop. `none` is its `break`, at a comment.
  pub char_round : CharEnv V → ℕ → List ℕ → Scan V → Result (Option (Scan V × List ℕ))
  unfolding quoted close_char close_str continues flush dispatch
  char_round env ch buff s =
      if s.inside_char
      then (quoted 39 ch (close_char env s) s >>= λ s'. ok (some (s', buff)))
      else if s.inside_str
      then (quoted 34 ch (ok (close_str env buff s)) s >>= λ s'. ok (some (s', buff)))
      else if ch == 35
      then ok none
      else elim s.mode [
        | null_mode ↦
            dispatch env ch s >>= λ (s', used). ok (some (s', if used then buff else ch ∷ buff))
        | mode ↦
            if continues env mode ch
            then ok (some (record s { tmp = s.tmp ++ ch ∷ [] }, buff))
            else flush env s >>= λ s'. ok (some (s', ch ∷ buff))
      ]

  unfoldable pub char_loop : CharEnv V → ℕ → List ℕ → Scan V → Result (Scan V)
  unfolding char_round
  char_loop env fuel [] s = ok s
  char_loop env zero (ch ∷ buff) s = err out_of_fuel
  char_loop env (suc fuel) (ch ∷ buff) s =
      let again = λ (s' : Scan V) (buff' : List ℕ). char_loop env fuel buff' s' in
      char_round env ch buff s >>= λ o. elim o [ none ↦ ok s | some (s', buff') ↦ again s' buff' ]

  pub finish : CharEnv V → Scan V → Result (List (Token V))
  unfolding finish_token
  finish env s =
      if s.inside_char
      then err (compile_error "Unterminated character literal")
      else if s.inside_str
      then err (compile_error "Unterminated string literal")
      else elim s.tmp [ [] ↦ ok s.tokens | _ ∷ _ ↦ finish_token env s ]

  pub first_scan : List (Token V) → Scan V
  first_scan tokens = record {
    tmp = [];
    mode = null_mode;
    inside_char = false;
    inside_str = false;
    escape = false;
    tokens = tokens;
  }

  unfoldable pub process_char_buff :
      CharEnv V → ℕ → Bytes → List (Token V) → Result (List (Token V))
  unfolding char_loop finish first_scan
  process_char_buff env fuel [] tokens = err (compile_error "Received an empty character buffer")
  process_char_buff env fuel (c ∷ raw_buff) tokens = env.cvt.local2wide (c ∷ raw_buff) >>= λ buff.
      char_loop env fuel buff (first_scan tokens) >>= λ s. finish env s
