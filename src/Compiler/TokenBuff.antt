-- ===== src/Compiler/TokenBuff.antt =====
-- `process_token_buff` of sources/compiler/lexer.cpp: from the tokens of a text to its lines. A token
-- comes with its line number.
pub mod Lines
use covscript.Prelude.{ℕ, Bool, true, false, List, [], ◌∷◌, ◌++◌, length, ltb, if◌then◌else◌}
use covscript.Syntax.Signal.{endline_}
use covscript.Syntax.Token.{Token, endline, action, signal}
use covscript.Compiler.Match.{Grammar}
use covscript.Compiler.Grammar.{match_grammar}

module _ {V : Type 0} where
  -- ';' ends a line as well.
  unfoldable pub to_endline : Token V → ℕ → Token V
  to_endline (signal endline_) line_num = endline line_num
  to_endline t line_num = t

  unfoldable pub is_endline : Token V → Bool
  is_endline (endline n) = true
  is_endline _ = false

  -- An action or the end of a line.
  unfoldable pub is_boundary : Token V → Bool
  is_boundary (action a) = true
  is_boundary (endline n) = true
  is_boundary _ = false

  -- `match_grammar` on the tokens since the last boundary.
  unfoldable pub match_expr : List Grammar → List (Token V) → List (Token V)
  unfolding match_grammar
  match_expr m_data [] = []
  match_expr m_data (t ∷ expr) = match_grammar m_data (t ∷ expr)

  -- The first loop.
  unfoldable pub match_loop :
      List Grammar → List (Token V × ℕ) → List (Token V) → List (Token V) → List (Token V)
  unfolding to_endline is_boundary match_expr
  match_loop m_data [] expr tokens = tokens
  match_loop m_data ((t, line_num) ∷ oldt) expr tokens =
      let ptr = to_endline t line_num in
      let flushed = match_loop m_data oldt [] (tokens ++ match_expr m_data expr ++ ptr ∷ []) in
      let longer = match_loop m_data oldt (expr ++ ptr ∷ []) tokens in
      if is_boundary ptr then flushed else longer

  -- A line that is more than its end.
  unfoldable pub push_line : List (Token V) → List (List (Token V)) → List (List (Token V))
  push_line tmp ast = if ltb 1 (length tmp) then ast ++ tmp ∷ [] else ast

  -- The second loop.
  unfoldable pub line_loop :
      List (Token V) → List (Token V) → List (List (Token V)) → List (List (Token V))
  unfolding push_line is_endline
  line_loop [] tmp ast = push_line tmp ast
  line_loop (ptr ∷ tokens) tmp ast =
      let longer = tmp ++ ptr ∷ [] in
      let ended = line_loop tokens [] (push_line longer ast) in
      let going_on = line_loop tokens longer ast in if is_endline ptr then ended else going_on

  unfoldable pub process_token_buff :
      List Grammar → List (Token V × ℕ) → List (List (Token V)) → List (List (Token V))
  unfolding match_loop line_loop
  process_token_buff m_data tokens ast = line_loop (match_loop m_data tokens [] []) [] ast
