-- ===== src/Tests/Statements.antt =====
-- The lines `loop`, `1`, `break`, `end`.
use covscript.Prelude.{
  ℕ, true, false, List, [], ◌∷◌, ◌++◌, Option, some, ok, ok-injective, ◌≡◌, refl, sym, ap, ◌∙◌,
  arith,
}
use covscript.Syntax.Signal.{foreach_, in_, loop_, break_, endblock_, endline_}
use covscript.Syntax.Token.{Token, id, value, action, endline, signal, expr, token_node, leaf}
use covscript.Compiler.Method.{Method, method_loop}
use covscript.Compiler.Match.{grammars, match}
use covscript.Compiler.Match.Unique.{first_fit, match-first_fit}
use covscript.Compiler.Grammar.{match_grammar, find_action}
use covscript.Compiler.Grammar.Retag.{Retagged, match_grammar-Retagged}
use covscript.Compiler.TokenBuff.{is_endline, to_endline, process_token_buff}
use covscript.Compiler.TokenBuff.Lines.{AllLines, process_token_buff-AllLines}
use covscript.Compiler.Translate.{TranslateEnv, Translation, translate_lines, is_empty}
use covscript.Compiler.Translate.Nesting.{Verdict, nest, translate_lines-nest}
use covscript.Compiler.Translate.Balance.{Restoring, translate_lines-loop_depth}

-- "foreach x in y"
abbrev words : List (Token ℕ)
words =
    id (102 ∷ 111 ∷ 114 ∷ 101 ∷ 97 ∷ 99 ∷ 104 ∷ [])
    ∷ id (120 ∷ [])
    ∷ id (105 ∷ 110 ∷ [])
    ∷ id (121 ∷ [])
    ∷ []

abbrev retagged : List (Token ℕ)
retagged = action foreach_ ∷ id (120 ∷ []) ∷ action in_ ∷ id (121 ∷ []) ∷ []

match_words : match_grammar grammars words ≡ retagged
unfolding match_grammar find_action
match_words = refl

match_grammar-Retagged_example : Retagged words (match_grammar grammars words)
match_grammar-Retagged_example = match_grammar-Retagged grammars words

abbrev one : Token ℕ
one = expr (token_node (value 1) leaf leaf)

match-first_fit_example :
    match grammars (one ∷ endline 2 ∷ []) ≡ first_fit (one ∷ endline 2 ∷ []) grammars
match-first_fit_example = match-first_fit (one ∷ endline 2 ∷ []) (omega arith)

abbrev two_lines : List (Token ℕ × ℕ)
two_lines = (id (120 ∷ []), 1) ∷ (signal endline_, 1) ∷ (value 2, 1) ∷ []

abbrev last_token : Token ℕ
last_token = endline 1

process_token_buff-AllLines_example :
    AllLines (process_token_buff grammars (two_lines ++ (last_token, 1) ∷ []) [])
unfolding is_endline to_endline
process_token_buff-AllLines_example =
    process_token_buff-AllLines grammars two_lines last_token 1 refl

-- A statement is the method that made it, with its lines.
abbrev Statement : Type 0
Statement = Method × List (List (Token ℕ))

abbrev env : TranslateEnv ℕ ℕ Statement ℕ
env = record {
  m_data = grammars;
  process_line = λ line c. ok (line, c);
  add_domain = λ c. ok c;
  add_set = λ c. c;
  remove_set = λ c. ok c;
  get_domain = λ c. ok 0;
  remove_domain = λ c. ok c;
  preprocess = λ m c lines. ok c;
  postprocess = λ m c domain. ok c;
  translate = λ m c depth lines. ok (some (m, lines), c, depth);
  translate_end = λ m top c depth lines line. ok (some (top, lines), c, depth);
}

abbrev program : List (List (Token ℕ))
program =
    (action loop_ ∷ endline 1 ∷ [])
    ∷ (one ∷ endline 2 ∷ [])
    ∷ (action break_ ∷ endline 3 ∷ [])
    ∷ (action endblock_ ∷ endline 4 ∷ [])
    ∷ []

abbrev translated : Translation ℕ ℕ Statement
translated = record {
  method_line_num = 1;
  tmp = [];
  methods = [];
  loop_depth = 3;
  statements =
      (
        method_loop,
        (action loop_ ∷ endline 1 ∷ [])
            ∷ (one ∷ endline 2 ∷ [])
            ∷ (action break_ ∷ endline 3 ∷ [])
            ∷ [],
      )
      ∷ [];
  context = 0;
}

translate_program : translate_lines env false program [] 3 0 ≡ ok translated
unfolding translate_lines
translate_program = refl

same_depth :
    (made : Option Statement × ℕ × ℕ) (depth : ℕ) (r : Option Statement × ℕ × ℕ)
    → made.2 ≡ depth
    → ok made ≡ ok r
    → r.2 ≡ depth
same_depth made depth r h returned = ap (λ x. x.2) (sym (ok-injective made r returned)) ∙ h

restoring : Restoring env
restoring = record {
  translates =
      λ m c depth lines r returned. same_depth (some (m, lines), c, depth) depth r refl returned;
  translates_end = λ m top c depth lines line r returned.
      same_depth (some (top, lines), c, depth) depth r refl returned;
}

translate_lines-loop_depth_example :
    (translated.loop_depth ≡ 3) × (is_empty translated.methods ≡ true) × (translated.tmp ≡ [])
translate_lines-loop_depth_example =
    translate_lines-loop_depth env restoring false 3 program [] 0 translated (omega arith)
      translate_program

-- Its last line closes nothing.
abbrev unbalanced : List (List (Token ℕ))
unbalanced = program ++ (action endblock_ ∷ endline 5 ∷ []) ∷ []

translate_lines-nest_example :
    Verdict env (translate_lines env false unbalanced [] 3 0) (nest env unbalanced 0)
translate_lines-nest_example = translate_lines-nest env unbalanced [] 3 0
