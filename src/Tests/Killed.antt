-- ===== src/Tests/Killed.antt =====
-- The line `f(1)[{}]`.
use covscript.Prelude.{ℕ, Bool, true, List, [], ◌∷◌, Option, Result, ok, ◌≡◌, refl}
use covscript.Container.Tree.{
  Tree, emplace_root_left, emplace_left_left, subtree, emplace_right_right, put,
}
use covscript.Syntax.Signal.{
  elb_, fcall_, access_, match_entry, signal_level_map, signal_left_associative,
}
use covscript.Syntax.Token.{
  Token, Expr, leaf, token_node, one_expr, no_exprs, id, value, signal, sblist, mblist, array,
  arglist, expr, endline, of_lists, of_tree,
}
use covscript.Parser.Build.{gen_tree, get_signal_level, is_left_associative}
use covscript.Parser.Kill.{kill_brackets, kill_expr}
use covscript.Parser.Kill.Statement.{Formed, boundaries, kill_expr-kill_brackets}
use covscript.Parser.Kill.Plain.{plain, kill_brackets-plain}

abbrev gen : Bool → List (Token ℕ) → Result (Tree (Option (Token ℕ)))
unfolding gen_tree
gen no_optimize raw = gen_tree (λ t. ok t) 4 raw

abbrev line : List (Token ℕ)
unfolding of_lists
line =
    id (102 ∷ [])
    ∷ sblist (of_lists ((value 1 ∷ []) ∷ []))
    ∷ mblist (of_lists ((signal elb_ ∷ []) ∷ []))
    ∷ endline 7
    ∷ []

abbrev leaf_of : Token ℕ → Expr ℕ
leaf_of t = token_node t leaf leaf

abbrev killed : List (Token ℕ)
killed =
    id (102 ∷ [])
    ∷ signal fcall_
    ∷ arglist (one_expr (leaf_of (value 1)) no_exprs)
    ∷ signal access_
    ∷ expr (leaf_of (array no_exprs))
    ∷ endline 7
    ∷ []

kill_line : kill_brackets gen 3 line ≡ ok killed
unfolding kill_brackets gen line emplace_root_left of_tree
kill_line = refl

abbrev statement : List (Token ℕ)
statement =
    expr (
      token_node (signal access_)
        (token_node (signal fcall_) (leaf_of (id (102 ∷ [])))
          (leaf_of (arglist (one_expr (leaf_of (value 1)) no_exprs))))
        (leaf_of (expr (leaf_of (array no_exprs)))))
    ∷ endline 7
    ∷ []

kill_line_expr : kill_expr gen killed ≡ ok statement
unfolding kill_expr gen emplace_root_left emplace_left_left subtree emplace_right_right put
    get_signal_level match_entry signal_level_map is_left_associative signal_left_associative
    of_tree
kill_line_expr = refl

kill_expr-kill_brackets_example : Formed statement × (boundaries statement ≡ boundaries line)
kill_expr-kill_brackets_example =
    kill_expr-kill_brackets gen 3 line killed statement kill_line kill_line_expr

kill_brackets-plain_example : plain killed ≡ true
kill_brackets-plain_example = kill_brackets-plain gen 3 line killed kill_line
