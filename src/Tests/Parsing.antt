-- ===== src/Tests/Parsing.antt =====
-- Expressions: `a + b * c - d`, `-x`, and assignments in a row.
use covscript.Prelude.{
  ℕ, List, [], ◌∷◌, ◌++◌, Option, some, Result, ok, err, out_of_fuel, ◌≡◌, refl, arith,
}
use covscript.Container.Tree.{
  Tree, nil, node, right, subtree, put, emplace_root_left, emplace_root_right, emplace_left_left,
  emplace_left_right, emplace_right_left, emplace_right_right, inorder, before, behind,
}
use covscript.Container.Tree.Emplace.{Adds, emplace-Adds}
use covscript.Syntax.Signal.{
  add_, sub_, mul_, asi_, signal_level_map, signal_left_associative, match_entry,
}
use covscript.Syntax.Token.{Token, value, signal}
use covscript.Parser.Build.{
  get_signal_level, is_left_associative, group_objects, build_tree, split_token, gen_tree,
}
use covscript.Parser.Push.{operand}
use covscript.Parser.Rank.{AtLeast, Ranked, HasLevels}
use covscript.Parser.Rank.Written.{Strict, single, joined, alone, same, first, signals, operands}
use covscript.Parser.Rank.Rebuild.{build_tree-written, build_tree-assignments}
use covscript.Parser.Rank.Total.{build_tree-Ranked}
use covscript.Parser.Rank.{weave}
use covscript.Parser.Split.{present, split_build-Ranked}

abbrev Expression : Type 0
Expression = Tree (Option (Token ℕ))

abbrev v : ℕ → Token ℕ
v n = value n

-- No bracket is parsed in these examples.
abbrev no_brackets : List (Token ℕ) → Result Expression
no_brackets ts = err out_of_fuel

-- a + b * c - d
abbrev line : List (Token ℕ)
line = v 1 ∷ signal add_ ∷ v 2 ∷ signal mul_ ∷ v 3 ∷ signal sub_ ∷ v 4 ∷ []

abbrev line_signals : List (Token ℕ)
line_signals = signal add_ ∷ signal mul_ ∷ signal sub_ ∷ []

abbrev line_objects : List (Option (Token ℕ))
line_objects = some (v 1) ∷ some (v 2) ∷ some (v 3) ∷ some (v 4) ∷ []

abbrev infix_node : Token ℕ → Expression → Expression → Expression
infix_node s = node (some s)

-- (a + (b * c)) - d
abbrev line_tree : Expression
line_tree =
    infix_node (signal sub_)
      (infix_node (signal add_) (operand (some (v 1)))
        (infix_node (signal mul_) (operand (some (v 2))) (operand (some (v 3)))))
      (operand (some (v 4)))

build_line : build_tree no_brackets line_signals line_objects ≡ ok line_tree
unfolding build_tree get_signal_level is_left_associative match_entry signal_level_map
    signal_left_associative emplace_root_left emplace_left_left emplace_right_left
    emplace_right_right subtree put
build_line = refl

gen_line : gen_tree ok 3 line ≡ ok line_tree
unfolding gen_tree get_signal_level is_left_associative match_entry signal_level_map
    signal_left_associative emplace_root_left emplace_left_left emplace_right_left
    emplace_right_right subtree put
gen_line = refl

line_levels : HasLevels line_signals
unfolding get_signal_level match_entry signal_level_map
line_levels = ((10, refl), ((11, refl), ((10, refl), tt)))

split_build-Ranked_example :
    (u : Expression) × (build_tree no_brackets line_signals line_objects ≡ ok u)
    × Ranked u
    × (present (inorder u) ≡ line)
unfolding split_token group_objects
split_build-Ranked_example =
    split_build-Ranked no_brackets line line_signals line_objects refl (λ e. cc) refl refl
      line_levels

build_tree-Ranked_example :
    (u : Expression) × (build_tree no_brackets line_signals line_objects ≡ ok u)
    × Ranked u
    × (inorder u ≡ weave line_signals line_objects)
unfolding group_objects
build_tree-Ranked_example =
    build_tree-Ranked no_brackets line_signals line_objects line_objects (λ e. cc) refl refl
      line_levels

line_tree-Strict : Strict line_tree
unfolding get_signal_level is_left_associative match_entry signal_level_map signal_left_associative
line_tree-Strict =
    joined {n = 10} refl
      (joined {n = 10} refl single (joined {n = 11} refl single single alone AtLeast.lone) alone
        (AtLeast.level {m = 11} refl (omega arith)))
      single (same refl refl) AtLeast.lone

build_tree-written_example :
    build_tree no_brackets (signals line_tree) (first line_tree ∷ operands line_tree) ≡ ok line_tree
unfolding signals group_objects operands
build_tree-written_example =
    build_tree-written no_brackets line_tree line_tree-Strict (λ e. cc) refl

-- a = b = c = d
build_tree-assignments_example :
    build_tree no_brackets (signal asi_ ∷ signal asi_ ∷ signal asi_ ∷ []) line_objects
    ≡ ok (
        infix_node (signal asi_) (operand (some (v 1))) (
          infix_node
            (signal asi_)
            (infix_node (signal asi_) (operand (some (v 2))) (operand (some (v 3))))
            (operand (some (v 4)))))
unfolding get_signal_level is_left_associative match_entry signal_level_map signal_left_associative
    group_objects
build_tree-assignments_example =
    build_tree-assignments no_brackets (signal asi_) (signal asi_) (signal asi_) 1 (some (v 1))
      (some (v 2)) (some (v 3)) (some (v 4)) refl refl refl refl refl

abbrev small : Tree ℕ
small = node 5 (node 3 nil nil) (node 8 (node 7 nil nil) nil)

emplace-Adds_example :
    Adds
      (before small (right ∷ []) ++ (7 ∷ 8 ∷ []))
      9
      ([] ++ behind small (right ∷ []))
      (emplace_root_left small (right ∷ []) 9)
    × Adds
        (before small (right ∷ []) ++ [])
        9
        ((7 ∷ 8 ∷ []) ++ behind small (right ∷ []))
        (emplace_root_right small (right ∷ []) 9)
    × Adds
        (before small (right ∷ []) ++ (7 ∷ []))
        9
        ((8 ∷ []) ++ behind small (right ∷ []))
        (emplace_left_left small (right ∷ []) 9)
    × Adds
        (before small (right ∷ []) ++ [])
        9
        ((7 ∷ 8 ∷ []) ++ behind small (right ∷ []))
        (emplace_left_right small (right ∷ []) 9)
    × Adds
        (before small (right ∷ []) ++ (7 ∷ 8 ∷ []))
        9
        ([] ++ behind small (right ∷ []))
        (emplace_right_left small (right ∷ []) 9)
    × Adds
        (before small (right ∷ []) ++ (7 ∷ 8 ∷ []))
        9
        ([] ++ behind small (right ∷ []))
        (emplace_right_right small (right ∷ []) 9)
unfolding subtree
emplace-Adds_example = emplace-Adds small (right ∷ []) 9 8 (node 7 nil nil) nil refl
