-- ===== src/Syntax/Token.antt =====
-- The tokens of include/covscript/impl/symbols.hpp. A token that holds lists or trees of tokens is
-- a box: its contents are copies of `List` and `Tree` that belong to the recursive data type, and
-- the functions below carry the compiler's lists and trees in and out.
use covscript.Prelude.{ℕ, List, [], ◌∷◌, Option, none, some, ◌≡◌, refl, ap}
use covscript.Prelude.Names.{Bytes}
use covscript.Container.Tree.{Tree, nil, node}
use covscript.Syntax.Signal.{Action, Signal}

-- `V` stands for `var`, the interpreter's type-erased value.
mutual
  pub data Token (V : Type 0) : Type 0 where
    endline : ℕ → Token V
    action : Action → Token V
    signal : Signal → Token V
    id : Bytes → Token V
    vargs : Bytes → Token V
    expand : Expr V → Token V
    value : V → Token V
    lambda : ℕ → Token V
    literal : Bytes → Bytes → Token V
    sblist : Lines V → Token V
    mblist : Lines V → Token V
    lblist : Lines V → Token V
    expr : Expr V → Token V
    arglist : Exprs V → Token V
    array : Exprs V → Token V
    parallel : Exprs V → Token V

  -- `deque<token_base *>`
  pub data Line (V : Type 0) : Type 0 where
    stop : Line V
    token : Token V → Line V → Line V

  -- `deque<deque<token_base *>>`
  pub data Lines (V : Type 0) : Type 0 where
    no_lines : Lines V
    line : Line V → Lines V → Lines V

  -- `tree_type<token_base *>`; a node's token may be a null pointer.
  pub data Expr (V : Type 0) : Type 0 where
    leaf : Expr V
    null_node : Expr V → Expr V → Expr V
    token_node : Token V → Expr V → Expr V → Expr V

  -- `deque<tree_type<token_base *>>`
  pub data Exprs (V : Type 0) : Type 0 where
    no_exprs : Exprs V
    one_expr : Expr V → Exprs V → Exprs V

module _ {V : Type 0} where
  unfoldable pub to_list : Line V → List (Token V)
  to_list stop = []
  to_list (token t ts) = t ∷ to_list ts

  unfoldable pub of_list : List (Token V) → Line V
  of_list [] = stop
  of_list (t ∷ ts) = token t (of_list ts)

  unfoldable pub to_lists : Lines V → List (List (Token V))
  unfolding to_list
  to_lists no_lines = []
  to_lists (line l ls) = to_list l ∷ to_lists ls

  unfoldable pub of_lists : List (List (Token V)) → Lines V
  unfolding of_list
  of_lists [] = no_lines
  of_lists (l ∷ ls) = line (of_list l) (of_lists ls)

  unfoldable pub to_tree : Expr V → Tree (Option (Token V))
  to_tree leaf = nil
  to_tree (null_node l r) = node none (to_tree l) (to_tree r)
  to_tree (token_node t l r) = node (some t) (to_tree l) (to_tree r)

  unfoldable pub of_tree : Tree (Option (Token V)) → Expr V
  of_tree nil = leaf
  of_tree (node none l r) = null_node (of_tree l) (of_tree r)
  of_tree (node (some t) l r) = token_node t (of_tree l) (of_tree r)

  pub to_list-of_list : (ts : List (Token V)) → to_list (of_list ts) ≡ ts
  unfolding to_list of_list
  to_list-of_list [] = refl
  to_list-of_list (t ∷ ts) = ap (◌∷◌ t) (to_list-of_list ts)

  pub to_lists-of_lists : (ls : List (List (Token V))) → to_lists (of_lists ls) ≡ ls
  unfolding to_lists of_lists
  to_lists-of_lists [] = refl
  to_lists-of_lists (l ∷ ls) = rw (to_list-of_list l, to_lists-of_lists ls)

  pub to_tree-of_tree : (t : Tree (Option (Token V))) → to_tree (of_tree t) ≡ t
  unfolding to_tree of_tree
  to_tree-of_tree nil = refl
  to_tree-of_tree (node none l r) = rw (to_tree-of_tree l, to_tree-of_tree r)
  to_tree-of_tree (node (some t) l r) = rw (to_tree-of_tree l, to_tree-of_tree r)
