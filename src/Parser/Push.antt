-- ===== src/Parser/Push.antt =====
-- `build_tree` without iterators: one signal and the operand behind it at a time.
pub mod Loop
use covscript.Prelude.{
  List, [], ◌∷◌, ◌++◌, length, Bool, true, false, Option, some, Result, ok, err, out_of_range, inl,
  inr, Bool-cases, Result-cases, ◌>>=◌, ltb, ◌==◌, if◌then◌else◌, ◌≡◌, ◌≢◌, refl, ap, ◌∙◌, arith,
}
use covscript.Container.Tree.{
  Tree, nil, node, Iterator, left, right, subtree, put, emplace_root_left, emplace_left_left,
}
use covscript.Container.Tree.Edits.{
  emplace_root_left_lem, emplace_right_left_lem, emplace_right_right_lem,
}
use covscript.Container.Tree.Order.{subtree-put, put-put, subtree-append, put-append}
use covscript.Syntax.Token.{Token}
use covscript.Parser.Build.{
  get_signal_level, is_left_associative, place_equal, place_signal, build_loop, build_from,
}

module _ {V : Type 0} where
  abbrev pub operand : Option (Token V) → Tree (Option (Token V))
  operand object = node object nil nil

  abbrev pub join_equal :
      Bool
      → Option (Token V)
      → Tree (Option (Token V))
      → Tree (Option (Token V))
      → Token V
      → Option (Token V)
      → Tree (Option (Token V))
  join_equal associative d l r s object =
      if associative
      then node d l (node (some s) r (operand object))
      else node (some s) (node d l r) (operand object)

  -- A finished tree takes one more signal with its right operand.
  unfoldable pub push :
      Tree (Option (Token V)) → Token V → Option (Token V) → Result (Tree (Option (Token V)))
  push nil s object = err out_of_range
  push (node d l nil) s object = ok (node (some s) (node d l nil) (operand object))
  push (node d l (node e m r)) s object = do
    here ← get_signal_level d
    new ← get_signal_level (some s)
    let further = push (node e m r) s object >>= λ t. ok (node d l t)
    if here == new
        then (is_left_associative d >>= λ associative.
            ok (join_equal associative d l (node e m r) s object))
        else if ltb new here
        then ok (node (some s) (node d l (node e m r)) (operand object))
        else further

  unfoldable pub push_all :
      Tree (Option (Token V))
      → List (Token V)
      → List (Option (Token V))
      → Result (Tree (Option (Token V)))
  unfolding push
  push_all tree [] [] = ok tree
  push_all tree (s ∷ signals) (object ∷ objects) =
      push tree s object >>= λ tree. push_all tree signals objects
  push_all tree signals objects = err out_of_range
