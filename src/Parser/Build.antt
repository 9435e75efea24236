-- ===== src/Parser/Build.antt =====
-- `split_token`, `build_tree` and `gen_tree` of sources/compiler/parser.cpp, with
-- `get_signal_level` and `is_left_associative` of include/covscript/impl/compiler.hpp.
use covscript.Prelude.{
  ℕ, zero, suc, ◌+◌, Bool, true, false, ◌||◌, not, List, [], ◌∷◌, ◌++◌, length, Option, none, some,
  Result, ok, err, compile_error, out_of_range, out_of_fuel, ◌>>=◌, ltb, ◌==◌, if◌then◌else◌,
}
use covscript.Container.Tree.{
  Tree, nil, node, Iterator, right, emplace_root_left, emplace_left_left, emplace_right_left,
  emplace_right_right,
}
use covscript.Syntax.Signal.{com_, match_entry, signal_level_map, signal_left_associative}
use covscript.Syntax.Token.{Token, action, signal, sblist, expr, to_lists, of_tree}

module _ {V : Type 0} where
  unfoldable pub get_signal_level : Option (Token V) → Result ℕ
  get_signal_level none = err (compile_error "Get the level of null token.")
  get_signal_level (some (signal s)) = match_entry (signal_level_map s)
  get_signal_level (some _) = err (compile_error "Get the level of non-signal token.")

  unfoldable pub is_left_associative : Option (Token V) → Result Bool
  is_left_associative none = err (compile_error "Get the level of null token.")
  is_left_associative (some (signal s)) = ok (signal_left_associative s)
  is_left_associative (some _) = err (compile_error "Get the level of non-signal token.")

  -- The loop of `split_token` behind the flag `request_signal`: the signals and the objects.
  unfoldable pub split_from :
      Bool → List (Token V) → Result (List (Token V) × List (Option (Token V)))
  split_from request_signal [] = ok ([], if request_signal then [] else none ∷ [])
  split_from request_signal (action a ∷ raw) =
      err (compile_error "Invalid expression: a keyword cannot appear as a value in an expression")
  split_from request_signal (signal s ∷ raw) = do
    (signals, objects) ← split_from false raw
    ok (signal s ∷ signals, if request_signal then objects else none ∷ objects)
  split_from request_signal (t ∷ raw) = do
    (signals, objects) ← split_from true raw
    ok (signals, some t ∷ objects)

  unfoldable pub split_token : List (Token V) → Result (List (Token V) × List (Option (Token V)))
  unfolding split_from
  split_token raw = split_from false raw

  -- The lists of a bracket, each with a comma behind it.
  unfoldable pub with_commas : List (List (Token V)) → List (Token V)
  with_commas [] = []
  with_commas (list ∷ lists) = list ++ (signal com_ ∷ with_commas lists)

  -- `pop_back`; a bracket holds a list at least, so it never meets the empty queue.
  unfoldable pub pop_back : List (Token V) → List (Token V)
  pop_back [] = []
  pop_back (t ∷ []) = []
  pop_back (t ∷ u ∷ ts) = t ∷ pop_back (u ∷ ts)

  module _ (gen_tree : List (Token V) → Result (Tree (Option (Token V)))) where
    -- A bracketed operand becomes the expression between its brackets.
    unfoldable pub group_object : Option (Token V) → Result (Option (Token V))
    unfolding with_commas pop_back
    group_object (some (sblist lists)) = do
      t ← gen_tree (pop_back (with_commas (to_lists lists)))
      ok (some (expr (of_tree t)))
    group_object object = ok object

    unfoldable pub group_objects : List (Option (Token V)) → Result (List (Option (Token V)))
    unfolding group_object
    group_objects [] = ok []
    group_objects (object ∷ objects) = do
      grouped ← group_object object
      rest ← group_objects objects
      ok (grouped ∷ rest)

  -- `it` points to a signal of the new one's level.
  unfoldable pub place_equal :
      Tree (Option (Token V))
      → Iterator
      → Option (Token V)
      → Token V
      → Result (Tree (Option (Token V)) × Iterator)
  place_equal tree it d s = do
    associative ← is_left_associative d
    if associative then emplace_right_left tree it (some s) else emplace_root_left tree it (some s)

  -- The inner loop of `build_tree`: the signal goes down the right edge of the tree. The third
  -- and fourth arguments are the loop's iterator and the node that it points to.
  unfoldable pub place_signal :
      Tree (Option (Token V))
      → Iterator
      → Iterator
      → Tree (Option (Token V))
      → Token V
      → Result (Tree (Option (Token V)) × Iterator)
  unfolding place_equal
  place_signal tree rightmost it nil s = ok (tree, rightmost)
  place_signal tree rightmost it (node d l nil) s = emplace_root_left tree it (some s)
  place_signal tree rightmost it (node d l (node e m r)) s = do
    here ← get_signal_level d
    new ← get_signal_level (some s)
    let further = place_signal tree rightmost (it ++ right ∷ []) (node e m r) s
    if here == new
        then place_equal tree it d s
        else if ltb new here
        then emplace_root_left tree it (some s)
        else further

  -- The outer loop: an object, then the signal behind it. The last object closes the tree.
  unfoldable pub build_loop :
      Tree (Option (Token V))
      → Iterator
      → List (Token V)
      → List (Option (Token V))
      → Result (Tree (Option (Token V)))
  unfolding place_signal
  build_loop tree rightmost [] (object ∷ []) = do
    (tree, rightmost) ← emplace_right_right tree rightmost object
    ok tree
  build_loop tree rightmost (s ∷ signals) (object ∷ objects) = do
    (tree, rightmost) ← emplace_right_right tree rightmost object
    (tree, rightmost) ← place_signal tree rightmost [] tree s
    build_loop tree rightmost signals objects
  build_loop tree rightmost signals objects = err out_of_range

  -- The first signal with its left operand, and the loop.
  unfoldable pub build_from :
      List (Token V) → List (Option (Token V)) → Result (Tree (Option (Token V)))
  unfolding build_loop
  build_from (s ∷ signals) (object ∷ objects) = do
    (tree, root) ← emplace_root_left nil [] (some s)
    (tree, leftmost) ← emplace_left_left tree [] object
    build_loop tree [] signals objects
  build_from signals objects = err out_of_range

  unfoldable pub build_tree :
      (List (Token V) → Result (Tree (Option (Token V))))
      → List (Token V)
      → List (Option (Token V))
      → Result (Tree (Option (Token V)))
  unfolding group_objects build_from
  build_tree gen_tree signals objects =
      if length objects == 0 || length signals == 0 || not (length objects == length signals + 1)
      then err (compile_error "Invalid expression syntax while building the expression tree")
      else (group_objects gen_tree objects >>= λ grouped. build_from signals grouped)

  -- `gen_tree`. The fuel bounds how deep brackets nest; `optimize_expression` is the optimiser.
  module _ (optimize_expression : Tree (Option (Token V)) → Result (Tree (Option (Token V)))) where
    unfoldable pub gen_tree : ℕ → List (Token V) → Result (Tree (Option (Token V)))
    unfolding build_tree split_token
    gen_tree zero raw = err out_of_fuel
    gen_tree (suc fuel) (obj ∷ []) = do
      object ← group_object (gen_tree fuel) (some obj)
      (tree, root) ← emplace_root_left nil [] object
      optimize_expression tree
    gen_tree (suc fuel) raw = do
      (signals, objects) ← split_token raw
      tree ← build_tree (gen_tree fuel) signals objects
      optimize_expression tree
