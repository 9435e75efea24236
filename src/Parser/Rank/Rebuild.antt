-- ===== src/Parser/Rank/Rebuild.antt =====
-- `build_tree` is the inverse of writing a tree out.
use covscript.Prelude.{
  ℕ, true, List, [], ◌∷◌, length, length-append, Option, none, some, Result, ok, ◌≡◌, ◌≢◌, refl,
  ◌∙◌, arith,
}
use covscript.Container.Tree.{Tree, nil, node}
use covscript.Syntax.Token.{Token}
use covscript.Parser.Build.{
  get_signal_level, is_left_associative, group_objects, build_from, build_tree,
}
use covscript.Parser.Push.{operand, push, push_all}
use covscript.Parser.Push.Loop.{build_from-push_all}
use covscript.Parser.Rank.Total.{operands_fit}
use covscript.Parser.Rank.Written.{
  Strict, single, joined, first, signals, operands, Strict-Above, push_all-append, push_all_under,
  push_above,
}

module _ {V : Type 0} where
  length-operands :
      (t : Tree (Option (Token V))) → Strict t → length (operands t) ≡ length (signals t)
  unfolding operands signals
  length-operands nil st = elim st [ ]
  length-operands (node none (node e m q) r) st = elim st [ ]
  length-operands (node o nil nil) single = refl
  length-operands (node (some s) nil r) (joined g l r' x y) = elim l [ ]
  length-operands (node (some s) (node e m q) r) (joined g l r' x y) = omega (
    arith,
    length-append (signals (node e m q)) (s ∷ signals r),
    length-append (operands (node e m q)) (first r ∷ operands r),
    length-operands (node e m q) l,
    length-operands r r',
  )

  push_all-written :
      (t : Tree (Option (Token V)))
      → Strict t
      → push_all (operand (first t)) (signals t) (operands t) ≡ ok t
  unfolding signals operands first push_all
  push_all-written nil st = elim st [ ]
  push_all-written (node none (node e m q) r) st = elim st [ ]
  push_all-written (node o nil nil) single = refl
  push_all-written (node (some s) nil r) (joined g l r' x y) = elim l [ ]
  push_all-written (node (some s) (node e m q) r) (joined {n} g l r' x y) =
      push_all-append (operand (first (node e m q))) (signals (node e m q)) (s ∷ signals r)
        (operands (node e m q)) (first r ∷ operands r) (length-operands (node e m q) l)
      ∙ rw (push_all-written (node e m q) l, push_above s (node e m q) n (first r) l g x)
          (push_all_under (some s) (node e m q) (operand (first r)) n (signals r) (operands r)
              (λ z. cc) g (Strict-Above n r r' y)
            ∙ rw (push_all-written r r'))

  build_from-written :
      (ss : List (Token V)) (object : Option (Token V)) (os : List (Option (Token V)))
      → ss ≢ []
      → length os ≡ length ss
      → build_from ss (object ∷ os) ≡ push_all (operand object) ss os
  build_from-written [] object os ne h = absurd (ne refl)
  build_from-written (s ∷ ss) object os ne h = build_from-push_all s ss object os h

  -- An expression tree with a signal in it, which no chain of assignments and no bracketed operand
  -- stands in, is what `build_tree` makes of its own signals and operands. So `build_tree` loses
  -- no tree, and two such trees with the same tokens are the same.
  pub build_tree-written :
      (gen : List (Token V) → Result (Tree (Option (Token V)))) (t : Tree (Option (Token V)))
      → Strict t
      → signals t ≢ []
      → group_objects gen (first t ∷ operands t) ≡ ok (first t ∷ operands t)
      → build_tree gen (signals t) (first t ∷ operands t) ≡ ok t
  unfolding build_tree
  build_tree-written gen t st ne g =
      rw
        (
          operands_fit (first t ∷ operands t) (signals t) ne (omega (arith, length-operands t st)),
          g,
        )
        (build_from-written (signals t) (first t) (operands t) ne (length-operands t st)
          ∙ push_all-written t st)

  -- Three assignments in a row: the first keeps the second as the left side of the third, so that
  -- the third assigns to the second's result.
  pub build_tree-assignments :
      (gen : List (Token V) → Result (Tree (Option (Token V)))) (s t u : Token V) (n : ℕ)
      (a b c d : Option (Token V))
      → get_signal_level (some s) ≡ ok n
      → get_signal_level (some t) ≡ ok n
      → get_signal_level (some u) ≡ ok n
      → is_left_associative (some s) ≡ ok true
      → group_objects gen (a ∷ b ∷ c ∷ d ∷ []) ≡ ok (a ∷ b ∷ c ∷ d ∷ [])
      → build_tree gen (s ∷ t ∷ u ∷ []) (a ∷ b ∷ c ∷ d ∷ [])
        ≡ ok (
            node
              (some s)
              (operand a)
              (node (some u) (node (some t) (operand b) (operand c)) (operand d)))
  unfolding build_tree push_all push
  build_tree-assignments gen s t u n a b c d f g h k z = rw z (
      build_from-push_all s (t ∷ u ∷ []) a (b ∷ c ∷ d ∷ []) refl
      ∙ rw (f, g, k) (ground (arith, f, g, h, k)))
