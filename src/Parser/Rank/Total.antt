-- ===== src/Parser/Rank/Total.antt =====
-- `build_tree` succeeds, and its tree has the tokens in order and respects precedence.
use covscript.Prelude.{
  ◌+◌, false, not, ◌||◌, List, [], ◌∷◌, ◌++◌, length, Option, Result, ok, bind-eq-ok, ok-injective,
  ◌==◌, ◌≡◌, ◌≢◌, refl, sym, ap, ◌∙◌, arith, append_assoc, append-nil,
}
use covscript.Container.Tree.{Tree, inorder}
use covscript.Syntax.Token.{Token}
use covscript.Parser.Build.{group_object, group_objects, build_tree}
use covscript.Parser.Push.{operand, push_all}
use covscript.Parser.Push.Loop.{build_from-push_all}
use covscript.Parser.Rank.{Ranked, lone, HasLevels, tail_weave, weave}
use covscript.Parser.Rank.Pushes.{push_total, push-Pushes, Pushes-Ranked, Pushes-inorder}

module _ {V : Type 0} where
  pub operands_fit :
      (objects : List (Option (Token V))) (signals : List (Token V))
      → signals ≢ []
      → length objects ≡ length signals + 1
      → (length objects == 0 || length signals == 0 || not (length objects == length signals + 1))
        ≡ false
  operands_fit objects [] n h = absurd (n refl)
  operands_fit objects (s ∷ signals) n h = ground arith

  length-group_objects :
      (gen : List (Token V) → Result (Tree (Option (Token V))))
      (objects grouped : List (Option (Token V)))
      → group_objects gen objects ≡ ok grouped
      → length grouped ≡ length objects
  unfolding group_objects
  length-group_objects gen [] grouped h = ap length (sym (ok-injective _ _ h))
  length-group_objects gen (object ∷ objects) grouped h =
      let (g, e, h1) = bind-eq-ok (group_object gen object) _ h in
      let (rest, f, h2) = bind-eq-ok (group_objects gen objects) _ h1 in
      omega (arith, ap length (ok-injective _ _ h2), length-group_objects gen objects rest f)

  -- `push_all` from a ranked tree gives a tree, which is ranked, with the tokens in order.
  pub push_all-Ranked :
      (t : Tree (Option (Token V))) (signals : List (Token V)) (objects : List (Option (Token V)))
      → length objects ≡ length signals
      → HasLevels signals
      → Ranked t
      → (u : Tree (Option (Token V))) × (push_all t signals objects ≡ ok u)
        × Ranked u
        × (inorder u ≡ inorder t ++ tail_weave signals objects)
  unfolding push_all
  push_all-Ranked t [] [] k l r = (t, refl, r, rw append-nil)
  push_all-Ranked t [] (o ∷ objects) k l r = absurd (omega arith)
  push_all-Ranked t (s ∷ signals) [] k l r = absurd (omega arith)
  push_all-Ranked t (s ∷ signals) (o ∷ objects) k ((n, g), l) r =
      let (v, e) = push_total t s o n g r in
      let p = push-Pushes t s o v e in
      let (u, f, ranked, order) =
        push_all-Ranked v signals objects (omega arith) l (Pushes-Ranked p g r) in
      (u, rw e f, ranked, order ∙ rw (Pushes-inorder p) (simp append_assoc))

  -- Where there is one more operand than signals, every signal has a level, and the brackets
  -- among the operands can be parsed, `build_tree` returns a tree. The tree respects the
  -- precedence of the signals, and its tokens from left to right are the operands, each bracket
  -- parsed, and the signals by turns.
  pub build_tree-Ranked :
      (gen : List (Token V) → Result (Tree (Option (Token V)))) (signals : List (Token V))
      (objects grouped : List (Option (Token V)))
      → signals ≢ []
      → length objects ≡ length signals + 1
      → group_objects gen objects ≡ ok grouped
      → HasLevels signals
      → (u : Tree (Option (Token V))) × (build_tree gen signals objects ≡ ok u)
        × Ranked u
        × (inorder u ≡ weave signals grouped)
  unfolding build_tree
  build_tree-Ranked gen [] objects grouped ne k h l = absurd (ne refl)
  build_tree-Ranked gen (s ∷ signals) objects [] ne k h l =
      absurd (omega (arith, length-group_objects gen objects [] h))
  build_tree-Ranked gen (s ∷ signals) objects (g ∷ grouped) ne k h l =
      let same = length-group_objects gen objects (g ∷ grouped) h in
      let (u, e, r, o) =
        push_all-Ranked (operand g) (s ∷ signals) grouped (omega (arith, same)) l lone in
      (
        u,
        rw (operands_fit objects (s ∷ signals) ne k, h)
            (build_from-push_all s signals g grouped (omega (arith, same)) ∙ e),
        r,
        o,
      )
