-- ===== src/Container/Tree/Emplace.antt =====
-- What `emplace_*`, `reserve_*` and `erase_*` of `tree_type` do to the order of the nodes.
use covscript.Prelude.{List, [], ◌∷◌, ◌++◌, Result, ok, ◌≡◌, ◌≢◌, refl, ap, ◌∙◌, append_assoc}
use covscript.Container.Tree.{
  Tree, nil, node, left, right, Iterator, subtree, put, data_of, emplace_root_left,
  emplace_root_right, emplace_left_left, emplace_left_right, emplace_right_left,
  emplace_right_right, inorder, before, behind,
}
use covscript.Container.Tree.Edits.{
  emplace_root_left_lem, emplace_root_right_lem, emplace_left_left_lem, emplace_left_right_lem,
  emplace_right_left_lem, emplace_right_right_lem,
}
use covscript.Container.Tree.Order.{inorder-put, subtree-put}

module _ {ℓ} {A : Type ℓ} where
  -- The call returns a tree whose order is `xs`, `a`, `ys`, and an iterator to the node of `a`.
  abbrev pub Adds : List A → A → List A → Result (Tree A × Iterator) → Type ℓ
  Adds xs a ys m =
      (t : Tree A) × (it : Iterator) × (m ≡ ok (t, it))
      × (inorder t ≡ xs ++ (a ∷ ys))
      × (data_of (subtree t it) ≡ ok a)

  node-ne-nil : {b : A} {l r s : Tree A} → s ≡ node b l r → s ≢ nil
  node-ne-nil h e = cc

  -- A tree `s` written at a node that is there, whose own order splits at `a`.
  put-Adds :
      (t : Tree A) (it down : Iterator) (s : Tree A) {b : A} {l r : Tree A} (xs ys : List A) {a : A}
      {m : Result (Tree A × Iterator)}
      → subtree t it ≡ node b l r
      → m ≡ ok (put t it s, it ++ down)
      → inorder s ≡ xs ++ (a ∷ ys)
      → data_of (subtree s down) ≡ ok a
      → Adds (before t it ++ xs) a (ys ++ behind t it) m
  put-Adds t it down s xs ys {a = a} h w o d = (
    put t it s,
    it ++ down,
    w,
    inorder-put t it s (node-ne-nil h)
        ∙ ap (λ zs. before t it ++ (zs ++ behind t it)) o
        ∙ simp append_assoc,
    ap data_of (subtree-put t it down s (node-ne-nil h)) ∙ d,
  )

  -- Each `emplace` at a node that is there puts in one node, which holds `a` and to which the
  -- returned iterator points, at its place in the order of the nodes, and leaves the order of the
  -- others alone: behind (`root_left`) or before (`root_right`) the whole subtree, or at either
  -- end of the left or of the right child's subtree.
  pub emplace-Adds :
      (t : Tree A) (it : Iterator) (a b : A) (l r : Tree A)
      → subtree t it ≡ node b l r
      → Adds
          (before t it ++ (inorder l ++ (b ∷ inorder r)))
          a
          ([] ++ behind t it)
          (emplace_root_left t it a)
        × Adds
            (before t it ++ [])
            a
            ((inorder l ++ (b ∷ inorder r)) ++ behind t it)
            (emplace_root_right t it a)
        × Adds
            (before t it ++ inorder l)
            a
            ((b ∷ inorder r) ++ behind t it)
            (emplace_left_left t it a)
        × Adds
            (before t it ++ [])
            a
            ((inorder l ++ (b ∷ inorder r)) ++ behind t it)
            (emplace_left_right t it a)
        × Adds
            (before t it ++ (inorder l ++ (b ∷ inorder r)))
            a
            ([] ++ behind t it)
            (emplace_right_left t it a)
        × Adds
            (before t it ++ (inorder l ++ (b ∷ [])))
            a
            (inorder r ++ behind t it)
            (emplace_right_right t it a)
  unfolding subtree data_of
  emplace-Adds t it a b l r h = (
    put-Adds t it [] (node a (node b l r) nil) (inorder l ++ (b ∷ inorder r)) [] h
        (emplace_root_left_lem a b l r t it h) refl refl,
    put-Adds t it [] (node a nil (node b l r)) [] (inorder l ++ (b ∷ inorder r)) h
        (emplace_root_right_lem a b l r t it h) refl refl,
    put-Adds t it (left ∷ []) (node b (node a l nil) r) (inorder l) (b ∷ inorder r) h
        (emplace_left_left_lem a b l r t it h) (simp append_assoc) refl,
    put-Adds t it (left ∷ []) (node b (node a nil l) r) [] (inorder l ++ (b ∷ inorder r)) h
        (emplace_left_right_lem a b l r t it h) refl refl,
    put-Adds t it (right ∷ []) (node b l (node a r nil)) (inorder l ++ (b ∷ inorder r)) [] h
        (emplace_right_left_lem a b l r t it h) (simp append_assoc) refl,
    put-Adds t it (right ∷ []) (node b l (node a nil r)) (inorder l ++ (b ∷ [])) (inorder r) h
        (emplace_right_right_lem a b l r t it h) (simp append_assoc) refl,
  )
