-- ===== src/Container/Tree/Edits.antt =====
-- Each `emplace_*` of `tree_type` at a node that is there: what it writes in the node's place, and
-- where the iterator that it returns points to.
use covscript.Prelude.{[], ◌∷◌, ◌++◌, ok, ◌≡◌, arith, append-nil}
use covscript.Container.Tree.{
  Tree, nil, node, left, right, Iterator, subtree, put, emplace_root_left, emplace_root_right,
  emplace_left_left, emplace_left_right, emplace_right_left, emplace_right_right,
}

module _ {ℓ} {A : Type ℓ} where
  module _ (a b : A) (l r : Tree A) where
    pub emplace_root_left_lem :
        (t : Tree A) (it : Iterator)
        → subtree t it ≡ node b l r
        → emplace_root_left t it a ≡ ok (put t it (node a (node b l r) nil), it ++ [])
    unfolding emplace_root_left subtree put
    emplace_root_left_lem nil [] h = cc
    emplace_root_left_lem nil (d ∷ it) h = cc
    emplace_root_left_lem (node c m s) [] h = rw h
    emplace_root_left_lem (node c m s) (d ∷ it) h = rw (append-nil it) (ground (arith, h))

    pub emplace_root_right_lem :
        (t : Tree A) (it : Iterator)
        → subtree t it ≡ node b l r
        → emplace_root_right t it a ≡ ok (put t it (node a nil (node b l r)), it ++ [])
    unfolding emplace_root_right subtree put
    emplace_root_right_lem nil [] h = cc
    emplace_root_right_lem nil (d ∷ it) h = cc
    emplace_root_right_lem (node c m s) [] h = rw h
    emplace_root_right_lem (node c m s) (d ∷ it) h = rw (append-nil it) (ground (arith, h))

    pub emplace_left_left_lem :
        (t : Tree A) (it : Iterator)
        → subtree t it ≡ node b l r
        → emplace_left_left t it a ≡ ok (put t it (node b (node a l nil) r), it ++ left ∷ [])
    unfolding emplace_left_left
    emplace_left_left_lem t it h = rw (h, emplace_left_left)

    pub emplace_left_right_lem :
        (t : Tree A) (it : Iterator)
        → subtree t it ≡ node b l r
        → emplace_left_right t it a ≡ ok (put t it (node b (node a nil l) r), it ++ left ∷ [])
    unfolding emplace_left_right
    emplace_left_right_lem t it h = rw (h, emplace_left_right)

    pub emplace_right_left_lem :
        (t : Tree A) (it : Iterator)
        → subtree t it ≡ node b l r
        → emplace_right_left t it a ≡ ok (put t it (node b l (node a r nil)), it ++ right ∷ [])
    unfolding emplace_right_left
    emplace_right_left_lem t it h = rw (h, emplace_right_left)

    pub emplace_right_right_lem :
        (t : Tree A) (it : Iterator)
        → subtree t it ≡ node b l r
        → emplace_right_right t it a ≡ ok (put t it (node b l (node a nil r)), it ++ right ∷ [])
    unfolding emplace_right_right
    emplace_right_right_lem t it h = rw (h, emplace_right_right)
