-- ===== src/Container/Tree/Order.antt =====
-- How the edits of `tree_type` change the order of the nodes.
use covscript.Prelude.{[], ◌∷◌, ◌++◌, ◌≡◌, ◌≢◌, refl, sym, ap, append_assoc, append-nil}
use covscript.Container.Tree.{
  Tree, nil, node, left, right, Iterator, subtree, put, inorder, before, behind,
}

module _ {ℓ} {A : Type ℓ} where
  -- The order splits at every node that is there.
  pub inorder-put :
      (t : Tree A) (it : Iterator) (s : Tree A)
      → subtree t it ≢ nil
      → inorder (put t it s) ≡ before t it ++ (inorder s ++ behind t it)
  unfolding put subtree
  inorder-put t [] s h = sym (append-nil (inorder s))
  inorder-put nil (d ∷ it) s h = absurd (h refl)
  inorder-put (node a l r) (left ∷ it) s h = simp (inorder-put l it s h, append_assoc)
  inorder-put (node a l r) (right ∷ it) s h = simp (inorder-put r it s h, append_assoc)

  pub put-subtree : (t : Tree A) (it : Iterator) → put t it (subtree t it) ≡ t
  unfolding put subtree
  put-subtree t [] = refl
  put-subtree nil (d ∷ it) = refl
  put-subtree (node a l r) (left ∷ it) = rw (put-subtree l it)
  put-subtree (node a l r) (right ∷ it) = rw (put-subtree r it)

  pub subtree-put :
      (t : Tree A) (it down : Iterator) (s : Tree A)
      → subtree t it ≢ nil
      → subtree (put t it s) (it ++ down) ≡ subtree s down
  unfolding put subtree
  subtree-put t [] down s h = refl
  subtree-put nil (d ∷ it) down s h = absurd (h refl)
  subtree-put (node a l r) (left ∷ it) down s h = subtree-put l it down s h
  subtree-put (node a l r) (right ∷ it) down s h = subtree-put r it down s h

  pub put-put :
      (t : Tree A) (it down : Iterator) (s u : Tree A)
      → subtree t it ≢ nil
      → put (put t it s) (it ++ down) u ≡ put t it (put s down u)
  unfolding put subtree
  put-put t [] down s u h = refl
  put-put nil (d ∷ it) down s u h = absurd (h refl)
  put-put (node a l r) (left ∷ it) down s u h = ap (λ m. node a m r) (put-put l it down s u h)
  put-put (node a l r) (right ∷ it) down s u h = ap (node a l) (put-put r it down s u h)

  pub subtree-append :
      (t : Tree A) (it down : Iterator) → subtree t (it ++ down) ≡ subtree (subtree t it) down
  unfolding subtree
  subtree-append t [] down = refl
  subtree-append nil (d ∷ it) [] = refl
  subtree-append nil (d ∷ it) (e ∷ down) = refl
  subtree-append (node a l r) (left ∷ it) down = subtree-append l it down
  subtree-append (node a l r) (right ∷ it) down = subtree-append r it down

  pub put-append :
      (t : Tree A) (it down : Iterator) (s : Tree A)
      → put t (it ++ down) s ≡ put t it (put (subtree t it) down s)
  unfolding subtree put
  put-append t [] down s = refl
  put-append nil (d ∷ it) down s = refl
  put-append (node a l r) (left ∷ it) down s = ap (λ m. node a m r) (put-append l it down s)
  put-append (node a l r) (right ∷ it) down s = ap (node a l) (put-append r it down s)
