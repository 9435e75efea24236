-- ===== src/Container/Tree.antt =====
-- `tree_type` of include/covscript/core/components.hpp, the binary tree of expressions.
-- A node's pointer is modelled by the way down to it from the root: it names the same node until
-- a node is put in or taken out above it, and the callers use none of their iterators after that.
pub mod Order
pub mod Edits
pub mod Emplace
use covscript.Prelude.{
  List, [], ◌∷◌, ◌++◌, Option, none, some, Result, ok, err, Error, runtime_error, ◌>>=◌,
}

-- A null pointer is `nil`; the `root` pointer of a node is where the node hangs.
pub data Tree {ℓ} (A : Type ℓ) : Type ℓ where
  nil : Tree A
  node : A → Tree A → Tree A → Tree A

pub data Direction : Type 0 where
  left right : Direction

abbrev pub Iterator : Type 0
Iterator = List Direction

abbrev pub empty_node : Error
empty_node = runtime_error "Tree node is empty"

-- The way to a node, less its last step.
unfoldable pub drop_last : Direction → Iterator → Iterator
drop_last d [] = []
drop_last d (e ∷ it) = d ∷ drop_last e it

module _ {ℓ} {A : Type ℓ} where
  -- The node that an iterator points to.
  unfoldable pub subtree : Tree A → Iterator → Tree A
  subtree t [] = t
  subtree nil (d ∷ it) = nil
  subtree (node a l r) (left ∷ it) = subtree l it
  subtree (node a l r) (right ∷ it) = subtree r it

  -- Writing a new node where the iterator points to.
  unfoldable pub put : Tree A → Iterator → Tree A → Tree A
  put t [] s = s
  put nil (d ∷ it) s = nil
  put (node a l r) (left ∷ it) s = node a (put l it s) r
  put (node a l r) (right ∷ it) s = node a l (put r it s)

  -- `iterator::data`
  unfoldable pub data_of : Tree A → Result A
  data_of nil = err empty_node
  data_of (node a l r) = ok a

  unfoldable pub left_of : Tree A → Result (Tree A)
  left_of nil = err empty_node
  left_of (node a l r) = ok l

  unfoldable pub right_of : Tree A → Result (Tree A)
  right_of nil = err empty_node
  right_of (node a l r) = ok r

  -- The parent of a node; the root's is a null pointer.
  unfoldable pub root_of : Tree A → Iterator → Result (Option Iterator)
  root_of nil it = err empty_node
  root_of (node a l r) [] = ok none
  root_of (node a l r) (d ∷ it) = elim (subtree (node a l r) (d ∷ it)) [
    | nil ↦ err empty_node
    | node b m s ↦ ok (some (drop_last d it))
  ]

  -- A new node in the place of the iterator's, which becomes its left child.
  unfoldable pub emplace_root_left : Tree A → Iterator → A → Result (Tree A × Iterator)
  emplace_root_left nil it a = ok (node a nil nil, [])
  emplace_root_left t [] a = ok (node a t nil, [])
  emplace_root_left t (d ∷ it) a = elim (subtree t (d ∷ it)) [
    | nil ↦ err empty_node
    | node b l r ↦ ok (put t (d ∷ it) (node a (node b l r) nil), d ∷ it)
  ]

  unfoldable pub emplace_root_right : Tree A → Iterator → A → Result (Tree A × Iterator)
  emplace_root_right nil it a = ok (node a nil nil, [])
  emplace_root_right t [] a = ok (node a nil t, [])
  emplace_root_right t (d ∷ it) a = elim (subtree t (d ∷ it)) [
    | nil ↦ err empty_node
    | node b l r ↦ ok (put t (d ∷ it) (node a nil (node b l r)), d ∷ it)
  ]

  -- A new left child, with the old one for its left child.
  unfoldable pub emplace_left_left : Tree A → Iterator → A → Result (Tree A × Iterator)
  emplace_left_left t it a = elim (subtree t it) [
    | nil ↦ err empty_node
    | node b l r ↦ ok (put t it (node b (node a l nil) r), it ++ left ∷ [])
  ]

  unfoldable pub emplace_left_right : Tree A → Iterator → A → Result (Tree A × Iterator)
  emplace_left_right t it a = elim (subtree t it) [
    | nil ↦ err empty_node
    | node b l r ↦ ok (put t it (node b (node a nil l) r), it ++ left ∷ [])
  ]

  -- A new right child, with the old one for its left child.
  unfoldable pub emplace_right_left : Tree A → Iterator → A → Result (Tree A × Iterator)
  emplace_right_left t it a = elim (subtree t it) [
    | nil ↦ err empty_node
    | node b l r ↦ ok (put t it (node b l (node a r nil)), it ++ right ∷ [])
  ]

  unfoldable pub emplace_right_right : Tree A → Iterator → A → Result (Tree A × Iterator)
  emplace_right_right t it a = elim (subtree t it) [
    | nil ↦ err empty_node
    | node b l r ↦ ok (put t it (node b l (node a nil r)), it ++ right ∷ [])
  ]

  -- Destroys the node with all below it, and returns the parent.
  unfoldable pub erase : Tree A → Iterator → Result (Tree A × Option Iterator)
  unfolding root_of
  erase t it = do up ← root_of t it; ok (put t it nil, up)

  -- Destroys the node and its right child; the left child takes its place.
  unfoldable pub reserve_left : Tree A → Iterator → Result (Tree A × Iterator)
  reserve_left t it = elim (subtree t it) [
    | nil ↦ err empty_node
    | node b nil r ↦ err empty_node
    | node b (node c m s) r ↦ ok (put t it (node c m s), it)
  ]

  unfoldable pub reserve_right : Tree A → Iterator → Result (Tree A × Iterator)
  reserve_right t it = elim (subtree t it) [
    | nil ↦ err empty_node
    | node b l nil ↦ err empty_node
    | node b l (node c m s) ↦ ok (put t it (node c m s), it)
  ]

  unfoldable pub erase_left : Tree A → Iterator → Result (Tree A × Iterator)
  erase_left t it = elim (subtree t it) [
    | nil ↦ err empty_node
    | node b l r ↦ ok (put t it (node b nil r), it)
  ]

  unfoldable pub erase_right : Tree A → Iterator → Result (Tree A × Iterator)
  erase_right t it = elim (subtree t it) [
    | nil ↦ err empty_node
    | node b l r ↦ ok (put t it (node b l nil), it)
  ]

  -- The data of the nodes from left to right.
  abbrev pub inorder : Tree A → List A
  inorder nil = []
  inorder (node a l r) = inorder l ++ (a ∷ inorder r)

  -- What stands in order before and behind the iterator's node.
  abbrev pub before : Tree A → Iterator → List A
  before t [] = []
  before nil (d ∷ it) = []
  before (node a l r) (left ∷ it) = before l it
  before (node a l r) (right ∷ it) = inorder l ++ (a ∷ before r it)

  abbrev pub behind : Tree A → Iterator → List A
  behind t [] = []
  behind nil (d ∷ it) = []
  behind (node a l r) (left ∷ it) = behind l it ++ (a ∷ inorder r)
  behind (node a l r) (right ∷ it) = behind r it
