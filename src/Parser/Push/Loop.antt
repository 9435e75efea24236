-- ===== src/Parser/Push/Loop.antt =====
-- The loops of `build_tree`, with their iterator, do what `push` and `push_all` do.
use covscript.Prelude.{
  List, [], ◌∷◌, ◌++◌, length, true, false, Option, some, Result, ok, err, inl, inr, Bool-cases,
  Result-cases, ◌>>=◌, ltb, ◌==◌, ◌≡◌, ◌≢◌, refl, ap, ◌∙◌, arith,
}
use covscript.Container.Tree.{
  Tree, nil, node, Iterator, left, right, subtree, put, emplace_root_left, emplace_left_left,
}
use covscript.Container.Tree.Edits.{
  emplace_root_left_lem, emplace_right_left_lem, emplace_right_right_lem,
}
use covscript.Container.Tree.Order.{subtree-put, put-put, subtree-append, put-append}
use covscript.Syntax.Token.{Token}
use covscript.Parser.Build.{
  get_signal_level, is_left_associative, place_equal, place_signal, build_loop, build_from,
}
use covscript.Parser.Push.{operand, join_equal, push, push_all}

module _ {V : Type 0} where
  -- The signal stands in the tree with no right operand, at the iterator; with the operand put in
  -- the tree is the one that `push` makes at `it`.
  abbrev Placed :
      Tree (Option (Token V))
      → Iterator
      → Token V
      → Option (Token V)
      → Result (Tree (Option (Token V)))
      → Result (Tree (Option (Token V)) × Iterator)
      → Type 0
  Placed t it s object (err e) placed = placed ≡ err e
  Placed t it s object (ok u) placed =
      (t' : Tree (Option (Token V))) × (it' : Iterator) × (l : Tree (Option (Token V))) × (placed
        ≡ ok (t', it'))
      × (subtree t' it' ≡ node (some s) l nil)
      × (put t' it' (node (some s) l (operand object)) ≡ put t it u)

  -- The node `it` points to is overwritten by a subtree in which the signal stands at `down`.
  put-Placed :
      (t : Tree (Option (Token V))) (it down : Iterator) (s : Token V) (object : Option (Token V))
      (w u l : Tree (Option (Token V))) {placed : Result (Tree (Option (Token V)) × Iterator)}
      → subtree t it ≢ nil
      → placed ≡ ok (put t it w, it ++ down)
      → subtree w down ≡ node (some s) l nil
      → put w down (node (some s) l (operand object)) ≡ u
      → Placed t it s object (ok u) placed
  put-Placed t it down s object w u l h e there filled = (
    put t it w,
    it ++ down,
    l,
    e,
    subtree-put t it down w h ∙ there,
    put-put t it down w _ h ∙ ap (put t it) filled,
  )

  Placed-further :
      (t : Tree (Option (Token V))) (it : Iterator) (s : Token V) (object : Option (Token V))
      (d : Option (Token V)) (l r : Tree (Option (Token V)))
      (pushed : Result (Tree (Option (Token V))))
      (placed : Result (Tree (Option (Token V)) × Iterator))
      → subtree t it ≡ node d l r
      → Placed t (it ++ right ∷ []) s object pushed placed
      → Placed t it s object (pushed >>= λ u. ok (node d l u)) placed
  Placed-further t it s object d l r (err e) placed h p = p
  Placed-further t it s object d l r (ok u) placed h (t', it', m, e, there, filled) = (
    t',
    it',
    m,
    e,
    there,
    filled
        ∙ put-append t it (right ∷ []) u
        ∙ ap (λ v. put t it (put v (right ∷ []) u)) h
        ∙ unfold put in refl,
  )

  Placed-equal :
      (t : Tree (Option (Token V))) (it : Iterator) (s : Token V) (object : Option (Token V))
      (d : Option (Token V)) (l r : Tree (Option (Token V)))
      → subtree t it ≡ node d l r
      → Placed t it s object
          (is_left_associative d >>= λ associative. ok (join_equal associative d l r s object))
          (place_equal t it d s)
  unfolding place_equal subtree put
  Placed-equal t it s object d l r h = elim (Result-cases (is_left_associative d)) [
    | inl (e, f) ↦ rw (f, ◌>>=◌) refl
    | inr (true, f) ↦
        rw (f, ◌>>=◌)
          (put-Placed t it (right ∷ []) s object (node d l (node (some s) r nil)) _ r (λ n. cc)
            (emplace_right_left_lem (some s) d l r t it h) refl refl)
    | inr (false, f) ↦
        rw (f, ◌>>=◌)
          (put-Placed t it [] s object (node (some s) (node d l r) nil) _ (node d l r) (λ n. cc)
            (emplace_root_left_lem (some s) d l r t it h) refl refl)
  ]

  place_signal-Placed :
      (t : Tree (Option (Token V))) (rightmost it : Iterator) (u : Tree (Option (Token V)))
      (s : Token V) (object : Option (Token V))
      → subtree t it ≡ u
      → u ≢ nil
      → Placed t it s object (push u s object) (place_signal t rightmost it u s)
  unfolding push place_signal subtree put
  place_signal-Placed t rightmost it nil s object h n = absurd (n refl)
  place_signal-Placed t rightmost it (node d l nil) s object h n =
      put-Placed t it [] s object (node (some s) (node d l nil) nil) _ (node d l nil) (λ n. cc)
        (emplace_root_left_lem (some s) d l nil t it h) refl refl
  place_signal-Placed t rightmost it (node d l (node e m r)) s object h n =
      let ih =
        place_signal-Placed t rightmost (it ++ right ∷ []) (node e m r) s object
          (subtree-append t it (right ∷ []) ∙ rw h refl) (λ n. cc) in
      elim (Result-cases (get_signal_level d)) [
        | inl (e, f) ↦ rw (f, ◌>>=◌) refl
        | inr (here, f) ↦
            rw (f, ◌>>=◌)
              (elim (Result-cases (get_signal_level (some s))) [
                | inl (e, g) ↦ rw (g, ◌>>=◌) refl
                | inr (new, g) ↦
                    rw (g, ◌>>=◌)
                      (elim (Bool-cases (here == new)) [
                        | inl same ↦ rw same (Placed-equal t it s object d l (node e m r) h)
                        | inr differ ↦ rw differ (elim (Bool-cases (ltb new here)) [
                          | inl less ↦ rw less (
                              put-Placed t it [] s object
                                (node (some s) (node d l (node e m r)) nil) _
                                (node d l (node e m r)) (λ n. cc)
                                (emplace_root_left_lem (some s) d l (node e m r) t it h) refl refl)
                          | inr more ↦
                              rw more (Placed-further t it s object d l (node e m r) _ _ h ih)
                        ])
                      ])
              ])
      ]

  put-ne-nil :
      (t : Tree (Option (Token V))) (it : Iterator) (s : Tree (Option (Token V)))
      → subtree t it ≢ nil
      → s ≢ nil
      → put t it s ≢ nil
  unfolding put subtree
  put-ne-nil t [] s h n = n
  put-ne-nil nil (d ∷ it) s h n = h
  put-ne-nil (node a l r) (left ∷ it) s h n = λ e. cc
  put-ne-nil (node a l r) (right ∷ it) s h n = λ e. cc

  build_step :
      (t1 : Tree (Option (Token V))) (s : Token V) (object : Option (Token V))
      (signals : List (Token V)) (objects : List (Option (Token V)))
      (pushed : Result (Tree (Option (Token V))))
      (placed : Result (Tree (Option (Token V)) × Iterator))
      → Placed t1 [] s object pushed placed
      → ((t : Tree (Option (Token V))) (it : Iterator) (l : Tree (Option (Token V)))
          → subtree t it ≡ node (some s) l nil
          → build_loop t it signals (object ∷ objects)
            ≡ push_all (put t it (node (some s) l (operand object))) signals objects)
      → (placed >>= λ (t, it). build_loop t it signals (object ∷ objects))
        ≡ (pushed >>= λ u. push_all u signals objects)
  unfolding put
  build_step t1 s object signals objects (err e) placed p ih = rw p
  build_step t1 s object signals objects (ok u) placed (t, it, l, e, there, filled) ih =
      rw e (ih t it l there ∙ ap (λ v. push_all v signals objects) filled)

  build_loop-push_all :
      (t : Tree (Option (Token V))) (it : Iterator) (s : Token V) (l : Tree (Option (Token V)))
      (object : Option (Token V)) (signals : List (Token V)) (objects : List (Option (Token V)))
      → length objects ≡ length signals
      → subtree t it ≡ node (some s) l nil
      → build_loop t it signals (object ∷ objects)
        ≡ push_all (put t it (node (some s) l (operand object))) signals objects
  unfolding build_loop push_all
  build_loop-push_all t it s l object [] [] e h =
      rw (emplace_right_right_lem object (some s) l nil t it h)
  build_loop-push_all t it s l object [] (o ∷ objects) e h = refl
  build_loop-push_all t it s l object (s' ∷ signals) [] e h = absurd (omega arith)
  build_loop-push_all t it s l object (s' ∷ signals) (o ∷ objects) e h =
      let t1 = put t it (node (some s) l (operand object)) in
      rw (emplace_right_right_lem object (some s) l nil t it h) (
        build_step t1 s' o signals objects (push t1 s' o)
          (place_signal t1 (it ++ right ∷ []) [] t1 s')
          (place_signal-Placed t1 (it ++ right ∷ []) [] t1 s' o (unfold subtree in refl)
            (put-ne-nil t it _ (λ n. cc) (λ n. cc)))
          (λ t2 it2 l2 h2. build_loop-push_all t2 it2 s' l2 o signals objects (omega arith) h2))

  -- `build_tree` on operands that are no brackets.
  pub build_from-push_all :
      (s : Token V) (signals : List (Token V)) (object : Option (Token V))
      (objects : List (Option (Token V)))
      → length objects ≡ length (s ∷ signals)
      → build_from (s ∷ signals) (object ∷ objects)
        ≡ push_all (operand object) (s ∷ signals) objects
  unfolding build_from push_all push emplace_root_left emplace_left_left subtree put
  build_from-push_all s signals object [] e = absurd (omega arith)
  build_from-push_all s signals object (o ∷ objects) e =
      build_loop-push_all (node (some s) (operand object) nil) [] s (operand object) o signals
        objects (omega arith) refl
