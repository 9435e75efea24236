-- ===== src/Parser/Rank/Pushes.antt =====
-- One step of `push` keeps precedence and order.
use native.Mathlib.Nat.{le_trans}
use covscript.Prelude.{
  ℕ, ◌≤◌, ◌<◌, Bool, true, [], ◌∷◌, ◌++◌, Option, none, some, ok, inl, inr, Bool-cases, bind-eq-ok,
  ok-injective, ltb, ◌==◌, ==_iff, ◌≡◌, ◌≢◌, refl, sym, ap, subst, ◌∙◌, arith, append_assoc,
}
use covscript.Container.Tree.{Tree, nil, node, inorder}
use covscript.Syntax.Token.{Token, signal}
use covscript.Parser.Build.{get_signal_level, is_left_associative}
use covscript.Parser.Push.{operand, join_equal, push}
use covscript.Parser.Rank.{AtLeast, lone, level, Ranked, binary, RightOf}

module _ {V : Type 0} where
  -- `push` as a relation: the new signal stands above the tree, in the place of the right side of
  -- an assignment of its level, or somewhere in the right side of a signal of a lower level.
  pub data Pushes (s : Token V) (object : Option (Token V))
      : Tree (Option (Token V)) → Tree (Option (Token V)) → Type 0 where
    last :
        {d : Option (Token V)} {l : Tree (Option (Token V))}
        → Pushes s object (node d l nil) (node (some s) (node d l nil) (operand object))
    above :
        {d : Option (Token V)} {l r : Tree (Option (Token V))} {n m : ℕ}
        → r ≢ nil
        → get_signal_level d ≡ ok n
        → get_signal_level (some s) ≡ ok m
        → m ≤ n
        → Pushes s object (node d l r) (node (some s) (node d l r) (operand object))
    chained :
        {d : Option (Token V)} {l r : Tree (Option (Token V))} {n : ℕ}
        → r ≢ nil
        → get_signal_level d ≡ ok n
        → get_signal_level (some s) ≡ ok n
        → is_left_associative d ≡ ok true
        → Pushes s object (node d l r) (node d l (node (some s) r (operand object)))
    below :
        {d : Option (Token V)} {l r u : Tree (Option (Token V))} {n m : ℕ}
        → r ≢ nil
        → get_signal_level d ≡ ok n
        → get_signal_level (some s) ≡ ok m
        → n < m
        → Pushes s object r u
        → Pushes s object (node d l r) (node d l u)

  Pushes-eq :
      {s : Token V} {object : Option (Token V)} {t u v : Tree (Option (Token V))}
      → Pushes s object t u
      → ok u ≡ ok v
      → Pushes s object t v
  Pushes-eq {s} {object} {t} {u} {v} p e = subst (Pushes s object t) (ok-injective u v e) p

  pub push-Pushes :
      (t : Tree (Option (Token V))) (s : Token V) (object : Option (Token V))
      (u : Tree (Option (Token V)))
      → push t s object ≡ ok u
      → Pushes s object t u
  unfolding push
  push-Pushes nil s object u h = cc
  push-Pushes (node d l nil) s object u h = Pushes-eq last h
  push-Pushes (node d l (node e m r)) s object u h =
      let (here, f, h1) = bind-eq-ok (get_signal_level d) _ h in
      let (new, g, h2) = bind-eq-ok (get_signal_level (some s)) _ h1 in
      elim (Bool-cases (here == new)) [
        | inl same ↦
            let (associative, a, h3) = bind-eq-ok (is_left_associative d) _ (rw same at h2) in
            elim (Bool-cases associative) [
              | inl yes' ↦
                  Pushes-eq
                    (chained (λ n. cc) f (g ∙ ap ok (sym ((==_iff here new).0 same)))
                      (a ∙ ap ok yes'))
                    (rw yes' at h3)
              | inr no' ↦ Pushes-eq (above (λ n. cc) f g (ground arith)) (rw no' at h3)
            ]
        | inr differ ↦ elim (Bool-cases (ltb new here)) [
          | inl less ↦ Pushes-eq (above (λ n. cc) f g (ground arith)) (rw (differ, less) at h2)
          | inr more ↦
              let (v, k, h3) =
                bind-eq-ok (push (node e m r) s object) _ (rw (differ, more) at h2) in
              Pushes-eq (below (λ n. cc) f g (ground arith) (push-Pushes (node e m r) s object v k))
                h3
        ]
      ]

  pub Pushes-inorder :
      {s : Token V} {object : Option (Token V)} {t : Tree (Option (Token V))}
      {u : Tree (Option (Token V))}
      → Pushes s object t u
      → inorder u ≡ inorder t ++ (some s ∷ object ∷ [])
  Pushes-inorder last = refl
  Pushes-inorder (above n f g le) = refl
  Pushes-inorder (chained n f g a) = simp append_assoc
  Pushes-inorder (below n f g lt p) = simp (Pushes-inorder p, append_assoc)

  Pushes-AtLeast :
      {s : Token V} {object : Option (Token V)} {t : Tree (Option (Token V))}
      {u : Tree (Option (Token V))} {k m : ℕ}
      → Pushes s object t u
      → get_signal_level (some s) ≡ ok m
      → k ≤ m
      → AtLeast k t
      → AtLeast k u
  Pushes-AtLeast last g h a = level g h
  Pushes-AtLeast (above n f _ le) g h a = level g h
  Pushes-AtLeast (chained n f g a) _ h lone = absurd (n refl)
  Pushes-AtLeast (chained n f g a) _ h (level e k) = level e k
  Pushes-AtLeast (below n f g lt p) _ h lone = absurd (n refl)
  Pushes-AtLeast (below n f g lt p) _ h (level e k) = level e k

  pub AtLeast-mono : {k n : ℕ} {t : Tree (Option (Token V))} → k ≤ n → AtLeast n t → AtLeast k t
  AtLeast-mono h lone = lone
  AtLeast-mono h (level e k) = level e (le_trans h k)

  RightOf-AtLeast :
      {n k : ℕ} (d : Option (Token V)) {r : Tree (Option (Token V))}
      → RightOf n d r
      → k ≤ n
      → AtLeast k r
  RightOf-AtLeast d (inl a) h = AtLeast-mono (omega arith) a
  RightOf-AtLeast d (inr (c, a)) h = AtLeast-mono h a

  Pushes-RightOf :
      {s : Token V} {object : Option (Token V)} {t : Tree (Option (Token V))}
      {u : Tree (Option (Token V))} (d : Option (Token V)) {n m : ℕ}
      → Pushes s object t u
      → get_signal_level (some s) ≡ ok m
      → n < m
      → RightOf n d t
      → RightOf n d u
  Pushes-RightOf d p g h (inl a) = inl (Pushes-AtLeast p g h a)
  Pushes-RightOf d p g h (inr (c, a)) = inr (c, Pushes-AtLeast p g (omega arith) a)

  pub Pushes-Ranked :
      {s : Token V} {object : Option (Token V)} {t : Tree (Option (Token V))}
      {u : Tree (Option (Token V))} {m : ℕ}
      → Pushes s object t u
      → get_signal_level (some s) ≡ ok m
      → Ranked t
      → Ranked u
  Pushes-Ranked last g lone = binary g lone lone lone (inl lone)
  Pushes-Ranked last g (binary e a b x y) = elim b [ ]
  Pushes-Ranked (above n f g' h) g lone = absurd (n refl)
  Pushes-Ranked (above n f g' h) g (binary e a b x y) =
      binary g' (binary e a b x y) lone (level f h) (inl lone)
  Pushes-Ranked (chained n f g' assoc) g lone = absurd (n refl)
  Pushes-Ranked (chained {n = k} n f g' assoc) g (binary {n = k'} e a b x y) =
      let same = ok-injective k k' (sym f ∙ e) in
      binary e a (binary g' b lone (RightOf-AtLeast _ y (omega arith)) (inl lone)) x
        (inr (assoc, level g' (omega arith)))
  Pushes-Ranked (below n f g' h p) g lone = absurd (n refl)
  Pushes-Ranked (below {n = k} n f g' h p) g (binary {n = k'} e a b x y) =
      let same = ok-injective k k' (sym f ∙ e) in
      binary e a (Pushes-Ranked p g b) x (Pushes-RightOf _ p g' (omega arith) y)

  assoc_of_level :
      (d : Option (Token V)) (n : ℕ)
      → get_signal_level d ≡ ok n
      → (b : Bool) × (is_left_associative d ≡ ok b)
  unfolding get_signal_level is_left_associative
  assoc_of_level none n h = cc
  assoc_of_level (some (signal s)) n h = (_, refl)
  assoc_of_level (some _) n h = cc

  pub push_total :
      (t : Tree (Option (Token V))) (s : Token V) (object : Option (Token V)) (m : ℕ)
      → get_signal_level (some s) ≡ ok m
      → Ranked t
      → (u : Tree (Option (Token V))) × (push t s object ≡ ok u)
  unfolding push
  push_total nil s object m g r = elim r [ ]
  push_total (node d l nil) s object m g r = (_, refl)
  push_total (node d l (node e q w)) s object m g (binary {n} f a b x y) =
      let (v, ih) = push_total (node e q w) s object m g b in
      let (c, k) = assoc_of_level d n f in
      elim (Bool-cases (n == m)) [
        | inl same ↦ (join_equal c d l (node e q w) s object, rw (f, g, same, k) refl)
        | inr differ ↦ elim (Bool-cases (ltb m n)) [
          | inl less ↦
              (node (some s) (node d l (node e q w)) (operand object), rw (f, g, differ, less) refl)
          | inr more ↦ (node d l v, rw (f, g, differ, more, ih) refl)
        ]
      ]
