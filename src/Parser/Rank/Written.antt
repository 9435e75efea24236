-- ===== src/Parser/Rank/Written.antt =====
-- Trees that are written out as `build_tree` reads them, and how `push` extends them.
use covscript.Prelude.{
  ℕ, suc, ◌<◌, false, List, [], ◌∷◌, ◌++◌, length, Option, none, some, Result, ok, err,
  ok-injective, ◌>>=◌, inl, inr, Result-cases, All, All-append, ◌≡◌, ◌≢◌, refl, sym, ◌∙◌, arith,
}
use covscript.Container.Tree.{Tree, nil, node}
use covscript.Syntax.Token.{Token}
use covscript.Parser.Build.{get_signal_level, is_left_associative}
use covscript.Parser.Push.{operand, push, push_all}
use covscript.Parser.Rank.{AtLeast, lone, level}
use covscript.Parser.Rank.Pushes.{AtLeast-mono, Pushes, push-Pushes, last, above, chained, below}

module _ {V : Type 0} where
  -- The left side of a signal of level `n`: its outermost signal has a higher level, or the same
  -- one and is no assignment.
  pub data LeftOf (n : ℕ) : Tree (Option (Token V)) → Type 0 where
    alone : {o : Option (Token V)} → LeftOf n (node o nil nil)
    higher :
        {d : Option (Token V)} {l r : Tree (Option (Token V))} {m : ℕ}
        → get_signal_level d ≡ ok m
        → n < m
        → LeftOf n (node d l r)
    same :
        {d : Option (Token V)} {l r : Tree (Option (Token V))}
        → get_signal_level d ≡ ok n
        → is_left_associative d ≡ ok false
        → LeftOf n (node d l r)

  -- A tree in which each signal binds no tighter than those on its left and strictly less tightly
  -- than those on its right, and no assignment is a side of another.
  pub data Strict : Tree (Option (Token V)) → Type 0 where
    single : {o : Option (Token V)} → Strict (node o nil nil)
    joined :
        {s : Token V} {l r : Tree (Option (Token V))} {n : ℕ}
        → get_signal_level (some s) ≡ ok n
        → Strict l
        → Strict r
        → LeftOf n l
        → AtLeast (suc n) r
        → Strict (node (some s) l r)

  pub LeftOf-AtLeast : {n : ℕ} {t : Tree (Option (Token V))} → LeftOf n t → AtLeast n t
  LeftOf-AtLeast alone = lone
  LeftOf-AtLeast (higher f h) = level f (omega arith)
  LeftOf-AtLeast (same f a) = level f (omega arith)

  -- A tree written out: the first operand, the signals, and the operands behind the signals.
  unfoldable pub first : Tree (Option (Token V)) → Option (Token V)
  first nil = none
  first (node d nil r) = d
  first (node d (node e m q) r) = first (node e m q)

  unfoldable pub signals : Tree (Option (Token V)) → List (Token V)
  signals nil = []
  signals (node d nil r) = []
  signals (node none (node e m q) r) = []
  signals (node (some s) (node e m q) r) = signals (node e m q) ++ (s ∷ signals r)

  unfoldable pub operands : Tree (Option (Token V)) → List (Option (Token V))
  unfolding first
  operands nil = []
  operands (node d nil r) = []
  operands (node d (node e m q) r) = operands (node e m q) ++ (first r ∷ operands r)

  abbrev Above : ℕ → List (Token V) → Type 0
  Above n = All (λ s. (m : ℕ) × (get_signal_level (some s) ≡ ok m) × (n < m))

  pub Strict-Above :
      (n : ℕ) (t : Tree (Option (Token V))) → Strict t → AtLeast (suc n) t → Above n (signals t)
  unfolding signals
  Strict-Above n nil st a = elim st [ ]
  Strict-Above n (node d nil r) st a = tt
  Strict-Above n (node none (node e m q) r) st a = elim st [ ]
  Strict-Above n (node (some s) (node e m q) r) (joined {n = k} g l r' x y) (level {m = k'} g' h) =
      let same = ok-injective k k' (sym g ∙ g') in
      All-append _ (signals (node e m q)) (s ∷ signals r)
        (Strict-Above n (node e m q) l (AtLeast-mono (omega arith) (LeftOf-AtLeast x)))
        ((k, g, omega arith), Strict-Above n r r' (AtLeast-mono (omega arith) y))

  pub push_under :
      (d : Option (Token V)) (l r : Tree (Option (Token V))) (n m : ℕ) (s : Token V)
      (object : Option (Token V))
      → r ≢ nil
      → get_signal_level d ≡ ok n
      → get_signal_level (some s) ≡ ok m
      → n < m
      → push (node d l r) s object ≡ (push r s object >>= λ u. ok (node d l u))
  unfolding push
  push_under d l nil n m s object ne f g h = absurd (ne refl)
  push_under d l (node e p q) n m s object ne f g h = rw (f, g) (ground (arith, f, g))

  pub Pushes-ne-nil :
      {s : Token V} {object : Option (Token V)} {t u : Tree (Option (Token V))}
      → Pushes s object t u
      → u ≢ nil
  Pushes-ne-nil last = λ e. cc
  Pushes-ne-nil (above n f g h) = λ e. cc
  Pushes-ne-nil (chained n f g h) = λ e. cc
  Pushes-ne-nil (below n f g h p) = λ e. cc

  pub append_step :
      (pushed : Result (Tree (Option (Token V)))) (ss ss' : List (Token V))
      (os os' : List (Option (Token V)))
      → ((v : Tree (Option (Token V)))
          → push_all v (ss ++ ss') (os ++ os') ≡ (push_all v ss os >>= λ u. push_all u ss' os'))
      → (pushed >>= λ v. push_all v (ss ++ ss') (os ++ os'))
        ≡ ((pushed >>= λ v. push_all v ss os) >>= λ u. push_all u ss' os')
  append_step (err e) ss ss' os os' ih = refl
  append_step (ok v) ss ss' os os' ih = ih v

  pub push_all-append :
      (t : Tree (Option (Token V))) (ss ss' : List (Token V)) (os os' : List (Option (Token V)))
      → length os ≡ length ss
      → push_all t (ss ++ ss') (os ++ os') ≡ (push_all t ss os >>= λ u. push_all u ss' os')
  unfolding push_all
  push_all-append t [] ss' [] os' h = refl
  push_all-append t [] ss' (o ∷ os) os' h = absurd (omega arith)
  push_all-append t (s ∷ ss) ss' [] os' h = absurd (omega arith)
  push_all-append t (s ∷ ss) ss' (o ∷ os) os' h =
      append_step (push t s o) ss ss' os os' (λ v. push_all-append v ss ss' os os' (omega arith))

  pub push_all_under :
      (d : Option (Token V)) (l r : Tree (Option (Token V))) (n : ℕ) (ss : List (Token V))
      (os : List (Option (Token V)))
      → r ≢ nil
      → get_signal_level d ≡ ok n
      → Above n ss
      → push_all (node d l r) ss os ≡ (push_all r ss os >>= λ u. ok (node d l u))
  unfolding push_all
  push_all_under d l r n [] [] ne f a = refl
  push_all_under d l r n [] (o ∷ os) ne f a = refl
  push_all_under d l r n (s ∷ ss) [] ne f a = refl
  push_all_under d l r n (s ∷ ss) (o ∷ os) ne f ((m, g, h), a) =
      rw (push_under d l r n m s o ne f g h) (elim (Result-cases (push r s o)) [
        | inl (e, k) ↦ rw (k, ◌>>=◌) refl
        | inr (u, k) ↦
            rw (k, ◌>>=◌) (push_all_under d l u n ss os (Pushes-ne-nil (push-Pushes r s o u k)) f a)
      ])

  pub push_above_node :
      (s : Token V) (d : Option (Token V)) (l r : Tree (Option (Token V))) (n : ℕ)
      (object : Option (Token V))
      → r ≢ nil
      → get_signal_level (some s) ≡ ok n
      → LeftOf n (node d l r)
      → push (node d l r) s object ≡ ok (node (some s) (node d l r) (operand object))
  unfolding push
  push_above_node s d l nil n object ne g a = absurd (ne refl)
  push_above_node s d l (node e p q) n object ne g (higher f h) = rw (f, g) (ground (arith, f, g))
  push_above_node s d l (node e p q) n object ne g (same f a) = rw (f, g) (ground (arith, f, g, a))

  pub push_above :
      (s : Token V) (l : Tree (Option (Token V))) (n : ℕ) (object : Option (Token V))
      → Strict l
      → get_signal_level (some s) ≡ ok n
      → LeftOf n l
      → push l s object ≡ ok (node (some s) l (operand object))
  push_above s (node o nil nil) n object single g a = unfold push in refl
  push_above s (node (some d) l nil) n object (joined f x y z w) g a = elim y [ ]
  push_above s (node (some d) l (node e p q)) n object (joined f x y z w) g a =
      push_above_node s (some d) l (node e p q) n object (λ n. cc) g a
  push_above s nil n object x g a = elim x [ ]
  push_above s (node none l (node e p q)) n object x g a = elim x [ ]
  push_above s (node none (node e p q) nil) n object x g a = elim x [ ]
