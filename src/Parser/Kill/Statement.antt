-- ===== src/Parser/Kill/Statement.antt =====
-- What `kill_brackets` and `kill_expr` make of a line.
use covscript.Prelude.{
  ℕ, zero, suc, Bool, true, false, List, [], ◌∷◌, ◌++◌, Option, Result, ok, err, ◌>>=◌, bind-eq-ok,
  ok-injective, Bool-cases, inl, inr, if◌then◌else◌, ◌≡◌, refl, sym, ap, ◌∙◌, subst, arith,
}
use covscript.Container.Tree.{Tree}
use covscript.Syntax.Signal.{Action, import_, Signal, com_, arrow_, esb_}
use covscript.Syntax.Token.{
  Token, Expr, Exprs, action, signal, sblist, mblist, lblist, expr, of_tree, to_lists, no_exprs,
}
use covscript.Parser.Kill.{
  Flags, no_flags, for_each, found_as, kill_action, call, of_trees, kill_signal, kill_sblist,
  kill_mblist, kill_lblist, kill_token, kill_loop, kill_brackets, make_expr, ends_expr,
  kill_expr_from, kill_expr,
}

module _ {V : Type 0} where
  -- The actions and the ends of lines.
  unfoldable pub boundaries : List (Token V) → List (Token V)
  unfolding ends_expr
  boundaries [] = []
  boundaries (t ∷ tokens) = let rest = boundaries tokens in if ends_expr t then t ∷ rest else rest

  boundaries-append : (l k : List (Token V)) → boundaries (l ++ k) ≡ boundaries l ++ boundaries k
  unfolding boundaries
  boundaries-append [] k = refl
  boundaries-append (t ∷ l) k = elim (Bool-cases (ends_expr t)) [
    | inl ending ↦ rw ending (ap (◌∷◌ t) (boundaries-append l k))
    | inr inner ↦ rw inner (boundaries-append l k)
  ]

  -- Expressions, each before an action or the end of a line, and actions and ends of lines.
  pub data Formed : List (Token V) → Type 0 where
    nothing : Formed []
    boundary : (t : Token V) (l : List (Token V)) → ends_expr t ≡ true → Formed l → Formed (t ∷ l)
    expression :
        (e : Expr V) (t : Token V) (l : List (Token V))
        → ends_expr t ≡ true
        → Formed l
        → Formed (expr e ∷ t ∷ l)

  call-boundaries : (s : Flags) (tlist : Exprs V) → boundaries (call s tlist) ≡ []
  unfolding call boundaries ends_expr
  call-boundaries s tlist = elim (Bool-cases s.expected_lambda) [
    | inl in_lambda ↦ rw in_lambda refl
    | inr no_lambda ↦ rw no_lambda refl
  ]

  kill_action-boundaries :
      (a : Action) (oldt : List (Token V)) (s : Flags)
      → boundaries (kill_action a oldt s).1 ≡ action a ∷ []
  unfolding kill_action boundaries ends_expr
  kill_action-boundaries import_ oldt s = elim (Bool-cases (found_as oldt)) [
    | inl found ↦ rw found refl
    | inr missing ↦ rw missing refl
  ]
  kill_action-boundaries a oldt s = refl

  -- What a step pushes has the boundaries `l`.
  abbrev Pushes : List (Token V) → Result (Flags × List (Token V)) → Type 0
  Pushes l step = (r : Flags × List (Token V)) → step ≡ ok r → boundaries r.1 ≡ l

  Pushes-ok :
      (l : List (Token V)) (r : Flags × List (Token V)) → boundaries r.1 ≡ l → Pushes l (ok r)
  Pushes-ok l r h r' returned = ap (λ x. boundaries x.1) (sym (ok-injective r r' returned)) ∙ h

  Pushes-if :
      (l : List (Token V)) (b : Bool) (m k : Result (Flags × List (Token V)))
      → Pushes l m
      → Pushes l k
      → Pushes l (if b then m else k)
  Pushes-if l true m k h g = h
  Pushes-if l false m k h g = g

  Pushes-bind :
      {A : Type 0} (l : List (Token V)) (m : Result A) (f : A → Result (Flags × List (Token V)))
      → ((a : A) → Pushes l (f a))
      → Pushes l (m >>= f)
  Pushes-bind l (err e) f h r returned = absurd (ground (arith, returned))
  Pushes-bind l (ok a) f h r returned = h a r returned

  kill_signal-boundaries : (sig : Signal) (s : Flags) → Pushes [] (kill_signal sig s)
  unfolding kill_signal boundaries ends_expr
  kill_signal-boundaries com_ s =
      Pushes-if [] s.insert_vardef _ _ (Pushes-ok [] _ refl)
        (Pushes-if [] s.insert_varchk _ _ (Pushes-ok [] _ refl) (Pushes-ok [] _ refl))
  kill_signal-boundaries arrow_ s =
      Pushes-if [] s.expected_lambda _ _ (Pushes-ok [] _ refl) (Pushes-ok [] _ refl)
  kill_signal-boundaries esb_ s =
      Pushes-if [] s.expected_fcall _ _ (Pushes-ok [] _ (call-boundaries s no_exprs))
        (λ r returned. absurd (ground (arith, returned)))
  kill_signal-boundaries sig s = Pushes-ok [] _ refl

  module _ (gen_tree : Bool → List (Token V) → Result (Tree (Option (Token V)))) where
    module _ (kill : List (Token V) → Result (List (Token V))) where
      kill_sblist-boundaries :
          (lists : List (List (Token V))) (s : Flags)
          → Pushes [] (kill_sblist gen_tree kill lists s)
      unfolding kill_sblist boundaries ends_expr
      kill_sblist-boundaries lists s = Pushes-bind [] (for_each kill lists) _ (λ killed.
          Pushes-if [] s.expected_fcall _ _
            (Pushes-bind [] (for_each (gen_tree s.expected_fdef) killed) _
              (λ tlist. Pushes-ok [] _ (call-boundaries s (of_trees tlist))))
            (Pushes-ok [] _ refl))

      kill_mblist-boundaries :
          (lists : List (List (Token V))) (s : Flags)
          → Pushes [] (kill_mblist gen_tree kill lists s)
      unfolding kill_mblist boundaries ends_expr
      kill_mblist-boundaries (list ∷ []) s =
          Pushes-bind [] (kill list) _
            (λ killed. Pushes-bind [] (gen_tree false killed) _ (λ tree. Pushes-ok [] _ refl))
      kill_mblist-boundaries [] s = λ r returned. absurd (ground (arith, returned))
      kill_mblist-boundaries (list ∷ second ∷ lists) s =
          λ r returned. absurd (ground (arith, returned))

      kill_lblist-boundaries :
          (lists : List (List (Token V))) (s : Flags)
          → Pushes [] (kill_lblist gen_tree kill lists s)
      unfolding kill_lblist boundaries ends_expr
      kill_lblist-boundaries lists s = Pushes-bind [] (for_each kill lists) _ (λ killed.
          Pushes-bind [] (for_each (gen_tree false) killed) _ (λ tlist. Pushes-ok [] _ refl))

      kill_token-boundaries :
          (t : Token V) (oldt : List (Token V)) (s : Flags)
          → Pushes (boundaries (t ∷ [])) (kill_token gen_tree kill t oldt s)
      unfolding kill_token boundaries ends_expr
      kill_token-boundaries (action a) oldt s =
          Pushes-ok _ _ (kill_action-boundaries a oldt (record s { expected_fcall = false }))
      kill_token-boundaries (sblist lists) oldt s = kill_sblist-boundaries (to_lists lists) s
      kill_token-boundaries (mblist lists) oldt s = kill_mblist-boundaries (to_lists lists) s
      kill_token-boundaries (lblist lists) oldt s = kill_lblist-boundaries (to_lists lists) s
      kill_token-boundaries (signal sig) oldt s = kill_signal-boundaries sig s
      kill_token-boundaries t oldt s = Pushes-ok _ _ refl

      kill_loop-boundaries :
          (oldt : List (Token V)) (s : Flags) (tokens : List (Token V))
          → kill_loop gen_tree kill oldt s ≡ ok tokens
          → boundaries tokens ≡ boundaries oldt
      unfolding kill_loop
      kill_loop-boundaries [] s tokens returned =
          ap boundaries (sym (ok-injective [] tokens returned))
      kill_loop-boundaries (t ∷ oldt) s tokens returned =
          let one = bind-eq-ok (kill_token gen_tree kill t oldt s) _ returned in
          let rest = bind-eq-ok (kill_loop gen_tree kill oldt one.0.0) _ one.2 in
          sym (ap boundaries (ok-injective _ tokens rest.2))
          ∙ boundaries-append one.0.1 rest.0
          ∙ ap (λ l. l ++ boundaries rest.0) (kill_token-boundaries t oldt s one.0 one.1)
          ∙ ap (λ l. boundaries (t ∷ []) ++ l) (kill_loop-boundaries oldt one.0.0 rest.0 rest.1)
          ∙ sym (boundaries-append (t ∷ []) oldt)

    kill_brackets-boundaries :
        (fuel : ℕ) (tokens tokens' : List (Token V))
        → kill_brackets gen_tree fuel tokens ≡ ok tokens'
        → boundaries tokens' ≡ boundaries tokens
    unfolding kill_brackets
    kill_brackets-boundaries zero tokens tokens' returned = absurd (ground (arith, returned))
    kill_brackets-boundaries (suc fuel) tokens tokens' returned =
        kill_loop-boundaries (kill_brackets gen_tree fuel) tokens no_flags tokens' returned

    no_boundary :
        (t : Token V) (tokens : List (Token V))
        → ends_expr t ≡ false
        → boundaries tokens ≡ []
        → boundaries (tokens ++ t ∷ []) ≡ []
    unfolding boundaries
    no_boundary t tokens h g = boundaries-append tokens (t ∷ []) ∙ rw (g, h) refl

    -- One expression at most, and then a boundary.
    Formed-expr :
        (tokens pushed : List (Token V)) (t : Token V) (rest : List (Token V))
        → make_expr gen_tree tokens ≡ ok pushed
        → ends_expr t ≡ true
        → Formed rest
        → Formed (pushed ++ t ∷ rest) × (boundaries (pushed ++ t ∷ rest) ≡ t ∷ boundaries rest)
    unfolding make_expr boundaries ends_expr
    Formed-expr [] pushed t rest returned h formed =
        subst (λ p. Formed (p ++ t ∷ rest) × (boundaries (p ++ t ∷ rest) ≡ t ∷ boundaries rest))
          (ok-injective [] pushed returned) (boundary t rest h formed, rw h refl)
    Formed-expr (u ∷ tokens) pushed t rest returned h formed =
        let made = bind-eq-ok (gen_tree false (u ∷ tokens)) _ returned in
        subst (λ p. Formed (p ++ t ∷ rest) × (boundaries (p ++ t ∷ rest) ≡ t ∷ boundaries rest))
          (ok-injective _ pushed made.2) (expression (of_tree made.0) t rest h formed, rw h refl)

    kill_expr_from-Formed :
        (oldt tokens result : List (Token V))
        → boundaries tokens ≡ []
        → kill_expr_from gen_tree oldt tokens ≡ ok result
        → Formed result × (boundaries result ≡ boundaries oldt)
    unfolding kill_expr_from boundaries
    kill_expr_from-Formed [] tokens result h returned =
        subst (λ l. Formed l × (boundaries l ≡ [])) (ok-injective [] result returned)
          (nothing, refl)
    kill_expr_from-Formed (t ∷ oldt) tokens result h returned = elim (Bool-cases (ends_expr t)) [
      | inl ending ↦
          let made = bind-eq-ok (make_expr gen_tree tokens) _ (rw ending at returned) in
          let rest = bind-eq-ok (kill_expr_from gen_tree oldt []) _ made.2 in
          let after = kill_expr_from-Formed oldt [] rest.0 refl rest.1 in
          let joined = Formed-expr tokens made.0 t rest.0 made.1 ending after.0 in
          rw ending (
            subst (λ l. Formed l × (boundaries l ≡ t ∷ boundaries oldt))
              (ok-injective _ result rest.2) (joined.0, joined.1 ∙ ap (◌∷◌ t) after.1))
      | inr inner ↦ rw inner (
          kill_expr_from-Formed oldt (tokens ++ t ∷ []) result (no_boundary t tokens inner h)
            (rw inner at returned))
    ]

    -- What `kill_brackets` and then `kill_expr` make of a line consists of actions, ends of lines and expressions
    -- alone, each expression directly before an action or an end of a line; and the actions and ends of lines are
    -- those of the line, in its order.
    pub kill_expr-kill_brackets :
        (fuel : ℕ) (line killed result : List (Token V))
        → kill_brackets gen_tree fuel line ≡ ok killed
        → kill_expr gen_tree killed ≡ ok result
        → Formed result × (boundaries result ≡ boundaries line)
    unfolding kill_expr boundaries
    kill_expr-kill_brackets fuel line killed result brackets exprs =
        let formed = kill_expr_from-Formed killed [] result refl exprs in
        (formed.0, formed.1 ∙ kill_brackets-boundaries fuel line killed brackets)
