-- ===== src/Parser/Kill/Plain.antt =====
-- Which brackets `kill_brackets` leaves.
use covscript.Prelude.{
  ℕ, zero, suc, Bool, true, false, ◌&&◌, List, [], ◌∷◌, ◌++◌, Option, Result, ok, err, ◌>>=◌,
  bind-eq-ok, ok-injective, Bool-cases, and_split, and_both, inl, inr, if◌then◌else◌, ◌≡◌, refl,
  sym, ap, ◌∙◌, arith,
}
use covscript.Container.Tree.{Tree}
use covscript.Syntax.Signal.{Action, import_, Signal, com_, arrow_, esb_, elb_}
use covscript.Syntax.Token.{
  Token, Line, Lines, Exprs, stop, token, no_lines, line, action, signal, sblist, mblist, lblist,
  to_lists, of_list, of_lists, no_exprs,
}
use covscript.Parser.Kill.{
  Flags, no_flags, for_each, found_as, kill_action, call, of_trees, kill_signal, kill_sblist,
  kill_mblist, kill_lblist, kill_token, kill_loop, kill_brackets,
}

module _ {V : Type 0} where
  -- No brackets but parentheses around something and the empty square bracket `emb_`, at any depth; trees are
  -- not looked into.
  unfoldable mutual
    pub plain_token : Token V → Bool
    plain_token (signal esb_) = false
    plain_token (signal elb_) = false
    plain_token (sblist lists) = plain_lines lists
    plain_token (mblist lists) = false
    plain_token (lblist lists) = false
    plain_token t = true

    pub plain_line : Line V → Bool
    plain_line stop = true
    plain_line (token t ts) = plain_token t && plain_line ts

    pub plain_lines : Lines V → Bool
    plain_lines no_lines = true
    plain_lines (line l ls) = plain_line l && plain_lines ls

  unfoldable pub plain : List (Token V) → Bool
  unfolding plain_token
  plain [] = true
  plain (t ∷ tokens) = plain_token t && plain tokens

  plain-append : (l k : List (Token V)) → plain l ≡ true → plain k ≡ true → plain (l ++ k) ≡ true
  unfolding plain
  plain-append [] k h g = g
  plain-append (t ∷ l) k h g =
      let parts = and_split (plain_token t) (plain l) h in
      and_both parts.0 (plain-append l k parts.1 g)

  plain_line-of_list : (l : List (Token V)) → plain l ≡ true → plain_line (of_list l) ≡ true
  unfolding plain plain_line of_list
  plain_line-of_list [] h = refl
  plain_line-of_list (t ∷ l) h =
      let parts = and_split (plain_token t) (plain l) h in
      and_both parts.0 (plain_line-of_list l parts.1)

  -- A step pushes plain tokens.
  abbrev Plain : Result (Flags × List (Token V)) → Type 0
  Plain step = (r : Flags × List (Token V)) → step ≡ ok r → plain r.1 ≡ true

  Plain-ok : (r : Flags × List (Token V)) → plain r.1 ≡ true → Plain (ok r)
  Plain-ok r h r' returned = ap (λ x. plain x.1) (sym (ok-injective r r' returned)) ∙ h

  Plain-if :
      (b : Bool) (m k : Result (Flags × List (Token V)))
      → Plain m
      → Plain k
      → Plain (if b then m else k)
  Plain-if true m k h g = h
  Plain-if false m k h g = g

  Plain-bind :
      {A : Type 0} (m : Result A) (f : A → Result (Flags × List (Token V)))
      → ((a : A) → m ≡ ok a → Plain (f a))
      → Plain (m >>= f)
  Plain-bind (err e) f h r returned = absurd (ground (arith, returned))
  Plain-bind (ok a) f h r returned = h a refl r returned

  call-plain : (s : Flags) (tlist : Exprs V) → plain (call s tlist) ≡ true
  unfolding call plain plain_token
  call-plain s tlist = elim (Bool-cases s.expected_lambda) [
    | inl in_lambda ↦ rw in_lambda refl
    | inr no_lambda ↦ rw no_lambda refl
  ]

  kill_action-plain :
      (a : Action) (oldt : List (Token V)) (s : Flags) → plain (kill_action a oldt s).1 ≡ true
  unfolding kill_action plain plain_token
  kill_action-plain import_ oldt s = elim (Bool-cases (found_as oldt)) [
    | inl found ↦ rw found refl
    | inr missing ↦ rw missing refl
  ]
  kill_action-plain a oldt s = refl

  kill_signal-Plain : (sig : Signal) (s : Flags) → Plain (kill_signal sig s)
  unfolding kill_signal plain plain_token
  kill_signal-Plain com_ s =
      Plain-if s.insert_vardef _ _ (Plain-ok _ refl)
        (Plain-if s.insert_varchk _ _ (Plain-ok _ refl) (Plain-ok _ refl))
  kill_signal-Plain arrow_ s = Plain-if s.expected_lambda _ _ (Plain-ok _ refl) (Plain-ok _ refl)
  kill_signal-Plain esb_ s =
      Plain-if s.expected_fcall _ _ (Plain-ok _ (call-plain s no_exprs))
        (λ r returned. absurd (ground (arith, returned)))
  kill_signal-Plain sig s = Plain-ok _ refl

  module _ (gen_tree : Bool → List (Token V) → Result (Tree (Option (Token V))))
      (kill : List (Token V) → Result (List (Token V)))
      (plain_kill : (l k : List (Token V)) → kill l ≡ ok k → plain k ≡ true) where
    for_each-plain :
        (lists killed : List (List (Token V)))
        → for_each kill lists ≡ ok killed
        → plain_lines (of_lists killed) ≡ true
    unfolding for_each plain_lines of_lists
    for_each-plain [] killed returned =
        ap (λ ls. plain_lines (of_lists ls)) (sym (ok-injective [] killed returned))
    for_each-plain (list ∷ lists) killed returned =
        let one = bind-eq-ok (kill list) _ returned in
        let rest = bind-eq-ok (for_each kill lists) _ one.2 in
        ap (λ ls. plain_lines (of_lists ls)) (sym (ok-injective (one.0 ∷ rest.0) killed rest.2))
        ∙ and_both (plain_line-of_list one.0 (plain_kill list one.0 one.1))
            (for_each-plain lists rest.0 rest.1)

    kill_sblist-Plain :
        (lists : List (List (Token V))) (s : Flags) → Plain (kill_sblist gen_tree kill lists s)
    unfolding kill_sblist plain plain_token
    kill_sblist-Plain lists s = Plain-bind (for_each kill lists) _ (λ killed returned.
        Plain-if s.expected_fcall _ _
          (Plain-bind (for_each (gen_tree s.expected_fdef) killed) _
            (λ tlist h. Plain-ok _ (call-plain s (of_trees tlist))))
          (Plain-ok _ (and_both (for_each-plain lists killed returned) refl)))

    kill_mblist-Plain :
        (lists : List (List (Token V))) (s : Flags) → Plain (kill_mblist gen_tree kill lists s)
    unfolding kill_mblist plain plain_token
    kill_mblist-Plain (list ∷ []) s =
        Plain-bind (kill list) _
          (λ killed h. Plain-bind (gen_tree false killed) _ (λ tree g. Plain-ok _ refl))
    kill_mblist-Plain [] s = λ r returned. absurd (ground (arith, returned))
    kill_mblist-Plain (list ∷ second ∷ lists) s = λ r returned. absurd (ground (arith, returned))

    kill_lblist-Plain :
        (lists : List (List (Token V))) (s : Flags) → Plain (kill_lblist gen_tree kill lists s)
    unfolding kill_lblist plain plain_token
    kill_lblist-Plain lists s =
        Plain-bind (for_each kill lists) _
          (λ killed h. Plain-bind (for_each (gen_tree false) killed) _ (λ tlist g. Plain-ok _ refl))

    kill_token-Plain :
        (t : Token V) (oldt : List (Token V)) (s : Flags)
        → Plain (kill_token gen_tree kill t oldt s)
    unfolding kill_token plain plain_token
    kill_token-Plain (action a) oldt s =
        Plain-ok _ (kill_action-plain a oldt (record s { expected_fcall = false }))
    kill_token-Plain (sblist lists) oldt s = kill_sblist-Plain (to_lists lists) s
    kill_token-Plain (mblist lists) oldt s = kill_mblist-Plain (to_lists lists) s
    kill_token-Plain (lblist lists) oldt s = kill_lblist-Plain (to_lists lists) s
    kill_token-Plain (signal sig) oldt s = kill_signal-Plain sig s
    kill_token-Plain t oldt s = Plain-ok _ refl

    kill_loop-plain :
        (oldt : List (Token V)) (s : Flags) (tokens : List (Token V))
        → kill_loop gen_tree kill oldt s ≡ ok tokens
        → plain tokens ≡ true
    unfolding kill_loop plain
    kill_loop-plain [] s tokens returned = ap plain (sym (ok-injective [] tokens returned))
    kill_loop-plain (t ∷ oldt) s tokens returned =
        let one = bind-eq-ok (kill_token gen_tree kill t oldt s) _ returned in
        let rest = bind-eq-ok (kill_loop gen_tree kill oldt one.0.0) _ one.2 in
        ap plain (sym (ok-injective _ tokens rest.2))
        ∙ plain-append one.0.1 rest.0 (kill_token-Plain t oldt s one.0 one.1)
            (kill_loop-plain oldt one.0.0 rest.0 rest.1)

  -- After `kill_brackets` no brace, no square bracket around something, and no empty parentheses or braces
  -- are left outside of trees, at any depth: the parentheses that stay hold lists of such tokens. An empty
  -- square bracket, which begins a lambda, stays.
  pub kill_brackets-plain :
      (gen_tree : Bool → List (Token V) → Result (Tree (Option (Token V)))) (fuel : ℕ)
      (tokens tokens' : List (Token V))
      → kill_brackets gen_tree fuel tokens ≡ ok tokens'
      → plain tokens' ≡ true
  unfolding kill_brackets
  kill_brackets-plain gen_tree zero tokens tokens' returned = absurd (ground (arith, returned))
  kill_brackets-plain gen_tree (suc fuel) tokens tokens' returned =
      kill_loop-plain gen_tree (kill_brackets gen_tree fuel) (kill_brackets-plain gen_tree fuel)
        tokens no_flags tokens' returned
