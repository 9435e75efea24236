-- ===== src/Compiler/Match/Unique.antt =====
-- No line fits two grammars.
use covscript.Prelude.{
  ℕ, suc, Bool, true, false, not, ◌&&◌, List, [], ◌∷◌, length, Result, ok, err, compile_error,
  Bool-cases, and_split, and_both, inl, inr, leb, ◌==◌, ==_iff, if◌then◌else◌, ◌<◌, ◌≡◌, refl, ap,
  ◌∙◌, arith,
}
use covscript.Syntax.Signal.{Action}
use covscript.Syntax.Keyword.{same_action, same_action-eq}
use covscript.Syntax.Token.{Token, action, expr, endline}
use covscript.Compiler.Method.{Method}
use covscript.Compiler.Match.{
  Part, action_part, expr_part, endline_part, Grammar, grammars, select, compare, front_matches,
  inner_match, middle_matches, match,
}

-- Two parts that a token can match at once.
unfoldable meets : Part → Part → Bool
unfolding same_action
meets (action_part a) (action_part b) = same_action a b
meets expr_part expr_part = true
meets endline_part endline_part = true
meets _ _ = false

unfoldable inner_meet : List Part → List Part → Bool
unfolding meets
inner_meet (p ∷ p' ∷ ps) (q ∷ qs) = meets p q && inner_meet (p' ∷ ps) qs
inner_meet _ _ = true

-- Two grammars that a line can fit at once.
unfoldable meet : Grammar → Grammar → Bool
unfolding meets inner_meet
meet (p ∷ ps, m) (q ∷ qs, n) = length ps == length qs && (meets p q && inner_meet ps qs)
meet _ _ = true

unfoldable apart_from : Grammar → List Grammar → Bool
unfolding meet
apart_from g [] = true
apart_from g (h ∷ hs) = not (meet g h) && apart_from g hs

unfoldable all_apart : List Grammar → Bool
unfolding apart_from
all_apart [] = true
all_apart (g ∷ gs) = apart_from g gs && all_apart gs

grammars-apart : all_apart grammars ≡ true
unfolding all_apart apart_from meet inner_meet meets same_action
grammars-apart = refl

-- Two tests in turn are one.
select-select {ℓ} :
    {A : Type ℓ} (keep keep' : A → Bool) (xs : List A)
    → select keep' (select keep xs) ≡ select (λ x. keep x && keep' x) xs
unfolding select
select-select keep keep' [] = refl
select-select keep keep' (x ∷ xs) = elim (Bool-cases (keep x)) [
  | inl kept ↦ rw (kept, select-select keep keep' xs) refl
  | inr left ↦ rw (left, select-select keep keep' xs) refl
]

same_action_trans :
    (a b c : Action) → same_action a c ≡ true → same_action b c ≡ true → same_action a b ≡ true
same_action_trans a b c h g = ap (λ x. same_action a x) (same_action-eq b c g) ∙ h

-- What `match` makes of the grammars that are left.
abbrev chosen : List Grammar → Result Method
chosen [] = err (compile_error "Unknown grammar.")
chosen (g ∷ []) = ok g.1
chosen (g ∷ h ∷ gs) = err (compile_error "Ambiguous grammar.")

short : (n : ℕ) → 1 < n → leb n 1 ≡ false
short n h = ground (arith, h)

module _ {V : Type 0} where
  compare-meets :
      (p q : Part) (t : Token V) → compare p t ≡ true → compare q t ≡ true → meets p q ≡ true
  unfolding compare meets
  compare-meets (action_part a) (action_part b) (action c) h g = same_action_trans a b c h g
  compare-meets (action_part a) expr_part (action c) h g = cc
  compare-meets (action_part a) endline_part (action c) h g = cc
  compare-meets (action_part a) q t h g = cc
  compare-meets expr_part expr_part t h g = refl
  compare-meets expr_part (action_part b) (expr e) h g = cc
  compare-meets expr_part endline_part (expr e) h g = cc
  compare-meets expr_part q t h g = cc
  compare-meets endline_part endline_part t h g = refl
  compare-meets endline_part (action_part b) (endline n) h g = cc
  compare-meets endline_part expr_part (endline n) h g = cc
  compare-meets endline_part q t h g = cc

  inner_match-meet :
      (raw : List (Token V)) (ps qs : List Part)
      → length raw ≡ length ps
      → inner_match raw ps ≡ true
      → inner_match raw qs ≡ true
      → inner_meet ps qs ≡ true
  unfolding inner_match inner_meet
  inner_match-meet (t ∷ u ∷ raw) (p ∷ p' ∷ ps) (q ∷ qs) same_size h g =
      and_both (compare-meets p q t (and_split (compare p t) _ h).0 (and_split (compare q t) _ g).0)
        (inner_match-meet (u ∷ raw) (p' ∷ ps) qs (omega (arith, same_size))
          (and_split (compare p t) _ h).1 (and_split (compare q t) _ g).1)
  inner_match-meet raw [] qs same_size h g = refl
  inner_match-meet raw (p ∷ []) qs same_size h g = refl
  inner_match-meet raw (p ∷ p' ∷ ps) [] same_size h g = refl
  inner_match-meet [] (p ∷ p' ∷ ps) (q ∷ qs) same_size h g = absurd (omega (arith, same_size))
  inner_match-meet (t ∷ []) (p ∷ p' ∷ ps) (q ∷ qs) same_size h g = absurd (omega (arith, same_size))

  -- The three tests of `match`.
  abbrev fits : List (Token V) → Grammar → Bool
  fits raw g = (front_matches raw g && length g.0 == length raw) && middle_matches raw g

  fits-meet :
      (raw : List (Token V)) (g h : Grammar)
      → fits raw g ≡ true
      → fits raw h ≡ true
      → meet g h ≡ true
  unfolding front_matches middle_matches meet
  fits-meet [] (ps, m) h p q = absurd (ground (arith, p))
  fits-meet (t ∷ raw) ([], m) h p q = absurd (ground (arith, p))
  fits-meet (t ∷ raw) (x ∷ ps, m) ([], n) p q = refl
  fits-meet (t ∷ raw) (x ∷ ps, m) (y ∷ qs, n) p q =
      let ends_p =
        and_split (compare x t && suc (length ps) == suc (length raw)) (inner_match raw ps) p in
      let ends_q =
        and_split (compare y t && suc (length qs) == suc (length raw)) (inner_match raw qs) q in
      let fit_p = and_split (compare x t) (suc (length ps) == suc (length raw)) ends_p.0 in
      let fit_q = and_split (compare y t) (suc (length qs) == suc (length raw)) ends_q.0 in
      let size_p = (==_iff (suc (length ps)) (suc (length raw))).0 fit_p.1 in
      let size_q = (==_iff (suc (length qs)) (suc (length raw))).0 fit_q.1 in
      and_both ((==_iff (length ps) (length qs)).1 (omega (arith, size_p, size_q))) (
        and_both (compare-meets x y t fit_p.0 fit_q.0)
          (inner_match-meet raw ps qs (omega (arith, size_p)) ends_p.1 ends_q.1))

  unfoldable pub first_fit : List (Token V) → List Grammar → Result Method
  unfolding front_matches middle_matches
  first_fit raw [] = err (compile_error "Unknown grammar.")
  first_fit raw (g ∷ gs) = let rest = first_fit raw gs in if fits raw g then ok g.1 else rest

  none_left :
      (raw : List (Token V)) (g : Grammar) (hs : List Grammar)
      → fits raw g ≡ true
      → apart_from g hs ≡ true
      → select (fits raw) hs ≡ []
  unfolding select apart_from
  none_left raw g [] h apart = refl
  none_left raw g (k ∷ hs) h apart = elim (Bool-cases (fits raw k)) [
    | inl fitting ↦ absurd (
        ground (
          arith,
          fits-meet raw g k h fitting,
          (and_split (not (meet g k)) (apart_from g hs) apart).0,
        ))
    | inr other ↦
        rw other (none_left raw g hs h (and_split (not (meet g k)) (apart_from g hs) apart).1)
  ]

  chosen-first :
      (raw : List (Token V)) (gs : List Grammar)
      → all_apart gs ≡ true
      → chosen (select (fits raw) gs) ≡ first_fit raw gs
  unfolding select first_fit all_apart
  chosen-first raw [] apart = refl
  chosen-first raw (g ∷ gs) apart = elim (Bool-cases (fits raw g)) [
    | inl fitting ↦
        rw
          (fitting, none_left raw g gs fitting (and_split (apart_from g gs) (all_apart gs) apart).0)
          refl
    | inr other ↦
        rw other (chosen-first raw gs (and_split (apart_from g gs) (all_apart gs) apart).1)
  ]

  match-chosen :
      (gs : List Grammar) (raw : List (Token V))
      → match gs raw ≡ (
          if leb (length raw) 1
          then err (compile_error "Empty input when matching grammar.")
          else chosen (select (fits raw) gs))
  unfolding match
  match-chosen gs raw =
      rw
        (
          select-select (front_matches raw) (λ g. length g.0 == length raw) gs,
          select-select (λ g. front_matches raw g && length g.0 == length raw) (middle_matches raw)
              gs,
        )
        refl

  -- On a line of two tokens or more, and the grammars of the language, the search returns the first
  -- grammar that fits, or reports an unknown one: no two fit, and none is called ambiguous.
  pub match-first_fit :
      (raw : List (Token V)) → 1 < length raw → match grammars raw ≡ first_fit raw grammars
  match-first_fit raw long =
      match-chosen grammars raw
      ∙ rw (short (length raw) long) (chosen-first raw grammars grammars-apart)
