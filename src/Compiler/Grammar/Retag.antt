-- ===== src/Compiler/Grammar/Retag.antt =====
-- What `match_grammar` can change.
use covscript.Prelude.{
  Bool, true, false, List, [], ◌∷◌, ◌++◌, Option, none, some, Bool-cases, inl, inr, ◌≡◌, refl, ap,
  subst, arith,
}
use covscript.Prelude.Names.{Bytes}
use covscript.Syntax.Signal.{Action}
use covscript.Syntax.Keyword.{same_action-eq}
use covscript.Syntax.Token.{Token, id, action}
use covscript.Compiler.Match.{Part, action_part, expr_part, endline_part, Grammar}
use covscript.Compiler.Grammar.{
  find_action, is_action, spells, retag_head, stops, skip_tokens, skip_if, retag, matches_from,
  rewrite_from, match_grammar,
}

is_action-some : (o : Option Action) (a : Action) → is_action o a ≡ true → o ≡ some a
unfolding is_action
is_action-some none a h = absurd (ground (arith, h))
is_action-some (some b) a h = ap some (same_action-eq b a h)

spells-find_action : (name : Bytes) (a : Action) → spells name a ≡ true → find_action name ≡ some a
unfolding spells
spells-find_action name a h = is_action-some (find_action name) a h

module _ {V : Type 0} where
  -- The second line is the first with some keywords, which were identifiers, marked as actions.
  pub data Retagged : List (Token V) → List (Token V) → Type 0 where
    done : Retagged [] []
    kept :
        (t : Token V) {raw raw' : List (Token V)}
        → Retagged raw raw'
        → Retagged (t ∷ raw) (t ∷ raw')
    tagged :
        (name : Bytes) (a : Action) {raw raw' : List (Token V)}
        → find_action name ≡ some a
        → Retagged raw raw'
        → Retagged (id name ∷ raw) (action a ∷ raw')

  unchanged : (raw : List (Token V)) → Retagged raw raw
  unchanged [] = done
  unchanged (t ∷ raw) = kept t (unchanged raw)

  behind :
      (front : List (Token V)) {raw raw' : List (Token V)}
      → Retagged raw raw'
      → Retagged (front ++ raw) (front ++ raw')
  behind [] r = r
  behind (t ∷ front) r = kept t (behind front r)

  -- An action stays what it is.
  in_turn :
      {raw raw' raw'' : List (Token V)}
      → Retagged raw raw'
      → Retagged raw' raw''
      → Retagged raw raw''
  in_turn done s = s
  in_turn (kept t r) (kept _ s) = kept t (in_turn r s)
  in_turn (kept _ r) (tagged name a h s) = tagged name a h (in_turn r s)
  in_turn (tagged name a h r) (kept _ s) = tagged name a h (in_turn r s)

  skip_tokens-append :
      (a : Action) (raw : List (Token V)) → (skip_tokens a raw).0 ++ (skip_tokens a raw).1 ≡ raw
  unfolding skip_tokens
  skip_tokens-append a [] = refl
  skip_tokens-append a (t ∷ raw) = elim (Bool-cases (stops a t)) [
    | inl stopped ↦ rw stopped refl
    | inr useless ↦ rw useless (ap (◌∷◌ t) (skip_tokens-append a raw))
  ]

  skip_if-append :
      (b : Bool) (a : Action) (raw : List (Token V))
      → (skip_if b a raw).0 ++ (skip_if b a raw).1 ≡ raw
  unfolding skip_if
  skip_if-append true a raw = skip_tokens-append a raw
  skip_if-append false a raw = refl

  retag-Retagged :
      (a : Action) (t : Token V) {raw raw' : List (Token V)}
      → Retagged raw raw'
      → Retagged (t ∷ raw) (retag a t ∷ raw')
  unfolding retag
  retag-Retagged a (id name) r = elim (Bool-cases (spells name a)) [
    | inl spelled ↦ rw spelled (tagged name a (spells-find_action name a spelled) r)
    | inr other ↦ rw other (kept (id name) r)
  ]
  retag-Retagged a t r = kept t r

  retag_head-Retagged :
      (a : Action) (again : List (Token V) → List (Token V)) (raw : List (Token V))
      → ((l : List (Token V)) → Retagged l (again l))
      → Retagged raw (retag_head a again raw)
  unfolding retag_head
  retag_head-Retagged a again [] r = r []
  retag_head-Retagged a again (t ∷ rest) r = retag-Retagged a t (r rest)

  rewrite_from-Retagged :
      (grammar : List Part) (skip_useless : Bool) (raw : List (Token V))
      → Retagged raw (rewrite_from grammar skip_useless raw)
  unfolding rewrite_from
  rewrite_from-Retagged [] skip_useless raw = unchanged raw
  rewrite_from-Retagged (expr_part ∷ grammar) skip_useless raw =
      rewrite_from-Retagged grammar true raw
  rewrite_from-Retagged (endline_part ∷ grammar) skip_useless raw =
      rewrite_from-Retagged grammar skip_useless raw
  rewrite_from-Retagged (action_part a ∷ grammar) skip_useless raw =
      subst (λ l. Retagged l (rewrite_from (action_part a ∷ grammar) skip_useless raw))
        (skip_if-append skip_useless a raw)
        (behind (skip_if skip_useless a raw).0 (
          retag_head-Retagged a (rewrite_from grammar false) (skip_if skip_useless a raw).1
            (rewrite_from-Retagged grammar false)))

  -- In each grammar's turn, `match_grammar` only marks identifiers as actions, and only as the action that
  -- the table of keywords has under their name; every other token stays, in its place.
  pub match_grammar-Retagged :
      (m_data : List Grammar) (raw : List (Token V)) → Retagged raw (match_grammar m_data raw)
  unfolding match_grammar
  match_grammar-Retagged [] raw = unchanged raw
  match_grammar-Retagged (dat ∷ m_data) raw =
      elim (Bool-cases (matches_from dat.0 false false raw)) [
        | inl matched ↦ rw matched (
            in_turn (rewrite_from-Retagged dat.0 false raw)
              (match_grammar-Retagged m_data (rewrite_from dat.0 false raw)))
        | inr other ↦ rw other (match_grammar-Retagged m_data raw)
      ]
