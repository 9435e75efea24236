-- ===== src/Compiler/Grammar.antt =====
-- `translator_type::match_grammar` of sources/compiler/compiler.cpp: identifiers to keywords, where a
-- grammar has them.
pub mod Retag
use covscript.Prelude.{Bool, true, false, List, [], ◌∷◌, ◌++◌, Option, none, some, if◌then◌else◌}
use covscript.Prelude.Names.{Bytes, find}
use covscript.Syntax.Signal.{Action}
use covscript.Syntax.Keyword.{same_action, action_map}
use covscript.Syntax.Token.{Token, id, action}
use covscript.Compiler.Match.{Part, action_part, expr_part, endline_part, Grammar}

-- `action_map.find(id)`
unfoldable pub find_action : Bytes → Option Action
unfolding find action_map
find_action name = find name action_map

-- What the table gave is this action.
unfoldable pub is_action : Option Action → Action → Bool
unfolding same_action
is_action none a = false
is_action (some b) a = same_action b a

unfoldable pub spells : Bytes → Action → Bool
unfolding is_action
spells name a = is_action (find_action name) a

module _ {V : Type 0} where
  -- Where the loop over useless tokens stops.
  unfoldable pub stops : Action → Token V → Bool
  unfolding spells
  stops a (id name) = spells name a
  stops a (action b) = true
  stops a _ = false

  -- The tokens that the loop passes over, and those from the one on where it stops.
  unfoldable pub skip_tokens : Action → List (Token V) → List (Token V) × List (Token V)
  unfolding stops
  skip_tokens a [] = ([], [])
  skip_tokens a (t ∷ raw) =
      let rest = skip_tokens a raw in if stops a t then ([], t ∷ raw) else (t ∷ rest.0, rest.1)

  unfoldable pub skip_if : Bool → Action → List (Token V) → List (Token V) × List (Token V)
  unfolding skip_tokens
  skip_if skip_useless a raw = if skip_useless then skip_tokens a raw else ([], raw)

  -- The test behind the loop, at what is left of the tokens.
  unfoldable pub whole_line : Bool → Bool → List (Token V) → Bool
  whole_line skip_useless matched [] = if skip_useless then false else matched
  whole_line skip_useless matched (t ∷ rest) = if skip_useless then matched else false

  -- The first loop over a grammar: `skip_useless`, `matched`, and the tokens from `i` on.
  unfoldable pub matches_from : List Part → Bool → Bool → List (Token V) → Bool
  unfolding spells same_action skip_if whole_line
  matches_from [] skip_useless matched raw = whole_line skip_useless matched raw
  matches_from (expr_part ∷ grammar) skip_useless matched raw =
      matches_from grammar true matched raw
  matches_from (endline_part ∷ grammar) skip_useless matched raw =
      matches_from grammar skip_useless matched raw
  matches_from (action_part a ∷ grammar) skip_useless matched raw =
      elim (skip_if skip_useless a raw).1 [
        | [] ↦ whole_line skip_useless matched []
        | t ∷ rest ↦
            let again = matches_from grammar false in
            elim t [
              | id name ↦ if spells name a then again true rest else whole_line false false rest
              | action b ↦
                  if same_action b a then again matched rest else whole_line false matched rest
              | _ ↦ whole_line false matched rest
            ]
      ]

  -- `raw[i] = it`
  unfoldable pub retag : Action → Token V → Token V
  unfolding spells
  retag a (id name) = if spells name a then action a else id name
  retag a t = t

  -- The token at `i`, if there is one.
  unfoldable pub retag_head :
      Action → (List (Token V) → List (Token V)) → List (Token V) → List (Token V)
  unfolding retag
  retag_head a again [] = again []
  retag_head a again (t ∷ rest) = retag a t ∷ again rest

  -- The second loop, which rewrites the tokens.
  unfoldable pub rewrite_from : List Part → Bool → List (Token V) → List (Token V)
  unfolding skip_if retag_head
  rewrite_from [] skip_useless raw = raw
  rewrite_from (expr_part ∷ grammar) skip_useless raw = rewrite_from grammar true raw
  rewrite_from (endline_part ∷ grammar) skip_useless raw = rewrite_from grammar skip_useless raw
  rewrite_from (action_part a ∷ grammar) skip_useless raw =
      let again = rewrite_from grammar false in
      let here = skip_if skip_useless a raw in here.0 ++ retag_head a again here.1

  unfoldable pub match_grammar : List Grammar → List (Token V) → List (Token V)
  unfolding matches_from rewrite_from
  match_grammar [] raw = raw
  match_grammar (dat ∷ m_data) raw =
      match_grammar m_data
        (if matches_from dat.0 false false raw then rewrite_from dat.0 false raw else raw)
