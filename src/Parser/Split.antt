-- ===== src/Parser/Split.antt =====
-- `split_token` loses no token.
use covscript.Prelude.{
  ◌+◌, ◌≤◌, Bool, true, false, List, [], ◌∷◌, length, Option, none, some, Result, ok, if◌then◌else◌,
  bind-eq-ok, ok-injective, ◌≡◌, ◌≢◌, refl, ap, subst, ◌∙◌, arith,
}
use covscript.Syntax.Token.{Token, action, signal}
use covscript.Parser.Build.{split_from, split_token, group_objects, build_tree}
use covscript.Parser.Rank.{tail_weave, weave, Ranked, HasLevels}
use covscript.Parser.Rank.Total.{build_tree-Ranked}
use covscript.Container.Tree.{Tree, inorder}

module _ {V : Type 0} where
  -- The tokens that are there, of a list with null pointers.
  abbrev pub present : List (Option (Token V)) → List (Token V)
  present [] = []
  present (none ∷ ts) = present ts
  present (some t ∷ ts) = t ∷ present ts

  -- What the loop returns, by the flag that it starts with.
  abbrev Splits : Bool → List (Token V) → List (Token V) × List (Option (Token V)) → Type 0
  Splits false raw (ss, os) =
      (length ss + 1 ≤ length os) × (length os ≡ length ss + 1 → present (weave ss os) ≡ raw)
  Splits true raw (ss, os) =
      (length ss ≤ length os) × (length os ≡ length ss → present (tail_weave ss os) ≡ raw)

  present-signal :
      (t : Token V) (raw ss : List (Token V)) (o : Option (Token V)) (os : List (Option (Token V)))
      → present (weave ss (o ∷ os)) ≡ raw
      → present (tail_weave (t ∷ ss) (o ∷ os)) ≡ t ∷ raw
  present-signal t raw ss o os h = ap (◌∷◌ t) h

  Splits-signal :
      (b : Bool) (t : Token V) (raw ss : List (Token V)) (os : List (Option (Token V)))
      → Splits false raw (ss, os)
      → Splits b (t ∷ raw) (t ∷ ss, if b then os else none ∷ os)
  Splits-signal true t raw ss [] p = absurd (omega (arith, p.0))
  Splits-signal true t raw ss (o ∷ os) p =
      (omega (arith, p.0), λ e. present-signal t raw ss o os (p.1 (omega (arith, e))))
  Splits-signal false t raw ss [] p = absurd (omega (arith, p.0))
  Splits-signal false t raw ss (o ∷ os) p =
      (omega (arith, p.0), λ e. present-signal t raw ss o os (p.1 (omega (arith, e))))

  Splits-object :
      (b : Bool) (t : Token V) (raw ss : List (Token V)) (os : List (Option (Token V)))
      → Splits true raw (ss, os)
      → Splits b (t ∷ raw) (ss, some t ∷ os)
  Splits-object true t raw ss os p = (omega (arith, p.0), λ e. absurd (omega (arith, e, p.0)))
  Splits-object false t raw ss os p = (omega (arith, p.0), λ e. ap (◌∷◌ t) (p.1 (omega (arith, e))))

  split_from-Splits :
      (b : Bool) (raw ss : List (Token V)) (os : List (Option (Token V)))
      → split_from b raw ≡ ok (ss, os)
      → Splits b raw (ss, os)
  unfolding split_from
  split_from-Splits true [] ss os h =
      subst (Splits true []) (ok-injective _ _ h) (omega arith, λ e. refl)
  split_from-Splits false [] ss os h =
      subst (Splits false []) (ok-injective _ _ h) (omega arith, λ e. refl)
  split_from-Splits b (action a ∷ raw) ss os h = cc
  split_from-Splits b (signal s ∷ raw) ss os h =
      let ((ss', os'), e, f) = bind-eq-ok (split_from false raw) _ h in
      subst (Splits b (signal s ∷ raw)) (ok-injective _ _ f)
        (Splits-signal b (signal s) raw ss' os' (split_from-Splits false raw ss' os' e))
  split_from-Splits b (t ∷ raw) ss os h =
      let ((ss', os'), e, f) = bind-eq-ok (split_from true raw) _ h in
      subst (Splits b (t ∷ raw)) (ok-injective _ _ f)
        (Splits-object b t raw ss' os' (split_from-Splits true raw ss' os' e))

  -- A line of tokens with no keyword and no bracketed operand, in which operands and signals take
  -- turns (one operand more than signals, a missing one counted) and every signal has a level, is
  -- parsed: `split_token` and `build_tree` give a tree that respects the precedence of the
  -- signals, and whose tokens from left to right, missing operands left out, are the line.
  pub split_build-Ranked :
      (gen : List (Token V) → Result (Tree (Option (Token V)))) (raw ss : List (Token V))
      (os : List (Option (Token V)))
      → split_token raw ≡ ok (ss, os)
      → ss ≢ []
      → length os ≡ length ss + 1
      → group_objects gen os ≡ ok os
      → HasLevels ss
      → (u : Tree (Option (Token V))) × (build_tree gen ss os ≡ ok u)
        × Ranked u
        × (present (inorder u) ≡ raw)
  unfolding split_token
  split_build-Ranked gen raw ss os h ne k g l =
      let (u, e, r, o) = build_tree-Ranked gen ss os os ne k g l in
      (u, e, r, ap present o ∙ (split_from-Splits false raw ss os h).1 k)
