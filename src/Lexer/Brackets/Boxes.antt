-- ===== src/Lexer/Brackets/Boxes.antt =====
-- `process_brackets` loses no token: a line is read back from its boxes.
use covscript.Prelude.{
  ℕ, zero, suc, List, [], ◌∷◌, ◌++◌, Result, ok, bind-eq-ok, ok-injective, Bool-cases, inl, inr,
  ◌≡◌, refl, ap, ◌∙◌, append_assoc, append-nil,
}
use covscript.Syntax.Signal.{com_}
use covscript.Syntax.Token.{Token, signal, of_lists}
use covscript.Lexer.Brackets.{
  Bracket, small, middle, large, same_bracket, Role, opens, closes, comma, plain, role, opening,
  closing, boxed, process_empty_brackets, bracket_round, bracket_loop, process_brackets,
}
use covscript.Lexer.Brackets.Balance.{same_bracket_iff}
use covscript.Lexer.Brackets.Spell.{
  spell_token, spell_lines, spell_behind, spell, spell_line-of_list, spell-append, role-opens,
  role-closes, role-comma, spell-opening, spell-closing, spell-process_empty_brackets,
}

-- The bracket at the back of the stack.
abbrev bottom : Bracket → List Bracket → Bracket
bottom c [] = c
bottom c (d ∷ stack) = bottom d stack

module _ {V : Type 0} where
  -- Lists with a comma behind each.
  abbrev commas : List (List (Token V)) → List (Token V)
  commas [] = []
  commas (l ∷ ls) = spell l ++ (signal com_ ∷ commas ls)

  commas-append :
      (ls : List (List (Token V))) (l : List (Token V))
      → commas (ls ++ l ∷ []) ≡ commas ls ++ (spell l ++ signal com_ ∷ [])
  commas-append [] l = refl
  commas-append (k ∷ ls) l = simp (commas-append ls l, append_assoc)

  spell_behind-of_lists :
      (ls : List (List (Token V))) (l : List (Token V))
      → spell_behind (of_lists (ls ++ l ∷ [])) ≡ signal com_ ∷ (commas ls ++ spell l)
  unfolding of_lists spell_token
  spell_behind-of_lists [] l = rw (spell_line-of_list l, append-nil)
  spell_behind-of_lists (k ∷ ls) l =
      rw (spell_line-of_list k, spell_behind-of_lists ls l) (simp append_assoc)

  spell_lines-of_lists :
      (ls : List (List (Token V))) (l : List (Token V))
      → spell_lines (of_lists (ls ++ l ∷ [])) ≡ commas ls ++ spell l
  unfolding of_lists spell_token
  spell_lines-of_lists [] l = rw (spell_line-of_list l, append-nil)
  spell_lines-of_lists (k ∷ ls) l =
      rw (spell_line-of_list k, spell_behind-of_lists ls l) (simp append_assoc)

  spell-boxed :
      (b : Bracket) (ls : List (List (Token V))) (l : List (Token V))
      → spell_token (boxed b (ls ++ l ∷ []))
        ≡ opening b ∷ ((commas ls ++ spell l) ++ closing b ∷ [])
  unfolding boxed spell_token
  spell-boxed small ls l = rw (spell_lines-of_lists ls l)
  spell-boxed middle ls l = rw (spell_lines-of_lists ls l)
  spell-boxed large ls l = rw (spell_lines-of_lists ls l)

  -- What the loop has read and not put out.
  abbrev held : List Bracket → List (List (Token V)) → List (Token V) → List (Token V)
  held [] blist btokens = []
  held (c ∷ stack) blist btokens = opening (bottom c stack) ∷ (commas blist ++ spell btokens)

  abbrev Clear : List Bracket → List (List (Token V)) → List (Token V) → Type 0
  Clear [] blist btokens = (blist ≡ []) × (btokens ≡ [])
  Clear (c ∷ stack) blist btokens = Unit

  abbrev Reads :
      List (Token V)
      → List Bracket
      → List (List (Token V))
      → List (Token V)
      → Result (List (Token V))
      → Type 0
  Reads ts stack blist btokens m =
      (out : List (Token V)) → m ≡ ok out → spell out ≡ held stack blist btokens ++ spell ts

  Reads-keep :
      (t : Token V) (ts : List (Token V)) (c : Bracket) (stack : List Bracket)
      (blist : List (List (Token V))) (btokens : List (Token V)) (m : Result (List (Token V)))
      → Reads ts (c ∷ stack) blist (btokens ++ t ∷ []) m
      → Reads (t ∷ ts) (c ∷ stack) blist btokens m
  Reads-keep t ts c stack blist btokens m ih out h = ih out h ∙ simp (spell-append, append_assoc)

  Reads-box :
      (t : Token V) (ts : List (Token V)) (b c : Bracket) (blist : List (List (Token V)))
      (btokens list out : List (Token V))
      → role t ≡ closes b
      → c ≡ b
      → spell list ≡ spell btokens
      → spell out ≡ spell ts
      → spell (boxed b (blist ++ list ∷ []) ∷ out) ≡ held (c ∷ []) blist btokens ++ spell (t ∷ ts)
  Reads-box t ts b c blist btokens list out k same h g =
      rw (same, role-closes t b k, spell-boxed b blist list, spell-closing b, h, g)
        (simp append_assoc)

  bracket_round-Reads :
      (inner : List (Token V) → Result (List (Token V))) (t : Token V) (ts : List (Token V))
      (r : Role) (stack : List Bracket) (blist : List (List (Token V))) (btokens : List (Token V))
      (rest : List Bracket → List (List (Token V)) → List (Token V) → Result (List (Token V)))
      → ((xs o : List (Token V)) → inner xs ≡ ok o → spell o ≡ spell xs)
      → role t ≡ r
      → Clear stack blist btokens
      → ((s : List Bracket) (bl : List (List (Token V))) (bt : List (Token V))
          → Clear s bl bt
          → Reads ts s bl bt (rest s bl bt))
      → Reads (t ∷ ts) stack blist btokens (bracket_round inner r stack blist btokens t rest)
  unfolding bracket_round
  bracket_round-Reads inner t ts (opens b) [] blist btokens rest hi k (p, q) ih out h =
      ih (b ∷ []) blist btokens tt out h ∙ rw (p, q, role-opens t b k, spell-opening b)
  bracket_round-Reads inner t ts (opens b) (c ∷ stack) blist btokens rest hi k p ih out h =
      Reads-keep t ts c stack blist btokens _ (ih (b ∷ c ∷ stack) blist (btokens ++ t ∷ []) tt) out
        h
  bracket_round-Reads inner t ts (closes b) [] blist btokens rest hi k p ih out h = cc
  bracket_round-Reads inner t ts (closes b) (c ∷ []) blist btokens rest hi k p ih out h =
      elim (Bool-cases (same_bracket c b)) [
        | inl same ↦
            let (list, f, h1) = bind-eq-ok (inner btokens) _ (rw same at h) in
            let (o, g, h2) = bind-eq-ok (rest [] [] []) _ h1 in
            rw (← ok-injective _ _ h2) (
              Reads-box t ts b c blist btokens list o k (same_bracket_iff c b same)
                (hi btokens list f) (ih [] [] [] (refl, refl) o g))
        | inr differ ↦ absurd (cc (rw differ at h))
      ]
  bracket_round-Reads inner t ts (closes b) (c ∷ d ∷ stack) blist btokens rest hi k p ih out h =
      elim (Bool-cases (same_bracket c b)) [
        | inl same ↦
            Reads-keep t ts d stack blist btokens _ (ih (d ∷ stack) blist (btokens ++ t ∷ []) tt)
              out (rw same at h)
        | inr differ ↦ absurd (cc (rw differ at h))
      ]
  bracket_round-Reads inner t ts comma [] blist btokens rest hi k p ih out h =
      let (o, f, g) = bind-eq-ok (rest [] blist btokens) _ h in
      rw (← ok-injective _ _ g) (ap (◌++◌ (spell_token t)) (ih [] blist btokens p o f))
  bracket_round-Reads inner t ts comma (c ∷ []) blist btokens rest hi k p ih out h =
      let (list, f, g) = bind-eq-ok (inner btokens) _ h in
      ih (c ∷ []) (blist ++ list ∷ []) [] tt out g
      ∙ rw (commas-append blist list, hi btokens list f, role-comma t k)
          (unfold spell_token in simp (append_assoc, append-nil))
  bracket_round-Reads inner t ts comma (c ∷ d ∷ stack) blist btokens rest hi k p ih out h =
      Reads-keep t ts c (d ∷ stack) blist btokens _
        (ih (c ∷ d ∷ stack) blist (btokens ++ t ∷ []) tt) out h
  bracket_round-Reads inner t ts plain [] blist btokens rest hi k p ih out h =
      let (o, f, g) = bind-eq-ok (rest [] blist btokens) _ h in
      rw (← ok-injective _ _ g) (ap (◌++◌ (spell_token t)) (ih [] blist btokens p o f))
  bracket_round-Reads inner t ts plain (c ∷ stack) blist btokens rest hi k p ih out h =
      Reads-keep t ts c stack blist btokens _ (ih (c ∷ stack) blist (btokens ++ t ∷ []) tt) out h

  bracket_loop-Reads :
      (inner : List (Token V) → Result (List (Token V))) (ts : List (Token V))
      (stack : List Bracket) (blist : List (List (Token V))) (btokens : List (Token V))
      → ((xs o : List (Token V)) → inner xs ≡ ok o → spell o ≡ spell xs)
      → Clear stack blist btokens
      → Reads ts stack blist btokens (bracket_loop inner stack blist btokens ts)
  unfolding bracket_loop
  bracket_loop-Reads inner [] [] blist btokens hi p out h = rw (← ok-injective _ _ h)
  bracket_loop-Reads inner [] (c ∷ stack) blist btokens hi p out h = cc
  bracket_loop-Reads inner (t ∷ ts) stack blist btokens hi p out h =
      bracket_round-Reads inner t ts (role t) stack blist btokens _ hi refl p
        (λ s bl bt q. bracket_loop-Reads inner ts s bl bt hi q) out h

  -- What `process_brackets` returns spells the line that it was given: with the boxes written as
  -- their lists between brackets, with commas, at any depth, no token is lost, added or moved.
  pub spell-process_brackets :
      (fuel : ℕ) (ts out : List (Token V))
      → process_brackets fuel ts ≡ ok out
      → spell out ≡ spell ts
  unfolding process_brackets
  spell-process_brackets zero ts out h = cc
  spell-process_brackets (suc fuel) ts out h =
      let (oldt, f, g) = bind-eq-ok (process_empty_brackets ts) _ h in
      bracket_loop-Reads (process_brackets fuel) oldt [] [] []
        (λ xs o. spell-process_brackets fuel xs o) (refl, refl) out g
      ∙ spell-process_empty_brackets ts oldt f
