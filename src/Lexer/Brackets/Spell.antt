-- ===== src/Lexer/Brackets/Spell.antt =====
-- `process_empty_brackets` loses no token.
use covscript.Prelude.{
  Bool, true, false, List, [], ◌∷◌, ◌++◌, Result, ok, err, bind-eq-ok, ok-injective, ◌>>=◌,
  if◌then◌else◌, Bool-cases, inl, inr, ◌≡◌, refl, ap, append_assoc,
}
use covscript.Syntax.Signal.{com_, slb_, srb_, mlb_, mrb_, llb_, lrb_, esb_, emb_, elb_}
use covscript.Syntax.Token.{
  Token, signal, sblist, mblist, lblist, Line, stop, token, Lines, no_lines, line, of_list,
}
use covscript.Lexer.Brackets.{
  Bracket, small, middle, large, same_bracket, Role, opens, closes, comma, plain, role, opening,
  closing, empty_pair, insert_bracket, empty_round, empty_loop, process_empty_brackets,
}
use covscript.Lexer.Brackets.Balance.{same_bracket_iff}

opens-injective : (b c : Bracket) → opens b ≡ opens c → b ≡ c
opens-injective b c h = cc

closes-injective : (b c : Bracket) → closes b ≡ closes c → b ≡ c
closes-injective b c h = cc

module _ {V : Type 0} where
  -- A token's text: a box is its lists between brackets, with commas, and a token for an empty
  -- pair is the two brackets.
  unfoldable mutual
    pub spell_token : Token V → List (Token V)
    spell_token (signal esb_) = signal slb_ ∷ signal srb_ ∷ []
    spell_token (signal emb_) = signal mlb_ ∷ signal mrb_ ∷ []
    spell_token (signal elb_) = signal llb_ ∷ signal lrb_ ∷ []
    spell_token (sblist lists) = signal slb_ ∷ (spell_lines lists ++ signal srb_ ∷ [])
    spell_token (mblist lists) = signal mlb_ ∷ (spell_lines lists ++ signal mrb_ ∷ [])
    spell_token (lblist lists) = signal llb_ ∷ (spell_lines lists ++ signal lrb_ ∷ [])
    spell_token t = t ∷ []

    pub spell_line : Line V → List (Token V)
    spell_line stop = []
    spell_line (token t ts) = spell_token t ++ spell_line ts

    -- Each list but the first has a comma before it.
    pub spell_lines : Lines V → List (Token V)
    spell_lines no_lines = []
    spell_lines (line l ls) = spell_line l ++ spell_behind ls

    pub spell_behind : Lines V → List (Token V)
    spell_behind no_lines = []
    spell_behind (line l ls) = signal com_ ∷ (spell_line l ++ spell_behind ls)

  abbrev pub spell : List (Token V) → List (Token V)
  spell [] = []
  spell (t ∷ ts) = spell_token t ++ spell ts

  pub spell_line-of_list : (ts : List (Token V)) → spell_line (of_list ts) ≡ spell ts
  unfolding of_list spell_token
  spell_line-of_list [] = refl
  spell_line-of_list (t ∷ ts) = ap (◌++◌ (spell_token t)) (spell_line-of_list ts)

  pub spell-append : (xs ys : List (Token V)) → spell (xs ++ ys) ≡ spell xs ++ spell ys
  spell-append [] ys = refl
  spell-append (x ∷ xs) ys = simp (spell-append xs ys, append_assoc)

  pub role-opens : (t : Token V) (b : Bracket) → role t ≡ opens b → t ≡ opening b
  unfolding role
  role-opens (signal slb_) b h = ap opening (opens-injective small b h)
  role-opens (signal mlb_) b h = ap opening (opens-injective middle b h)
  role-opens (signal llb_) b h = ap opening (opens-injective large b h)
  role-opens _ b h = cc

  pub role-closes : (t : Token V) (b : Bracket) → role t ≡ closes b → t ≡ closing b
  unfolding role
  role-closes (signal srb_) b h = ap closing (closes-injective small b h)
  role-closes (signal mrb_) b h = ap closing (closes-injective middle b h)
  role-closes (signal lrb_) b h = ap closing (closes-injective large b h)
  role-closes _ b h = cc

  pub role-comma : (t : Token V) → role t ≡ comma → t ≡ signal com_
  unfolding role
  role-comma (signal com_) h = refl
  role-comma _ h = cc

  pub spell-opening : (b : Bracket) → spell_token (opening b) ≡ opening b ∷ []
  unfolding spell_token
  spell-opening small = refl
  spell-opening _ = refl

  pub spell-closing : (b : Bracket) → spell_token (closing b) ≡ closing b ∷ []
  unfolding spell_token
  spell-closing small = refl
  spell-closing _ = refl

  spell-empty_pair : (b : Bracket) → spell_token (empty_pair b) ≡ opening b ∷ closing b ∷ []
  unfolding spell_token
  spell-empty_pair small = refl
  spell-empty_pair _ = refl

  -- The bracket that the loop has read and not put out.
  abbrev pending : Bool → List Bracket → List (Token V)
  pending false stack = []
  pending true [] = []
  pending true (b ∷ stack) = opening b ∷ []

  -- The loop on `ts` puts out the pending bracket and `ts`.
  abbrev Keeps : List (Token V) → List Bracket → Bool → Result (List (Token V)) → Type 0
  Keeps ts stack e m =
      (out : List (Token V)) → m ≡ ok out → spell out ≡ spell (pending e stack ++ ts)

  Keeps-flush :
      (t : Token V) (ts : List (Token V)) (c : Bracket) (stack : List Bracket) (e : Bool)
      (m : Result (List (Token V)))
      → Keeps ts (c ∷ stack) false m
      → Keeps
          (t ∷ ts)
          (c ∷ stack)
          e
          (m >>= λ out. ok (if e then insert_bracket (c ∷ stack) ++ (t ∷ out) else t ∷ out))
  unfolding insert_bracket
  Keeps-flush t ts c stack e (err f) ih out h = cc
  Keeps-flush t ts c stack true (ok o) ih out h =
      rw (← ok-injective _ _ h)
        (ap (λ x. spell_token (opening c) ++ (spell_token t ++ x)) (ih o refl))
  Keeps-flush t ts c stack false (ok o) ih out h =
      rw (← ok-injective _ _ h) (ap (λ x. spell_token t ++ x) (ih o refl))

  Keeps-closes :
      (t : Token V) (b c : Bracket) (e : Bool) (stack : List Bracket) (ts out : List (Token V))
      → role t ≡ closes b
      → c ≡ b
      → spell out ≡ spell ts
      → spell ((if e then empty_pair b else t) ∷ out) ≡ spell (pending e (c ∷ stack) ++ (t ∷ ts))
  Keeps-closes t b c true stack ts out k same h =
      rw (same, role-closes t b k, spell-empty_pair b, spell-opening b, spell-closing b, h)
  Keeps-closes t b c false stack ts out k same h = ap (◌++◌ (spell_token t)) h

  empty_round-Keeps :
      (t : Token V) (ts : List (Token V)) (stack : List Bracket) (e : Bool) (r : Role)
      (rest : List Bracket → Bool → Result (List (Token V)))
      → role t ≡ r
      → ((s : List Bracket) (f : Bool) → Keeps ts s f (rest s f))
      → Keeps (t ∷ ts) stack e (empty_round r stack e t rest)
  unfolding empty_round insert_bracket
  empty_round-Keeps t ts [] true (opens b) rest k ih out h =
      let (o, f, g) = bind-eq-ok (rest (b ∷ []) true) _ h in
      rw (← ok-injective _ _ g, role-opens t b k) (ih _ _ o f)
  empty_round-Keeps t ts (c ∷ stack) true (opens b) rest k ih out h =
      let (o, f, g) = bind-eq-ok (rest (b ∷ c ∷ stack) true) _ h in
      rw (← ok-injective _ _ g, role-opens t b k) (ap (◌++◌ (spell_token (opening c))) (ih _ _ o f))
  empty_round-Keeps t ts stack false (opens b) rest k ih out h =
      rw (role-opens t b k) (ih _ _ out h)
  empty_round-Keeps t ts [] e (closes b) rest k ih out h = cc
  empty_round-Keeps t ts (c ∷ stack) e (closes b) rest k ih out h =
      elim (Bool-cases (same_bracket c b)) [
        | inl same ↦
            let (o, f, g) = bind-eq-ok (rest stack false) _ (rw same at h) in
            rw (← ok-injective _ _ g)
              (Keeps-closes t b c e stack ts o k (same_bracket_iff c b same) (ih _ _ o f))
        | inr differ ↦ absurd (cc (rw differ at h))
      ]
  empty_round-Keeps t ts [] true comma rest k ih out h =
      let (o, f, g) = bind-eq-ok (rest [] true) _ h in
      rw (← ok-injective _ _ g) (ap (◌++◌ (spell_token t)) (ih _ _ o f))
  empty_round-Keeps t ts [] false comma rest k ih out h =
      let (o, f, g) = bind-eq-ok (rest [] false) _ h in
      rw (← ok-injective _ _ g) (ap (◌++◌ (spell_token t)) (ih _ _ o f))
  empty_round-Keeps t ts (c ∷ stack) true comma rest k ih out h =
      Keeps-flush t ts c stack true _ (ih (c ∷ stack) false) out h
  empty_round-Keeps t ts (c ∷ stack) false comma rest k ih out h =
      Keeps-flush t ts c stack false _ (ih (c ∷ stack) false) out h
  empty_round-Keeps t ts [] true plain rest k ih out h =
      let (o, f, g) = bind-eq-ok (rest [] true) _ h in
      rw (← ok-injective _ _ g) (ap (◌++◌ (spell_token t)) (ih _ _ o f))
  empty_round-Keeps t ts [] false plain rest k ih out h =
      let (o, f, g) = bind-eq-ok (rest [] false) _ h in
      rw (← ok-injective _ _ g) (ap (◌++◌ (spell_token t)) (ih _ _ o f))
  empty_round-Keeps t ts (c ∷ stack) true plain rest k ih out h =
      Keeps-flush t ts c stack true _ (ih (c ∷ stack) false) out h
  empty_round-Keeps t ts (c ∷ stack) false plain rest k ih out h =
      Keeps-flush t ts c stack false _ (ih (c ∷ stack) false) out h

  empty_loop-Keeps :
      (ts : List (Token V)) (stack : List Bracket) (e : Bool)
      → Keeps ts stack e (empty_loop stack e ts)
  unfolding empty_loop
  empty_loop-Keeps [] [] true out h = rw (← ok-injective _ _ h)
  empty_loop-Keeps [] [] false out h = rw (← ok-injective _ _ h)
  empty_loop-Keeps [] (b ∷ stack) e out h = cc
  empty_loop-Keeps (t ∷ ts) stack e out h =
      empty_round-Keeps t ts stack e (role t) _ refl (λ s f. empty_loop-Keeps ts s f) out h

  -- `process_empty_brackets` changes no more than the spelling of empty pairs.
  pub spell-process_empty_brackets :
      (ts out : List (Token V)) → process_empty_brackets ts ≡ ok out → spell out ≡ spell ts
  unfolding process_empty_brackets
  spell-process_empty_brackets [] out h = cc
  spell-process_empty_brackets (t ∷ ts) out h = empty_loop-Keeps (t ∷ ts) [] false out h
