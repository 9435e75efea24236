-- ===== src/Lexer/Brackets.antt =====
-- `process_empty_brackets` and `process_brackets` of sources/compiler/lexer.cpp.
pub mod Balance
pub mod Spell
pub mod Boxes
pub mod Fuel
use covscript.Prelude.{
  ℕ, zero, suc, Bool, true, false, List, [], ◌∷◌, ◌++◌, Result, ok, err, Error, compile_error,
  out_of_fuel, ◌>>=◌, if◌then◌else◌,
}
use covscript.Syntax.Signal.{Signal, com_, slb_, srb_, mlb_, mrb_, llb_, lrb_, esb_, emb_, elb_}
use covscript.Syntax.Token.{Token, signal, sblist, mblist, lblist, of_lists}

-- The numbers 1, 2 and 3 of `blist_stack`: round, square and curly brackets.
pub data Bracket : Type 0 where
  small middle large : Bracket

unfoldable pub same_bracket : Bracket → Bracket → Bool
same_bracket small small = true
same_bracket middle middle = true
same_bracket large large = true
same_bracket _ _ = false

-- The case of the `switch` that a token takes.
pub data Role : Type 0 where
  opens closes : Bracket → Role
  comma plain : Role

abbrev pub unexpected : Error
unexpected = compile_error "Unexpected closing bracket: no opening bracket to match"

abbrev pub unclosed : Error
unclosed = compile_error "Unclosed bracket: one or more opening brackets were never closed"

abbrev pub empty_buffer : Error
empty_buffer = compile_error "Received an empty token buffer"

abbrev pub mismatch : Bracket → Error
mismatch small =
    compile_error "Bracket type mismatch: ')' does not match the innermost opening bracket"
mismatch middle =
    compile_error "Bracket type mismatch: ']' does not match the innermost opening bracket"
mismatch large =
    compile_error "Bracket type mismatch: '}' does not match the innermost opening bracket"

module _ {V : Type 0} where
  unfoldable pub role : Token V → Role
  role (signal slb_) = opens small
  role (signal mlb_) = opens middle
  role (signal llb_) = opens large
  role (signal srb_) = closes small
  role (signal mrb_) = closes middle
  role (signal lrb_) = closes large
  role (signal com_) = comma
  role _ = plain

  abbrev pub opening : Bracket → Token V
  opening small = signal slb_
  opening middle = signal mlb_
  opening large = signal llb_

  abbrev pub closing : Bracket → Token V
  closing small = signal srb_
  closing middle = signal mrb_
  closing large = signal lrb_

  abbrev pub empty_pair : Bracket → Token V
  empty_pair small = signal esb_
  empty_pair middle = signal emb_
  empty_pair large = signal elb_

  -- `insert_bracket`; the stack has a front wherever it is called.
  unfoldable pub insert_bracket : List Bracket → List (Token V)
  insert_bracket [] = []
  insert_bracket (b ∷ stack) = opening b ∷ []

  -- One round of the loop of `process_empty_brackets`, by the token's role and the stack. The flag
  -- is `empty_bracket`: the bracket at the front of the stack is not in the output yet. `rest` is
  -- the loop on the tokens behind, from its new stack and flag.
  unfoldable pub empty_round :
      Role
      → List Bracket
      → Bool
      → Token V
      → (List Bracket → Bool → Result (List (Token V)))
      → Result (List (Token V))
  unfolding insert_bracket
  empty_round (opens b) stack true t rest = do
    out ← rest (b ∷ stack) true
    ok (insert_bracket stack ++ out)
  empty_round (opens b) stack false t rest = rest (b ∷ stack) true
  empty_round (closes b) [] empty_bracket t rest = err unexpected
  empty_round (closes b) (c ∷ stack) empty_bracket t rest =
      if same_bracket c b
      then (rest stack false >>= λ out. ok ((if empty_bracket then empty_pair b else t) ∷ out))
      else err (mismatch b)
  empty_round _ [] empty_bracket t rest = do out ← rest [] empty_bracket; ok (t ∷ out)
  empty_round _ (c ∷ stack) true t rest = do
    out ← rest (c ∷ stack) false
    ok (insert_bracket (c ∷ stack) ++ (t ∷ out))
  empty_round _ (c ∷ stack) false t rest = do out ← rest (c ∷ stack) false; ok (t ∷ out)

  unfoldable pub empty_loop : List Bracket → Bool → List (Token V) → Result (List (Token V))
  unfolding empty_round role same_bracket
  empty_loop [] empty_bracket [] = ok []
  empty_loop (b ∷ stack) empty_bracket [] = err unclosed
  empty_loop stack empty_bracket (t ∷ ts) =
      empty_round (role t) stack empty_bracket t
        (λ stack empty_bracket. empty_loop stack empty_bracket ts)

  unfoldable pub process_empty_brackets : List (Token V) → Result (List (Token V))
  unfolding empty_loop
  process_empty_brackets [] = err empty_buffer
  process_empty_brackets (t ∷ ts) = empty_loop [] false (t ∷ ts)

  unfoldable pub boxed : Bracket → List (List (Token V)) → Token V
  unfolding of_lists
  boxed small lists = sblist (of_lists lists)
  boxed middle lists = mblist (of_lists lists)
  boxed large lists = lblist (of_lists lists)

  -- One round of the loop of `process_brackets`, with its variables `blist_stack`, `blist` and
  -- `btokens`; `inner` is the recursive call, and `rest` the loop on the tokens behind.
  unfoldable pub bracket_round :
      (List (Token V) → Result (List (Token V)))
      → Role
      → List Bracket
      → List (List (Token V))
      → List (Token V)
      → Token V
      → (List Bracket → List (List (Token V)) → List (Token V) → Result (List (Token V)))
      → Result (List (Token V))
  unfolding boxed
  bracket_round inner (opens b) [] blist btokens t rest = rest (b ∷ []) blist btokens
  bracket_round inner (closes b) [] blist btokens t rest = err unexpected
  bracket_round inner (closes b) (c ∷ []) blist btokens t rest =
      if same_bracket c b
      then (do list ← inner btokens; out ← rest [] [] []; ok (boxed b (blist ++ list ∷ []) ∷ out))
      else err (mismatch b)
  bracket_round inner (closes b) (c ∷ d ∷ stack) blist btokens t rest =
      if same_bracket c b then rest (d ∷ stack) blist (btokens ++ t ∷ []) else err (mismatch b)
  bracket_round inner comma (c ∷ []) blist btokens t rest = do
    list ← inner btokens
    rest (c ∷ []) (blist ++ list ∷ []) []
  bracket_round inner (opens b) (c ∷ stack) blist btokens t rest =
      rest (b ∷ c ∷ stack) blist (btokens ++ t ∷ [])
  bracket_round inner _ [] blist btokens t rest = do out ← rest [] blist btokens; ok (t ∷ out)
  bracket_round inner _ (c ∷ stack) blist btokens t rest =
      rest (c ∷ stack) blist (btokens ++ t ∷ [])

  unfoldable pub bracket_loop :
      (List (Token V) → Result (List (Token V)))
      → List Bracket
      → List (List (Token V))
      → List (Token V)
      → List (Token V)
      → Result (List (Token V))
  unfolding bracket_round role same_bracket
  bracket_loop inner [] blist btokens [] = ok []
  bracket_loop inner (b ∷ stack) blist btokens [] = err unclosed
  bracket_loop inner stack blist btokens (t ∷ ts) =
      bracket_round inner (role t) stack blist btokens t
        (λ stack blist btokens. bracket_loop inner stack blist btokens ts)

  -- The fuel bounds how deep brackets nest.
  unfoldable pub process_brackets : ℕ → List (Token V) → Result (List (Token V))
  unfolding process_empty_brackets bracket_loop
  process_brackets zero ts = err out_of_fuel
  process_brackets (suc fuel) ts = do
    oldt ← process_empty_brackets ts
    bracket_loop (process_brackets fuel) [] [] [] oldt
