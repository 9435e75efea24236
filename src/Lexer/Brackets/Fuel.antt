-- ===== src/Lexer/Brackets/Fuel.antt =====
-- How deep `process_brackets` recurs.
use native.Mathlib.Nat.{le_trans}
use covscript.Prelude.{
  ℕ, zero, suc, ◌+◌, ◌≤◌, ◌<◌, Bool, true, false, List, [], ◌∷◌, ◌++◌, length, length-append,
  Result, ok, err, out_of_fuel, ok-injective, ◌>>=◌, if◌then◌else◌, Bool-cases, inl, inr, ◌≡◌, ◌≢◌,
  refl, arith,
}
use covscript.Syntax.Token.{Token}
use covscript.Lexer.Brackets.{
  Bracket, small, middle, large, same_bracket, Role, opens, closes, comma, plain, mismatch, role,
  opening, empty_pair, insert_bracket, empty_round, empty_loop, process_empty_brackets,
  bracket_round, bracket_loop, process_brackets,
}

module _ {ℓ κ} {A : Type ℓ} {B : Type κ} where
  -- A bind runs out of fuel only where one of its parts does.
  bind-fuel :
      (m : Result A) (f : A → Result B)
      → m ≢ err out_of_fuel
      → ((a : A) → m ≡ ok a → f a ≢ err out_of_fuel)
      → (m >>= f) ≢ err out_of_fuel
  bind-fuel (ok a) f h k = k a refl
  bind-fuel (err e) f h k = λ z. h (cc z)

mismatch-fuel {ℓ} :
    (A : Type ℓ) (b : Bracket) → ◌≢◌ {A = Result A} (err (mismatch b)) (err out_of_fuel)
mismatch-fuel A small = λ z. cc z
mismatch-fuel A middle = λ z. cc z
mismatch-fuel A large = λ z. cc z

ok-fuel {ℓ} : {A : Type ℓ} (a : A) → ok a ≢ err out_of_fuel
ok-fuel a = λ z. cc z

abbrev held_back : Bool → ℕ
held_back true = 1
held_back false = 0

module _ {V : Type 0} where
  -- The loop does not run out of fuel, and puts out at most what it holds back and has ahead.
  abbrev Short : ℕ → Result (List (Token V)) → Type 0
  Short n m = (m ≢ err out_of_fuel) × ((out : List (Token V)) → m ≡ ok out → length out ≤ n)

  Short-put :
      (t : Token V) (n : ℕ) (m : Result (List (Token V)))
      → Short n m
      → Short (suc n) (m >>= λ out. ok (t ∷ out))
  Short-put t n (err e) (f, h) = ((λ z. f (cc z)), (λ out z. cc z))
  Short-put t n (ok o) (f, h) =
      ((λ z. cc z), (λ out z. rw (← ok-injective _ _ z) (omega (arith, h o refl))))

  Short-mono : (k n : ℕ) (m : Result (List (Token V))) → k ≤ n → Short k m → Short n m
  Short-mono k n m le (f, h) = (f, λ out z. le_trans (h out z) le)

  Short-two :
      (s t : Token V) (n : ℕ) (m : Result (List (Token V)))
      → Short n m
      → Short (suc (suc n)) (m >>= λ out. ok (s ∷ t ∷ out))
  Short-two s t n (err e) (f, h) = ((λ z. f (cc z)), (λ out z. cc z))
  Short-two s t n (ok o) (f, h) =
      ((λ z. cc z), (λ out z. rw (← ok-injective _ _ z) (omega (arith, h o refl))))

  Short-same : (n : ℕ) (m : Result (List (Token V))) → Short n m → Short n (m >>= λ out. ok out)
  Short-same n (err e) h = h
  Short-same n (ok o) h = h

  empty_round-Short :
      (t : Token V) (ts : List (Token V)) (stack : List Bracket) (e : Bool) (r : Role)
      (rest : List Bracket → Bool → Result (List (Token V)))
      → ((s : List Bracket) (f : Bool) → Short (held_back f + length ts) (rest s f))
      → Short (held_back e + suc (length ts)) (empty_round r stack e t rest)
  unfolding empty_round insert_bracket
  empty_round-Short t ts [] true (opens b) rest ih =
      Short-mono _ _ _ (omega arith) (Short-same _ _ (ih (b ∷ []) true))
  empty_round-Short t ts (c ∷ stack) true (opens b) rest ih =
      Short-mono _ _ _ (omega arith) (Short-put (opening c) _ _ (ih (b ∷ c ∷ stack) true))
  empty_round-Short t ts stack false (opens b) rest ih =
      Short-mono _ _ _ (omega arith) (ih (b ∷ stack) true)
  empty_round-Short t ts [] e (closes b) rest ih = ((λ z. cc z), (λ out z. cc z))
  empty_round-Short t ts (c ∷ stack) e (closes b) rest ih = elim (Bool-cases (same_bracket c b)) [
    | inl same ↦ rw same (
        Short-mono _ _ _ (omega arith)
          (Short-put (if e then empty_pair b else t) _ _ (ih stack false)))
    | inr differ ↦ rw differ (mismatch-fuel _ b, λ out z. cc z)
  ]
  empty_round-Short t ts [] e comma rest ih =
      Short-mono _ _ _ (omega arith) (Short-put t _ _ (ih [] e))
  empty_round-Short t ts (c ∷ stack) true comma rest ih =
      Short-mono _ _ _ (omega arith) (Short-two (opening c) t _ _ (ih (c ∷ stack) false))
  empty_round-Short t ts (c ∷ stack) false comma rest ih =
      Short-mono _ _ _ (omega arith) (Short-put t _ _ (ih (c ∷ stack) false))
  empty_round-Short t ts [] e plain rest ih =
      Short-mono _ _ _ (omega arith) (Short-put t _ _ (ih [] e))
  empty_round-Short t ts (c ∷ stack) true plain rest ih =
      Short-mono _ _ _ (omega arith) (Short-two (opening c) t _ _ (ih (c ∷ stack) false))
  empty_round-Short t ts (c ∷ stack) false plain rest ih =
      Short-mono _ _ _ (omega arith) (Short-put t _ _ (ih (c ∷ stack) false))

  empty_loop-Short :
      (ts : List (Token V)) (stack : List Bracket) (e : Bool)
      → Short (held_back e + length ts) (empty_loop stack e ts)
  unfolding empty_loop
  empty_loop-Short [] [] e = ((λ z. cc z), (λ out z. rw (← ok-injective _ _ z) (omega arith)))
  empty_loop-Short [] (b ∷ stack) e = ((λ z. cc z), (λ out z. cc z))
  empty_loop-Short (t ∷ ts) stack e =
      empty_round-Short t ts stack e (role t) _ (λ s f. empty_loop-Short ts s f)

  process_empty-Short : (ts : List (Token V)) → Short (length ts) (process_empty_brackets ts)
  unfolding process_empty_brackets
  process_empty-Short [] = ((λ z. cc z), (λ out z. cc z))
  process_empty-Short (t ∷ ts) = Short-mono _ _ _ (omega arith) (empty_loop-Short (t ∷ ts) [] false)

  -- The tokens of an open bracket and those ahead are fewer than `n`.
  abbrev Room : ℕ → List Bracket → List (Token V) → List (Token V) → Type 0
  Room n [] btokens ts = (length btokens ≡ 0) × (length ts ≤ n)
  Room n (c ∷ stack) btokens ts = length btokens + length ts < n

  module _ (n : ℕ) (inner : List (Token V) → Result (List (Token V)))
      (hi : (xs : List (Token V)) → length xs < n → inner xs ≢ err out_of_fuel) where
    Room-keep :
        (t : Token V) (ts : List (Token V)) (c d : Bracket) (stack stack' : List Bracket)
        (btokens : List (Token V))
        → Room n (c ∷ stack) btokens (t ∷ ts)
        → Room n (d ∷ stack') (btokens ++ t ∷ []) ts
    Room-keep t ts c d stack stack' btokens h = omega (arith, length-append btokens (t ∷ []))

    bracket_round-fuel :
        (t : Token V) (ts : List (Token V)) (r : Role) (stack : List Bracket)
        (blist : List (List (Token V))) (btokens : List (Token V))
        (rest : List Bracket → List (List (Token V)) → List (Token V) → Result (List (Token V)))
        → Room n stack btokens (t ∷ ts)
        → ((s : List Bracket) (bl : List (List (Token V))) (bt : List (Token V))
            → Room n s bt ts
            → rest s bl bt ≢ err out_of_fuel)
        → bracket_round inner r stack blist btokens t rest ≢ err out_of_fuel
    unfolding bracket_round
    bracket_round-fuel t ts (opens b) [] blist btokens rest m ih = ih _ _ _ (omega arith)
    bracket_round-fuel t ts (opens b) (c ∷ stack) blist btokens rest m ih =
        ih _ _ _ (Room-keep t ts c b stack (c ∷ stack) btokens m)
    bracket_round-fuel t ts (closes b) [] blist btokens rest m ih = λ z. cc z
    bracket_round-fuel t ts (closes b) (c ∷ []) blist btokens rest m ih =
        elim (Bool-cases (same_bracket c b)) [
          | inl same ↦ rw same (
              bind-fuel (inner btokens) _ (hi btokens (omega arith))
                (λ list e. bind-fuel (rest [] [] []) _ (ih [] [] [] (omega arith)) (λ o f z. cc z)))
          | inr differ ↦ rw differ (mismatch-fuel _ b)
        ]
    bracket_round-fuel t ts (closes b) (c ∷ d ∷ stack) blist btokens rest m ih =
        elim (Bool-cases (same_bracket c b)) [
          | inl same ↦ rw same (ih _ _ _ (Room-keep t ts c d (d ∷ stack) stack btokens m))
          | inr differ ↦ rw differ (mismatch-fuel _ b)
        ]
    bracket_round-fuel t ts comma [] blist btokens rest m ih =
        bind-fuel (rest [] blist btokens) _ (ih _ _ _ (omega arith)) (λ o f z. cc z)
    bracket_round-fuel t ts comma (c ∷ []) blist btokens rest m ih =
        bind-fuel (inner btokens) _ (hi btokens (omega arith)) (λ list e. ih _ _ _ (omega arith))
    bracket_round-fuel t ts comma (c ∷ d ∷ stack) blist btokens rest m ih =
        ih _ _ _ (Room-keep t ts c c (d ∷ stack) (d ∷ stack) btokens m)
    bracket_round-fuel t ts plain [] blist btokens rest m ih =
        bind-fuel (rest [] blist btokens) _ (ih _ _ _ (omega arith)) (λ o f z. cc z)
    bracket_round-fuel t ts plain (c ∷ stack) blist btokens rest m ih =
        ih _ _ _ (Room-keep t ts c c stack stack btokens m)

    bracket_loop-fuel :
        (ts : List (Token V)) (stack : List Bracket) (blist : List (List (Token V)))
        (btokens : List (Token V))
        → Room n stack btokens ts
        → bracket_loop inner stack blist btokens ts ≢ err out_of_fuel
    unfolding bracket_loop
    bracket_loop-fuel [] [] blist btokens m = λ z. cc z
    bracket_loop-fuel [] (c ∷ stack) blist btokens m = λ z. cc z
    bracket_loop-fuel (t ∷ ts) stack blist btokens m =
        bracket_round-fuel t ts (role t) stack blist btokens _ m
          (λ s bl bt k. bracket_loop-fuel ts s bl bt k)

  -- Fuel above the number of tokens is enough: the recursion into the brackets ends, in a result
  -- or in an error of the source.
  pub process_brackets-fuel :
      (fuel : ℕ) (ts : List (Token V))
      → length ts < fuel
      → process_brackets fuel ts ≢ err out_of_fuel
  unfolding process_brackets
  process_brackets-fuel zero ts h = absurd (omega arith)
  process_brackets-fuel (suc fuel) ts h =
      bind-fuel (process_empty_brackets ts) _ (process_empty-Short ts).0 (λ oldt e.
        bracket_loop-fuel fuel (process_brackets fuel) (λ xs k. process_brackets-fuel fuel xs k)
          oldt [] [] [] (refl, omega (arith, (process_empty-Short ts).1 oldt e)))
