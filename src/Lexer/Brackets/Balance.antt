-- ===== src/Lexer/Brackets/Balance.antt =====
-- `process_empty_brackets` accepts the balanced lines.
use covscript.Prelude.{
  Bool, true, false, List, [], ◌∷◌, ◌++◌, Result, ok, bind-eq-ok, if◌then◌else◌, Bool-cases, inl,
  inr, ◌↔◌, ◌≡◌, ◌≢◌, refl, sym, ap, subst, ◌∙◌, append_assoc, append-nil,
}
use covscript.Syntax.Token.{Token}
use covscript.Lexer.Brackets.{
  Bracket, small, middle, large, same_bracket, Role, opens, closes, comma, plain, role, opening,
  empty_pair, insert_bracket, empty_round, empty_loop, process_empty_brackets,
}

pub same_bracket_iff : (b c : Bracket) → same_bracket b c ≡ true → b ≡ c
unfolding same_bracket
same_bracket_iff small small h = refl
same_bracket_iff middle middle h = refl
same_bracket_iff large large h = refl
same_bracket_iff small middle h = cc
same_bracket_iff small large h = cc
same_bracket_iff middle small h = cc
same_bracket_iff middle large h = cc
same_bracket_iff large small h = cc
same_bracket_iff large middle h = cc

pub same_bracket_self : (b : Bracket) → same_bracket b b ≡ true
unfolding same_bracket
same_bracket_self small = refl
same_bracket_self _ = refl

abbrev pub IsPlain : Role → Type 0
IsPlain (opens b) = ⊥
IsPlain (closes b) = ⊥
IsPlain comma = Unit
IsPlain plain = Unit

module _ {V : Type 0} where
  -- Brackets in matching pairs, one within another or one behind another.
  pub data Balanced : List (Token V) → Type 0 where
    nothing : Balanced []
    other : {t : Token V} {ts : List (Token V)} → IsPlain (role t) → Balanced ts → Balanced (t ∷ ts)
    pair :
        {t : Token V} {ts : List (Token V)} (b : Bracket) (u : Token V) (xs ys : List (Token V))
        → ts ≡ xs ++ (u ∷ ys)
        → role t ≡ opens b
        → role u ≡ closes b
        → Balanced xs
        → Balanced ys
        → Balanced (t ∷ ts)

  -- The tokens close the brackets of the stack, from its front, and are balanced otherwise.
  data Closes : List Bracket → List (Token V) → Type 0 where
    done : {ts : List (Token V)} → Balanced ts → Closes [] ts
    close :
        {b : Bracket} {stack : List Bracket} {ts : List (Token V)} (u : Token V)
        (xs ys : List (Token V))
        → ts ≡ xs ++ (u ∷ ys)
        → Balanced xs
        → role u ≡ closes b
        → Closes stack ys
        → Closes (b ∷ stack) ts

  Closes-other :
      {stack : List Bracket} {ts : List (Token V)} (t : Token V)
      → IsPlain (role t)
      → Closes stack ts
      → Closes stack (t ∷ ts)
  Closes-other t h (done b) = done (other h b)
  Closes-other t h (close u xs ys s b e c) = close u (t ∷ xs) ys (ap (◌∷◌ t) s) (other h b) e c

  Closes-opens :
      {b : Bracket} {stack : List Bracket} {ts : List (Token V)} (t : Token V)
      → role t ≡ opens b
      → Closes (b ∷ stack) ts
      → Closes stack (t ∷ ts)
  Closes-opens {b = b} t h (close u xs ys s x e (done y)) = done (pair b u xs ys s h e x y)
  Closes-opens {b = b} t h (close u xs ys s x e (close v zs ws r z f c)) =
      close v (t ∷ (xs ++ (u ∷ zs))) ws (ap (◌∷◌ t) (s ∙ rw r (simp append_assoc)))
        (pair b u xs zs refl h e x z) f c

  empty_round-Closes :
      (t : Token V) (ts : List (Token V)) (stack : List Bracket) (e : Bool) (r : Role)
      (rest : List Bracket → Bool → Result (List (Token V))) (out : List (Token V))
      → role t ≡ r
      → ((s : List Bracket) (f : Bool) (o : List (Token V)) → rest s f ≡ ok o → Closes s ts)
      → empty_round r stack e t rest ≡ ok out
      → Closes stack (t ∷ ts)
  unfolding empty_round
  empty_round-Closes t ts stack true (opens b) rest out k ih h =
      let (o, f, g) = bind-eq-ok (rest (b ∷ stack) true) _ h in Closes-opens t k (ih _ _ o f)
  empty_round-Closes t ts stack false (opens b) rest out k ih h = Closes-opens t k (ih _ _ out h)
  empty_round-Closes t ts [] e (closes b) rest out k ih h = cc
  empty_round-Closes t ts (c ∷ stack) e (closes b) rest out k ih h =
      elim (Bool-cases (same_bracket c b)) [
        | inl same ↦
            let (o, f, g) = bind-eq-ok (rest stack false) _ (rw same at h) in
            close t [] ts refl nothing (k ∙ ap closes (sym (same_bracket_iff c b same)))
              (ih _ _ o f)
        | inr differ ↦ absurd (cc (rw differ at h))
      ]
  empty_round-Closes t ts [] e comma rest out k ih h =
      let (o, f, g) = bind-eq-ok (rest [] e) _ h in
      Closes-other t (subst IsPlain (sym k) tt) (ih _ _ o f)
  empty_round-Closes t ts (c ∷ stack) true comma rest out k ih h =
      let (o, f, g) = bind-eq-ok (rest (c ∷ stack) false) _ h in
      Closes-other t (subst IsPlain (sym k) tt) (ih _ _ o f)
  empty_round-Closes t ts (c ∷ stack) false comma rest out k ih h =
      let (o, f, g) = bind-eq-ok (rest (c ∷ stack) false) _ h in
      Closes-other t (subst IsPlain (sym k) tt) (ih _ _ o f)
  empty_round-Closes t ts [] e plain rest out k ih h =
      let (o, f, g) = bind-eq-ok (rest [] e) _ h in
      Closes-other t (subst IsPlain (sym k) tt) (ih _ _ o f)
  empty_round-Closes t ts (c ∷ stack) true plain rest out k ih h =
      let (o, f, g) = bind-eq-ok (rest (c ∷ stack) false) _ h in
      Closes-other t (subst IsPlain (sym k) tt) (ih _ _ o f)
  empty_round-Closes t ts (c ∷ stack) false plain rest out k ih h =
      let (o, f, g) = bind-eq-ok (rest (c ∷ stack) false) _ h in
      Closes-other t (subst IsPlain (sym k) tt) (ih _ _ o f)

  empty_loop-Closes :
      (ts : List (Token V)) (stack : List Bracket) (e : Bool) (out : List (Token V))
      → empty_loop stack e ts ≡ ok out
      → Closes stack ts
  unfolding empty_loop
  empty_loop-Closes [] [] e out h = done nothing
  empty_loop-Closes [] (b ∷ stack) e out h = cc
  empty_loop-Closes (t ∷ ts) stack e out h =
      empty_round-Closes t ts stack e (role t) _ out refl (λ s f o g. empty_loop-Closes ts s f o g)
        h

  Closes-Balanced : {ts : List (Token V)} → Closes [] ts → Balanced ts
  Closes-Balanced (done b) = b

  abbrev Accepts : List Bracket → Bool → List (Token V) → Type 0
  Accepts stack e ts = (out : List (Token V)) × (empty_loop stack e ts ≡ ok out)

  Accepts-other :
      (t : Token V) (ts : List (Token V)) (stack : List Bracket) (e : Bool) (r : Role)
      → role t ≡ r
      → IsPlain r
      → ((f : Bool) → Accepts stack f ts)
      → Accepts stack e (t ∷ ts)
  unfolding empty_loop empty_round
  Accepts-other t ts stack e (opens b) k p ih = elim p [ ]
  Accepts-other t ts stack e (closes b) k p ih = elim p [ ]
  Accepts-other t ts [] e comma k p ih = let (o, h) = ih e in (t ∷ o, rw (k, h))
  Accepts-other t ts (c ∷ stack) true comma k p ih =
      let (o, h) = ih false in (opening c ∷ t ∷ o, rw (k, h))
  Accepts-other t ts (c ∷ stack) false comma k p ih = let (o, h) = ih false in (t ∷ o, rw (k, h))
  Accepts-other t ts [] e plain k p ih = let (o, h) = ih e in (t ∷ o, rw (k, h))
  Accepts-other t ts (c ∷ stack) true plain k p ih =
      let (o, h) = ih false in (opening c ∷ t ∷ o, rw (k, h))
  Accepts-other t ts (c ∷ stack) false plain k p ih = let (o, h) = ih false in (t ∷ o, rw (k, h))

  Accepts-opens :
      (t : Token V) (ts : List (Token V)) (stack : List Bracket) (e : Bool) (b : Bracket)
      → role t ≡ opens b
      → Accepts (b ∷ stack) true ts
      → Accepts stack e (t ∷ ts)
  unfolding empty_loop empty_round
  Accepts-opens t ts stack true b k (o, h) = (insert_bracket stack ++ o, rw (k, h))
  Accepts-opens t ts stack false b k (o, h) = (o, rw (k, h))

  Accepts-closes :
      (t : Token V) (ts : List (Token V)) (stack : List Bracket) (e : Bool) (b : Bracket)
      → role t ≡ closes b
      → Accepts stack false ts
      → Accepts (b ∷ stack) e (t ∷ ts)
  unfolding empty_loop empty_round
  Accepts-closes t ts stack e b k (o, h) =
      ((if e then empty_pair b else t) ∷ o, rw (k, same_bracket_self b, h))

  Accepts-Balanced :
      {xs : List (Token V)} (stack : List Bracket) (ts : List (Token V)) (e : Bool)
      → Balanced xs
      → ((f : Bool) → Accepts stack f ts)
      → Accepts stack e (xs ++ ts)
  Accepts-Balanced stack ts e nothing k = k e
  Accepts-Balanced stack ts e (other {t} {ts = xs} p b) k =
      Accepts-other t (xs ++ ts) stack e (role t) refl p (λ f. Accepts-Balanced stack ts f b k)
  Accepts-Balanced stack ts e (pair {t} b u xs ys s p q x y) k = Accepts-opens t _ stack e b p (
      subst (Accepts (b ∷ stack) true) (sym (rw (s, append_assoc xs (u ∷ ys) ts))) (
        Accepts-Balanced (b ∷ stack) (u ∷ (ys ++ ts)) true x
          (λ f. Accepts-closes u (ys ++ ts) stack f b q (Accepts-Balanced stack ts false y k))))

  -- `process_empty_brackets` returns tokens exactly on the lines that hold a token and in which
  -- the brackets of the three kinds are balanced; on every other line it throws.
  pub process_empty_brackets-Balanced :
      (ts : List (Token V))
      → ((out : List (Token V)) × (process_empty_brackets ts ≡ ok out)) ↔ ((ts ≢ []) × Balanced ts)
  unfolding process_empty_brackets
  process_empty_brackets-Balanced [] = ((λ (out, h). absurd (cc h)), (λ (ne, b). absurd (ne refl)))
  process_empty_brackets-Balanced (t ∷ ts) = (
    (λ (out, h). ((λ e. cc e), Closes-Balanced (empty_loop-Closes (t ∷ ts) [] false out h))),
    (λ (ne, b).
        subst (Accepts [] false) (append-nil (t ∷ ts))
          (Accepts-Balanced [] [] false b (λ f. ([], refl)))),
  )
