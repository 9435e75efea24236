-- ===== src/Compiler/TokenBuff/Lines.antt =====
-- The lines that `process_token_buff` makes are statement lines.
use covscript.Prelude.{
  ℕ, Bool, true, false, not, ◌&&◌, and_split, and_both, List, [], ◌∷◌, ◌++◌, length, length-append,
  ltb, Bool-cases, inl, inr, ◌≡◌, refl, sym, subst, arith,
}
use covscript.Syntax.Token.{Token, endline}
use covscript.Compiler.Match.{Grammar}
use covscript.Compiler.TokenBuff.{
  to_endline, is_endline, is_boundary, match_expr, match_loop, push_line, line_loop,
  process_token_buff,
}

module _ {V : Type 0} where
  unfoldable pub no_endline : List (Token V) → Bool
  unfolding is_endline
  no_endline [] = true
  no_endline (t ∷ l) = not (is_endline t) && no_endline l

  -- At least one token, and then the only end of a line.
  pub record IsLine (l : List (Token V)) : Type 0 where
    first : Token V
    rest : List (Token V)
    line_num : ℕ
    inner : no_endline (first ∷ rest) ≡ true
    ended : l ≡ first ∷ rest ++ endline line_num ∷ []

  pub data AllLines : List (List (Token V)) → Type 0 where
    no_more : AllLines []
    one_more :
        (l : List (Token V)) (ls : List (List (Token V)))
        → IsLine l
        → AllLines ls
        → AllLines (l ∷ ls)

  append-AllLines :
      (ls : List (List (Token V))) (l : List (Token V))
      → AllLines ls
      → IsLine l
      → AllLines (ls ++ l ∷ [])
  append-AllLines _ l no_more h = one_more l [] h no_more
  append-AllLines _ l (one_more k ls k_line all) h =
      one_more k (ls ++ l ∷ []) k_line (append-AllLines ls l all h)

  more_than_one :
      (t : Token V) (tmp : List (Token V)) (n : ℕ)
      → ltb 1 (length (t ∷ tmp ++ endline n ∷ [])) ≡ true
  more_than_one t tmp n = ground (arith, length-append tmp (endline n ∷ []))

  -- A token that ends no line can join.
  no_endline-append :
      (tmp : List (Token V)) (t : Token V)
      → no_endline tmp ≡ true
      → is_endline t ≡ false
      → no_endline (tmp ++ t ∷ []) ≡ true
  unfolding no_endline
  no_endline-append [] t h g = rw g refl
  no_endline-append (u ∷ tmp) t h g =
      let parts = and_split (not (is_endline u)) (no_endline tmp) h in
      and_both parts.0 (no_endline-append tmp t parts.1 g)

  is_endline-endline : (t : Token V) → is_endline t ≡ true → (n : ℕ) × (t ≡ endline n)
  unfolding is_endline
  is_endline-endline (endline n) h = (n, refl)
  is_endline-endline t h = absurd (ground (arith, h))

  push_line-AllLines :
      (tmp : List (Token V)) (n : ℕ) (ast : List (List (Token V)))
      → no_endline tmp ≡ true
      → AllLines ast
      → AllLines (push_line (tmp ++ endline n ∷ []) ast)
  unfolding push_line
  push_line-AllLines [] n ast h all = all
  push_line-AllLines (t ∷ tmp) n ast h all = rw (more_than_one t tmp n) (
      append-AllLines ast (t ∷ tmp ++ endline n ∷ []) all
        (record { first = t; rest = tmp; line_num = n; inner = h; ended = refl }))

  -- An end of a line closes what is there.
  line_loop-AllLines :
      (tokens tmp : List (Token V)) (n : ℕ) (ast : List (List (Token V)))
      → no_endline tmp ≡ true
      → AllLines ast
      → AllLines (line_loop (tokens ++ endline n ∷ []) tmp ast)
  unfolding line_loop is_endline no_endline
  line_loop-AllLines [] tmp n ast h all = push_line-AllLines tmp n ast h all
  line_loop-AllLines (t ∷ tokens) tmp n ast h all = elim (Bool-cases (is_endline t)) [
    | inl ending ↦
        let end = is_endline-endline t ending in
        rw ending (
          line_loop-AllLines tokens [] n (push_line (tmp ++ t ∷ []) ast) refl (
            subst (λ u. AllLines (push_line (tmp ++ u ∷ []) ast)) (sym end.1)
              (push_line-AllLines tmp end.0 ast h all)))
    | inr inner ↦
        rw inner
          (line_loop-AllLines tokens (tmp ++ t ∷ []) n ast (no_endline-append tmp t h inner) all)
  ]

  match_loop-end :
      (m_data : List Grammar) (oldt : List (Token V × ℕ)) (t : Token V) (k : ℕ)
      (expr tokens : List (Token V))
      → is_endline (to_endline t k) ≡ true
      → (front : List (Token V)) × (n : ℕ) × (match_loop m_data (oldt ++ (t, k) ∷ []) expr tokens
          ≡ front ++ endline n ∷ [])
  unfolding match_loop
  match_loop-end m_data [] t k expr tokens h =
      let end = is_endline-endline (to_endline t k) h in
      (tokens ++ match_expr m_data expr, end.0, rw (end.1) refl)
  match_loop-end m_data ((u, j) ∷ oldt) t k expr tokens h =
      elim (Bool-cases (is_boundary (to_endline u j))) [
        | inl boundary ↦ rw boundary (
            match_loop-end m_data oldt t k []
              (tokens ++ match_expr m_data expr ++ to_endline u j ∷ []) h)
        | inr inner ↦
            rw inner (match_loop-end m_data oldt t k (expr ++ to_endline u j ∷ []) tokens h)
      ]

  -- From tokens whose last is an end of a line or ';', every line that is added is a statement line: one
  -- token or more, then an end of a line, which is the only one.
  pub process_token_buff-AllLines :
      (m_data : List Grammar) (oldt : List (Token V × ℕ)) (t : Token V) (k : ℕ)
      → is_endline (to_endline t k) ≡ true
      → AllLines (process_token_buff m_data (oldt ++ (t, k) ∷ []) [])
  unfolding process_token_buff no_endline
  process_token_buff-AllLines m_data oldt t k h =
      let end = match_loop-end m_data oldt t k [] [] h in
      rw end.2 (line_loop-AllLines end.0 [] end.1 [] refl no_more)
