-- ===== src/Parser/Kill.antt =====
-- `kill_brackets` and `kill_expr` of sources/compiler/parser.cpp: the brackets and the expressions of a line.
pub mod Statement
pub mod Plain
use covscript.Prelude.{
  ℕ, zero, suc, Bool, true, false, List, [], ◌∷◌, ◌++◌, Option, Result, ok, err, compile_error,
  out_of_fuel, ◌>>=◌, if◌then◌else◌,
}
use covscript.Container.Tree.{Tree}
use covscript.Syntax.Signal.{
  Action, import_, as_, var_, constant_, link_, for_, foreach_, struct_, function_, namespace_,
  catch_, Signal, vardef_, varchk_, varprt_, fcall_, access_, com_, arrow_, lambda_, esb_, emb_,
  elb_,
}
use covscript.Syntax.Token.{
  Token, endline, action, signal, id, value, sblist, mblist, lblist, expr, arglist, array, Exprs,
  no_exprs, one_expr, to_lists, of_lists, of_tree,
}

-- The five flags of `kill_brackets`.
pub record Flags : Type 0 where
  pub insert_vardef : Bool
  pub insert_varchk : Bool
  pub expected_fdef : Bool
  pub expected_fcall : Bool
  pub expected_lambda : Bool

abbrev pub no_flags : Flags
no_flags = record {
  insert_vardef = false;
  insert_varchk = false;
  expected_fdef = false;
  expected_fcall = false;
  expected_lambda = false;
}

module _ {V : Type 0} where
  unfoldable pub of_trees : List (Tree (Option (Token V))) → Exprs V
  of_trees [] = no_exprs
  of_trees (tree ∷ tlist) = one_expr (of_tree tree) (of_trees tlist)

  -- A function on every list of a bracket, in order.
  unfoldable pub for_each {ℓ} :
      {B : Type ℓ} → (List (Token V) → Result B) → List (List (Token V)) → Result (List B)
  for_each f [] = ok []
  for_each f (list ∷ lists) = f list >>= λ b. for_each f lists >>= λ bs. ok (b ∷ bs)

  -- The look-ahead of `import`.
  unfoldable pub found_as : List (Token V) → Bool
  found_as [] = false
  found_as (endline n ∷ oldt) = false
  found_as (action as_ ∷ oldt) = true
  found_as (t ∷ oldt) = found_as oldt

  -- What an action lets stand behind it, and the flags.
  unfoldable pub kill_action : Action → List (Token V) → Flags → Flags × List (Token V)
  unfolding found_as
  kill_action import_ oldt s =
      if found_as oldt
      then (s, action import_ ∷ [])
      else (record s { insert_vardef = true }, action import_ ∷ signal vardef_ ∷ [])
  kill_action as_ oldt s = (s, action as_ ∷ signal vardef_ ∷ [])
  kill_action var_ oldt s = (record s { insert_varchk = true }, action var_ ∷ signal varchk_ ∷ [])
  kill_action constant_ oldt s =
      (record s { insert_varchk = true }, action constant_ ∷ signal varchk_ ∷ [])
  kill_action link_ oldt s = (record s { insert_varchk = true }, action link_ ∷ signal varchk_ ∷ [])
  kill_action for_ oldt s = (s, action for_ ∷ signal varprt_ ∷ [])
  kill_action foreach_ oldt s = (s, action foreach_ ∷ signal varprt_ ∷ [])
  kill_action struct_ oldt s = (s, action struct_ ∷ signal vardef_ ∷ [])
  kill_action function_ oldt s =
      (record s { expected_fdef = true }, action function_ ∷ signal vardef_ ∷ [])
  kill_action namespace_ oldt s = (s, action namespace_ ∷ signal vardef_ ∷ [])
  kill_action catch_ oldt s = (s, action catch_ ∷ signal vardef_ ∷ [])
  kill_action a oldt s = (s, action a ∷ [])

  -- A call, unless a lambda's parameters are meant.
  unfoldable pub call : Flags → Exprs V → List (Token V)
  call s tlist =
      if s.expected_lambda then arglist tlist ∷ [] else signal fcall_ ∷ arglist tlist ∷ []

  -- A signal that ends what was expected.
  abbrev pub plain_signal : Signal → Flags → Result (Flags × List (Token V))
  plain_signal sig s =
      ok (record s { expected_lambda = false; expected_fcall = false }, signal sig ∷ [])

  unfoldable pub kill_signal : Signal → Flags → Result (Flags × List (Token V))
  unfolding call
  kill_signal com_ s =
      if s.insert_vardef
      then ok (s, signal com_ ∷ signal vardef_ ∷ [])
      else if s.insert_varchk
      then ok (s, signal com_ ∷ signal varchk_ ∷ [])
      else plain_signal com_ s
  kill_signal arrow_ s =
      if s.expected_lambda
      then ok (record s { expected_lambda = false; expected_fcall = false }, signal lambda_ ∷ [])
      else plain_signal arrow_ s
  kill_signal esb_ s =
      if s.expected_fcall
      then ok (record s { expected_fcall = false }, call s no_exprs)
      else err (compile_error "Standalone empty parentheses '()' are not allowed here")
  kill_signal emb_ s =
      ok (record s { expected_fcall = true; expected_lambda = true }, signal emb_ ∷ [])
  kill_signal elb_ s = ok (record s { expected_fcall = false }, array no_exprs ∷ [])
  kill_signal sig s = plain_signal sig s

  -- An action or the end of a line.
  unfoldable pub ends_expr : Token V → Bool
  ends_expr (action a) = true
  ends_expr (endline n) = true
  ends_expr _ = false

  -- `gen_tree`, told whether `no_optimize` is set. It is set while the arguments of a function's
  -- definition are turned into trees, and at no other time.
  module _ (gen_tree : Bool → List (Token V) → Result (Tree (Option (Token V)))) where
    module _ (kill : List (Token V) → Result (List (Token V))) where
      -- Parentheses: arguments, or a bracketed operand.
      unfoldable pub kill_sblist : List (List (Token V)) → Flags → Result (Flags × List (Token V))
      unfolding for_each of_trees call
      kill_sblist lists s = for_each kill lists >>= λ killed.
          if s.expected_fcall
          then (for_each (gen_tree s.expected_fdef) killed >>= λ tlist.
              ok (record s { expected_fdef = false }, call s (of_trees tlist)))
          else ok (record s { expected_fcall = true }, sblist (of_lists killed) ∷ [])

      unfoldable pub kill_mblist : List (List (Token V)) → Flags → Result (Flags × List (Token V))
      kill_mblist (list ∷ []) s = kill list >>= λ killed. gen_tree false killed >>= λ tree.
          ok (record s { expected_fcall = true }, signal access_ ∷ expr (of_tree tree) ∷ [])
      kill_mblist lists s =
          err
            (compile_error "Invalid index expression: expected exactly one element inside '[...]'")

      unfoldable pub kill_lblist : List (List (Token V)) → Flags → Result (Flags × List (Token V))
      unfolding for_each of_trees
      kill_lblist lists s = for_each kill lists >>= λ killed.
          for_each (gen_tree false) killed >>= λ tlist.
          ok (record s { expected_fcall = false }, array (of_trees tlist) ∷ [])

      -- A token, with those behind it: the flags, and the tokens that are pushed.
      unfoldable pub kill_token : Token V → List (Token V) → Flags → Result (Flags × List (Token V))
      unfolding kill_action kill_signal kill_sblist kill_mblist kill_lblist to_lists
      kill_token (action a) oldt s = ok (kill_action a oldt (record s { expected_fcall = false }))
      kill_token (id name) oldt s = ok (record s { expected_fcall = true }, id name ∷ [])
      kill_token (value v) oldt s = ok (record s { expected_fcall = false }, value v ∷ [])
      kill_token (sblist lists) oldt s = kill_sblist (to_lists lists) s
      kill_token (mblist lists) oldt s = kill_mblist (to_lists lists) s
      kill_token (lblist lists) oldt s = kill_lblist (to_lists lists) s
      kill_token (signal sig) oldt s = kill_signal sig s
      kill_token t oldt s = ok (s, t ∷ [])

      unfoldable pub kill_loop : List (Token V) → Flags → Result (List (Token V))
      unfolding kill_token
      kill_loop [] s = ok []
      kill_loop (t ∷ oldt) s =
          kill_token t oldt s >>= λ (s', pushed). kill_loop oldt s' >>= λ rest. ok (pushed ++ rest)

    -- The fuel bounds how deep brackets nest.
    unfoldable pub kill_brackets : ℕ → List (Token V) → Result (List (Token V))
    unfolding kill_loop
    kill_brackets zero tokens = err out_of_fuel
    kill_brackets (suc fuel) tokens = kill_loop (kill_brackets fuel) tokens no_flags

    -- The tokens since the last boundary, as one expression.
    unfoldable pub make_expr : List (Token V) → Result (List (Token V))
    make_expr [] = ok []
    make_expr (t ∷ tokens) = gen_tree false (t ∷ tokens) >>= λ tree. ok (expr (of_tree tree) ∷ [])

    unfoldable pub kill_expr_from : List (Token V) → List (Token V) → Result (List (Token V))
    unfolding make_expr ends_expr
    kill_expr_from [] tokens = ok []
    kill_expr_from (ptr ∷ oldt) tokens =
        let made =
          (make_expr tokens >>= λ pushed.
          kill_expr_from oldt [] >>= λ rest. ok (pushed ++ ptr ∷ rest)) in
        let longer = kill_expr_from oldt (tokens ++ ptr ∷ []) in
        if ends_expr ptr then made else longer

    unfoldable pub kill_expr : List (Token V) → Result (List (Token V))
    unfolding kill_expr_from
    kill_expr tokens = kill_expr_from tokens []
