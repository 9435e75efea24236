-- ===== src/Expression/Optimizer/Fold.antt =====
-- The folds of `opt_expr`, each once the operands have been optimised.
use covscript.Prelude.{
  Bool, true, false, not, ◌&&◌, ◌||◌, List, [], ◌∷◌, ◌++◌, Option, none, some, compile_error,
  if◌then◌else◌,
}
use covscript.Prelude.Names.{Bytes}
use covscript.Container.Tree.{empty_node}
use covscript.Statement.Outcome.{Outcome, returned, threw, and_next}
use covscript.Syntax.Signal.{Signal, dot_, choice_, fcall_}
use covscript.Syntax.Token.{
  Token, Expr, Exprs, leaf, null_node, token_node, id, value, arglist, signal,
}
use covscript.Expression.Eval.{Operators, parse_args, parse_expr}
use covscript.Expression.Optimizer.Operand.{
  OptmType, namespaces, Constants, attempt, optimizable, all_optimizable,
}

-- `reserve_left` and `reserve_right` of a conditional expression: the branch takes its place.
unfoldable pub reserve : {V S : Type 0} → Expr V → S → Outcome S (Expr V)
reserve leaf s = threw empty_node s
reserve e s = returned e s

module _ {V S : Type 0} (ops : Operators V S) (constants : Constants V S) where
  -- `it.data() = new_value(v)`
  unfoldable pub new_value : V → Expr V → Expr V → S → Outcome S (Expr V)
  new_value v l r s = returned (token_node (value v) l r) (constants.add_constant v s)

  -- A variable, or none that the optimiser knows.
  unfoldable pub fold_variable :
      OptmType → Option V → Bytes → Expr V → Expr V → S → Outcome S (Expr V)
  unfolding new_value
  fold_variable do_optm (some v) x l r s =
      if constants.is_protect v s && (namespaces do_optm || not (constants.is_definition v s))
      then new_value v l r s
      else returned (token_node (id x) l r) s
  fold_variable do_optm none x l r s = returned (token_node (id x) l r) s

  unfoldable pub fold_id : OptmType → Bytes → Expr V → Expr V → S → Outcome S (Expr V)
  unfolding fold_variable
  fold_id do_optm x l r s = fold_variable do_optm (constants.get_var_optimizable x s) x l r s

  -- The value of something that is evaluated now, in the place of a token.
  unfoldable pub fold_value : (S → Outcome S V) → Expr V → Expr V → Expr V → S → Outcome S (Expr V)
  unfolding attempt new_value
  fold_value run old l r s = attempt (run s) (λ v t. new_value v l r t) (λ t. returned old t)

  unfoldable pub reserve_branch : Option Bool → Expr V → S → Outcome S (Expr V)
  unfolding reserve
  reserve_branch (some true) (token_node t l r) s = reserve l s
  reserve_branch (some false) (token_node t l r) s = reserve r s
  reserve_branch (some b) e s = threw empty_node s
  reserve_branch none e s =
      threw
        (compile_error
          "Invalid conditional expression. The constant condition must evaluate to a boolean value.")
        s

  unfoldable pub fold_choice : Expr V → Expr V → S → Outcome S (Expr V)
  unfolding reserve_branch
  fold_choice (token_node (value v) a b) r s = reserve_branch (ops.as_boolean v s) r s
  fold_choice l r s = returned (token_node (signal choice_) l r) s

  -- `l` is the left operand from before it was optimised.
  unfoldable pub fold_dot : Expr V → Expr V → Expr V → Option (Token V) → S → Outcome S (Expr V)
  unfolding attempt new_value
  fold_dot l (token_node (value a) b c) r name s =
      attempt (ops.member dot_ a name s)
        (λ v t.
          if constants.is_protect v t
          then new_value v (token_node (value a) b c) r t
          else returned (token_node (signal dot_) (token_node (value a) b c) r) t)
        (λ t. returned (token_node (signal dot_) l r) t)
  fold_dot l (token_node t b c) r name s =
      returned (token_node (signal dot_) (token_node t b c) r) s
  fold_dot l (null_node b c) r name s =
      threw
        (compile_error
          "Invalid member access expression '.'. Left-hand side of '.' must be non-empty after expression optimization.")
        s
  fold_dot l leaf r name s = threw empty_node s

  -- The function that is called for a value, and its first arguments.
  unfoldable pub fold_target : V → Option (V × List V)
  fold_target a =
      if constants.is_request_fold a then some (a, []) else elim (constants.request_fold_of a) [
        | some (object, callable) ↦ some (callable, object ∷ [])
        | none ↦ none
      ]

  unfoldable pub fold_args :
      Option (V × List V) → Exprs V → Expr V → Expr V → S → Outcome S (Expr V)
  unfolding all_optimizable fold_value parse_args and_next
  fold_args none es l r s = returned (token_node (signal fcall_) l r) s
  fold_args (some (callable, first)) es l r s =
      if all_optimizable es
      then fold_value
          (λ t.
            and_next (parse_args ops (λ v u. returned (ops.lvalue v) u) es t)
              (λ args u. constants.call callable (first ++ args) u))
          (token_node (signal fcall_) l r) l r s
      else returned (token_node (signal fcall_) l r) s

  unfoldable pub fold_fcall : Expr V → Expr V → S → Outcome S (Expr V)
  unfolding fold_args fold_target
  fold_fcall (token_node (value a) b c) (token_node (arglist es) d e) s =
      fold_args (fold_target a) es (token_node (value a) b c) (token_node (arglist es) d e) s
  fold_fcall (token_node t b c) (token_node (arglist es) d e) s =
      returned (token_node (signal fcall_) (token_node t b c) (token_node (arglist es) d e)) s
  fold_fcall leaf r s = threw empty_node s
  fold_fcall l leaf s = threw empty_node s
  fold_fcall l r s =
      threw
        (compile_error
          "Invalid function call expression. Left-hand side must be a callable expression and right-hand side must be an argument list.")
        s

  -- An operator with both of its operands optimised: if they are constant, it is evaluated.
  unfoldable pub fold_signal : Signal → Expr V → Expr V → S → Outcome S (Expr V)
  unfolding optimizable fold_value parse_expr
  fold_signal g l r s =
      if optimizable l && optimizable r
      then fold_value (parse_expr ops (token_node (signal g) l r)) (token_node (signal g) l r) leaf
          leaf s
      else returned (token_node (signal g) l r) s
