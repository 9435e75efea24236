-- ===== src/Expression/Optimizer.antt =====
-- `opt_expr` of sources/compiler/compiler.cpp, which folds constants, with `optimizable` and
-- `optimize_expression` of include/covscript/impl/compiler.hpp. The pool
-- of constants is part of the state.
pub mod Operand
pub mod Fold
use covscript.Prelude.{
  ℕ, zero, suc, Bool, true, false, not, ◌&&◌, ◌||◌, List, [], ◌∷◌, ◌++◌, Option, none, some, String,
  Error, compile_error, if◌then◌else◌,
}
use covscript.Prelude.Names.{Bytes}
use covscript.Container.Tree.{empty_node}
use covscript.Statement.Outcome.{Outcome, returned, threw, stuck, and_next}
use covscript.Syntax.Signal.{
  Signal, add_, addasi_, sub_, subasi_, minus_, mul_, mulasi_, escape_, div_, divasi_, mod_,
  modasi_, pow_, powasi_, dot_, arrow_, new_, gcnew_, und_, abo_, asi_, lnkasi_, choice_, pair_,
  equ_, ueq_, aeq_, neq_, and_, or_, inc_, dec_, fcall_, access_,
}
use covscript.Syntax.Token.{
  Token, Expr, Exprs, leaf, null_node, token_node, no_exprs, one_expr, id, expand, value, literal,
  arglist, array, parallel, signal,
}
use covscript.Expression.Eval.{Operators, data_at, parse_args, parse_expr}
use covscript.Expression.Optimizer.Operand.{
  OptmType, normal, enable_namespace_optm, namespaces, Constants, Shape, make_new, make_gcnew,
  assign, conditional, pointed, dotted, called, two_operands, binary_operands, one_of_two,
  right_operand, any_operands, shape, writes, attempt, Children, optimizable, all_optimizable,
  is_some, is_id, is_pair, require_right, require_both, require_unary, require_one,
}
use covscript.Expression.Optimizer.Fold.{
  fold_id, fold_value, fold_choice, fold_dot, fold_fcall, fold_signal,
}

module _ {V S : Type 0} (ops : Operators V S) (constants : Constants V S) where
  unfoldable pub opt_operands : Signal → Expr V → Expr V → Children V S → S → Outcome S (Expr V)
  unfolding writes fold_signal and_next
  opt_operands g l r kids s =
      if writes g
      then returned (token_node (signal g) l r) s
      else (and_next (kids.left s)
          (λ l' t. and_next (kids.right t) (λ r' u. fold_signal ops constants g l' r' u)))

  unfoldable pub opt_choice : Expr V → Expr V → Children V S → S → Outcome S (Expr V)
  unfolding data_at fold_choice and_next
  opt_choice l r kids s = and_next (data_at l s) (λ a t.
      if not (is_some a)
      then threw
          (compile_error "Invalid conditional expression. Left-hand side of '?' must be non-empty.")
          t
      else (and_next (data_at r t) (λ b u.
          if is_pair b
          then (and_next (kids.left u)
              (λ l' v. and_next (kids.branches v) (λ r' w. fold_choice ops constants l' r' w)))
          else threw
              (compile_error
                "Invalid conditional expression. Conditional operator '?' must be followed by two sentences separated by ':'")
              u)))

  unfoldable pub opt_dot : Expr V → Expr V → Children V S → S → Outcome S (Expr V)
  unfolding data_at fold_dot and_next
  opt_dot l r kids s = and_next (data_at l s) (λ a t. and_next (data_at r t) (λ b u.
      if is_some a && is_id b
      then (and_next (kids.namespace_left u) (λ l' v. fold_dot ops constants l l' r b v))
      else threw
          (compile_error
            "Invalid member access expression '.'. Left-hand side of '.' must be non-empty and right-hand side of '.' must be an identifier.")
          u))

  unfoldable pub opt_arrow : Expr V → Expr V → Children V S → S → Outcome S (Expr V)
  unfolding data_at and_next
  opt_arrow l r kids s = and_next (data_at l s) (λ a t.
      if not (is_some a)
      then threw
          (compile_error
            "Invalid member access expression '->'. Left-hand side of '->' must be non-empty and right-hand side of '->' must be an identifier.")
          t
      else (and_next (data_at r t) (λ b u.
          if is_id b
          then (and_next (kids.left u) (λ l' v. returned (token_node (signal arrow_) l' r) v))
          else threw
              (compile_error
                "Invalid member access expression '->'. Left-hand side of '->' must be non-empty and right-hand side of '->' must be an identifier.")
              u)))

  unfoldable pub opt_shape :
      Shape → Signal → Expr V → Expr V → Children V S → S → Outcome S (Expr V)
  unfolding require_right require_both require_unary require_one opt_operands opt_choice opt_dot
      opt_arrow fold_fcall and_next
  opt_shape make_new g l r kids s =
      require_unary "Invalid 'new' expression. Left-hand side of 'new' must be empty."
        "Invalid 'new' expression. Right-hand side (operand) must be non-empty." l r
        (λ t. returned (token_node (signal g) l r) t) s
  opt_shape make_gcnew g l r kids s =
      require_unary "Invalid 'gcnew' expression. Left-hand side of 'gcnew' must be empty."
        "Invalid 'gcnew' expression. Right-hand side (operand) must be non-empty." l r
        (λ t. and_next (kids.right t) (λ r' u. returned (token_node (signal g) l r') u)) s
  opt_shape assign g l r kids s =
      require_both "Invalid '=' expression. Both sides of '=' must be non-empty." l r
        (λ t.
          and_next (kids.left t)
            (λ l' u. and_next (kids.right u) (λ r' v. returned (token_node (signal g) l' r') v)))
        s
  opt_shape conditional g l r kids s = opt_choice l r kids s
  opt_shape pointed g l r kids s = opt_arrow l r kids s
  opt_shape dotted g l r kids s = opt_dot l r kids s
  opt_shape called g l r kids s =
      and_next (kids.left s)
        (λ l' t. and_next (kids.right t) (λ r' u. fold_fcall ops constants l' r' u))
  opt_shape binary_operands g l r kids s =
      require_both "Invalid binary expression. Both operands must be non-empty." l r
        (opt_operands g l r kids) s
  opt_shape one_of_two g l r kids s = require_one l r (opt_operands g l r kids) s
  opt_shape right_operand g l r kids s =
      require_right "Invalid unary expression. Operand must be non-empty." r
        (opt_operands g l r kids) s
  opt_shape two_operands g l r kids s =
      require_both "Incomplete expression: both operands must be non-empty." l r
        (opt_operands g l r kids) s
  opt_shape any_operands g l r kids s = opt_operands g l r kids s

  -- The elements of an array, up to the first that is not constant.
  module _ (optimize_expression : OptmType → Expr V → S → Outcome S (Expr V)) where
    unfoldable pub opt_elements : OptmType → Exprs V → S → Outcome S (Exprs V)
    unfolding optimizable and_next
    opt_elements do_optm no_exprs s = returned no_exprs s
    opt_elements do_optm (one_expr (token_node (expand e) l r) es) s =
        and_next (optimize_expression do_optm e s) (λ e' t.
          let rest =
            and_next (opt_elements do_optm es t)
              (λ es' u. returned (one_expr (token_node (expand e') l r) es') u) in
          if optimizable e' then rest else returned (one_expr (token_node (expand e') l r) es) t)
    opt_elements do_optm (one_expr e es) s = and_next (optimize_expression do_optm e s) (λ e' t.
        let rest = and_next (opt_elements do_optm es t) (λ es' u. returned (one_expr e' es') u) in
        if optimizable e' then rest else returned (one_expr e' es) t)

    -- `add_constant` of each element.
    unfoldable pub add_constants : List V → S → S
    add_constants [] s = s
    add_constants (v ∷ vs) s = add_constants vs (constants.add_constant v s)

    unfoldable pub opt_array : OptmType → Exprs V → Expr V → Expr V → S → Outcome S (Expr V)
    unfolding all_optimizable add_constants opt_elements fold_value parse_args and_next
    opt_array do_optm es l r s = and_next (opt_elements do_optm es s) (λ es' t.
        if all_optimizable es'
        then fold_value ops constants
            (λ u.
              and_next (parse_args ops ops.copy es' u)
                (λ arr v. constants.make_array arr (add_constants arr v)))
            (token_node (array es') l r) l r t
        else returned (token_node (array es') l r) t)

    unfoldable pub opt_parallel : OptmType → Exprs V → S → Outcome S (Exprs V)
    unfolding and_next
    opt_parallel do_optm no_exprs s = returned no_exprs s
    opt_parallel do_optm (one_expr e es) s =
        and_next (optimize_expression do_optm e s)
          (λ e' t. and_next (opt_parallel do_optm es t) (λ es' u. returned (one_expr e' es') u))

    unfoldable mutual
      unfolding shape opt_shape fold_id fold_value opt_array opt_parallel and_next

      pub opt_expr : OptmType → Expr V → S → Outcome S (Expr V)
      opt_expr do_optm (token_node (id x) l r) s = fold_id ops constants do_optm x l r s
      opt_expr do_optm (token_node (literal text name) l r) s =
          fold_value ops constants (ops.get_string_literal text name)
            (token_node (literal text name) l r) l r s
      opt_expr do_optm (token_node (expand e) l r) s =
          and_next (opt_expr do_optm e s) (λ e' t. returned (token_node (expand e') l r) t)
      opt_expr do_optm (token_node (array es) l r) s = opt_array do_optm es l r s
      opt_expr do_optm (token_node (parallel es) l r) s =
          and_next (opt_parallel do_optm es s) (λ es' t. returned (token_node (parallel es') l r) t)
      opt_expr do_optm (token_node (signal g) l r) s =
          opt_shape (shape g) g l r
            (record {
              left = opt_expr do_optm l;
              namespace_left = opt_expr enable_namespace_optm l;
              right = opt_expr do_optm r;
              branches = opt_branches do_optm r;
            })
            s
      opt_expr do_optm e s = returned e s

      pub opt_branches : OptmType → Expr V → S → Outcome S (Expr V)
      opt_branches do_optm (token_node t l r) s =
          and_next (opt_expr do_optm l s)
            (λ l' u. and_next (opt_expr do_optm r u) (λ r' v. returned (token_node t l' r') v))
      opt_branches do_optm e s = returned e s

  -- The fuel bounds how deep arrays and parallel expressions nest. `trim_expr` is an argument, and
  -- `disable_optimizer` stands for both settings.
  unfoldable pub optimize_expression :
      (Expr V → S → Outcome S (Expr V)) → Bool → ℕ → OptmType → Expr V → S → Outcome S (Expr V)
  unfolding opt_expr and_next
  optimize_expression trim_expr disable_optimizer zero do_optm e s = stuck
  optimize_expression trim_expr disable_optimizer (suc fuel) do_optm e s =
      and_next (trim_expr e s) (λ e' t.
        if disable_optimizer
        then returned e' t
        else opt_expr (optimize_expression trim_expr disable_optimizer fuel) do_optm e' t)
