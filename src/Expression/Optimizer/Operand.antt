-- ===== src/Expression/Optimizer/Operand.antt =====
-- What `opt_expr` asks of values and operands before it folds.
use covscript.Prelude.{
  Bool, true, false, not, ◌&&◌, ◌||◌, List, Option, none, some, String, compile_error,
  if◌then◌else◌,
}
use covscript.Prelude.Names.{Bytes}
use covscript.Statement.Outcome.{Outcome, returned, threw, stuck, and_next}
use covscript.Syntax.Signal.{
  Signal, add_, addasi_, sub_, subasi_, minus_, mul_, mulasi_, escape_, div_, divasi_, mod_,
  modasi_, pow_, powasi_, dot_, arrow_, new_, gcnew_, und_, abo_, asi_, lnkasi_, choice_, pair_,
  equ_, ueq_, aeq_, neq_, and_, or_, inc_, dec_, fcall_, access_,
}
use covscript.Syntax.Token.{
  Token, Expr, Exprs, null_node, token_node, no_exprs, one_expr, id, expand, value, signal,
}
use covscript.Expression.Eval.{data_at}

pub data OptmType : Type 0 where
  normal enable_namespace_optm : OptmType

abbrev pub namespaces : OptmType → Bool
namespaces normal = false
namespaces enable_namespace_optm = true

-- What the optimiser asks of the compilation's variables and of values: `is_definition` is a namespace of
-- the program, `is_request_fold` a function that may be called at compile time, `request_fold_of` the
-- function and the object of a method that may. `make_array` is `var::make<array>`; `add_constant` puts a
-- value into the pool and marks it as protected, and the compilation marks what is in the pool as constant.
pub record Constants (V S : Type 0) : Type 0 where
  pub get_var_optimizable : Bytes → S → Option V
  pub is_protect : V → S → Bool
  pub is_definition : V → S → Bool
  pub is_request_fold : V → Bool
  pub request_fold_of : V → Option (V × V)
  pub call : V → List V → S → Outcome S V
  pub make_array : List V → S → Outcome S V
  pub add_constant : V → S → S

-- The operators that `opt_expr` knows, by what it asks of their operands.
pub data Shape : Type 0 where
  make_new make_gcnew assign conditional pointed dotted called : Shape
  two_operands binary_operands one_of_two right_operand any_operands : Shape

unfoldable pub shape : Signal → Shape
shape new_ = make_new
shape gcnew_ = make_gcnew
shape asi_ = assign
shape choice_ = conditional
shape arrow_ = pointed
shape dot_ = dotted
shape fcall_ = called
shape sub_ = binary_operands
shape mul_ = binary_operands
shape inc_ = one_of_two
shape dec_ = one_of_two
shape minus_ = right_operand
shape escape_ = right_operand
shape add_ = two_operands
shape div_ = two_operands
shape mod_ = two_operands
shape pow_ = two_operands
shape abo_ = two_operands
shape und_ = two_operands
shape equ_ = two_operands
shape ueq_ = two_operands
shape aeq_ = two_operands
shape neq_ = two_operands
shape and_ = two_operands
shape or_ = two_operands
shape addasi_ = two_operands
shape subasi_ = two_operands
shape mulasi_ = two_operands
shape divasi_ = two_operands
shape modasi_ = two_operands
shape powasi_ = two_operands
shape lnkasi_ = two_operands
shape access_ = two_operands
shape pair_ = two_operands
shape g = any_operands

-- Operators with write semantics.
unfoldable pub writes : Signal → Bool
writes inc_ = true
writes dec_ = true
writes addasi_ = true
writes subasi_ = true
writes mulasi_ = true
writes divasi_ = true
writes modasi_ = true
writes powasi_ = true
writes lnkasi_ = true
writes g = false

-- A `try` that catches everything.
unfoldable pub attempt :
    {S A B : Type 0} → Outcome S A → (A → S → Outcome S B) → (S → Outcome S B) → Outcome S B
attempt (returned a s) next otherwise = next a s
attempt (threw e s) next otherwise = otherwise s
attempt stuck next otherwise = stuck

-- The optimised children of a node; `branches` are those of the right one.
pub record Children (V S : Type 0) : Type 0 where
  pub left : S → Outcome S (Expr V)
  pub namespace_left : S → Outcome S (Expr V)
  pub right : S → Outcome S (Expr V)
  pub branches : S → Outcome S (Expr V)

module _ {V : Type 0} where
  unfoldable pub optimizable : Expr V → Bool
  optimizable (null_node l r) = true
  optimizable (token_node (value v) l r) = true
  optimizable e = false

  unfoldable pub all_optimizable : Exprs V → Bool
  unfolding optimizable
  all_optimizable no_exprs = true
  all_optimizable (one_expr (token_node (expand e) l r) es) = optimizable e && all_optimizable es
  all_optimizable (one_expr e es) = optimizable e && all_optimizable es

  abbrev pub is_some : Option (Token V) → Bool
  is_some (some t) = true
  is_some none = false

  abbrev pub is_id : Option (Token V) → Bool
  is_id (some (id x)) = true
  is_id t = false

  abbrev pub is_pair : Option (Token V) → Bool
  is_pair (some (signal pair_)) = true
  is_pair t = false

unfoldable pub has_colon : {V : Type 0} → Expr V → Bool
has_colon (token_node t l r) = is_pair (some t)
has_colon e = false

module _ {V S : Type 0} where
  unfoldable pub require_right : String → Expr V → (S → Outcome S (Expr V)) → S → Outcome S (Expr V)
  unfolding data_at and_next
  require_right message r next s =
      and_next (data_at r s) (λ b t. if is_some b then next t else threw (compile_error message) t)

  unfoldable pub require_both :
      String → Expr V → Expr V → (S → Outcome S (Expr V)) → S → Outcome S (Expr V)
  unfolding data_at require_right and_next
  require_both message l r next s =
      and_next (data_at l s) (λ a t.
        if is_some a then require_right message r next t else threw (compile_error message) t)

  -- The left operand must be empty and the right one must not.
  unfoldable pub require_unary :
      String → String → Expr V → Expr V → (S → Outcome S (Expr V)) → S → Outcome S (Expr V)
  unfolding data_at require_right and_next
  require_unary no_left right_message l r next s = and_next (data_at l s) (λ a t.
      if is_some a then threw (compile_error no_left) t else require_right right_message r next t)

  unfoldable pub require_one : Expr V → Expr V → (S → Outcome S (Expr V)) → S → Outcome S (Expr V)
  unfolding data_at and_next
  require_one l r next s = and_next (data_at l s) (λ a t. and_next (data_at r t) (λ b u.
      if is_some a && is_some b || not (is_some a) && not (is_some b)
      then threw
          (compile_error
            "Invalid increment/decrement expression. Exactly one operand must be non-empty.")
          u
      else next u))
