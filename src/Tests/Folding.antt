-- ===== src/Tests/Folding.antt =====
-- `x + (c ? 2 : 3)` for a constant `c` and a variable `x`. A value is a number, of which 1 is true and 0
-- false; the state is the value of `x`.
use covscript.Prelude.{
  if◌then◌else◌, ℕ, zero, suc, Bool, true, false, [], ◌∷◌, ◌+◌, Option, none, some, runtime_error,
  ◌≡◌, refl,
}
use covscript.Prelude.Names.{Bytes}
use covscript.Statement.Outcome.{Outcome, returned, threw}
use covscript.Syntax.Signal.{add_, choice_, pair_}
use covscript.Syntax.Token.{Expr, leaf, token_node, id, value, signal}
use covscript.Expression.Eval.{Operators}
use covscript.Expression.Optimizer.Operand.{Constants, normal}
use covscript.Expression.Optimizer.{opt_expr, optimize_expression}

abbrev truth : ℕ → Option Bool
truth zero = some false
truth (suc zero) = some true
truth v = none

abbrev variable : Bytes → ℕ → Outcome ℕ ℕ
variable [] s = returned 1 s
variable (b ∷ bs) s = returned s s

abbrev known : Bytes → Option ℕ
known [] = some 1
known (b ∷ bs) = none

abbrev ops : Operators ℕ ℕ
ops = record {
  none_value = 0;
  get_var = variable;
  get_string_literal = λ _ _ s. returned 0 s;
  get_function = λ _ s. returned 0 s;
  binary = λ _ a b s. returned (a + b) s;
  unary = λ _ b s. returned b s;
  member = λ _ _ _ s. threw (runtime_error "") s;
  as_boolean = λ v s. truth v;
  boolean = λ b s. returned (if b then 1 else 0) s;
  as_array = λ _ s. none;
  make_array = λ _ s. returned 0 s;
  copy = returned;
  lvalue = λ v. v;
  prep_call = λ _ s. returned [] s;
  fcall = λ _ _ s. threw (runtime_error "") s;
  link_id = λ _ v s. returned v s;
  link_dot = λ _ _ v s. returned v s;
  link_access = λ _ _ v s. returned v s;
}

abbrev constants : Constants ℕ ℕ
constants = record {
  get_var_optimizable = λ x _. known x;
  is_protect = λ _ _. true;
  is_definition = λ _ _. false;
  is_request_fold = λ _. false;
  request_fold_of = λ _. none;
  call = λ _ _ s. threw (runtime_error "") s;
  make_array = λ _ s. returned 0 s;
  add_constant = λ v s. s;
}

abbrev conditional : Expr ℕ
conditional = token_node (signal add_) (token_node (id (120 ∷ [])) leaf leaf) (
    token_node (signal choice_) (token_node (id []) leaf leaf)
      (token_node (signal pair_) (token_node (value 2) leaf leaf) (token_node (value 3) leaf leaf)))

abbrev folded : Expr ℕ
folded =
    token_node (signal add_) (token_node (id (120 ∷ [])) leaf leaf) (token_node (value 2) leaf leaf)

abbrev as_it_is : Expr ℕ → ℕ → Outcome ℕ (Expr ℕ)
as_it_is e s = returned e s

conditional-folded :
    opt_expr ops constants (optimize_expression ops constants as_it_is false 1) normal conditional 7
    ≡ returned folded 7
unfolding opt_expr optimize_expression
conditional-folded = refl
