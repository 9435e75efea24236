-- ===== src/Expression/Eval.antt =====
-- `parse_expr` of sources/instance/runtime.cpp. A value of type `V` is a `var`: a reference to what it holds,
-- with its marks of protection and of being movable; one of type `S` is all that an operator may read or
-- change, what the references stand for included. So what makes or reads a `var` takes the state. Of two operands
-- the left one is evaluated first; C++ leaves the order open.
use covscript.Prelude.{
  ℕ, zero, suc, Bool, true, false, List, [], ◌∷◌, ◌++◌, length, Option, none, some, runtime_error,
  internal_error, ◌==◌, if◌then◌else◌,
}
use covscript.Prelude.Names.{Bytes}
use covscript.Container.Tree.{empty_node}
use covscript.Statement.Outcome.{Outcome, returned, threw, and_next}
use covscript.Syntax.Signal.{
  Signal, add_, addasi_, sub_, subasi_, minus_, mul_, mulasi_, escape_, div_, divasi_, mod_,
  modasi_, pow_, powasi_, dot_, arrow_, typeid_, new_, gcnew_, und_, abo_, asi_, lnkasi_, bind_,
  choice_, pair_, equ_, ueq_, aeq_, neq_, and_, or_, not_, inc_, dec_, addr_, fcall_, access_,
}
use covscript.Syntax.Token.{
  Token, Expr, Exprs, leaf, null_node, token_node, no_exprs, one_expr, id, vargs, expand, value,
  lambda, literal, expr, arglist, array, parallel, signal,
}

-- The operators on values, and the tables that expressions read.
pub record Operators (V S : Type 0) : Type 0 where
  pub none_value : V
  pub get_var : Bytes → S → Outcome S V
  pub get_string_literal : Bytes → Bytes → S → Outcome S V
  pub get_function : ℕ → S → Outcome S V
  pub binary : Signal → V → V → S → Outcome S V
  pub unary : Signal → V → S → Outcome S V
  pub member : Signal → V → Option (Token V) → S → Outcome S V
  pub as_boolean : V → S → Option Bool
  pub boolean : Bool → S → Outcome S V
  pub as_array : V → S → Option (List V)
  pub make_array : List V → S → Outcome S V
  pub copy : V → S → Outcome S V
  pub lvalue : V → V
  pub prep_call : V → S → Outcome S (List V)
  pub fcall : V → List V → S → Outcome S V
  pub link_id : Bytes → V → S → Outcome S V
  pub link_dot : V → Option (Token V) → V → S → Outcome S V
  pub link_access : V → V → V → S → Outcome S V

-- How an operator reads its operands.
pub data Reads : Type 0 where
  both right_only neither : Reads

unfoldable pub reads : Signal → Reads
reads add_ = both
reads addasi_ = both
reads sub_ = both
reads subasi_ = both
reads minus_ = right_only
reads mul_ = both
reads mulasi_ = both
reads escape_ = right_only
reads div_ = both
reads divasi_ = both
reads mod_ = both
reads modasi_ = both
reads pow_ = both
reads powasi_ = both
reads typeid_ = right_only
reads new_ = right_only
reads gcnew_ = right_only
reads und_ = both
reads abo_ = both
reads asi_ = both
reads pair_ = both
reads equ_ = both
reads ueq_ = both
reads aeq_ = both
reads neq_ = both
reads not_ = right_only
reads inc_ = both
reads dec_ = both
reads addr_ = right_only
reads access_ = both
reads g = neither

-- `const_val`, where the value is of the type that is asked for.
unfoldable pub const_val : {S A : Type 0} → Option A → S → Outcome S A
const_val (some a) s = returned a s
const_val none s = threw (runtime_error "Instance the wrong type of object") s

-- Each value is kept in turn.
unfoldable pub keep_each : {V S : Type 0} → (V → S → Outcome S V) → List V → S → Outcome S (List V)
unfolding and_next
keep_each keep [] s = returned [] s
keep_each keep (v ∷ vs) s =
    and_next (keep v s)
      (λ kept t. and_next (keep_each keep vs t) (λ rest u. returned (kept ∷ rest) u))

-- What an operator may do with its operands.
pub record Operands (V S : Type 0) : Type 0 where
  pub left : S → Outcome S V
  pub right : S → Outcome S V
  pub right_token : S → Outcome S (Option (Token V))
  pub link : V → S → Outcome S V
  pub bind : V → S → Outcome S V
  pub branch : Bool → S → Outcome S V
  pub args : S → Outcome S (List V)

unfoldable pub count : {V : Type 0} → Exprs V → ℕ
count no_exprs = zero
count (one_expr e es) = suc (count es)

module _ {V S : Type 0} where
  -- `it.data()`; a missing node has none.
  unfoldable pub data_at : Expr V → S → Outcome S (Option (Token V))
  data_at leaf s = threw empty_node s
  data_at (null_node l r) s = returned none s
  data_at (token_node t l r) s = returned (some t) s

  module _ (ops : Operators V S) where
    unfoldable pub parse_operands : Reads → Signal → Operands V S → S → Outcome S V
    unfolding and_next
    parse_operands both g x s =
        and_next (x.left s) (λ a t. and_next (x.right t) (λ b u. ops.binary g a b u))
    parse_operands right_only g x s = and_next (x.right s) (λ b t. ops.unary g b t)
    parse_operands neither g x s = threw (internal_error "Unrecognized expression") s

    unfoldable pub parse_choice : (Bool → S → Outcome S V) → V → S → Outcome S V
    parse_choice branch a s = elim (ops.as_boolean a s) [
      | some b ↦ branch b s
      | none ↦ threw (runtime_error "The conditional operator requires a boolean condition") s
    ]

    unfoldable pub parse_fcall : (S → Outcome S (List V)) → V → S → Outcome S V
    unfolding and_next
    parse_fcall get_args a s =
        and_next (ops.prep_call a s)
          (λ first t. and_next (get_args t) (λ args u. ops.fcall a (first ++ args) u))

    -- The targets of a binding, as many as given, for the elements of an array.
    unfoldable pub parse_bind : ℕ → (List V → S → Outcome S V) → V → S → Outcome S V
    unfolding and_next
    parse_bind size each b s = elim (ops.as_array b s) [
      | some vs ↦
          let bound = and_next (each vs s) (λ _ t. returned b t) in
          if size == length vs
          then bound
          else threw
              (runtime_error
                "Structured binding mismatch: the number of variables does not match the number of array elements")
              s
      | none ↦ threw (runtime_error "Structured binding requires an array on the right-hand side") s
    ]

    unfoldable pub parse_signal : Signal → Operands V S → S → Outcome S V
    unfolding parse_operands parse_choice parse_fcall const_val and_next reads
    parse_signal dot_ x s =
        and_next (x.left s) (λ a t. and_next (x.right_token t) (λ b u. ops.member dot_ a b u))
    parse_signal arrow_ x s =
        and_next (x.left s) (λ a t. and_next (x.right_token t) (λ b u. ops.member arrow_ a b u))
    parse_signal lnkasi_ x s = and_next (x.right s) (λ b t. x.link b t)
    parse_signal bind_ x s = and_next (x.right s) (λ b t. x.bind b t)
    parse_signal choice_ x s = and_next (x.left s) (λ a t. parse_choice x.branch a t)
    parse_signal fcall_ x s = and_next (x.left s) (λ a t. parse_fcall x.args a t)
    parse_signal and_ x s = and_next (x.left s) (λ a t.
        and_next (const_val (ops.as_boolean a t) t) (λ p u.
          let rest =
            and_next (x.right u)
              (λ b v. and_next (const_val (ops.as_boolean b v) v) (λ q w. ops.boolean q w)) in
          if p then rest else ops.boolean false u))
    parse_signal or_ x s = and_next (x.left s) (λ a t.
        and_next (const_val (ops.as_boolean a t) t) (λ p u.
          let rest =
            and_next (x.right u)
              (λ b v. and_next (const_val (ops.as_boolean b v) v) (λ q w. ops.boolean q w)) in
          if p then ops.boolean true u else rest))
    parse_signal g x s = parse_operands (reads g) g x s

    unfoldable mutual
      unfolding count data_at const_val keep_each parse_bind parse_signal and_next

      pub parse_expr : Expr V → S → Outcome S V
      parse_expr leaf s = threw (internal_error "The expression tree is not available") s
      parse_expr (null_node l r) s = returned ops.none_value s
      parse_expr (token_node (vargs x) l r) s =
          threw (runtime_error "Invalid variadic argument declaration") s
      parse_expr (token_node (expand e) l r) s =
          threw (runtime_error "Invalid argument expansion position") s
      parse_expr (token_node (id x) l r) s = ops.get_var x s
      parse_expr (token_node (literal text name) l r) s = ops.get_string_literal text name s
      parse_expr (token_node (value v) l r) s = returned v s
      parse_expr (token_node (lambda index) l r) s = ops.get_function index s
      parse_expr (token_node (expr e) l r) s = parse_expr e s
      parse_expr (token_node (array es) l r) s =
          and_next (parse_args ops.copy es s) (λ arr t. ops.make_array arr t)
      parse_expr (token_node (parallel es) l r) s = parse_parallel ops.none_value es s
      parse_expr (token_node (signal g) l r) s =
          parse_signal g
            (record {
              left = parse_expr l;
              right = parse_expr r;
              right_token = data_at r;
              link = parse_lnkasi l;
              bind = parse_targets l;
              branch = parse_branch r;
              args = parse_arglist r;
            })
            s
      parse_expr (token_node t l r) s = threw (internal_error "Unrecognized expression") s

      -- The values of a list, with those of an expansion in its place.
      pub parse_args : (V → S → Outcome S V) → Exprs V → S → Outcome S (List V)
      parse_args keep no_exprs s = returned [] s
      parse_args keep (one_expr (token_node (expand e) l r) es) s =
          and_next (parse_expr e s) (λ v t. and_next (const_val (ops.as_array v t) t) (λ vs u.
            and_next (keep_each keep vs u)
              (λ kept w. and_next (parse_args keep es w) (λ rest x. returned (kept ++ rest) x))))
      parse_args keep (one_expr e es) s = and_next (parse_expr e s) (λ v t.
          and_next (keep v t)
            (λ kept u. and_next (parse_args keep es u) (λ rest w. returned (kept ∷ rest) w)))

      pub parse_parallel : V → Exprs V → S → Outcome S V
      parse_parallel result no_exprs s = returned result s
      parse_parallel result (one_expr e es) s =
          and_next (parse_expr e s) (λ v t. parse_parallel v es t)

      pub parse_arglist : Expr V → S → Outcome S (List V)
      parse_arglist (token_node (arglist es) l r) s =
          parse_args (λ v t. returned (ops.lvalue v) t) es s
      parse_arglist e s = threw (internal_error "Not a list of arguments") s

      -- The operand behind a colon.
      pub parse_branch : Expr V → Bool → S → Outcome S V
      parse_branch (token_node t l r) true s = parse_expr l s
      parse_branch (token_node t l r) false s = parse_expr r s
      parse_branch (null_node l r) true s = parse_expr l s
      parse_branch (null_node l r) false s = parse_expr r s
      parse_branch leaf b s = threw empty_node s

      -- The target of a link.
      pub parse_lnkasi : Expr V → V → S → Outcome S V
      parse_lnkasi (token_node (id x) l r) b s = ops.link_id x b s
      parse_lnkasi (token_node (signal dot_) l r) b s =
          and_next (parse_expr l s)
            (λ a t. and_next (data_at r t) (λ name u. ops.link_dot a name b u))
      parse_lnkasi (token_node (signal access_) l r) b s =
          and_next (parse_expr l s)
            (λ a t. and_next (parse_expr r t) (λ i u. ops.link_access a i b u))
      parse_lnkasi e b s =
          threw (runtime_error "Invalid left operand in link assignment expression") s

      pub parse_targets : Expr V → V → S → Outcome S V
      parse_targets (token_node (parallel es) l r) b s = parse_bind (count es) (bind_each es) b s
      parse_targets e b s = threw (internal_error "Not a list of expressions") s

      pub bind_each : Exprs V → List V → S → Outcome S V
      bind_each (one_expr (token_node (parallel ps) l r) es) (v ∷ vs) s =
          and_next (parse_bind (count ps) (bind_each ps) v s) (λ _ t. bind_each es vs t)
      bind_each (one_expr leaf es) (v ∷ vs) s =
          threw (runtime_error "Invalid structured binding: empty binding target") s
      bind_each (one_expr (null_node l r) es) (v ∷ vs) s =
          threw (runtime_error "Invalid structured binding: empty binding target") s
      bind_each (one_expr e es) (v ∷ vs) s =
          and_next (parse_expr e s)
            (λ a t. and_next (ops.binary asi_ a v t) (λ _ u. bind_each es vs u))
      bind_each es vs s = returned ops.none_value s
