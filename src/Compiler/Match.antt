-- ===== src/Compiler/Match.antt =====
-- `translator_type::match` of include/covscript/impl/compiler.hpp, with the grammars that
-- sources/covscript.cpp adds.
pub mod Unique
use covscript.Prelude.{
  ℕ, Bool, true, false, not, ◌&&◌, List, [], ◌∷◌, length, Result, ok, err, compile_error, leb, ◌==◌,
  if◌then◌else◌,
}
use covscript.Syntax.Signal.{
  Action, as_, block_, break_, case_, catch_, constant_, continue_, default_, do_, else_, endblock_,
  extends_, for_, foreach_, function_, if_, import_, in_, link_, loop_, namespace_, override_,
  package_, return_, struct_, switch_, throw_, try_, until_, using_, var_, while_,
}
use covscript.Syntax.Keyword.{same_action}
use covscript.Syntax.Token.{Token, action, expr, endline}
use covscript.Compiler.Method.{
  Method, method_expression, method_import, method_import_as, method_package, method_involve,
  method_var, method_link, method_constant, method_end, method_block, method_namespace, method_if,
  method_else, method_switch, method_case, method_default, method_while, method_until, method_loop,
  method_for, method_for_do, method_foreach, method_foreach_do, method_break, method_continue,
  method_function, method_return, method_return_no_value, method_struct, method_try, method_catch,
  method_throw,
}

-- A token of a grammar.
pub data Part : Type 0 where
  action_part : Action → Part
  expr_part : Part
  endline_part : Part

abbrev pub Grammar : Type 0
Grammar = List Part × Method

-- The calls of `add_method`.
abbrev pub grammars : List Grammar
grammars =
    (expr_part ∷ endline_part ∷ [], method_expression)
    ∷ (action_part import_ ∷ expr_part ∷ endline_part ∷ [], method_import)
    ∷ (
      action_part import_ ∷ expr_part ∷ action_part as_ ∷ expr_part ∷ endline_part ∷ [],
      method_import_as,
    )
    ∷ (action_part package_ ∷ expr_part ∷ endline_part ∷ [], method_package)
    ∷ (action_part using_ ∷ expr_part ∷ endline_part ∷ [], method_involve)
    ∷ (action_part var_ ∷ expr_part ∷ endline_part ∷ [], method_var)
    ∷ (action_part link_ ∷ expr_part ∷ endline_part ∷ [], method_link)
    ∷ (action_part constant_ ∷ expr_part ∷ endline_part ∷ [], method_constant)
    ∷ (action_part endblock_ ∷ endline_part ∷ [], method_end)
    ∷ (action_part block_ ∷ endline_part ∷ [], method_block)
    ∷ (action_part namespace_ ∷ expr_part ∷ endline_part ∷ [], method_namespace)
    ∷ (action_part if_ ∷ expr_part ∷ endline_part ∷ [], method_if)
    ∷ (action_part else_ ∷ endline_part ∷ [], method_else)
    ∷ (action_part switch_ ∷ expr_part ∷ endline_part ∷ [], method_switch)
    ∷ (action_part case_ ∷ expr_part ∷ endline_part ∷ [], method_case)
    ∷ (action_part default_ ∷ endline_part ∷ [], method_default)
    ∷ (action_part while_ ∷ expr_part ∷ endline_part ∷ [], method_while)
    ∷ (action_part until_ ∷ expr_part ∷ endline_part ∷ [], method_until)
    ∷ (action_part loop_ ∷ endline_part ∷ [], method_loop)
    ∷ (action_part for_ ∷ expr_part ∷ endline_part ∷ [], method_for)
    ∷ (
      action_part for_ ∷ expr_part ∷ action_part do_ ∷ expr_part ∷ endline_part ∷ [],
      method_for_do,
    )
    ∷ (
      action_part foreach_ ∷ expr_part ∷ action_part in_ ∷ expr_part ∷ endline_part ∷ [],
      method_foreach,
    )
    ∷ (
      action_part foreach_
          ∷ expr_part
          ∷ action_part in_
          ∷ expr_part
          ∷ action_part do_
          ∷ expr_part
          ∷ endline_part
          ∷ [],
      method_foreach_do,
    )
    ∷ (action_part break_ ∷ endline_part ∷ [], method_break)
    ∷ (action_part continue_ ∷ endline_part ∷ [], method_continue)
    ∷ (action_part function_ ∷ expr_part ∷ endline_part ∷ [], method_function)
    ∷ (
      action_part function_ ∷ expr_part ∷ action_part override_ ∷ endline_part ∷ [],
      method_function,
    )
    ∷ (action_part return_ ∷ expr_part ∷ endline_part ∷ [], method_return)
    ∷ (action_part return_ ∷ endline_part ∷ [], method_return_no_value)
    ∷ (action_part struct_ ∷ expr_part ∷ endline_part ∷ [], method_struct)
    ∷ (
      action_part struct_ ∷ expr_part ∷ action_part extends_ ∷ expr_part ∷ endline_part ∷ [],
      method_struct,
    )
    ∷ (action_part try_ ∷ endline_part ∷ [], method_try)
    ∷ (action_part catch_ ∷ expr_part ∷ endline_part ∷ [], method_catch)
    ∷ (action_part throw_ ∷ expr_part ∷ endline_part ∷ [], method_throw)
    ∷ []

unfoldable pub select {ℓ} : {A : Type ℓ} → (A → Bool) → List A → List A
select keep [] = []
select keep (x ∷ xs) = let rest = select keep xs in if keep x then x ∷ rest else rest

module _ {V : Type 0} where
  unfoldable pub compare : Part → Token V → Bool
  unfolding same_action
  compare (action_part a) (action b) = same_action a b
  compare expr_part (expr e) = true
  compare endline_part (endline n) = true
  compare _ _ = false

  -- The first tokens.
  unfoldable pub front_matches : List (Token V) → Grammar → Bool
  unfolding compare
  front_matches (t ∷ raw) (p ∷ ps, m) = compare p t
  front_matches _ _ = false

  -- All but the last of two lists of the same length.
  unfoldable pub inner_match : List (Token V) → List Part → Bool
  unfolding compare
  inner_match (t ∷ u ∷ raw) (p ∷ ps) = compare p t && inner_match (u ∷ raw) ps
  inner_match _ _ = true

  unfoldable pub middle_matches : List (Token V) → Grammar → Bool
  unfolding inner_match
  middle_matches (t ∷ raw) (p ∷ ps, m) = inner_match raw ps
  middle_matches _ _ = true

  unfoldable pub match : List Grammar → List (Token V) → Result Method
  unfolding select front_matches middle_matches
  match m_data raw =
      let fronts = select (front_matches raw) m_data in
      let sized = select (λ g. length g.0 == length raw) fronts in
      let stack = select (middle_matches raw) sized in
      if leb (length raw) 1
      then err (compile_error "Empty input when matching grammar.")
      else elim stack [
        | [] ↦ err (compile_error "Unknown grammar.")
        | g ∷ more ↦ elim more [ [] ↦ ok g.1 | _ ∷ _ ↦ err (compile_error "Ambiguous grammar.") ]
      ]
