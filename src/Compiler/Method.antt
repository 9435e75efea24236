-- ===== src/Compiler/Method.antt =====
-- The statement methods of include/covscript/impl/codegen.hpp: their kinds and their targets.
use covscript.Prelude.{Bool, true, false}

-- `method_types`
pub data MethodType : Type 0 where
  null_method : MethodType
  single : MethodType
  block : MethodType
  jit_command : MethodType

-- `statement_types`
pub data StatementType : Type 0 where
  null_statement statement_expression statement_import statement_package : StatementType
  statement_involve statement_block statement_namespace statement_var : StatementType
  statement_link statement_constant statement_if statement_else : StatementType
  statement_switch statement_case statement_default statement_while : StatementType
  statement_until statement_loop statement_for statement_foreach : StatementType
  statement_break statement_continue statement_struct statement_function : StatementType
  statement_return statement_end statement_try statement_catch : StatementType
  statement_throw : StatementType

-- The classes derived from `method_base`.
pub data Method : Type 0 where
  method_expression method_import method_import_as method_package : Method
  method_involve method_var method_link method_constant : Method
  method_block method_namespace method_if method_else : Method
  method_switch method_case method_default method_while : Method
  method_until method_loop method_for method_for_do : Method
  method_foreach method_foreach_do method_break method_continue : Method
  method_function method_return method_return_no_value method_struct : Method
  method_try method_catch method_throw method_end : Method

unfoldable pub get_type : Method → MethodType
get_type method_expression = single
get_type method_import = single
get_type method_import_as = single
get_type method_package = jit_command
get_type method_involve = single
get_type method_var = single
get_type method_link = single
get_type method_constant = single
get_type method_block = block
get_type method_namespace = block
get_type method_if = block
get_type method_else = single
get_type method_switch = block
get_type method_case = block
get_type method_default = block
get_type method_while = block
get_type method_until = single
get_type method_loop = block
get_type method_for = block
get_type method_for_do = single
get_type method_foreach = block
get_type method_foreach_do = single
get_type method_break = single
get_type method_continue = single
get_type method_function = block
get_type method_return = single
get_type method_return_no_value = single
get_type method_struct = block
get_type method_try = block
get_type method_catch = single
get_type method_throw = single
get_type method_end = single

unfoldable pub get_target_type : Method → StatementType
get_target_type method_expression = statement_expression
get_target_type method_import = statement_import
get_target_type method_import_as = statement_import
get_target_type method_package = statement_package
get_target_type method_involve = statement_involve
get_target_type method_var = statement_var
get_target_type method_link = statement_link
get_target_type method_constant = statement_constant
get_target_type method_block = statement_block
get_target_type method_namespace = statement_namespace
get_target_type method_if = statement_if
get_target_type method_else = statement_else
get_target_type method_switch = statement_switch
get_target_type method_case = statement_case
get_target_type method_default = statement_default
get_target_type method_while = statement_while
get_target_type method_until = statement_end
get_target_type method_loop = statement_loop
get_target_type method_for = statement_for
get_target_type method_for_do = statement_for
get_target_type method_foreach = statement_foreach
get_target_type method_foreach_do = statement_foreach
get_target_type method_break = statement_break
get_target_type method_continue = statement_continue
get_target_type method_function = statement_function
get_target_type method_return = statement_return
get_target_type method_return_no_value = statement_return
get_target_type method_struct = statement_struct
get_target_type method_try = statement_try
get_target_type method_catch = statement_catch
get_target_type method_throw = statement_throw
get_target_type method_end = statement_end

-- The statements that `break` and `continue` belong to.
unfoldable pub is_loop_block : Method → Bool
unfolding get_target_type
is_loop_block m = elim (get_target_type m) [
  | statement_while ↦ true
  | statement_loop ↦ true
  | statement_for ↦ true
  | statement_foreach ↦ true
  | _ ↦ false
]

-- The test for a method that closes a block.
unfoldable pub is_end : Method → Bool
unfolding get_target_type
is_end m = elim (get_target_type m) [ statement_end ↦ true | _ ↦ false ]
