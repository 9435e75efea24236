-- ===== src/Statement/Call.antt =====
-- Calls of the functions of a program: `run_body` and `call_rr` of sources/instance/statement.cpp.
pub mod Returns
use covscript.Prelude.{
  ℕ, zero, suc, Bool, true, false, ◌==◌, List, [], ◌∷◌, length, Option, none, some, String, Error,
  Result, ok, err, if◌then◌else◌,
}
use covscript.Statement.Outcome.{Outcome, returned, threw, stuck, and_next}
use covscript.Statement.Run.{
  Statement, Block, end_of_block, statement, Machine, RunEnv, on_store, run_located,
}

-- The stack of results, and the variables of a domain. `push_result` and `pop_result` are `fcall_guard` and
-- its destructor.
pub record CallEnv (S V : Type 0) : Type 0 where
  pub push_result : S → S
  pub pop_result : S → S
  pub top : S → V
  pub add_var_no_return : String → V → S → Outcome S Bool
  pub wrong_number : ℕ → ℕ → Error

module _ {E S V : Type 0} (env : RunEnv E S) (calls : CallEnv S V) where
  -- The arguments, as variables; there are as many as parameters.
  unfoldable pub add_args : List String → List V → S → Outcome S Bool
  unfolding and_next
  add_args (name ∷ names) (arg ∷ args) s =
      and_next (calls.add_var_no_return name arg s) (λ _ t. add_args names args t)
  add_args names args s = returned true s

  -- The way out of a call: on return the domain is removed before the result is taken and popped, on an
  -- exception after it.
  unfoldable pub leave_call : Outcome (Machine S) Bool → Outcome (Machine S) V
  leave_call (returned a m) =
      let left = env.remove_domain m.store in
      returned (calls.top left) (record m { store = calls.pop_result left })
  leave_call (threw e m) =
      threw e (record m { store = env.remove_domain (calls.pop_result m.store) })
  leave_call stuck = stuck

  module _ (run : Statement E → Machine S → Outcome (Machine S) Bool) where
    -- The statements of a function, until one returns.
    unfoldable pub run_function : Block E → Machine S → Outcome (Machine S) Bool
    unfolding run_located and_next
    run_function end_of_block m = returned true m
    run_function (statement line_num ptr body) m =
        and_next (run_located env run line_num ptr m) (λ _ t.
          let rest = run_function body t in
          if t.return_fcall then returned true (record t { return_fcall = false }) else rest)

    unfoldable pub call_in :
        Result S → List String → Block E → List V → Machine S → Outcome (Machine S) V
    unfolding leave_call on_store add_args run_function and_next
    call_in (ok s) names body args m = leave_call (
        and_next (on_store (add_args names args) (record m { store = calls.push_result s }))
          (λ _ t. run_function body t))
    call_in (err e) names body args m = threw e m

    unfoldable pub call_rr : List String → Block E → List V → Machine S → Outcome (Machine S) V
    unfolding on_store call_in and_next
    call_rr names body args m = and_next (on_store env.poll_current_process m) (λ _ t.
        let called = call_in (env.add_domain t.store) names body args t in
        if length args == length names
        then called
        else threw (calls.wrong_number (length names) (length args)) t)
