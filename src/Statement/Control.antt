-- ===== src/Statement/Control.antt =====
-- `run_impl` of each statement.
use covscript.Prelude.{
  ℕ, zero, suc, Bool, true, Option, none, some, String, runtime_error, lang_error, if◌then◌else◌,
}
use covscript.Statement.Outcome.{Outcome, returned, threw, stuck, and_next}
use covscript.Statement.Run.{
  Statement, Block, expression, break_statement, continue_statement, block_statement, if_statement,
  ifelse_statement, switch_statement, while_statement, loop_statement, loop_until_statement,
  for_statement, return_statement, try_statement, throw_statement, Machine, RunEnv, on_store,
  clear_flags, scoped, run_block, while_round, loop_round, loop_until_round, for_round, run_try,
  run_case,
}

module _ {E S : Type 0} (env : RunEnv E S) where
  -- The rounds of a loop.
  unfoldable pub repeat :
      ℕ → (Machine S → Outcome (Machine S) Bool) → Machine S → Outcome (Machine S) Bool
  unfolding and_next
  repeat zero round m = stuck
  repeat (suc fuel) round m =
      and_next (round m)
        (λ leaves t. let again = repeat fuel round t in if leaves then returned true t else again)

  unfoldable pub run_return : E → Machine S → Outcome (Machine S) Bool
  unfolding on_store and_next
  run_return tree m =
      if env.in_function m.store
      then and_next (on_store (env.set_result tree) m)
          (λ _ t. returned true (record t { return_fcall = true }))
      else threw (runtime_error "'return' used outside of a function") m

  unfoldable pub throw_what : Option String → Machine S → Outcome (Machine S) Bool
  throw_what (some message) t = threw (lang_error message) t
  throw_what none t =
      threw
        (runtime_error "Only 'error' objects can be thrown, but got an object of a different type")
        t

  unfoldable pub run_throw : E → Machine S → Outcome (Machine S) Bool
  unfolding on_store throw_what and_next
  run_throw tree m = and_next (on_store (env.thrown_error tree) m) throw_what

  module _ (run : Statement E → Machine S → Outcome (Machine S) Bool) where
    unfoldable pub run_if : E → Block E → Machine S → Outcome (Machine S) Bool
    unfolding on_store scoped run_block and_next
    run_if tree body m = and_next (on_store (env.condition tree) m) (λ holds t.
        let inner = scoped env (run_block env run body) t in
        if holds then inner else returned true t)

    unfoldable pub run_ifelse : E → Block E → Block E → Machine S → Outcome (Machine S) Bool
    unfolding on_store scoped run_block and_next
    run_ifelse tree body else_body m =
        and_next (on_store (env.condition tree) m)
          (λ holds t. scoped env (run_block env run (if holds then body else else_body)) t)

    unfoldable pub run_switch : E → Block E → Block E → Machine S → Outcome (Machine S) Bool
    unfolding on_store run_case and_next
    run_switch tree cases otherwise m =
        and_next (on_store (env.find_case tree) m)
          (λ place t. run_case env run cases otherwise place t)

    unfoldable pub run_while : ℕ → E → Block E → Machine S → Outcome (Machine S) Bool
    unfolding scoped repeat while_round
    run_while fuel tree body m =
        scoped env (repeat fuel (while_round env run tree body)) (clear_flags m)

    unfoldable pub run_loop : ℕ → Block E → Machine S → Outcome (Machine S) Bool
    unfolding scoped repeat loop_round
    run_loop fuel body m = scoped env (repeat fuel (loop_round env run body)) (clear_flags m)

    unfoldable pub run_loop_until : ℕ → E → Block E → Machine S → Outcome (Machine S) Bool
    unfolding scoped repeat loop_until_round
    run_loop_until fuel tree body m =
        scoped env (repeat fuel (loop_until_round env run tree body)) (clear_flags m)

    unfoldable pub run_for : ℕ → E → E → E → Block E → Machine S → Outcome (Machine S) Bool
    unfolding on_store scoped repeat for_round and_next
    run_for fuel define test step body m =
        scoped env
          (λ t.
            and_next (on_store (env.parse_define_var define) t)
              (λ _ u. scoped env (repeat fuel (for_round env run test step body)) u))
          (clear_flags m)

  -- The fuel bounds the depth of statements, and the rounds of each loop.
  unfoldable pub run : ℕ → Statement E → Machine S → Outcome (Machine S) Bool
  unfolding on_store scoped run_block run_if run_ifelse run_switch run_while run_loop run_loop_until
      run_for run_try run_return run_throw
  run zero ptr m = stuck
  run (suc fuel) (expression tree) m = on_store (env.parse_expr tree) m
  run (suc fuel) break_statement m = returned true (record m { break_block = true })
  run (suc fuel) continue_statement m = returned true (record m { continue_block = true })
  run (suc fuel) (block_statement body) m = scoped env (run_block env (run fuel) body) m
  run (suc fuel) (if_statement tree body) m = run_if (run fuel) tree body m
  run (suc fuel) (ifelse_statement tree body else_body) m =
      run_ifelse (run fuel) tree body else_body m
  run (suc fuel) (switch_statement tree cases otherwise) m =
      run_switch (run fuel) tree cases otherwise m
  run (suc fuel) (while_statement tree body) m = run_while (run fuel) fuel tree body m
  run (suc fuel) (loop_statement body) m = run_loop (run fuel) fuel body m
  run (suc fuel) (loop_until_statement tree body) m = run_loop_until (run fuel) fuel tree body m
  run (suc fuel) (for_statement define test step body) m =
      run_for (run fuel) fuel define test step body m
  run (suc fuel) (return_statement tree) m = run_return tree m
  run (suc fuel) (try_statement body name handler) m =
      scoped env (run_try env (run fuel) name handler body) m
  run (suc fuel) (throw_statement tree) m = run_throw tree m
