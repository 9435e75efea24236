-- ===== src/Tests/Running.antt =====
-- A loop that is left by a `break` in a block: `while c < 3 { step; if c < 9 { break; } }`. The storage is
-- the number of its domains and a counter, which each expression advances.
use covscript.Prelude.{
  out_of_range, [], ◌∷◌, ℕ, ◌+◌, zero, suc, Bool, true, false, ok, ok-injective, none, some, ltb,
  ◌≡◌, refl, ap, sym,
}
use covscript.Statement.Outcome.{Outcome, returned, Leads}
use covscript.Statement.Run.{
  Statement, Block, return_statement, end_of_block, statement, expression, break_statement,
  if_statement, while_statement, Machine, RunEnv,
}
use covscript.Statement.Control.{run}
use covscript.Statement.Flow.{placed, placed_block, Counts, Calm, After}
use covscript.Statement.Flow.Placed.{run-After}
use covscript.Statement.Call.{CallEnv, call_rr, call_in, run_function}
use covscript.Statement.Call.Returns.{CallCounts, call_rr-Calm}

abbrev Storage : Type 0
Storage = ℕ × ℕ

abbrev advance : Storage → Outcome Storage Bool
advance s = returned true (s.0, suc s.1)

abbrev pop : ℕ → ℕ
pop zero = zero
pop (suc n) = n

abbrev toy : RunEnv ℕ Storage
toy = record {
  poll_current_process = λ s. returned true s;
  parse_expr = λ _ s. advance s;
  condition = λ e s. returned (ltb s.1 e) s;
  parse_define_var = λ _ s. advance s;
  find_case = λ e s. returned (some e) s;
  in_function = λ _. true;
  set_result = λ _ s. advance s;
  thrown_error = λ _ s. returned none s;
  bind_error = λ _ _ s. advance s;
  add_domain = λ s. ok (suc s.0, s.1);
  next_domain = λ s. s;
  clear_domain = λ s. s;
  remove_domain = λ s. (pop s.0, s.1);
}

abbrev domains : Storage → ℕ
domains s = s.0

toy_counts : Counts toy domains
unfolding Leads
toy_counts = record {
  of_poll = λ s. refl;
  of_expr = λ _ s. refl;
  of_condition = λ _ s. refl;
  of_define = λ _ s. refl;
  of_case = λ _ s. refl;
  of_result = λ _ s. refl;
  of_error = λ _ s. refl;
  of_bind = λ _ _ s. refl;
  of_add = λ s t added. ap (λ u. u.0) (sym (ok-injective (suc s.0, s.1) t added));
  of_next = λ s. refl;
  of_clear = λ s. refl;
  of_remove = λ s n same. ap pop same;
}

abbrev program : Statement ℕ
program = while_statement 3 (
    statement 1 (expression 0)
      (statement 2 (if_statement 9 (statement 3 break_statement end_of_block)) end_of_block))

abbrev start : Machine Storage
start = record { break_block = false; continue_block = false; return_fcall = false; store = (1, 0) }

program-placed : placed false program ≡ true
unfolding placed placed_block
program-placed = refl

program-leaves : run toy 9 program start ≡ returned true (record start { store = (1, 1) })
unfolding run
program-leaves = refl

run-After_example :
    Leads (λ _ t. After toy domains false 1 t) (Calm toy domains 1) (run toy 9 program start)
run-After_example =
    run-After toy domains toy_counts false 9 program 1 start program-placed (refl, refl)

-- A function of one parameter that runs the loop and returns the counter.
abbrev toy_calls : CallEnv Storage ℕ
toy_calls = record {
  push_result = λ s. s;
  pop_result = λ s. s;
  top = λ s. s.1;
  add_var_no_return = λ _ arg s. returned true (s.0, s.1 + arg);
  wrong_number = λ expected got. out_of_range;
}

toy_call_counts : CallCounts toy toy_calls domains
unfolding Leads
toy_call_counts = record { of_push = λ s. refl; of_pop = λ s. refl; of_var = λ name arg s. refl }

abbrev counting : Block ℕ
counting =
    statement 1 program (statement 5 (return_statement 0) (statement 6 (expression 0) end_of_block))

counting-placed : placed_block false counting ≡ true
unfolding placed placed_block
counting-placed = refl

call-returns :
    call_rr toy toy_calls (run toy 9) ("n" ∷ []) counting (1 ∷ []) start
    ≡ returned 3 (record start { store = (1, 3) })
unfolding call_rr call_in run_function run
call-returns = refl

call_rr-Calm_example :
    Leads
      (λ _ t. Calm toy domains 1 t)
      (Calm toy domains 1)
      (call_rr toy toy_calls (run toy 9) ("n" ∷ []) counting (1 ∷ []) start)
call_rr-Calm_example =
    call_rr-Calm toy toy_calls domains toy_counts toy_call_counts 9 ("n" ∷ []) counting (1 ∷ []) 1
      start counting-placed (refl, refl)
