-- ===== src/Statement/Flow/Placed.antt =====
-- The flags and the depth of scopes after a whole statement.
use covscript.Prelude.{
  ℕ, zero, suc, Option, none, some, String, Bool, true, false, and_split, if◌then◌else◌, ◌≡◌, refl,
  arith,
}
use covscript.Statement.Outcome.{Outcome, returned, threw, stuck, Leads, Leads-next, Leads-if}
use covscript.Statement.Run.{
  Statement, Block, expression, break_statement, continue_statement, block_statement, if_statement,
  ifelse_statement, switch_statement, while_statement, loop_statement, loop_until_statement,
  for_statement, return_statement, try_statement, throw_statement, Machine, RunEnv, on_store,
  clear_flags, scoped, run_block,
}
use covscript.Statement.Control.{
  repeat, run_return, throw_what, run_throw, run_if, run_ifelse, run_switch, run_while, run_loop,
  run_loop_until, run_for, run,
}
use covscript.Statement.Flow.{
  placed, placed_block, Counts, Calm, After, Calm-After, After-inside, on_store-Calm, scoped-After,
}
use covscript.Statement.Flow.Branches.{run_try-After, run_case-After}
use covscript.Statement.Flow.Loops.{
  RoundEnd, repeat-After, run_block-After, while_round-After, loop_round-After,
  loop_until_round-After, for_round-After,
}

module _ {E S : Type 0} (env : RunEnv E S) (depth : S → ℕ) (counts : Counts env depth) where
  -- A result that keeps the flags as they were.
  unchanged :
      {A : Type 0} (inside : Bool) (d : ℕ) (m : Outcome (Machine S) A)
      → Leads (λ _ t. Calm env depth d t) (Calm env depth d) m
      → Leads (λ _ t. After env depth inside d t) (Calm env depth d) m
  unfolding Leads
  unchanged inside d (returned a t) h = Calm-After env depth inside d t h
  unchanged inside d (threw e t) h = h
  unchanged inside d stuck h = h

  loosen :
      {A : Type 0} (inside : Bool) (d : ℕ) (m : Outcome (Machine S) A)
      → Leads (λ _ t. After env depth false d t) (Calm env depth d) m
      → Leads (λ _ t. After env depth inside d t) (Calm env depth d) m
  unfolding Leads
  loosen inside d (returned a t) h = After-inside env depth inside d t h
  loosen inside d (threw e t) h = h
  loosen inside d stuck h = h

  -- A loop in its scope.
  loop_After :
      (inside : Bool) (fuel : ℕ) (round : Machine S → Outcome (Machine S) Bool) (d : ℕ)
      (m : Machine S)
      → ((n : ℕ) (t : Machine S)
          → Calm env depth n t
          → Leads (RoundEnd env depth counts n) (Calm env depth n) (round t))
      → Calm env depth d m
      → Leads
          (λ _ t. After env depth inside d t)
          (Calm env depth d)
          (scoped env (repeat env fuel round) m)
  loop_After inside fuel round d m h calm = loosen inside d _ (
      scoped-After env depth counts false (repeat env fuel round) d m
        (λ t inner. repeat-After env depth counts fuel round (suc d) t (h (suc d)) inner) calm)

  cleared-Calm : (d : ℕ) (m : Machine S) → Calm env depth d m → Calm env depth d (clear_flags m)
  cleared-Calm d m calm = (ground (arith, calm.0), calm.1)

  -- A block in its scope.
  scoped_block :
      (step : Statement E → Machine S → Outcome (Machine S) Bool)
      → ((i : Bool) (p : Statement E) (n : ℕ) (u : Machine S)
          → placed i p ≡ true
          → Calm env depth n u
          → Leads (λ _ t. After env depth i n t) (Calm env depth n) (step p u))
      → (inside : Bool) (body : Block E) (d : ℕ) (m : Machine S) → placed_block inside body ≡ true
      → Calm env depth d m
      → Leads
          (λ _ t. After env depth inside d t)
          (Calm env depth d)
          (scoped env (run_block env step body) m)
  scoped_block step ih inside body d m h calm =
      scoped-After env depth counts inside _ d m
        (λ t inner. run_block-After env depth counts step ih inside body (suc d) t h inner) calm

  run_return-After :
      (inside : Bool) (tree : E) (d : ℕ) (m : Machine S)
      → Calm env depth d m
      → Leads (λ _ t. After env depth inside d t) (Calm env depth d) (run_return env tree m)
  unfolding run_return Leads
  run_return-After inside tree d m calm =
      Leads-if _ _ (env.in_function m.store) _ _
        (λ _.
          Leads-next _ _ _ (on_store (env.set_result tree) m) _
            (on_store-Calm env depth (env.set_result tree) d m (counts.of_result tree) calm)
            (λ _ t calm'. (ground (arith, calm'.0), calm'.1)))
        (λ _. calm)

  throw_what-Calm :
      (inside : Bool) (d : ℕ) (what : Option String) (t : Machine S)
      → Calm env depth d t
      → Leads (λ _ u. After env depth inside d u) (Calm env depth d) (throw_what env what t)
  unfolding throw_what Leads
  throw_what-Calm inside d (some message) t calm = calm
  throw_what-Calm inside d none t calm = calm

  run_throw-After :
      (inside : Bool) (tree : E) (d : ℕ) (m : Machine S)
      → Calm env depth d m
      → Leads (λ _ t. After env depth inside d t) (Calm env depth d) (run_throw env tree m)
  unfolding run_throw Leads
  run_throw-After inside tree d m calm =
      Leads-next _ _ _ (on_store (env.thrown_error tree) m) _
        (on_store-Calm env depth (env.thrown_error tree) d m (counts.of_error tree) calm)
        (λ what t. throw_what-Calm inside d what t)

  -- A `break` or a `continue` is over with the loop it stands in: when the statements `break` and
  -- `continue` of `ptr` stand in loops (or `inside`, in a loop around it), it is run with no flag set, and
  -- what it calls keeps the number of domains, then after it, if it has returned, at most one of the flags
  -- is set, that of `break` or `continue` only inside of a loop, and if it has thrown, none is; there are
  -- as many domains as before in either case.
  pub run-After :
      (inside : Bool) (fuel : ℕ) (ptr : Statement E) (d : ℕ) (m : Machine S)
      → placed inside ptr ≡ true
      → Calm env depth d m
      → Leads (λ _ t. After env depth inside d t) (Calm env depth d) (run env fuel ptr m)
  unfolding run run_if run_ifelse run_switch run_while run_loop run_loop_until run_for placed Leads
  run-After inside zero ptr d m h calm = refl
  run-After inside (suc fuel) (expression tree) d m h calm =
      unchanged inside d _
        (on_store-Calm env depth (env.parse_expr tree) d m (counts.of_expr tree) calm)
  run-After inside (suc fuel) break_statement d m h calm = (ground (arith, calm.0, h), calm.1)
  run-After inside (suc fuel) continue_statement d m h calm = (ground (arith, calm.0, h), calm.1)
  run-After inside (suc fuel) (block_statement body) d m h calm =
      scoped_block (run env fuel) (λ i p n u. run-After i fuel p n u) inside body d m h calm
  run-After inside (suc fuel) (if_statement tree body) d m h calm =
      Leads-next _ _ _ (on_store (env.condition tree) m) _
        (on_store-Calm env depth (env.condition tree) d m (counts.of_condition tree) calm)
        (λ holds t calm'.
          Leads-if _ _ holds _ _
            (λ _.
              scoped_block (run env fuel) (λ i p n u. run-After i fuel p n u) inside body d t h
                calm')
            (λ _. Calm-After env depth inside d t calm'))
  run-After inside (suc fuel) (ifelse_statement tree body else_body) d m h calm =
      let parts = and_split (placed_block inside body) (placed_block inside else_body) h in
      Leads-next _ _ _ (on_store (env.condition tree) m) _
        (on_store-Calm env depth (env.condition tree) d m (counts.of_condition tree) calm)
        (λ holds t calm'.
          scoped_block (run env fuel) (λ i p n u. run-After i fuel p n u) inside
            (if holds then body else else_body) d t
            (elim holds as (λ b. placed_block inside (if b then body else else_body) ≡ true) [
              | true ↦ parts.0
              | false ↦ parts.1
            ])
            calm')
  run-After inside (suc fuel) (switch_statement tree cases otherwise) d m h calm =
      let parts = and_split (placed_block inside cases) (placed_block inside otherwise) h in
      Leads-next _ _ _ (on_store (env.find_case tree) m) _
        (on_store-Calm env depth (env.find_case tree) d m (counts.of_case tree) calm)
        (λ place t calm'.
          run_case-After env depth counts (run env fuel) (λ i p n u. run-After i fuel p n u) inside
            cases otherwise place d t parts.0 parts.1 calm')
  run-After inside (suc fuel) (while_statement tree body) d m h calm =
      loop_After inside fuel _ d (clear_flags m)
        (λ n t.
          while_round-After env depth counts (run env fuel) (λ i p k u. run-After i fuel p k u) tree
            body n t h)
        (cleared-Calm d m calm)
  run-After inside (suc fuel) (loop_statement body) d m h calm =
      loop_After inside fuel _ d (clear_flags m)
        (λ n t.
          loop_round-After env depth counts (run env fuel) (λ i p k u. run-After i fuel p k u) body
            n t h)
        (cleared-Calm d m calm)
  run-After inside (suc fuel) (loop_until_statement tree body) d m h calm =
      loop_After inside fuel _ d (clear_flags m)
        (λ n t.
          loop_until_round-After env depth counts (run env fuel) (λ i p k u. run-After i fuel p k u)
            tree body n t h)
        (cleared-Calm d m calm)
  run-After inside (suc fuel) (for_statement define test step body) d m h calm =
      scoped-After env depth counts inside _ d (clear_flags m)
        (λ t inner.
          Leads-next _ _ _ (on_store (env.parse_define_var define) t) _
            (on_store-Calm env depth (env.parse_define_var define) (suc d) t
              (counts.of_define define) inner)
            (λ _ u calm'.
              loop_After inside fuel _ (suc d) u
                (λ n v.
                  for_round-After env depth counts (run env fuel)
                    (λ i p k w. run-After i fuel p k w) test step body n v h)
                calm'))
        (cleared-Calm d m calm)
  run-After inside (suc fuel) (return_statement tree) d m h calm =
      run_return-After inside tree d m calm
  run-After inside (suc fuel) (try_statement body name handler) d m h calm =
      let parts = and_split (placed_block inside body) (placed_block inside handler) h in
      scoped-After env depth counts inside _ d m
        (λ t inner.
          run_try-After env depth counts (run env fuel) (λ i p n u. run-After i fuel p n u) inside
            name handler body (suc d) t parts.0 parts.1 inner)
        calm
  run-After inside (suc fuel) (throw_statement tree) d m h calm =
      run_throw-After inside tree d m calm
