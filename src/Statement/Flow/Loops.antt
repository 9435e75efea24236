-- ===== src/Statement/Flow/Loops.antt =====
-- The flags that blocks and loops leave, from those that their statements leave.
use covscript.Prelude.{
  ℕ, zero, suc, Bool, true, false, and_split, if◌then◌else◌, ◌≡◌, refl, ◌∙◌, arith,
}
use covscript.Lexer.Preprocessor.{located}
use covscript.Statement.Outcome.{
  Outcome, returned, threw, stuck, Leads, Leads-next, Leads-exit, Leads-if,
}
use covscript.Statement.Run.{
  Statement, Block, end_of_block, statement, Machine, RunEnv, on_store, interrupted, run_statement,
  run_located, run_block, run_body, run_polled, next_round, while_round, loop_round,
  loop_until_round, for_round,
}
use covscript.Statement.Control.{repeat}
use covscript.Statement.Flow.{placed, placed_block, Counts, Calm, After, Calm-After, on_store-Calm}

module _ {E S : Type 0} (env : RunEnv E S) (depth : S → ℕ) (counts : Counts env depth) where
  -- A loop that ends has cleared the flags but that of `return`, one that goes on has no flag set.
  abbrev pub RoundEnd : ℕ → Bool → Machine S → Type 0
  RoundEnd d true m = After env depth false d m
  RoundEnd d false m = Calm env depth d m

  -- Leave the loop, or go on.
  leave_or :
      (P : Bool → Machine S → Type 0) (d : ℕ) (leaves : Bool) (t : Machine S)
      (more : Outcome (Machine S) Bool)
      → RoundEnd d leaves t
      → (After env depth false d t → P true t)
      → (Calm env depth d t → Leads P (Calm env depth d) more)
      → Leads P (Calm env depth d) (if leaves then returned true t else more)
  unfolding Leads
  leave_or P d true t more end h g = h end
  leave_or P d false t more end h g = g end

  -- A test that sets no flag ends a round.
  end_of_test :
      (d : ℕ) (m : Outcome (Machine S) Bool)
      → Leads (λ _ t. Calm env depth d t) (Calm env depth d) m
      → Leads (RoundEnd d) (Calm env depth d) m
  unfolding Leads
  end_of_test d (returned true t) h = Calm-After env depth false d t h
  end_of_test d (returned false t) h = h
  end_of_test d (threw e t) h = h
  end_of_test d stuck h = h

  pub repeat-After :
      (fuel : ℕ) (round : Machine S → Outcome (Machine S) Bool) (d : ℕ) (m : Machine S)
      → ((t : Machine S) → Calm env depth d t → Leads (RoundEnd d) (Calm env depth d) (round t))
      → Calm env depth d m
      → Leads (λ _ t. After env depth false d t) (Calm env depth d) (repeat env fuel round m)
  unfolding repeat Leads
  repeat-After zero round d m h calm = refl
  repeat-After (suc fuel) round d m h calm =
      Leads-next (RoundEnd d) _ _ (round m) _ (h m calm) (λ leaves t end.
        leave_or (λ _ u. After env depth false d u) d leaves t (repeat env fuel round t) end
          (λ after. after) (λ goes. repeat-After fuel round d t h goes))

  module _ (run : Statement E → Machine S → Outcome (Machine S) Bool)
      (ih : (inside : Bool) (ptr : Statement E) (d : ℕ) (m : Machine S)
        → placed inside ptr ≡ true
        → Calm env depth d m
        → Leads (λ _ t. After env depth inside d t) (Calm env depth d) (run ptr m)) where
    pub run_statement-After :
        (inside : Bool) (ptr : Statement E) (d : ℕ) (m : Machine S)
        → placed inside ptr ≡ true
        → Calm env depth d m
        → Leads (λ _ t. After env depth inside d t) (Calm env depth d) (run_statement env run ptr m)
    unfolding run_statement
    run_statement-After inside ptr d m h calm =
        Leads-next _ _ _ (on_store env.poll_current_process m) _
          (on_store-Calm env depth env.poll_current_process d m counts.of_poll calm)
          (λ _ t calm'. ih inside ptr d t h calm')

    pub run_located-After :
        (inside : Bool) (line_num : ℕ) (ptr : Statement E) (d : ℕ) (m : Machine S)
        → placed inside ptr ≡ true
        → Calm env depth d m
        → Leads
            (λ _ t. After env depth inside d t)
            (Calm env depth d)
            (run_located env run line_num ptr m)
    unfolding run_located
    run_located-After inside line_num ptr d m h calm =
        Leads-exit _ _ _ _ (λ t. t) (located line_num) (run_statement env run ptr m)
          (run_statement-After inside ptr d m h calm) (λ a t after. after) (λ t after. after)

    pub run_block-After :
        (inside : Bool) (body : Block E) (d : ℕ) (m : Machine S)
        → placed_block inside body ≡ true
        → Calm env depth d m
        → Leads (λ _ t. After env depth inside d t) (Calm env depth d) (run_block env run body m)
    unfolding run_block placed_block Leads
    run_block-After inside end_of_block d m h calm = Calm-After env depth inside d m calm
    run_block-After inside (statement line_num ptr body) d m h calm =
        let parts = and_split (placed inside ptr) (placed_block inside body) h in
        Leads-next _ _ _ (run_located env run line_num ptr m) _
          (run_located-After inside line_num ptr d m parts.0 calm)
          (λ a t after.
            Leads-if _ _ (interrupted t) _ _ (λ stops. after)
              (λ goes. run_block-After inside body d t parts.1 (goes, after.1)))

    pub run_body-After :
        (body : Block E) (d : ℕ) (m : Machine S)
        → placed_block true body ≡ true
        → Calm env depth d m
        → Leads (RoundEnd d) (Calm env depth d) (run_body env run body m)
    unfolding run_body placed_block Leads
    run_body-After end_of_block d m h calm = calm
    run_body-After (statement line_num ptr body) d m h calm =
        let parts = and_split (placed true ptr) (placed_block true body) h in
        Leads-next _ _ _ (run_located env run line_num ptr m) _
          (run_located-After true line_num ptr d m parts.0 calm)
          (λ a t after.
            Leads-if (RoundEnd d) _ t.return_fcall _ _
              (λ returns. (ground (arith, after.0, returns), after.1))
              (λ stays.
                Leads-if (RoundEnd d) _ t.break_block _ _
                  (λ breaks. (ground (arith, after.0, breaks, stays), after.1))
                  (λ unbroken.
                    Leads-if (RoundEnd d) _ t.continue_block _ _
                      (λ continues. (ground (arith, after.0, stays, unbroken), after.1))
                      (λ goes.
                        run_body-After body d t parts.1
                          (ground (arith, stays, unbroken, goes), after.1)))))

    run_polled-After :
        (body : Block E) (d : ℕ) (m : Machine S)
        → placed_block true body ≡ true
        → Calm env depth d m
        → Leads (RoundEnd d) (Calm env depth d) (run_polled env run body m)
    unfolding run_polled
    run_polled-After body d m h calm =
        Leads-next _ _ _ (on_store env.poll_current_process m) _
          (on_store-Calm env depth env.poll_current_process d m counts.of_poll calm)
          (λ _ t calm'. run_body-After body d t h calm')

    -- The end of a round: the domain is cleared unless the loop is left.
    next_round-Calm :
        (d : ℕ) (m : Machine S) → Calm env depth d m → Calm env depth d (next_round env run m)
    unfolding next_round
    next_round-Calm d m calm = (calm.0, counts.of_next m.store ∙ calm.1)

    pub loop_round-After :
        (body : Block E) (d : ℕ) (m : Machine S)
        → placed_block true body ≡ true
        → Calm env depth d m
        → Leads (RoundEnd d) (Calm env depth d) (loop_round env run body m)
    unfolding loop_round Leads
    loop_round-After body d m h calm =
        Leads-next (RoundEnd d) _ _ (run_polled env run body m) _ (run_polled-After body d m h calm)
          (λ leaves t end.
            leave_or (RoundEnd d) d leaves t (returned false (next_round env run t)) end
              (λ after. after) (λ goes. next_round-Calm d t goes))

    pub loop_until_round-After :
        (tree : E) (body : Block E) (d : ℕ) (m : Machine S)
        → placed_block true body ≡ true
        → Calm env depth d m
        → Leads (RoundEnd d) (Calm env depth d) (loop_until_round env run tree body m)
    unfolding loop_until_round Leads
    loop_until_round-After tree body d m h calm =
        Leads-next (RoundEnd d) _ _ (run_polled env run body m) _ (run_polled-After body d m h calm)
          (λ leaves t end.
            leave_or (RoundEnd d) d leaves t (on_store (env.condition tree) (next_round env run t))
              end (λ after. after)
              (λ goes. end_of_test d _ (
                on_store-Calm env depth (env.condition tree) d (next_round env run t)
                  (counts.of_condition tree) (next_round-Calm d t goes))))

    pub while_round-After :
        (tree : E) (body : Block E) (d : ℕ) (m : Machine S)
        → placed_block true body ≡ true
        → Calm env depth d m
        → Leads (RoundEnd d) (Calm env depth d) (while_round env run tree body m)
    unfolding while_round loop_round Leads
    while_round-After tree body d m h calm =
        Leads-next _ _ _ (on_store (env.condition tree) m) _
          (on_store-Calm env depth (env.condition tree) d m (counts.of_condition tree) calm)
          (λ holds t calm'.
            Leads-if (RoundEnd d) _ holds _ _ (λ _. loop_round-After body d t h calm')
              (λ _. Calm-After env depth false d t calm'))

    pub for_round-After :
        (test step : E) (body : Block E) (d : ℕ) (m : Machine S)
        → placed_block true body ≡ true
        → Calm env depth d m
        → Leads (RoundEnd d) (Calm env depth d) (for_round env run test step body m)
    unfolding for_round Leads
    for_round-After test step body d m h calm =
        Leads-next _ _ _ (on_store env.poll_current_process m) _
          (on_store-Calm env depth env.poll_current_process d m counts.of_poll calm)
          (λ _ p polled.
            Leads-next _ _ _ (on_store (env.condition test) p) _
              (on_store-Calm env depth (env.condition test) d p (counts.of_condition test) polled)
              (λ holds t calm'.
                Leads-if (RoundEnd d) _ holds _ _
                  (λ _.
                    Leads-next (RoundEnd d) _ _ (run_body env run body t) _
                      (run_body-After body d t h calm')
                      (λ leaves u end.
                        leave_or (RoundEnd d) d leaves u _ end (λ after. after)
                          (λ goes.
                            Leads-next _ _ _ (on_store (env.parse_expr step) u) _
                              (on_store-Calm env depth (env.parse_expr step) d u
                                (counts.of_expr step) goes)
                              (λ _ v stepped. next_round-Calm d v stepped))))
                  (λ _. Calm-After env depth false d t calm')))
