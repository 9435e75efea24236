-- ===== src/Statement/Call/Returns.antt =====
-- What a call leaves.
use covscript.Prelude.{
  ℕ, suc, Bool, true, false, ◌==◌, List, [], ◌∷◌, length, String, and_split, ◌≡◌, refl, sym, ap,
  ◌∙◌, arith, Result-cases, inl, inr,
}
use covscript.Statement.Outcome.{Outcome, returned, threw, stuck, Leads, Leads-next, Leads-if}
use covscript.Statement.Run.{Block, end_of_block, statement, Machine, RunEnv, on_store, run_located}
use covscript.Statement.Control.{run}
use covscript.Statement.Flow.{placed, placed_block, Keeps, Counts, Calm, After, on_store-Calm}
use covscript.Statement.Flow.Loops.{run_located-After}
use covscript.Statement.Flow.Placed.{run-After}
use covscript.Statement.Call.{CallEnv, add_args, leave_call, run_function, call_in, call_rr}

module _ {E S V : Type 0} (env : RunEnv E S) (calls : CallEnv S V) (depth : S → ℕ) where
  -- Results and variables stand in the domains that are there.
  pub record CallCounts : Type 0 where
    pub of_push : (s : S) → depth (calls.push_result s) ≡ depth s
    pub of_pop : (s : S) → depth (calls.pop_result s) ≡ depth s
    pub of_var : (name : String) (arg : V) → Keeps env depth (calls.add_var_no_return name arg)

  module _ (counts : Counts env depth) (call_counts : CallCounts) where
    add_args-Keeps :
        (names : List String) (args : List V) → Keeps env depth (add_args env calls names args)
    unfolding add_args Leads
    add_args-Keeps [] args s = refl
    add_args-Keeps (name ∷ names) [] s = refl
    add_args-Keeps (name ∷ names) (arg ∷ args) s =
        Leads-next (λ _ t. depth t ≡ depth s) (λ t. depth t ≡ depth s) _
          (calls.add_var_no_return name arg s) _ (call_counts.of_var name arg s)
          (λ _ t same. rw (sym same) (add_args-Keeps names args t))

    run_function-Calm :
        (fuel : ℕ) (body : Block E) (d : ℕ) (m : Machine S)
        → placed_block false body ≡ true
        → Calm env depth d m
        → Leads
            (λ _ t. Calm env depth d t)
            (Calm env depth d)
            (run_function env calls (run env fuel) body m)
    unfolding run_function run_located placed_block Leads
    run_function-Calm fuel end_of_block d m h calm = calm
    run_function-Calm fuel (statement line_num ptr body) d m h calm =
        let parts = and_split (placed false ptr) (placed_block false body) h in
        Leads-next (λ _ t. After env depth false d t) _ _
          (run_located env (run env fuel) line_num ptr m) _
          (run_located-After env depth counts (run env fuel)
            (λ i p n u. run-After env depth counts i fuel p n u) false line_num ptr d m parts.0
            calm)
          (λ _ t after.
            Leads-if _ _ t.return_fcall _ _ (λ returns. (ground (arith, after.0, returns), after.1))
              (λ stays.
                run_function-Calm fuel body d t parts.1 (ground (arith, after.0, stays), after.1)))

    leave_call-Calm :
        (d : ℕ) (m : Outcome (Machine S) Bool)
        → Leads (λ _ t. Calm env depth (suc d) t) (Calm env depth (suc d)) m
        → Leads (λ _ t. Calm env depth d t) (Calm env depth d) (leave_call env calls m)
    unfolding leave_call Leads
    leave_call-Calm d (returned a m) h =
        (h.0, call_counts.of_pop (env.remove_domain m.store) ∙ counts.of_remove m.store d h.1)
    leave_call-Calm d (threw e m) h =
        (h.0, counts.of_remove (calls.pop_result m.store) d (call_counts.of_pop m.store ∙ h.1))
    leave_call-Calm d stuck h = h

    call_in-Calm :
        (fuel : ℕ) (names : List String) (body : Block E) (args : List V) (d : ℕ) (m : Machine S)
        → placed_block false body ≡ true
        → Calm env depth d m
        → Leads
            (λ _ t. Calm env depth d t)
            (Calm env depth d)
            (call_in env calls (run env fuel) (env.add_domain m.store) names body args m)
    unfolding call_in Leads
    call_in-Calm fuel names body args d m h calm = elim (Result-cases (env.add_domain m.store)) [
      | inl (e, thrown) ↦ rw thrown calm
      | inr (s, added) ↦
          let inner = record m { store = calls.push_result s } in
          rw added (
            leave_call-Calm d _ (
              Leads-next _ _ _ (on_store (add_args env calls names args) inner) _
                (on_store-Calm env depth (add_args env calls names args) (suc d) inner
                  (add_args-Keeps names args)
                  (calm.0, call_counts.of_push s ∙ counts.of_add m.store s added ∙ ap suc calm.1))
                (λ _ t calm'. run_function-Calm fuel body (suc d) t h calm')))
    ]

    -- A call of a function in whose body `break` and `continue` stand in loops only, made with no flag set,
    -- leaves no flag and as many domains as before, when it returns and when it throws, be it for the number
    -- of its arguments; what the statements call keeps the number of domains.
    pub call_rr-Calm :
        (fuel : ℕ) (names : List String) (body : Block E) (args : List V) (d : ℕ) (m : Machine S)
        → placed_block false body ≡ true
        → Calm env depth d m
        → Leads
            (λ _ t. Calm env depth d t)
            (Calm env depth d)
            (call_rr env calls (run env fuel) names body args m)
    unfolding call_rr Leads
    call_rr-Calm fuel names body args d m h calm =
        Leads-next _ _ _ (on_store env.poll_current_process m) _
          (on_store-Calm env depth env.poll_current_process d m counts.of_poll calm)
          (λ _ t calm'.
            Leads-if _ _ (length args == length names) _ _
              (λ _. call_in-Calm fuel names body args d t h calm') (λ _. calm'))
