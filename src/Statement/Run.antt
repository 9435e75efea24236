-- ===== src/Statement/Run.antt =====
-- What the statements are, and what their `run_impl` share: blocks, bodies of loops and scopes.
use covscript.Prelude.{
  ℕ, zero, suc, Bool, true, false, ◌||◌, Option, none, some, String, Error, lang_error, Result, ok,
  err, if◌then◌else◌,
}
use covscript.Lexer.Preprocessor.{located}
use covscript.Statement.Outcome.{Outcome, returned, threw, stuck, and_next, on_exit}

-- A block is a list of statements, and knows the line of each.
mutual
  pub data Statement (E : Type 0) : Type 0 where
    expression : E → Statement E
    break_statement : Statement E
    continue_statement : Statement E
    block_statement : Block E → Statement E
    if_statement : E → Block E → Statement E
    ifelse_statement : E → Block E → Block E → Statement E
    switch_statement : E → Block E → Block E → Statement E
    while_statement : E → Block E → Statement E
    loop_statement : Block E → Statement E
    loop_until_statement : E → Block E → Statement E
    for_statement : E → E → E → Block E → Statement E
    return_statement : E → Statement E
    try_statement : Block E → E → Block E → Statement E
    throw_statement : E → Statement E

  pub data Block (E : Type 0) : Type 0 where
    end_of_block : Block E
    statement : ℕ → Statement E → Block E → Block E

-- The flags of the instance, and all else.
pub record Machine (S : Type 0) : Type 0 where
  pub break_block : Bool
  pub continue_block : Bool
  pub return_fcall : Bool
  pub store : S

-- What the statements call. `condition` is `parse_expr(...).const_val<boolean>()`, `find_case` the place of
-- a key among the cases, `thrown_error` the `lang_error` that an expression yields, and `bind_error` makes
-- it a variable.
pub record RunEnv (E S : Type 0) : Type 0 where
  pub poll_current_process : S → Outcome S Bool
  pub parse_expr : E → S → Outcome S Bool
  pub condition : E → S → Outcome S Bool
  pub parse_define_var : E → S → Outcome S Bool
  pub find_case : E → S → Outcome S (Option ℕ)
  pub in_function : S → Bool
  pub set_result : E → S → Outcome S Bool
  pub thrown_error : E → S → Outcome S (Option String)
  pub bind_error : E → Error → S → Outcome S Bool
  pub add_domain : S → Result S
  pub next_domain : S → S
  pub clear_domain : S → S
  pub remove_domain : S → S

module _ {S : Type 0} where
  -- Something that knows no flags, on the machine.
  unfoldable pub on_store : {A : Type 0} → (S → Outcome S A) → Machine S → Outcome (Machine S) A
  unfolding on_exit
  on_store run m = on_exit (λ s. record m { store = s }) (λ e. e) (run m.store)

  abbrev pub interrupted : Machine S → Bool
  interrupted m = m.return_fcall || m.break_block || m.continue_block

  abbrev pub clear_flags : Machine S → Machine S
  clear_flags m = record m { break_block = false; continue_block = false }

module _ {E S : Type 0} (env : RunEnv E S) where
  abbrev pub leave_scope : Machine S → Machine S
  leave_scope m = record m { store = env.remove_domain m.store }

  unfoldable pub enter_scope :
      Result S → (Machine S → Outcome (Machine S) Bool) → Machine S → Outcome (Machine S) Bool
  unfolding on_exit
  enter_scope (ok s) inner m = on_exit leave_scope (λ e. e) (inner (record m { store = s }))
  enter_scope (err e) inner m = threw e m

  -- `scope_guard`: a domain for a piece of the program, left on any way out.
  unfoldable pub scoped :
      (Machine S → Outcome (Machine S) Bool) → Machine S → Outcome (Machine S) Bool
  unfolding enter_scope
  scoped inner m = enter_scope (env.add_domain m.store) inner m

  module _ (run : Statement E → Machine S → Outcome (Machine S) Bool) where
    -- `statement_base::run`: it polls, then runs the statement.
    unfoldable pub run_statement : Statement E → Machine S → Outcome (Machine S) Bool
    unfolding on_store and_next
    run_statement ptr m = and_next (on_store env.poll_current_process m) (λ _ t. run ptr t)

    -- A statement in a block: an exception gets its line.
    unfoldable pub run_located : ℕ → Statement E → Machine S → Outcome (Machine S) Bool
    unfolding on_exit located run_statement
    run_located line_num ptr m = on_exit (λ t. t) (located line_num) (run_statement ptr m)

    -- The statements of a block, until one interrupts it.
    unfoldable pub run_block : Block E → Machine S → Outcome (Machine S) Bool
    unfolding and_next run_located
    run_block end_of_block m = returned true m
    run_block (statement line_num ptr body) m =
        and_next (run_located line_num ptr m)
          (λ _ t. let rest = run_block body t in if interrupted t then returned true t else rest)

    -- The body of a loop; `true` leaves the loop.
    unfoldable pub run_body : Block E → Machine S → Outcome (Machine S) Bool
    unfolding and_next run_located
    run_body end_of_block m = returned false m
    run_body (statement line_num ptr body) m = and_next (run_located line_num ptr m) (λ _ t.
        let rest = run_body body t in
        if t.return_fcall
        then returned true t
        else if t.break_block
        then returned true (record t { break_block = false })
        else if t.continue_block
        then returned false (record t { continue_block = false })
        else rest)

    -- The body in a loop that polls first.
    unfoldable pub run_polled : Block E → Machine S → Outcome (Machine S) Bool
    unfolding on_store run_body and_next
    run_polled body m = and_next (on_store env.poll_current_process m) (λ _ t. run_body body t)

    unfoldable pub next_round : Machine S → Machine S
    next_round m = record m { store = env.next_domain m.store }

    unfoldable pub while_round : E → Block E → Machine S → Outcome (Machine S) Bool
    unfolding on_store run_polled next_round and_next
    while_round tree body m = and_next (on_store (env.condition tree) m) (λ holds t.
        let round =
          and_next (run_polled body t)
            (λ leaves u. if leaves then returned true u else returned false (next_round u)) in
        if holds then round else returned true t)

    unfoldable pub loop_round : Block E → Machine S → Outcome (Machine S) Bool
    unfolding run_polled next_round and_next
    loop_round body m =
        and_next (run_polled body m)
          (λ leaves u. if leaves then returned true u else returned false (next_round u))

    unfoldable pub loop_until_round : E → Block E → Machine S → Outcome (Machine S) Bool
    unfolding on_store run_polled next_round and_next
    loop_until_round tree body m = and_next (run_polled body m) (λ leaves u.
        let test = on_store (env.condition tree) (next_round u) in
        if leaves then returned true u else test)

    unfoldable pub for_round : E → E → Block E → Machine S → Outcome (Machine S) Bool
    unfolding on_store run_body next_round and_next
    for_round test step body m = and_next (on_store env.poll_current_process m) (λ _ polled.
        and_next (on_store (env.condition test) polled) (λ holds t.
          let round = and_next (run_body body t) (λ leaves u.
            let stepped =
              and_next (on_store (env.parse_expr step) u) (λ _ v. returned false (next_round v)) in
            if leaves then returned true u else stepped) in
          if holds then round else returned true t))

    -- What a statement of the body of a `try` came to.
    unfoldable pub catch_error :
        E
        → Block E
        → ℕ
        → Outcome (Machine S) Bool
        → (Machine S → Outcome (Machine S) Bool)
        → Outcome (Machine S) Bool
    unfolding on_store run_block and_next located
    catch_error name handler line_num (returned a t) next =
        if interrupted t then returned true t else next t
    catch_error name handler line_num (threw (lang_error what) t) next =
        and_next
          (on_store (env.bind_error name (lang_error what))
            (record t { store = env.clear_domain t.store }))
          (λ _ u. run_block handler u)
    catch_error name handler line_num (threw e t) next = threw (located line_num e) t
    catch_error name handler line_num stuck next = stuck

    unfoldable pub run_try : E → Block E → Block E → Machine S → Outcome (Machine S) Bool
    unfolding catch_error run_statement
    run_try name handler end_of_block m = returned true m
    run_try name handler (statement line_num ptr body) m =
        catch_error name handler line_num (run_statement ptr m) (run_try name handler body)

    -- The block of `default`, when there is one.
    unfoldable pub run_default : Block E → Machine S → Outcome (Machine S) Bool
    unfolding run_statement
    run_default end_of_block m = returned true m
    run_default (statement line_num ptr body) m = run_statement ptr m

    unfoldable pub run_case : Block E → Block E → Option ℕ → Machine S → Outcome (Machine S) Bool
    unfolding run_default run_statement
    run_case end_of_block otherwise place m = run_default otherwise m
    run_case cases otherwise none m = run_default otherwise m
    run_case (statement line_num ptr cases) otherwise (some zero) m = run_statement ptr m
    run_case (statement line_num ptr cases) otherwise (some (suc place)) m =
        run_case cases otherwise (some place) m
