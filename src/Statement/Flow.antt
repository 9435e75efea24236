-- ===== src/Statement/Flow.antt =====
-- Break, continue and return under control: which flags a statement leaves, on which depth of scopes.
pub mod Branches
pub mod Loops
pub mod Placed
use covscript.Prelude.{
  ℕ, zero, suc, Bool, true, false, not, ◌&&◌, ◌||◌, Result, ok, err, Error, Bool-cases,
  Result-cases, inl, inr, if◌then◌else◌, ◌≡◌, refl, sym, ap, ◌∙◌, arith,
}
use covscript.Statement.Outcome.{
  Outcome, returned, threw, stuck, and_next, on_exit, Leads, Leads-next, Leads-exit, Leads-if,
}
use covscript.Statement.Run.{
  Statement, Block, end_of_block, statement, expression, break_statement, continue_statement,
  block_statement, if_statement, ifelse_statement, switch_statement, while_statement,
  loop_statement, loop_until_statement, for_statement, return_statement, try_statement,
  throw_statement, Machine, RunEnv, on_store, interrupted, clear_flags, leave_scope, enter_scope,
  scoped,
}

-- `break` and `continue` stand in loops only, as the compiler checks by `loop_depth`.
module _ {E : Type 0} where
  unfoldable mutual
    pub placed : Bool → Statement E → Bool
    placed inside break_statement = inside
    placed inside continue_statement = inside
    placed inside (block_statement body) = placed_block inside body
    placed inside (if_statement tree body) = placed_block inside body
    placed inside (ifelse_statement tree body else_body) =
        placed_block inside body && placed_block inside else_body
    placed inside (switch_statement tree cases otherwise) =
        placed_block inside cases && placed_block inside otherwise
    placed inside (while_statement tree body) = placed_block true body
    placed inside (loop_statement body) = placed_block true body
    placed inside (loop_until_statement tree body) = placed_block true body
    placed inside (for_statement define test step body) = placed_block true body
    placed inside (try_statement body name handler) =
        placed_block inside body && placed_block inside handler
    placed inside ptr = true

    pub placed_block : Bool → Block E → Bool
    placed_block inside end_of_block = true
    placed_block inside (statement line_num ptr body) =
        placed inside ptr && placed_block inside body

-- One flag at most, and those of a loop only inside of one.
abbrev pub allowed : Bool → Bool → Bool → Bool → Bool
allowed inside break_block continue_block return_fcall =
    if break_block
    then (inside && not continue_block) && not return_fcall
    else if continue_block
    then inside && not return_fcall
    else true

module _ {E S : Type 0} (env : RunEnv E S) (depth : S → ℕ) where
  -- Expressions leave as many domains as there were.
  abbrev pub Keeps : {A : Type 0} → (S → Outcome S A) → Type 0
  Keeps run = (s : S) → Leads (λ _ t. depth t ≡ depth s) (λ t. depth t ≡ depth s) (run s)

  -- The storage counts its domains, and what the statements call leaves them in place.
  pub record Counts : Type 0 where
    pub of_poll : Keeps env.poll_current_process
    pub of_expr : (e : E) → Keeps (env.parse_expr e)
    pub of_condition : (e : E) → Keeps (env.condition e)
    pub of_define : (e : E) → Keeps (env.parse_define_var e)
    pub of_case : (e : E) → Keeps (env.find_case e)
    pub of_result : (e : E) → Keeps (env.set_result e)
    pub of_error : (e : E) → Keeps (env.thrown_error e)
    pub of_bind : (e : E) (what : Error) → Keeps (env.bind_error e what)
    pub of_add : (s t : S) → env.add_domain s ≡ ok t → depth t ≡ suc (depth s)
    pub of_next : (s : S) → depth (env.next_domain s) ≡ depth s
    pub of_clear : (s : S) → depth (env.clear_domain s) ≡ depth s
    pub of_remove : (s : S) (n : ℕ) → depth s ≡ suc n → depth (env.remove_domain s) ≡ n

  -- No flag is set, and there are `d` domains.
  abbrev pub Calm : ℕ → Machine S → Type 0
  Calm d m = (interrupted m ≡ false) × (depth m.store ≡ d)

  abbrev pub After : Bool → ℕ → Machine S → Type 0
  After inside d m =
      (allowed inside m.break_block m.continue_block m.return_fcall ≡ true) × (depth m.store ≡ d)

  pub Calm-After : (inside : Bool) (d : ℕ) (m : Machine S) → Calm d m → After inside d m
  Calm-After inside d m h = (ground (arith, h.0), h.1)

  pub After-inside : (inside : Bool) (d : ℕ) (m : Machine S) → After false d m → After inside d m
  After-inside inside d m h = (ground (arith, h.0), h.1)

  pub on_store-Calm :
      {A : Type 0} (run : S → Outcome S A) (d : ℕ) (m : Machine S)
      → Keeps run
      → Calm d m
      → Leads {A = A} (λ _ t. Calm d t) (Calm d) (on_store run m)
  unfolding on_store
  on_store-Calm run d m keeps h =
      Leads-exit _ _ _ _ (λ s. record m { store = s }) (λ e. e) (run m.store) (keeps m.store)
        (λ a s same. (h.0, same ∙ h.1)) (λ s same. (h.0, same ∙ h.1))

  module _ (counts : Counts) where
    pub scoped-After :
        (inside : Bool) (inner : Machine S → Outcome (Machine S) Bool) (d : ℕ) (m : Machine S)
        → ((t : Machine S)
            → Calm (suc d) t
            → Leads (λ _ u. After inside (suc d) u) (Calm (suc d)) (inner t))
        → Calm d m
        → Leads (λ _ u. After inside d u) (Calm d) (scoped env inner m)
    unfolding scoped enter_scope Leads
    scoped-After inside inner d m h calm = elim (Result-cases (env.add_domain m.store)) [
      | inl (e, thrown) ↦ rw thrown calm
      | inr (s, added) ↦ rw added (
          Leads-exit _ _ _ _ (leave_scope env) (λ e. e) (inner (record m { store = s }))
            (h (record m { store = s }) (calm.0, counts.of_add m.store s added ∙ ap suc calm.1))
            (λ a t after. (after.0, counts.of_remove t.store d after.1))
            (λ t after. (after.0, counts.of_remove t.store d after.1)))
    ]
