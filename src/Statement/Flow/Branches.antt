-- ===== src/Statement/Flow/Branches.antt =====
-- The flags after `try` and `switch`.
use covscript.Prelude.{
  ℕ, zero, suc, Bool, true, Option, none, some, lang_error, and_split, ◌≡◌, ◌∙◌,
}
use covscript.Statement.Outcome.{Outcome, returned, threw, stuck, Leads, Leads-next, Leads-if}
use covscript.Statement.Run.{
  Statement, Block, end_of_block, statement, Machine, RunEnv, on_store, interrupted, run_statement,
  catch_error, run_try, run_default, run_case,
}
use covscript.Statement.Flow.{placed, placed_block, Counts, Calm, After, Calm-After, on_store-Calm}
use covscript.Statement.Flow.Loops.{run_statement-After, run_block-After}

module _ {E S : Type 0} (env : RunEnv E S) (depth : S → ℕ) (counts : Counts env depth) where
  module _ (run : Statement E → Machine S → Outcome (Machine S) Bool)
      (ih : (inside : Bool) (ptr : Statement E) (d : ℕ) (m : Machine S)
        → placed inside ptr ≡ true
        → Calm env depth d m
        → Leads (λ _ t. After env depth inside d t) (Calm env depth d) (run ptr m)) where
    catch_error-After :
        (inside : Bool) (name : E) (handler : Block E) (line_num d : ℕ)
        (m : Outcome (Machine S) Bool) (next : Machine S → Outcome (Machine S) Bool)
        → placed_block inside handler ≡ true
        → Leads (λ _ t. After env depth inside d t) (Calm env depth d) m
        → ((t : Machine S)
            → Calm env depth d t
            → Leads (λ _ u. After env depth inside d u) (Calm env depth d) (next t))
        → Leads
            (λ _ t. After env depth inside d t)
            (Calm env depth d)
            (catch_error env run name handler line_num m next)
    unfolding catch_error Leads
    catch_error-After inside name handler line_num d (returned a t) next k after more =
        Leads-if _ _ (interrupted t) _ _ (λ stops. after) (λ goes. more t (goes, after.1))
    catch_error-After inside name handler line_num d (threw (lang_error what) t) next k calm more =
        let cleared = record t { store = env.clear_domain t.store } in
        Leads-next _ _ _ (on_store (env.bind_error name (lang_error what)) cleared) _
          (on_store-Calm env depth (env.bind_error name (lang_error what)) d cleared
            (counts.of_bind name (lang_error what)) (calm.0, counts.of_clear t.store ∙ calm.1))
          (λ _ u calm'. run_block-After env depth counts run ih inside handler d u k calm')
    catch_error-After inside name handler line_num d (threw e t) next k calm more = calm
    catch_error-After inside name handler line_num d stuck next k calm more = calm

    pub run_try-After :
        (inside : Bool) (name : E) (handler body : Block E) (d : ℕ) (m : Machine S)
        → placed_block inside body ≡ true
        → placed_block inside handler ≡ true
        → Calm env depth d m
        → Leads
            (λ _ t. After env depth inside d t)
            (Calm env depth d)
            (run_try env run name handler body m)
    unfolding run_try placed_block Leads
    run_try-After inside name handler end_of_block d m h k calm =
        Calm-After env depth inside d m calm
    run_try-After inside name handler (statement line_num ptr body) d m h k calm =
        let parts = and_split (placed inside ptr) (placed_block inside body) h in
        catch_error-After inside name handler line_num d (run_statement env run ptr m)
          (run_try env run name handler body) k
          (run_statement-After env depth counts run ih inside ptr d m parts.0 calm)
          (λ t goes. run_try-After inside name handler body d t parts.1 k goes)

    run_default-After :
        (inside : Bool) (otherwise : Block E) (d : ℕ) (m : Machine S)
        → placed_block inside otherwise ≡ true
        → Calm env depth d m
        → Leads
            (λ _ t. After env depth inside d t)
            (Calm env depth d)
            (run_default env run otherwise m)
    unfolding run_default placed_block Leads
    run_default-After inside end_of_block d m k calm = Calm-After env depth inside d m calm
    run_default-After inside (statement line_num ptr body) d m k calm =
        run_statement-After env depth counts run ih inside ptr d m
          (and_split (placed inside ptr) (placed_block inside body) k).0 calm

    pub run_case-After :
        (inside : Bool) (cases otherwise : Block E) (place : Option ℕ) (d : ℕ) (m : Machine S)
        → placed_block inside cases ≡ true
        → placed_block inside otherwise ≡ true
        → Calm env depth d m
        → Leads
            (λ _ t. After env depth inside d t)
            (Calm env depth d)
            (run_case env run cases otherwise place m)
    unfolding run_case placed_block
    run_case-After inside end_of_block otherwise place d m h k calm =
        run_default-After inside otherwise d m k calm
    run_case-After inside (statement line_num ptr cases) otherwise none d m h k calm =
        run_default-After inside otherwise d m k calm
    run_case-After inside (statement line_num ptr cases) otherwise (some zero) d m h k calm =
        run_statement-After env depth counts run ih inside ptr d m
          (and_split (placed inside ptr) (placed_block inside cases) h).0 calm
    run_case-After inside (statement line_num ptr cases) otherwise (some (suc place)) d m h k calm =
        run_case-After inside cases otherwise (some place) d m
          (and_split (placed inside ptr) (placed_block inside cases) h).1 k calm
