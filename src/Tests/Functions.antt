-- ===== src/Tests/Functions.antt =====
-- One function, and two more in a transaction.
use covscript.Prelude.{ℕ, [], ◌∷◌, none, some, ◌≡◌}
use covscript.Prelude.{List, ◌++◌}
use covscript.Runtime.Functions.{
  FunctionStore, begin_transaction, commit_transaction, rollback_transaction, pop_blanks,
}
use covscript.Runtime.Functions.Rollback.{
  Addition, named, lambda, add_all, entries_of, rollback_transaction-begin_transaction,
}

-- One function compiled, two more in a transaction.
abbrev functions : FunctionStore ℕ ℕ
functions = record { entries = record { func = some 1; callable = none } ∷ []; transactions = [] }

abbrev additions : List (Addition ℕ ℕ)
additions = lambda 2 8 ∷ named 3 ∷ []

rollback_transaction-begin_transaction_example :
    (rollback_transaction (add_all additions (begin_transaction functions))
      ≡ record functions { entries = pop_blanks functions.entries })
    × (commit_transaction (add_all additions (begin_transaction functions))
        ≡ record functions { entries = functions.entries ++ entries_of additions })
rollback_transaction-begin_transaction_example =
    rollback_transaction-begin_transaction functions additions
