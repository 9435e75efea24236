-- ===== src/Runtime/Functions.antt =====
-- `function_store` of include/covscript/impl/runtime.hpp: the functions that a compilation makes,
-- by index, with nested transactions. `F` is `function`, `V` what a usable `var` holds: `var()`
-- is `none`. The pointer that `add_function` returns is its argument.
pub mod Rollback
use covscript.Prelude.{
  ℕ, zero, suc, ◌+◌, Bool, true, false, not, ◌&&◌, List, [], ◌∷◌, ◌++◌, length, get_elem?, Option,
  none, some, Result, ok, err, out_of_range, if◌then◌else◌,
}

pub record Entry (F V : Type 0) : Type 0 where
  pub func : Option F
  pub callable : Option V

pub record FunctionStore (F V : Type 0) : Type 0 where
  pub entries : List (Entry F V)
  -- The innermost transaction first.
  pub transactions : List (List ℕ)

module _ {A : Type 0} where
  unfoldable pub is_some : Option A → Bool
  is_some none = false
  is_some (some a) = true

-- `if (!m_transactions.empty()) m_transactions.back().push_back(index)`
unfoldable pub note_index : ℕ → List (List ℕ) → List (List ℕ)
note_index index [] = []
note_index index (indices ∷ transactions) = (indices ++ index ∷ []) ∷ transactions

module _ {F V : Type 0} where
  -- `entry()`, an entry that was reset.
  abbrev pub blank : Entry F V
  blank = record { func = none; callable = none }

  unfoldable pub is_blank : Entry F V → Bool
  unfolding is_some
  is_blank e = not (is_some e.func) && not (is_some e.callable)

  unfoldable pub add_function : FunctionStore F V → F → FunctionStore F V
  unfolding note_index
  add_function s func = record s {
    entries = s.entries ++ record { func = some func; callable = none } ∷ [];
    transactions = note_index (length s.entries) s.transactions;
  }

  unfoldable pub add_lambda : FunctionStore F V → F → V → FunctionStore F V × ℕ
  unfolding note_index
  add_lambda s func callable = (
    record s {
      entries = s.entries ++ record { func = some func; callable = some callable } ∷ [];
      transactions = note_index (length s.entries) s.transactions;
    },
    length s.entries,
  )

  unfoldable pub size : FunctionStore F V → ℕ
  size s = length s.entries

  unfoldable pub begin_transaction : FunctionStore F V → FunctionStore F V
  begin_transaction s = record s { transactions = [] ∷ s.transactions }

  unfoldable pub commit_transaction : FunctionStore F V → FunctionStore F V
  commit_transaction s = record s {
    transactions = elim s.transactions [ [] ↦ [] | _ ∷ rest ↦ rest ];
  }

  -- The entry at an index is reset; an index past the end is passed over.
  unfoldable pub reset : List (Entry F V) → ℕ → List (Entry F V)
  reset [] index = []
  reset (e ∷ entries) zero = blank ∷ entries
  reset (e ∷ entries) (suc index) = e ∷ reset entries index

  unfoldable pub reset_all : List (Entry F V) → List ℕ → List (Entry F V)
  unfolding reset
  reset_all entries [] = entries
  reset_all entries (index ∷ indices) = reset_all (reset entries index) indices

  -- The blank entries at the end go: one stays if a later one does or it is not blank itself.
  unfoldable pub pop_blanks : List (Entry F V) → List (Entry F V)
  unfolding is_blank
  pop_blanks [] = []
  pop_blanks (e ∷ entries) =
      let rest = pop_blanks entries in
      elim rest [ [] ↦ if is_blank e then [] else e ∷ [] | d ∷ ds ↦ e ∷ d ∷ ds ]

  unfoldable pub rollback_transaction : FunctionStore F V → FunctionStore F V
  unfolding reset_all pop_blanks
  rollback_transaction s = elim s.transactions [
    | [] ↦ s
    | indices ∷ rest ↦ record {
      entries = pop_blanks (reset_all s.entries indices);
      transactions = rest;
    }
  ]

  unfoldable pub active_count : List (Entry F V) → ℕ
  unfolding is_some
  active_count [] = 0
  active_count (e ∷ entries) =
      let rest = active_count entries in if is_some e.func then suc rest else rest

  unfoldable pub active_size : FunctionStore F V → ℕ
  unfolding active_count
  active_size s = active_count s.entries

  unfoldable pub get : FunctionStore F V → ℕ → Result (Option V)
  get s index = elim (get_elem? s.entries index) [
    | none ↦ err out_of_range
    | some e ↦ ok e.callable
  ]
