-- ===== src/Runtime/Functions/Rollback.antt =====
-- What a transaction on the functions undoes.
use covscript.Prelude.{
  ℕ, zero, suc, ◌+◌, List, [], ◌∷◌, ◌++◌, append-nil, append_assoc, length, length-append,
  get_elem?, none, some, ok, err, out_of_range, ◌≡◌, refl, sym, ap, ◌∙◌, arith,
}
use covscript.Runtime.Functions.{
  Entry, FunctionStore, blank, is_blank, add_function, add_lambda, begin_transaction,
  commit_transaction, rollback_transaction, reset, reset_all, pop_blanks, note_index, get, is_some,
}

-- An addition to the store; a named function has no callable.
pub data Addition (F V : Type 0) : Type 0 where
  named : F → Addition F V
  lambda : F → V → Addition F V

-- The indices that `count` additions get.
range : ℕ → ℕ → List ℕ
range start zero = []
range start (suc count) = start ∷ range (suc start) count

plus_one : (n : ℕ) → n + 1 ≡ suc n
plus_one n = omega arith

module _ {F V : Type 0} where
  unfoldable pub add : Addition F V → FunctionStore F V → FunctionStore F V
  unfolding add_function add_lambda
  add (named func) s = add_function s func
  add (lambda func callable) s = (add_lambda s func callable).0

  unfoldable pub add_all : List (Addition F V) → FunctionStore F V → FunctionStore F V
  unfolding add
  add_all [] s = s
  add_all (a ∷ additions) s = add_all additions (add a s)

  unfoldable pub entry_of : Addition F V → Entry F V
  entry_of (named func) = record { func = some func; callable = none }
  entry_of (lambda func callable) = record { func = some func; callable = some callable }

  unfoldable pub entries_of : List (Addition F V) → List (Entry F V)
  unfolding entry_of
  entries_of [] = []
  entries_of (a ∷ additions) = entry_of a ∷ entries_of additions

  add-entries :
      (a : Addition F V) (entries : List (Entry F V)) (indices : List ℕ) (outer : List (List ℕ))
      → add a (record { entries = entries; transactions = indices ∷ outer }) ≡ record {
        entries = entries ++ entry_of a ∷ [];
        transactions = (indices ++ length entries ∷ []) ∷ outer;
      }
  unfolding add entry_of note_index add_function add_lambda
  add-entries (named func) entries indices outer = refl
  add-entries (lambda func callable) entries indices outer = refl

  add_all-entries :
      (additions : List (Addition F V)) (entries : List (Entry F V)) (indices : List ℕ)
      (outer : List (List ℕ))
      → add_all additions (record { entries = entries; transactions = indices ∷ outer }) ≡ record {
        entries = entries ++ entries_of additions;
        transactions = (indices ++ range (length entries) (length additions)) ∷ outer;
      }
  unfolding add_all entries_of range
  add_all-entries [] entries indices outer = rw (append-nil entries, append-nil indices) refl
  add_all-entries (a ∷ additions) entries indices outer =
      rw
        (
          add_all,
          add-entries a entries indices outer,
          add_all-entries additions (entries ++ entry_of a ∷ []) (indices ++ length entries ∷ [])
              outer,
          append_assoc entries (entry_of a ∷ []) (entries_of additions),
          append_assoc indices (length entries ∷ [])
              (range (length (entries ++ entry_of a ∷ [])) (length additions)),
          length-append entries (entry_of a ∷ []),
          plus_one (length entries),
        )
        refl

  -- `count` blank entries.
  blanks : ℕ → List (Entry F V)
  blanks zero = []
  blanks (suc count) = blank ∷ blanks count

  reset-append :
      (entries after : List (Entry F V)) (e : Entry F V)
      → reset (entries ++ e ∷ after) (length entries) ≡ entries ++ blank ∷ after
  unfolding reset
  reset-append [] after e = refl
  reset-append (d ∷ entries) after e = ap (λ rest. d ∷ rest) (reset-append entries after e)

  reset_all-range :
      (entries : List (Entry F V)) (additions : List (Addition F V)) (start : ℕ)
      → length entries ≡ start
      → reset_all (entries ++ entries_of additions) (range start (length additions))
        ≡ entries ++ blanks (length additions)
  unfolding reset_all range entries_of blanks
  reset_all-range entries [] start h = refl
  reset_all-range entries (a ∷ additions) start h =
      rw
        (
          reset_all,
          ← h,
          reset-append entries (entries_of additions) (entry_of a),
          ← append_assoc entries (blank ∷ []) (entries_of additions),
          ← append_assoc entries (blank ∷ []) (blanks (length additions)),
        )
        (reset_all-range (entries ++ blank ∷ []) additions (suc (length entries))
          (length-append entries (blank ∷ []) ∙ omega arith))

  pop_blanks-blanks : (count : ℕ) → pop_blanks (blanks count) ≡ []
  unfolding pop_blanks blanks is_blank is_some
  pop_blanks-blanks zero = refl
  pop_blanks-blanks (suc count) = rw (pop_blanks, pop_blanks-blanks count) refl

  pop_blanks-append :
      (entries : List (Entry F V)) (count : ℕ)
      → pop_blanks (entries ++ blanks count) ≡ pop_blanks entries
  unfolding pop_blanks
  pop_blanks-append [] count = pop_blanks-blanks count
  pop_blanks-append (e ∷ entries) count = rw (pop_blanks, pop_blanks-append entries count) refl

  -- However many functions a transaction has added, its rollback leaves the entries from before
  -- it, less the blank ones at their end; its commit leaves all of them. Either leaves the
  -- transactions around it as they were, so that these do not undo what was committed.
  pub rollback_transaction-begin_transaction :
      (s : FunctionStore F V) (additions : List (Addition F V))
      → (rollback_transaction (add_all additions (begin_transaction s))
          ≡ record s { entries = pop_blanks s.entries })
        × (commit_transaction (add_all additions (begin_transaction s))
            ≡ record s { entries = s.entries ++ entries_of additions })
  unfolding rollback_transaction begin_transaction commit_transaction
  rollback_transaction-begin_transaction s additions =
      let added = add_all-entries additions s.entries [] s.transactions in
      (
        ap (λ t. rollback_transaction t) added
            ∙ rw
                (
                  rollback_transaction,
                  reset_all-range s.entries additions (length s.entries) refl,
                  pop_blanks-append s.entries (length additions),
                )
                refl,
        ap (λ t. commit_transaction t) added,
      )

  appended :
      (additions : List (Addition F V)) (s : FunctionStore F V)
      → (add_all additions s).entries ≡ s.entries ++ entries_of additions
  unfolding add_all add add_function add_lambda entries_of entry_of
  appended [] s = sym (append-nil s.entries)
  appended (named func ∷ additions) s =
      appended additions (add_function s func)
      ∙ append_assoc s.entries (record { func = some func; callable = none } ∷ [])
          (entries_of additions)
  appended (lambda func callable ∷ additions) s =
      appended additions (add_lambda s func callable).0
      ∙ append_assoc s.entries (record { func = some func; callable = some callable } ∷ [])
          (entries_of additions)

  get_elem?-length :
      (entries after : List (Entry F V)) (e : Entry F V)
      → get_elem? (entries ++ e ∷ after) (length entries) ≡ some e
  get_elem?-length [] after e = refl
  get_elem?-length (d ∷ entries) after e = get_elem?-length entries after e

  get_elem?-end : (entries : List (Entry F V)) → get_elem? entries (length entries) ≡ none
  get_elem?-end [] = refl
  get_elem?-end (e ∷ entries) = get_elem?-end entries

  -- The index of a lambda finds its callable, however many functions are added after it, and
  -- no index past the end is ever in use.
  get-add_lambda :
      (s : FunctionStore F V) (func : F) (callable : V) (additions : List (Addition F V))
      → (get (add_all additions (add_lambda s func callable).0) (add_lambda s func callable).1
          ≡ ok (some callable))
        × (get s (add_lambda s func callable).1 ≡ err out_of_range)
  unfolding get add_lambda
  get-add_lambda s func callable additions = (
    rw
        (
          get,
          appended additions (add_lambda s func callable).0,
          append_assoc s.entries (record { func = some func; callable = some callable } ∷ [])
              (entries_of additions),
          get_elem?-length s.entries (entries_of additions)
              (record { func = some func; callable = some callable }),
        )
        refl,
    rw (get, get_elem?-end s.entries) refl,
  )
