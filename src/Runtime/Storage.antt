-- ===== src/Runtime/Storage.antt =====
-- `domain_manager` of include/covscript/impl/runtime.hpp: the stacks of scopes in which a program
-- finds its variables. A `stack_type` is a list with its top first, and its bottom last.
-- `fiber` is the stack behind `fiber_stack`, `domains` is `m_data`, `sets` is `m_set`.
-- `fresh` is the next address of a `domain_ref`.
-- On an empty stack, where the source is undefined, the model says `out_of_range`.
pub mod Vars
pub mod Lookup
pub mod Snapshot
pub mod Addresses
pub mod Invariant
pub mod Identifiers
pub mod Calls
pub mod Edited
pub mod Sound
pub mod Restored
pub mod Reachable
use covscript.Prelude.{
  ℕ, zero, suc, ◌+◌, Bool, true, false, List, [], ◌∷◌, ◌++◌, length, get_elem?, set, reverse,
  Option, none, some, Result, ok, err, String, runtime_error, out_of_range, ◌>>=◌, ◌==◌,
  if◌then◌else◌, ◌||◌,
}
use covscript.Prelude.Names.{Bytes, same}
use covscript.Runtime.Domain.{
  Domain, VarId, new_domain, copy_domain, clear, safe_rewind, next, consistence, exist, add_var,
  add_var_optimal, get_var_opt, get_var_no_check, slot_at,
}

pub record Storage (V : Type 0) : Type 0 where
  pub fiber : Option (List (Domain V))
  pub sets : List (List Bytes)
  pub domains : List (Domain V)
  pub buildin : List Bytes
  pub fresh : ℕ

-- `count(name) > 0`
pub has : Bytes → List Bytes → Bool
has name [] = false
has name (n ∷ names) = same n name || has name names

-- "__PRAGMA_CS_STRUCT_DEFINITION__" and "parent", in ASCII.
abbrev pub struct_pragma : Bytes
struct_pragma =
    95 ∷ 95 ∷ 80 ∷ 82 ∷ 65 ∷ 71 ∷ 77 ∷ 65 ∷ 95 ∷ 67 ∷ 83 ∷ 95 ∷ 83 ∷ 84 ∷ 82 ∷ 85 ∷ 67 ∷ 84 ∷ 95
    ∷ 68 ∷ 69 ∷ 70 ∷ 73 ∷ 78 ∷ 73 ∷ 84 ∷ 73 ∷ 79 ∷ 78 ∷ 95 ∷ 95 ∷ []

abbrev pub parent : Bytes
parent = 112 ∷ 97 ∷ 114 ∷ 101 ∷ 110 ∷ 116 ∷ []

-- The loop of `exist_record_in_struct`: the nearest set with the name decides.
pub in_struct : Bytes → List (List Bytes) → Bool
unfolding has
in_struct name [] = false
in_struct name (names ∷ sets) =
    let outer = in_struct name sets in if has name names then has struct_pragma names else outer

module _ {A : Type 0} where
  pub on_top : (A → A) → List A → Result (List A)
  on_top f [] = err out_of_range
  on_top f (a ∷ stack) = ok (f a ∷ stack)

  pub pop : List A → Result (List A)
  pop [] = err out_of_range
  pop (a ∷ stack) = ok stack

  pub on_bottom : (A → A) → List A → Result (List A)
  on_bottom f [] = err out_of_range
  on_bottom f (a ∷ []) = ok (f a ∷ [])
  on_bottom f (a ∷ b ∷ stack) = on_bottom f (b ∷ stack) >>= λ rest. ok (a ∷ rest)

  pub bottom : List A → Result A
  bottom [] = err out_of_range
  bottom (a ∷ []) = ok a
  bottom (a ∷ b ∷ stack) = bottom (b ∷ stack)

module _ {V : Type 0} where
  -- `domain_manager(const stack_pointer &)`
  unfoldable pub new_storage : Storage V
  unfolding new_domain
  new_storage = record {
    fiber = none;
    sets = [] ∷ [];
    domains = new_domain 0 ∷ [];
    buildin = [];
    fresh = 1;
  }

  unfoldable pub is_initial : Storage V → Bool
  is_initial s = length s.domains == 1

  unfoldable pub add_set : Storage V → Storage V
  add_set s = record s { sets = [] ∷ s.sets }

  unfoldable pub remove_set : Storage V → Result (Storage V)
  unfolding pop
  remove_set s = pop s.sets >>= λ sets. ok (record s { sets = sets })

  unfoldable pub clear_set : Storage V → Result (Storage V)
  unfolding on_top
  clear_set s = on_top (λ _. []) s.sets >>= λ sets. ok (record s { sets = sets })

  -- The stack that the test on `fiber_stack` selects, with what becomes of it.
  unfoldable pub on_current :
      (List (Domain V) → Result (List (Domain V))) → Storage V → Result (Storage V)
  on_current f s = elim s.fiber [
    | some stack ↦ f stack >>= λ after. ok (record s { fiber = some after })
    | none ↦ f s.domains >>= λ after. ok (record s { domains = after })
  ]

  unfoldable pub add_domain : Storage V → Result (Storage V)
  unfolding on_current new_domain
  add_domain s =
      on_current (λ stack. ok (new_domain s.fresh ∷ stack)) (record s { fresh = suc s.fresh })

  -- The domain is cleared before it is dropped.
  unfoldable pub remove_domain : Storage V → Result (Storage V)
  unfolding on_current on_top pop clear
  remove_domain s =
      on_current (λ stack. on_top (clear s.fresh) stack >>= pop) (record s { fresh = suc s.fresh })

  unfoldable pub clear_domain : Storage V → Result (Storage V)
  unfolding on_current on_top clear
  clear_domain s = on_current (on_top (clear s.fresh)) (record s { fresh = suc s.fresh })

  unfoldable pub next_domain : Storage V → Result (Storage V)
  unfolding on_current on_top next
  next_domain s = on_current (on_top next) s

  unfoldable pub clear_global : Storage V → Result (Storage V)
  unfolding on_bottom safe_rewind
  clear_global s = on_bottom (safe_rewind s.fresh) s.domains >>= λ domains.
      ok (record s { domains = domains; fresh = suc s.fresh })

  unfoldable pub exist_record : Storage V → Bytes → Bool
  unfolding has
  exist_record s name = elim s.sets [ [] ↦ false | top ∷ _ ↦ has name top ]

  unfoldable pub exist_record_in_struct : Storage V → Bytes → Bool
  unfolding in_struct
  exist_record_in_struct s name = in_struct name s.sets

  unfoldable pub add_record : Storage V → Bytes → Result (Storage V)
  unfolding exist_record on_top
  add_record s name =
      if exist_record s name
      then err (runtime_error "Redefinition of variable.")
      else on_top (λ names. name ∷ names) s.sets >>= λ sets. ok (record s { sets = sets })

  unfoldable pub mark_set_as_struct : Storage V → Bool → Result (Storage V)
  unfolding add_record
  mark_set_as_struct s inherited =
      add_record s struct_pragma >>= λ s'. if inherited then add_record s' parent else ok s'
