-- ===== src/Runtime/Storage/Reachable.antt =====
-- Every storage that calls of `domain_manager` lead to, with the identifiers and snapshots of a program.
use covscript.Prelude.{
  All-map, ℕ, ◌==◌, Bool, Bool-cases, inl, inr, All, Option, none, some, ok, if◌then◌else◌, ◌≡◌,
  refl, sym, subst, arith,
}
use covscript.Prelude.Names.{Bytes}
use covscript.Runtime.Domain.{VarId, var_id, is_ref, new_domain, consistence}
use covscript.Runtime.Domain.Table.{IsDomain}
use covscript.Runtime.Domain.Cache.{Coherent}
use covscript.Runtime.Storage.{Storage, new_storage}
use covscript.Runtime.Storage.Vars.{fiber_domains, add_var_id, get_var, get_var_id}
use covscript.Runtime.Storage.Snapshot.{Snapshot, create_snapshot, restore_snapshot}
use covscript.Runtime.Storage.Lookup.{value, get_var_id-get_var}
use covscript.Runtime.Storage.Addresses.{all_domains}
use covscript.Runtime.Storage.Identifiers.{get_var_id-Moved, Moved-IsStorage}
use covscript.Runtime.Storage.Invariant.{Good, IsStorage}
use covscript.Runtime.Storage.Sound.{Call, Sound, Call-Sound, add_var_id-Sound}
use covscript.Runtime.Storage.Restored.{create_snapshot-Sound, restore_snapshot-Sound}

-- A storage, the identifiers that stand in the program, and the snapshots that transactions hold, both
-- with numbers.
pub record Program (V : Type 0) : Type 0 where
  pub storage : Storage V
  pub identifiers : ℕ → VarId
  pub snapshots : ℕ → Option (Snapshot V)

unfoldable pub write : {A : Type 0} → (ℕ → A) → ℕ → A → ℕ → A
write f n a k = if k == n then a else f k

write-holds :
    {A : Type 0} (P : A → Type 0) (f : ℕ → A) (n : ℕ) (a : A)
    → P a
    → ((k : ℕ) → P (f k))
    → (k : ℕ) → P (write f n a k)
unfolding write
write-holds P f n a h g k = elim (Bool-cases (k == n)) [
  | inl here ↦ rw here h
  | inr other ↦ rw other (g k)
]

unwrap : {A : Type 0} {a b : A} → some a ≡ some b → a ≡ b
unwrap h = cc

module _ {V : Type 0} where
  -- Nothing has been called, and no identifier used.
  unfoldable pub first_program : (ℕ → Bytes) → Program V
  unfolding new_storage
  first_program names = record {
    storage = new_storage;
    identifiers = λ n. var_id (names n);
    snapshots = λ n. none;
  }

  -- One call. The stack of a fiber stays the same one; reading and adding by identifier write to it.
  pub data Step : Program V → Program V → Type 0 where
    by_call : (p : Program V) (s : Storage V) → Call p.storage s → Step p (record p { storage = s })
    by_add_var_id :
        (p : Program V) (n : ℕ) (val : V) (is_override : Bool) (s : Storage V) (id : VarId)
        → add_var_id p.storage (p.identifiers n) val is_override ≡ ok (s, id)
        → Step p (record p { storage = s; identifiers = write p.identifiers n id })
    by_get_var_id :
        (p : Program V) (n : ℕ) (val : V) (id : VarId)
        → get_var_id p.storage (p.identifiers n) ≡ ok (val, id)
        → Step p (record p { identifiers = write p.identifiers n id })
    by_var_id :
        (p : Program V) (n : ℕ) (name : Bytes)
        → Step p (record p { identifiers = write p.identifiers n (var_id name) })
    by_create_snapshot :
        (p : Program V) (n : ℕ)
        → Step p (record p {
          storage = (create_snapshot p.storage).1;
          snapshots = write p.snapshots n (some (create_snapshot p.storage).0);
        })
    by_restore_snapshot :
        (p : Program V) (n : ℕ) (snap : Snapshot V)
        → p.snapshots n ≡ some snap
        → Step p (record p { storage = restore_snapshot snap p.storage })

  pub data Steps : Program V → Program V → Type 0 where
    start : (p : Program V) → Steps p p
    step : (p q r : Program V) → Steps p q → Step q r → Steps p r

  -- The storage is sound for all identifiers, and what snapshots hold is well-formed.
  abbrev pub IsProgram : Program V → Type 0
  IsProgram p =
      Sound p.identifiers p.storage
      × ((n : ℕ) (snap : Snapshot V) → p.snapshots n ≡ some snap → All IsDomain snap.domains)

  fresh_id-IsStorage :
      (s : Storage V) (id : VarId) (name : Bytes) → IsStorage id s → IsStorage (var_id name) s
  unfolding consistence is_ref
  fresh_id-IsStorage s id name g = (
    (λ ref known. absurd cc),
    All-map (Good id s.fresh) (Good (var_id name) s.fresh) (fiber_domains s)
        (λ d h. (h.0, h.1, λ known. absurd cc)) g.1,
    All-map (Good id s.fresh) (Good (var_id name) s.fresh) s.domains
        (λ d h. (h.0, h.1, λ known. absurd cc)) g.2,
  )

  Step-IsProgram : (p q : Program V) → Step p q → IsProgram p → IsProgram q
  Step-IsProgram _ _ (by_call p s call) good =
      (Call-Sound p.identifiers p.storage s call good.0, good.1)
  Step-IsProgram _ _ (by_add_var_id p n val is_override s id h) good =
      let added = add_var_id-Sound p.identifiers n p.storage s id val is_override good.0 h in
      ((added.0.0, write-holds (λ i. IsStorage i s) p.identifiers n id added.1 added.0.1), good.1)
  Step-IsProgram _ _ (by_get_var_id p n val id h) good =
      let moved = get_var_id-Moved p.storage (p.identifiers n) id val h in
      (
        (
          good.0.0,
          write-holds (λ i. IsStorage i p.storage) p.identifiers n id
              (Moved-IsStorage p.storage (p.identifiers n) id good.0.0 moved (good.0.1 n)) good.0.1,
        ),
        good.1,
      )
  Step-IsProgram _ _ (by_var_id p n name) good = (
    (
      good.0.0,
      write-holds (λ i. IsStorage i p.storage) p.identifiers n (var_id name)
          (fresh_id-IsStorage p.storage (p.identifiers n) name (good.0.1 n)) good.0.1,
    ),
    good.1,
  )
  Step-IsProgram _ _ (by_create_snapshot p n) good =
      let made = create_snapshot-Sound p.identifiers p.storage good.0 in
      (
        made.0,
        write-holds
            (λ (o : Option (Snapshot V)).
              (snap : Snapshot V) → o ≡ some snap → All IsDomain snap.domains)
            p.snapshots n (some (create_snapshot p.storage).0)
            (λ snap same. subst (λ (x : Snapshot V). All IsDomain x.domains) (unwrap same) made.1)
            good.1,
      )
  Step-IsProgram _ _ (by_restore_snapshot p n snap held) good =
      (restore_snapshot-Sound p.identifiers snap p.storage (good.1 n snap held) good.0, good.1)

  -- Any sequence of the calls of `Step` keeps a program as it should be: its domains are well-formed and have
  -- different addresses below the next one to be given out, every identifier of the program agrees with all
  -- of them and knows no address still to come, and what snapshots hold is well-formed. The calls are those
  -- on sets and domains, adding and reading variables by name or by identifier, taking in the variables
  -- of another domain, and making and restoring snapshots, while the stack of a fiber stays the same one.
  pub Steps-IsProgram : (p q : Program V) → Steps p q → IsProgram p → IsProgram q
  Steps-IsProgram _ _ (start p) good = good
  Steps-IsProgram _ _ (step p q r steps one) good =
      Step-IsProgram q r one (Steps-IsProgram p q steps good)

  pub first-IsProgram : (names : ℕ → Bytes) (p : Program V) → p ≡ first_program names → IsProgram p
  unfolding first_program new_storage fiber_domains all_domains new_domain consistence is_ref
  first-IsProgram names p e = subst IsProgram (sym e) (
    ((tt, tt), λ n. ((λ ref known. absurd cc), tt, ((refl, omega arith, λ h. absurd cc), tt))),
    λ n snap h. absurd cc,
  )

  -- In the storage of every program that these calls lead to from the first one, a new identifier finds the
  -- value, or throws the error, that its name does.
  pub get_var_id-Reachable :
      (names : ℕ → Bytes) (p : Program V) (name : Bytes)
      → Steps (first_program names) p
      → value (get_var_id p.storage (var_id name)) ≡ get_var p.storage name
  unfolding consistence is_ref
  get_var_id-Reachable names p name steps =
      let good =
        Steps-IsProgram (first_program names) p steps
          (first-IsProgram names (first_program names) refl) in
      let s = p.storage in
      let fit = fresh_id-IsStorage s (p.identifiers 0) name (good.0.1 0) in
      get_var_id-get_var s (var_id name)
        (All-map (Good (var_id name) s.fresh) IsDomain (fiber_domains s) (λ d g. g.0) fit.1)
        (All-map (Good (var_id name) s.fresh) IsDomain s.domains (λ d g. g.0) fit.2)
        (All-map (Good (var_id name) s.fresh) (λ d. Coherent d (var_id name)) (fiber_domains s)
          (λ d g. g.2) fit.1)
        (All-map (Good (var_id name) s.fresh) (λ d. Coherent d (var_id name)) s.domains (λ d g. g.2)
          fit.2)
        (λ d at_id known. absurd cc) (λ d at_id known. absurd cc)
