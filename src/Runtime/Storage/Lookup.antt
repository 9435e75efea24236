-- ===== src/Runtime/Storage/Lookup.antt =====
-- `domain_manager::get_var` by identifier against `get_var` by name.
use covscript.Prelude.{
  All-get, get_elem?-lt, ℕ, suc, zero, true, false, List, [], ◌∷◌, All, length, get_elem?, Option,
  none, some, Option-cases, Bool-cases, inl, inr, Result, ok, err, ◌≡◌, refl, arith,
}
use mathlib.Core.Option.{some-injective}
use covscript.Prelude.Names.{Bytes, find}
use covscript.Runtime.Domain.{
  Domain, VarId, is_ref, exist, consistence, get_var_opt, get_var_no_check, slot_at,
}
use covscript.Runtime.Domain.Table.{IsDomain, find-lt}
use covscript.Runtime.Domain.Cache.{Coherent}
use covscript.Runtime.Storage.{Storage}
use covscript.Runtime.Storage.Vars.{
  fiber_domains, get_in, get_in_id, scan, get_var, get_var_id, undefined_variable,
}

module _ {V : Type 0} where
  -- What a lookup by identifier finds, without the identifier.
  abbrev pub value : Result (V × VarId) → Result V
  value (ok (v, id)) = ok v
  value (err e) = err e

  abbrev pub values : Option (Result (V × VarId)) → Option (Result V)
  values none = none
  values (some found) = some (value found)

  abbrev pub oks : Option V → Option (Result V)
  oks none = none
  oks (some v) = some (ok v)

  -- The domain at `i` is the first of the stack that has the name.
  abbrev pub Nearest : List (Domain V) → ℕ → Bytes → Type 0
  Nearest [] i name = Unit
  Nearest (d ∷ stack) zero name = Unit
  Nearest (d ∷ stack) (suc i) name = (exist d name ≡ false) × Nearest stack i name

  -- If the domain that the identifier remembers is the one in which it was found, no domain
  -- above it has the name.
  abbrev pub Located : List (Domain V) → VarId → Type 0
  Located stack id =
      (d : Domain V)
      → get_elem? stack id.domain_id ≡ some d
      → consistence d id ≡ true
      → Nearest stack id.domain_id id.id

  -- A name of a well-formed domain has a value.
  found :
      (d : Domain V) (name : Bytes) (i : ℕ)
      → IsDomain d
      → find name d.reflect ≡ some i
      → (v : V) × (slot_at d i ≡ ok v) × (get_var_opt d name ≡ some v)
  unfolding slot_at get_var_opt
  found d name i t there =
      let (v, at_i) = get_elem?-lt d.slot i (find-lt d.reflect (length d.slot) i name t there) in
      (v, rw (slot_at, at_i) refl, rw (get_var_opt, there) at_i)

  missing : (d : Domain V) (name : Bytes) → exist d name ≡ false → get_var_opt d name ≡ none
  unfolding exist get_var_opt
  missing d name h = elim (Option-cases (find name d.reflect)) [
    | inl out ↦ rw (get_var_opt, out) refl
    | inr (i, there) ↦ absurd (ground (arith, h, there))
  ]

  scan-get_in :
      (stack : List (Domain V)) (id : VarId) (i : ℕ)
      → All IsDomain stack
      → All (λ d. Coherent d id) stack
      → values (scan stack id i) ≡ oks (get_in stack id.id)
  unfolding scan get_in exist consistence get_var_no_check
  scan-get_in [] id i t c = refl
  scan-get_in (d ∷ stack) id i t c = elim (Option-cases (find id.id d.reflect)) [
    | inl out ↦
        rw (exist, out, get_in, missing d id.id (rw (exist, out) refl))
          (scan-get_in stack id (suc i) t.1 c.1)
    | inr (j, there) ↦ elim (Bool-cases (is_ref d.ref id.ref)) [
      | inl cached ↦
          let (v, at_slot, got) = found d id.id id.slot_id t.0 (c.0 cached) in
          rw (exist, there, cached, at_slot, get_in, got) refl
      | inr stale ↦
          let (v, at_j, got) = found d id.id j t.0 there in
          rw (exist, there, stale, at_j, get_in, got) refl
    ]
  ]

  Nearest-get_in :
      (stack : List (Domain V)) (i : ℕ) (name : Bytes) (d : Domain V) (v : V)
      → get_elem? stack i ≡ some d
      → Nearest stack i name
      → get_var_opt d name ≡ some v
      → get_in stack name ≡ some v
  unfolding get_in
  Nearest-get_in [] i name d v at_i n g = cc
  Nearest-get_in (e ∷ stack) zero name d v at_i n g = ground (arith, at_i, g)
  Nearest-get_in (e ∷ stack) (suc i) name d v at_i n g =
      rw (get_in, missing e name n.0) (Nearest-get_in stack i name d v at_i n.1 g)

  get_in_id-get_in :
      (stack : List (Domain V)) (id : VarId)
      → All IsDomain stack
      → All (λ e. Coherent e id) stack
      → Located stack id
      → values (get_in_id stack id) ≡ oks (get_in stack id.id)
  unfolding get_in_id consistence
  get_in_id-get_in stack id t c l = elim (Option-cases (get_elem? stack id.domain_id)) [
    | inl out ↦ rw (get_in_id, out) (scan-get_in stack id 0 t c)
    | inr (d, at_id) ↦ elim (Bool-cases (is_ref d.ref id.ref)) [
      | inr stale ↦ rw (get_in_id, at_id, stale) (scan-get_in stack id 0 t c)
      | inl cached ↦
          let there = All-get (λ e. Coherent e id) stack id.domain_id d c at_id cached in
          let (v, at_slot, got) =
            found d id.id id.slot_id (All-get IsDomain stack id.domain_id d t at_id) there in
          rw
            (
              get_in_id,
              at_id,
              cached,
              at_slot,
              Nearest-get_in stack id.domain_id id.id d v at_id (l d at_id cached) got,
            )
            refl
    ]
  ]

  first_found :
      (o p : Option (Result (V × VarId))) (a b : Option V)
      → values o ≡ oks a
      → values p ≡ oks b
      → value (elim o [ some r ↦ r | none ↦ elim p [ some r ↦ r | none ↦ undefined_variable ] ])
        ≡ (elim a [ some v ↦ ok v | none ↦ elim b [ some v ↦ ok v | none ↦ undefined_variable ] ])
  first_found none none none none g h = refl
  first_found none (some r) none (some v) g h = some-injective _ _ h
  first_found (some r) p (some v) b g h = some-injective _ _ g
  first_found none none none (some v) g h = cc
  first_found none (some r) none none g h = cc
  first_found none p (some v) b g h = cc
  first_found (some r) p none b g h = cc

  -- In well-formed stacks a variable's identifier finds the value, or throws the error, that its
  -- name does, if it is coherent with every domain and no domain above the one that it
  -- remembers has the name.
  pub get_var_id-get_var :
      (s : Storage V) (id : VarId)
      → All IsDomain (fiber_domains s)
      → All IsDomain s.domains
      → All (λ d. Coherent d id) (fiber_domains s)
      → All (λ d. Coherent d id) s.domains
      → Located (fiber_domains s) id
      → Located s.domains id
      → value (get_var_id s id) ≡ get_var s id.id
  unfolding get_var_id get_var
  get_var_id-get_var s id t_fiber t c_fiber c l_fiber l =
      first_found (get_in_id (fiber_domains s) id) (get_in_id s.domains id)
        (get_in (fiber_domains s) id.id) (get_in s.domains id.id)
        (get_in_id-get_in (fiber_domains s) id t_fiber c_fiber l_fiber)
        (get_in_id-get_in s.domains id t c l)
