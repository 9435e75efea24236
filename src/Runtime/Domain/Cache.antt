-- ===== src/Runtime/Domain/Cache.antt =====
-- A `var_id` caches the slot of its name; the cache changes no result.
use covscript.Prelude.{
  Bool, true, false, not, ◌&&◌, some, ◌⊎◌, Option-cases, Bool-cases, inl, inr, if◌then◌else◌, ◌≡◌,
  refl, arith,
}
use covscript.Prelude.Names.{Bytes, same_iff, find}
use covscript.Runtime.Domain.{
  Domain, VarId, is_ref, exist, add_var, add_var_id, add_var_optimal, add_var_optimal_id,
  get_var_opt, get_var_opt_id, consistence,
}

module _ {V : Type 0} where
  -- An identifier that knows this domain has the slot of its name.
  abbrev pub Coherent : Domain V → VarId → Type 0
  Coherent d id = consistence d id ≡ true → find id.id d.reflect ≡ some id.slot_id

  pub Coherent-add_var :
      (d : Domain V) (name : Bytes) (val : V) (other : VarId)
      → Coherent d other
      → Coherent (add_var d name val) other
  unfolding add_var consistence find
  Coherent-add_var d name val other c = elim (Option-cases (find name d.reflect)) [
    | inl out ↦ rw (out, add_var) (λ h. ground (arith, c h, out, same_iff name other.id))
    | inr (i, there) ↦ rw (there, add_var) c
  ]

  add_var_id-add_var :
      (d : Domain V) (id : VarId) (val : V)
      → Coherent d id
      → ((add_var_id d id val).0 ≡ add_var d id.id val)
        × Coherent (add_var_id d id val).0 (add_var_id d id val).1
  unfolding add_var_id add_var consistence find is_ref
  add_var_id-add_var d id val c = elim (Option-cases (find id.id d.reflect)) [
    | inl out ↦ rw (out, add_var_id, add_var) (refl, λ h. ground (arith, same_iff id.id id.id))
    | inr (i, there) ↦ elim (Bool-cases (is_ref d.ref id.ref)) [
      | inl cached ↦ rw (there, cached, add_var_id, add_var) (cc (there, c cached), λ h. c cached)
      | inr stale ↦ rw (there, stale, add_var_id, add_var) (refl, λ h. there)
    ]
  ]

  get_var_opt_id-get_var_opt :
      (d : Domain V) (id : VarId)
      → Coherent d id
      → ((get_var_opt_id d id).0 ≡ get_var_opt d id.id) × Coherent d (get_var_opt_id d id).1
  unfolding get_var_opt_id get_var_opt consistence is_ref
  get_var_opt_id-get_var_opt d id c = elim (Bool-cases (is_ref d.ref id.ref)) [
    | inl cached ↦ rw (cached, get_var_opt_id) (rw (get_var_opt, c cached) refl, λ h. c cached)
    | inr stale ↦ elim (Option-cases (find id.id d.reflect)) [
      | inl out ↦ rw (stale, out, get_var_opt_id, get_var_opt) (refl, λ h. absurd (cc (h, stale)))
      | inr (i, there) ↦ rw (stale, there, get_var_opt_id, get_var_opt) (refl, λ h. there)
    ]
  ]

  -- Whoever asks a well-formed domain through an identifier that is stale, or coherent with it,
  -- gets what its name gives: reading answers the same, adding makes the same domain. The
  -- identifier stays coherent, and so does any other one.
  pub Coherent-Transparent :
      (d : Domain V) (id other : VarId) (val : V)
      → Coherent d id
      → Coherent d other
      → ((get_var_opt_id d id).0 ≡ get_var_opt d id.id)
        × Coherent d (get_var_opt_id d id).1
        × ((add_var_id d id val).0 ≡ add_var d id.id val)
        × Coherent (add_var_id d id val).0 (add_var_id d id val).1
        × Coherent (add_var_id d id val).0 other
  Coherent-Transparent d id other val c c_other =
      let adds = add_var_id-add_var d id val c in
      let reads = get_var_opt_id-get_var_opt d id c in
      (reads.0, reads.1, adds.0, adds.1, rw adds.0 (Coherent-add_var d id.id val other c_other))

  -- By name, a variable is refused exactly when its name is there, the domain is not in a later
  -- round of a loop and the caller does not override; then nothing changes.
  -- Otherwise it is added as `add_var` does.
  pub add_var_optimal-add_var :
      (d : Domain V) (name : Bytes) (val : V) (override : Bool)
      → add_var_optimal d name val override ≡ (
          if exist d name && not d.optimize && not override
          then (d, false)
          else (add_var d name val, true))
  unfolding add_var_optimal add_var exist
  add_var_optimal-add_var d name val override = elim (Option-cases (find name d.reflect)) [
    | inl out ↦ rw (out, add_var_optimal, add_var, exist) refl
    | inr (i, there) ↦ rw (there, add_var_optimal, add_var, exist) (ground arith)
  ]

  -- By an identifier, the test for a redefinition asks whether the identifier has been used on
  -- this domain, not whether the name is there: a fresh one is never refused.
  pub add_var_optimal_id-add_var :
      (d : Domain V) (id : VarId) (val : V) (override : Bool)
      → Coherent d id
      → let refused = consistence d id && not d.optimize && not override in
        ((add_var_optimal_id d id val override).0 ≡ (if refused then d else add_var d id.id val))
        × ((add_var_optimal_id d id val override).2 ≡ not refused)
  unfolding add_var_optimal_id add_var consistence
  add_var_optimal_id-add_var d id val override c = elim (Bool-cases (is_ref d.ref id.ref)) [
    | inl cached ↦ elim (Bool-cases d.optimize) [
      | inl later ↦ rw (cached, later, add_var_optimal_id) (rw (c cached, add_var) refl, refl)
      | inr first ↦ elim (Bool-cases override) [
        | inl over ↦
            rw (cached, add_var_optimal_id, (add_var_id-add_var d id val c).0, first, over)
              (refl, refl)
        | inr keep ↦ rw (cached, first, keep, add_var_optimal_id) (refl, refl)
      ]
    ]
    | inr stale ↦ rw (stale, add_var_optimal_id) ((add_var_id-add_var d id val c).0, refl)
  ]

  -- Where an identifier has added a variable, it knows the slot.
  pub add_var_optimal_id-home :
      (d : Domain V) (id : VarId) (val : V) (override : Bool)
      → Coherent d id
      → (add_var_optimal_id d id val override).2 ≡ true
      → let e = (add_var_optimal_id d id val override).0 in
        let id' = (add_var_optimal_id d id val override).1 in
        (e ≡ add_var d id.id val)
        × ((id' ≡ id)
            ⊎ ((id'.id ≡ id.id)
                × (id'.ref ≡ some e.ref)
                × (find id.id e.reflect ≡ some id'.slot_id)))
  unfolding add_var_optimal_id add_var_id add_var consistence find
  add_var_optimal_id-home d id val override c added = elim (Bool-cases (is_ref d.ref id.ref)) [
    | inl cached ↦ elim (Bool-cases d.optimize) [
      | inl later ↦ rw (cached, later, add_var_optimal_id) (rw (c cached, add_var) refl, inl refl)
      | inr first ↦ elim (Bool-cases override) [
        | inl over ↦
            rw (cached, first, over, add_var_optimal_id, add_var_id, add_var, c cached)
              (rw cached (refl, inl refl))
        | inr keep ↦ absurd (ground (arith, rw (cached, first, keep, add_var_optimal_id) at added))
      ]
    ]
    | inr stale ↦ elim (Option-cases (find id.id d.reflect)) [
      | inl out ↦
          rw (stale, out, add_var_optimal_id, add_var_id, add_var)
            (refl, inr (refl, refl, ground (arith, same_iff id.id id.id)))
      | inr (i, there) ↦
          rw (stale, there, add_var_optimal_id, add_var_id, add_var)
            (rw stale (refl, inr (refl, refl, there)))
    ]
  ]
