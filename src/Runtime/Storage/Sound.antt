-- ===== src/Runtime/Storage/Sound.antt =====
-- What every call of `domain_manager` keeps, for all identifiers at once.
use covscript.Prelude.{
  All-map, ℕ, Bool, inl, List, [], ◌∷◌, ok, ok-injective, bind-eq-ok, ◌≡◌, refl, subst, arith,
}
use covscript.Prelude.Names.{Bytes}
use covscript.Runtime.Domain.{
  Domain, VarId, var_id, new_domain, copy_domain, clear, safe_rewind, next, consistence, slot_at,
  exist,
}
use covscript.Runtime.Domain
use covscript.Runtime.Domain.Cache.{Coherent}
use covscript.Runtime.Storage.{
  Storage, add_set, remove_set, clear_set, add_domain, remove_domain, clear_domain, next_domain,
  clear_global, add_record, exist_record, on_top, pop,
}
use covscript.Runtime.Storage.Vars.{
  fiber_domains, add_var, add_var_id, add_var_global, involve_loop, involve_domain,
}
use covscript.Runtime.Storage.Addresses.{
  all_domains, Distinct, Edit, Edit-Distinct, on_current-Edit, on_top-Edit,
}
use covscript.Runtime.Storage.Identifiers.{add_var_id-Moved, Moved-IsStorage, Below-IsStorage}
use covscript.Runtime.Storage.Invariant.{
  Good, IsStorage, on_top-Good, on_current-IsStorage, add_var-Good, add_var-ref,
}
use covscript.Runtime.Storage.Calls.{
  guard_ok, add_domain-IsStorage, clear_domain-IsStorage, next_domain-IsStorage,
  remove_domain-IsStorage, add_var-IsStorage, sets-IsStorage, add_record-IsStorage,
  clear_global-IsStorage, add_var_global-IsStorage,
}
use covscript.Runtime.Storage.Edited.{
  add_domain-Edit, remove_domain-Edit, clear_domain-Edit, next_domain-Edit, sets-Edit,
  clear_global-Edit, add_var_global-Edit, add_var-Edit,
}

module _ {V : Type 0} where
  -- A call that no identifier takes part in.
  pub data Call : Storage V → Storage V → Type 0 where
    by_add_set : (s : Storage V) → Call s (add_set s)
    by_remove_set : (s s' : Storage V) → remove_set s ≡ ok s' → Call s s'
    by_clear_set : (s s' : Storage V) → clear_set s ≡ ok s' → Call s s'
    by_add_domain : (s s' : Storage V) → add_domain s ≡ ok s' → Call s s'
    by_remove_domain : (s s' : Storage V) → remove_domain s ≡ ok s' → Call s s'
    by_clear_domain : (s s' : Storage V) → clear_domain s ≡ ok s' → Call s s'
    by_next_domain : (s s' : Storage V) → next_domain s ≡ ok s' → Call s s'
    by_clear_global : (s s' : Storage V) → clear_global s ≡ ok s' → Call s s'
    by_add_record : (s s' : Storage V) (name : Bytes) → add_record s name ≡ ok s' → Call s s'
    by_add_var :
        (s s' : Storage V) (name : Bytes) (val : V) (is_override : Bool)
        → add_var s name val is_override ≡ ok s'
        → Call s s'
    by_add_var_global :
        (s s' : Storage V) (name : Bytes) (val : V) → add_var_global s name val ≡ ok s' → Call s s'
    by_involve_domain :
        (s s' : Storage V) (d : Domain V) (is_override : Bool)
        → involve_domain s d is_override ≡ ok s'
        → Call s s'

  -- The addresses differ, and the storage is as it should be for every identifier.
  abbrev pub Sound : (ℕ → VarId) → Storage V → Type 0
  Sound ids s = Distinct (all_domains s) × ((n : ℕ) → IsStorage (ids n) s)

  pub edited :
      (ids : ℕ → VarId) (s s' : Storage V)
      → Sound ids s
      → Edit s.fresh (all_domains s) (all_domains s')
      → ((n : ℕ) → IsStorage (ids n) s')
      → Sound ids s'
  edited ids s s' sound edit g = (
    Edit-Distinct s.fresh (all_domains s) (all_domains s') edit
        (Below-IsStorage (ids 0) s (sound.1 0)) sound.0,
    g,
  )

  add_var-Sound :
      (ids : ℕ → VarId) (s s' : Storage V) (name : Bytes) (val : V) (is_override : Bool)
      → Sound ids s
      → add_var s name val is_override ≡ ok s'
      → Sound ids s'
  add_var-Sound ids s s' name val is_override sound h =
      edited ids s s' sound (add_var-Edit s s' name val is_override h)
        (λ n. add_var-IsStorage (ids n) s s' (sound.1 n) name val is_override h)

  involve_loop-Sound :
      (ids : ℕ → VarId) (d : Domain V) (reflect : List (Bytes × ℕ)) (is_override : Bool)
      (s s' : Storage V)
      → Sound ids s
      → involve_loop d reflect is_override s ≡ ok s'
      → Sound ids s'
  unfolding involve_loop
  involve_loop-Sound ids d [] is_override s s' sound h =
      subst (Sound ids) (ok-injective _ _ h) sound
  involve_loop-Sound ids d ((name, i) ∷ reflect) is_override s s' sound h =
      let read = bind-eq-ok (slot_at d i) _ h in
      let one = bind-eq-ok (add_var s name read.0 is_override) _ read.2 in
      involve_loop-Sound ids d reflect is_override one.0 s'
        (add_var-Sound ids s one.0 name read.0 is_override sound one.1) one.2

  pub Call-Sound : (ids : ℕ → VarId) (s s' : Storage V) → Call s s' → Sound ids s → Sound ids s'
  unfolding add_set remove_set clear_set add_record involve_domain all_domains fiber_domains
  Call-Sound ids _ _ (by_add_set s) sound = sound
  Call-Sound ids _ _ (by_remove_set s s' h) sound =
      edited ids s s' sound (sets-Edit s s' (pop s.sets) h)
        (λ n. sets-IsStorage (ids n) s s' (sound.1 n) (pop s.sets) h)
  Call-Sound ids _ _ (by_clear_set s s' h) sound =
      edited ids s s' sound (sets-Edit s s' (on_top (λ _. []) s.sets) h)
        (λ n. sets-IsStorage (ids n) s s' (sound.1 n) (on_top (λ _. []) s.sets) h)
  Call-Sound ids _ _ (by_add_domain s s' h) sound =
      edited ids s s' sound (add_domain-Edit s s' h)
        (λ n. add_domain-IsStorage (ids n) s s' (sound.1 n) h)
  Call-Sound ids _ _ (by_remove_domain s s' h) sound =
      edited ids s s' sound (remove_domain-Edit s s' h)
        (λ n. remove_domain-IsStorage (ids n) s s' (sound.1 n) h)
  Call-Sound ids _ _ (by_clear_domain s s' h) sound =
      edited ids s s' sound (clear_domain-Edit s s' h)
        (λ n. clear_domain-IsStorage (ids n) s s' (sound.1 n) h)
  Call-Sound ids _ _ (by_next_domain s s' h) sound =
      edited ids s s' sound (next_domain-Edit s s' h)
        (λ n. next_domain-IsStorage (ids n) s s' (sound.1 n) h)
  Call-Sound ids _ _ (by_clear_global s s' h) sound =
      edited ids s s' sound (clear_global-Edit s s' h)
        (λ n. clear_global-IsStorage (ids n) s s' (sound.1 n) h)
  Call-Sound ids _ _ (by_add_record s s' name h) sound =
      edited ids s s' sound
        (sets-Edit s s' (on_top (λ names. name ∷ names) s.sets)
          (guard_ok (exist_record s name) _ _ s' h))
        (λ n. add_record-IsStorage (ids n) s s' (sound.1 n) name h)
  Call-Sound ids _ _ (by_add_var s s' name val is_override h) sound =
      add_var-Sound ids s s' name val is_override sound h
  Call-Sound ids _ _ (by_add_var_global s s' name val h) sound =
      edited ids s s' sound (add_var_global-Edit s s' name val h)
        (λ n. add_var_global-IsStorage (ids n) s s' (sound.1 n) name val h)
  Call-Sound ids _ _ (by_involve_domain s s' d is_override h) sound =
      involve_loop-Sound ids d d.reflect is_override s s' sound h

  -- The call keeps the storage for the other identifiers, and moves its own.
  pub add_var_id-Sound :
      (ids : ℕ → VarId) (k : ℕ) (s s' : Storage V) (id' : VarId) (val : V) (is_override : Bool)
      → Sound ids s
      → add_var_id s (ids k) val is_override ≡ ok (s', id')
      → Sound ids s' × IsStorage id' s'
  add_var_id-Sound ids k s s' id' val is_override sound h =
      let id = ids k in
      let moved =
        add_var_id-Moved s s' id id' val is_override
          (All-map (Good id s.fresh) (λ (d : Domain V). Coherent d id) (fiber_domains s)
            (λ d g. g.2) (sound.1 k).1)
          (All-map (Good id s.fresh) (λ (d : Domain V). Coherent d id) s.domains (λ d g. g.2)
            (sound.1 k).2)
          h in
      let add = λ (d : Domain V). Domain.add_var d id.id val in
      let all =
        edited ids s s' sound
          (on_current-Edit s.fresh (on_top add) s s'
            (λ ds es. on_top-Edit s.fresh add ds es (λ d. inl (add_var-ref d id.id val))) moved.0)
          (λ n.
            on_current-IsStorage (ids n) s.fresh s.fresh (omega arith) (on_top add) s.fiber s.sets
              s.domains s.buildin s s'
              (λ ds es g e.
                on_top-Good (ids n) s.fresh s.fresh (omega arith) add ds es
                  (λ d. add_var-Good (ids n) s.fresh d id.id val) g e)
              (sound.1 n).0 refl (sound.1 n).1 (sound.1 n).2 moved.0) in
      (all, Moved-IsStorage s' id id' all.0 moved.1 (all.1 k))
