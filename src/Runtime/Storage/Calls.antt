-- ===== src/Runtime/Storage/Calls.antt =====
-- Each operation of `domain_manager` keeps the invariant.
use covscript.Prelude.{
  ok-injective, ℕ, suc, Bool, true, false, List, [], ◌∷◌, All, Result, ok, err, Error, ◌>>=◌,
  bind-eq-ok, not, ◌&&◌, if◌then◌else◌, ◌≡◌, refl, sym, subst, arith,
}
use covscript.Prelude.Names.{Bytes}
use covscript.Runtime.Domain.{
  Domain, VarId, var_id, is_ref, new_domain, clear, safe_rewind, next, consistence, exist,
  add_var_optimal,
}
use covscript.Runtime.Domain
use covscript.Runtime.Domain.Table.{safe_rewind-clear}
use covscript.Runtime.Domain.Cache.{add_var_optimal-add_var}
use covscript.Runtime.Storage.{
  Storage, add_domain, remove_domain, clear_domain, next_domain, clear_global, add_record,
  exist_record, on_top, on_bottom, bottom, pop,
}
use covscript.Runtime.Storage.Vars.{fiber_domains, add_top, add_var, add_var_global, exists_already}
use covscript.Runtime.Storage.Invariant.{
  Good, Old, IsStorage, new_domain-Good, clear-Good, next-Good, add_var-Good, on_top-Good,
  on_bottom-Good, on_current-IsStorage, rest-Good,
}

-- A guarded call that returned has passed its guard.
pub guard_ok :
    {A : Type 0} (refused : Bool) (e : Error) (rest : Result A) (a : A)
    → (if refused then err e else rest) ≡ ok a
    → rest ≡ ok a
guard_ok true e rest a h = absurd cc
guard_ok false e rest a h = h

module _ {V : Type 0} where
  pop-Good :
      (id : VarId) (fresh : ℕ) (stack after : List (Domain V))
      → All (Good id fresh) stack
      → pop stack ≡ ok after
      → All (Good id fresh) after
  unfolding pop
  pop-Good id fresh [] after g h = absurd cc
  pop-Good id fresh (d ∷ stack) after g h = subst (All (Good id fresh)) (ok-injective _ _ h) g.1

  not_refused :
      (refused : Bool) (d e : Domain V) (stack after : List (Domain V))
      → (let r : Domain V × Bool = if refused then (d, false) else (e, true) in
          if r.1 then ok (r.0 ∷ stack) else exists_already)
        ≡ ok after
      → ok (e ∷ stack) ≡ ok after
  not_refused true d e stack after h = absurd cc
  not_refused false d e stack after h = h

  -- The top that is not refused.
  pub added_top :
      (name : Bytes) (val : V) (is_override : Bool) (stack after : List (Domain V))
      → add_top name val is_override stack ≡ ok after
      → on_top (λ d. Domain.add_var d name val) stack ≡ ok after
  unfolding add_top on_top
  added_top name val is_override [] after h = absurd cc
  added_top name val is_override (d ∷ stack) after h =
      let all =
        subst
          (λ (r : Domain V × Bool). (if r.1 then ok (r.0 ∷ stack) else exists_already) ≡ ok after)
          (add_var_optimal-add_var d name val is_override) h in
      not_refused (exist d name && not d.optimize && not is_override) d (Domain.add_var d name val)
        stack after all

  add_top-Good :
      (id : VarId) (fresh : ℕ) (name : Bytes) (val : V) (is_override : Bool)
      (stack after : List (Domain V))
      → All (Good id fresh) stack
      → add_top name val is_override stack ≡ ok after
      → All (Good id fresh) after
  add_top-Good id fresh name val is_override stack after g h =
      on_top-Good id fresh fresh (omega arith) (λ d. Domain.add_var d name val) stack after
        (λ d. add_var-Good id fresh d name val) g (added_top name val is_override stack after h)

  module _ (id : VarId) (s s' : Storage V) (is_storage : IsStorage id s) where
    Old-suc : Old id (suc s.fresh)
    Old-suc ref known = omega (arith, is_storage.0 ref known)

    pub add_domain-IsStorage : add_domain s ≡ ok s' → IsStorage id s'
    unfolding add_domain fiber_domains
    add_domain-IsStorage h =
        on_current-IsStorage id s.fresh (suc s.fresh) (omega arith)
          (λ stack. ok (new_domain s.fresh ∷ stack)) s.fiber s.sets s.domains s.buildin
          (record s { fresh = suc s.fresh }) s'
          (λ stack after g e. subst (All (Good id (suc s.fresh))) (ok-injective _ _ e) (
            new_domain-Good id s.fresh is_storage.0 (new_domain s.fresh) refl,
            rest-Good id s.fresh (suc s.fresh) (omega arith) stack g,
          ))
          Old-suc refl is_storage.1 is_storage.2 h

    pub clear_domain-IsStorage : clear_domain s ≡ ok s' → IsStorage id s'
    unfolding clear_domain fiber_domains
    clear_domain-IsStorage h =
        on_current-IsStorage id s.fresh (suc s.fresh) (omega arith) (on_top (clear s.fresh)) s.fiber
          s.sets s.domains s.buildin (record s { fresh = suc s.fresh }) s'
          (λ stack after g e.
            on_top-Good id s.fresh (suc s.fresh) (omega arith) (clear s.fresh) stack after
              (λ d _. clear-Good id s.fresh d is_storage.0) g e)
          Old-suc refl is_storage.1 is_storage.2 h

    pub next_domain-IsStorage : next_domain s ≡ ok s' → IsStorage id s'
    unfolding next_domain fiber_domains
    next_domain-IsStorage h =
        on_current-IsStorage id s.fresh s.fresh (omega arith) (on_top next) s.fiber s.sets s.domains
          s.buildin s s'
          (λ stack after g e.
            on_top-Good id s.fresh s.fresh (omega arith) next stack after
              (λ d. next-Good id s.fresh d) g e)
          is_storage.0 refl is_storage.1 is_storage.2 h

    pub remove_domain-IsStorage : remove_domain s ≡ ok s' → IsStorage id s'
    unfolding remove_domain fiber_domains
    remove_domain-IsStorage h =
        on_current-IsStorage id s.fresh (suc s.fresh) (omega arith)
          (λ stack. on_top (clear s.fresh) stack >>= pop) s.fiber s.sets s.domains s.buildin
          (record s { fresh = suc s.fresh }) s'
          (λ stack after g e.
            let (cleared, is_cleared, popped) =
              bind-eq-ok (on_top (clear s.fresh) stack) pop {t = after} e in
            pop-Good id (suc s.fresh) cleared after
              (on_top-Good id s.fresh (suc s.fresh) (omega arith) (clear s.fresh) stack cleared
                (λ d _. clear-Good id s.fresh d is_storage.0) g is_cleared)
              popped)
          Old-suc refl is_storage.1 is_storage.2 h

    pub add_var-IsStorage :
        (name : Bytes) (val : V) (is_override : Bool)
        → add_var s name val is_override ≡ ok s'
        → IsStorage id s'
    unfolding add_var fiber_domains
    add_var-IsStorage name val is_override h =
        on_current-IsStorage id s.fresh s.fresh (omega arith) (add_top name val is_override) s.fiber
          s.sets s.domains s.buildin s s' (add_top-Good id s.fresh name val is_override)
          is_storage.0 refl is_storage.1 is_storage.2 h

    -- A change of the sets of records.
    pub sets-IsStorage :
        (changed : Result (List (List Bytes)))
        → (changed >>= λ sets. ok (record s { sets = sets })) ≡ ok s'
        → IsStorage id s'
    unfolding fiber_domains
    sets-IsStorage changed h =
        let (sets, _, is_after) =
          bind-eq-ok changed (λ sets. ok (record s { sets = sets })) {t = s'} h in
        subst (IsStorage id) (ok-injective _ _ is_after) is_storage

    pub add_record-IsStorage : (name : Bytes) → add_record s name ≡ ok s' → IsStorage id s'
    unfolding add_record
    add_record-IsStorage name h =
        sets-IsStorage (on_top (λ names. name ∷ names) s.sets)
          (guard_ok (exist_record s name) _ _ s' h)

    pub clear_global-IsStorage : clear_global s ≡ ok s' → IsStorage id s'
    unfolding clear_global fiber_domains
    clear_global-IsStorage h =
        let (domains, changed, is_after) =
          bind-eq-ok (on_bottom (safe_rewind s.fresh) s.domains)
            (λ domains. ok (record s { domains = domains; fresh = suc s.fresh })) {t = s'} h in
        subst (IsStorage id) (ok-injective _ _ is_after) (
          Old-suc,
          rest-Good id s.fresh (suc s.fresh) (omega arith) (fiber_domains s) is_storage.1,
          on_bottom-Good id s.fresh (suc s.fresh) (omega arith) (safe_rewind s.fresh) s.domains
              domains
              (λ d g.
                subst (Good id (suc s.fresh)) (sym (safe_rewind-clear s.fresh d g.0))
                  (clear-Good id s.fresh d is_storage.0))
              is_storage.2 changed,
        )

    pub add_var_global-IsStorage :
        (name : Bytes) (val : V) → add_var_global s name val ≡ ok s' → IsStorage id s'
    unfolding add_var_global fiber_domains
    add_var_global-IsStorage name val h =
        let (global, _, guarded) =
          bind-eq-ok (bottom s.domains)
            (λ global.
              if exist global name
              then exists_already
              else on_bottom (λ d. Domain.add_var d name val) s.domains >>= λ domains.
                  ok (record s { domains = domains }))
            {t = s'} h in
        let (domains, changed, is_after) =
          bind-eq-ok (on_bottom (λ d. Domain.add_var d name val) s.domains)
            (λ domains. ok (record s { domains = domains })) {t = s'}
            (guard_ok (exist global name) _ _ s' guarded) in
        subst (IsStorage id) (ok-injective _ _ is_after) (
          is_storage.0,
          is_storage.1,
          on_bottom-Good id s.fresh s.fresh (omega arith) (λ d. Domain.add_var d name val) s.domains
              domains (λ d. add_var-Good id s.fresh d name val) is_storage.2 changed,
        )
