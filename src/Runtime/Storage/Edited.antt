-- ===== src/Runtime/Storage/Edited.antt =====
-- Each call of `domain_manager` changes one domain at most.
use covscript.Prelude.{
  ℕ, suc, Bool, inl, inr, List, [], ◌∷◌, Result, ok, ok-injective, bind-eq-ok, ◌>>=◌, if◌then◌else◌,
  ◌≡◌, refl, subst, ap,
}
use covscript.Prelude.Names.{Bytes}
use covscript.Runtime.Domain.{
  Domain, VarId, var_id, new_domain, copy_domain, clear, safe_rewind, next, consistence, slot_at,
  exist,
}
use covscript.Runtime.Domain
use covscript.Runtime.Storage.{
  Storage, add_domain, remove_domain, clear_domain, next_domain, clear_global, on_top, on_bottom,
  bottom, pop,
}
use covscript.Runtime.Storage.Vars.{fiber_domains, add_top, add_var, add_var_global, exists_already}
use covscript.Runtime.Storage.Addresses.{
  all_domains, Edit, same, inserted, removed, on_current-Edit, on_top-Edit, on_bottom-Edit,
  bottom_of-Edit,
}
use covscript.Runtime.Storage.Invariant.{add_var-ref}
use covscript.Runtime.Storage.Calls.{guard_ok, added_top}

module _ {V : Type 0} where
  new_ref : (d : Domain V) (fresh : ℕ) → d ≡ new_domain fresh → d.ref ≡ fresh
  unfolding new_domain
  new_ref d fresh e = ap (λ x. x.ref) e

  clear_ref : (fresh : ℕ) (d : Domain V) → (clear fresh d).ref ≡ fresh
  unfolding clear
  clear_ref fresh d = refl

  rewind_ref : (fresh : ℕ) (d : Domain V) → (safe_rewind fresh d).ref ≡ fresh
  unfolding safe_rewind
  rewind_ref fresh d = refl

  next_ref : (d : Domain V) → (next d).ref ≡ d.ref
  unfolding next
  next_ref d = refl

  pop_cleared :
      (fresh : ℕ) (ds es : List (Domain V))
      → (on_top (clear fresh) ds >>= pop) ≡ ok es
      → Edit fresh ds es
  unfolding on_top pop
  pop_cleared fresh [] es h = absurd cc
  pop_cleared fresh (d ∷ ds) es h = subst (Edit fresh (d ∷ ds)) (ok-injective _ _ h) (removed d ds)

  pub add_domain-Edit :
      (s s' : Storage V) → add_domain s ≡ ok s' → Edit s.fresh (all_domains s) (all_domains s')
  unfolding add_domain all_domains fiber_domains
  add_domain-Edit s s' h =
      on_current-Edit s.fresh (λ stack. ok (new_domain s.fresh ∷ stack))
        (record s { fresh = suc s.fresh }) s'
        (λ ds es e.
          subst (Edit s.fresh ds) (ok-injective _ _ e)
            (inserted (new_domain s.fresh) ds (new_ref (new_domain s.fresh) s.fresh refl)))
        h

  pub remove_domain-Edit :
      (s s' : Storage V) → remove_domain s ≡ ok s' → Edit s.fresh (all_domains s) (all_domains s')
  unfolding remove_domain all_domains fiber_domains
  remove_domain-Edit s s' h =
      on_current-Edit s.fresh (λ stack. on_top (clear s.fresh) stack >>= pop)
        (record s { fresh = suc s.fresh }) s' (pop_cleared s.fresh) h

  pub clear_domain-Edit :
      (s s' : Storage V) → clear_domain s ≡ ok s' → Edit s.fresh (all_domains s) (all_domains s')
  unfolding clear_domain all_domains fiber_domains
  clear_domain-Edit s s' h =
      on_current-Edit s.fresh (on_top (clear s.fresh)) (record s { fresh = suc s.fresh }) s'
        (λ ds es. on_top-Edit s.fresh (clear s.fresh) ds es (λ d. inr (clear_ref s.fresh d))) h

  pub next_domain-Edit :
      (s s' : Storage V) → next_domain s ≡ ok s' → Edit s.fresh (all_domains s) (all_domains s')
  unfolding next_domain
  next_domain-Edit s s' h =
      on_current-Edit s.fresh (on_top next) s s'
        (λ ds es. on_top-Edit s.fresh next ds es (λ d. inl (next_ref d))) h

  pub sets-Edit :
      (s s' : Storage V) (changed : Result (List (List Bytes)))
      → (changed >>= λ sets. ok (record s { sets = sets })) ≡ ok s'
      → Edit s.fresh (all_domains s) (all_domains s')
  unfolding all_domains fiber_domains
  sets-Edit s s' changed h =
      let after = bind-eq-ok changed (λ sets. ok (record s { sets = sets })) {t = s'} h in
      subst (λ (u : Storage V). Edit s.fresh (all_domains s) (all_domains u))
        (ok-injective _ _ after.2) (same (all_domains s))

  pub clear_global-Edit :
      (s s' : Storage V) → clear_global s ≡ ok s' → Edit s.fresh (all_domains s) (all_domains s')
  unfolding clear_global
  clear_global-Edit s s' h =
      let after =
        bind-eq-ok (on_bottom (safe_rewind s.fresh) s.domains)
          (λ domains. ok (record s { domains = domains; fresh = suc s.fresh })) {t = s'} h in
      subst (λ (u : Storage V). Edit s.fresh (all_domains s) (all_domains u))
        (ok-injective _ _ after.2)
        (bottom_of-Edit s.fresh s after.0 (suc s.fresh) (
          on_bottom-Edit s.fresh (safe_rewind s.fresh) s.domains after.0
            (λ d. inr (rewind_ref s.fresh d)) after.1))

  pub add_var_global-Edit :
      (s s' : Storage V) (name : Bytes) (val : V)
      → add_var_global s name val ≡ ok s'
      → Edit s.fresh (all_domains s) (all_domains s')
  unfolding add_var_global
  add_var_global-Edit s s' name val h =
      let guarded =
        bind-eq-ok (bottom s.domains)
          (λ global.
            if exist global name
            then exists_already
            else on_bottom (λ d. Domain.add_var d name val) s.domains >>= λ domains.
                ok (record s { domains = domains }))
          {t = s'} h in
      let after =
        bind-eq-ok (on_bottom (λ d. Domain.add_var d name val) s.domains)
          (λ domains. ok (record s { domains = domains })) {t = s'}
          (guard_ok (exist guarded.0 name) _ _ s' guarded.2) in
      subst (λ (u : Storage V). Edit s.fresh (all_domains s) (all_domains u))
        (ok-injective _ _ after.2)
        (bottom_of-Edit s.fresh s after.0 s.fresh (
          on_bottom-Edit s.fresh (λ d. Domain.add_var d name val) s.domains after.0
            (λ d. inl (add_var-ref d name val)) after.1))

  pub add_var-Edit :
      (s s' : Storage V) (name : Bytes) (val : V) (is_override : Bool)
      → add_var s name val is_override ≡ ok s'
      → Edit s.fresh (all_domains s) (all_domains s')
  unfolding add_var
  add_var-Edit s s' name val is_override h =
      on_current-Edit s.fresh (add_top name val is_override) s s'
        (λ ds es e.
          on_top-Edit s.fresh (λ d. Domain.add_var d name val) ds es
            (λ d. inl (add_var-ref d name val)) (added_top name val is_override ds es e))
        h
