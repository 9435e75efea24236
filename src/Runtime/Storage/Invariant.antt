-- ===== src/Runtime/Storage/Invariant.antt =====
-- What the operations of `domain_manager` keep, in whatever order they are called.
use covscript.Prelude.{
  All-map, ok-injective, ℕ, suc, ◌<◌, ◌≤◌, List, [], ◌∷◌, All, Option, none, some, Option-cases,
  inl, inr, Result, ok, bind-eq-ok, ◌≡◌, refl, sym, subst, arith,
}
use covscript.Prelude.Names.{Bytes, find}
use covscript.Runtime.Domain.{
  Domain, VarId, var_id, is_ref, new_domain, clear, safe_rewind, next, consistence, exist,
  add_var_optimal,
}
use covscript.Runtime.Domain
use covscript.Runtime.Domain.Table.{IsDomain, get_var_opt-add_var}
use covscript.Runtime.Domain.Cache.{Coherent, Coherent-add_var}
use covscript.Runtime.Storage.{Storage, on_current, on_top, on_bottom}
use covscript.Runtime.Storage.Vars.{fiber_domains}

-- The identifier knows no address that is still to be given out.
abbrev pub Old : VarId → ℕ → Type 0
Old id fresh = (ref : ℕ) → id.ref ≡ some ref → ref < fresh

module _ {V : Type 0} where
  -- The domain is well-formed, its address has been given out, and it agrees with the identifier.
  abbrev pub Good : VarId → ℕ → Domain V → Type 0
  Good id fresh d = IsDomain d × (d.ref < fresh) × Coherent d id

  abbrev pub IsStorage : VarId → Storage V → Type 0
  IsStorage id s =
      Old id s.fresh × All (Good id s.fresh) (fiber_domains s) × All (Good id s.fresh) s.domains

  pub stale : (id : VarId) (fresh : ℕ) (d : Domain V) → Old id fresh → d.ref ≡ fresh → Coherent d id
  unfolding consistence is_ref
  stale id fresh d old new h = elim (Option-cases id.ref) [
    | inl out ↦ absurd (ground (arith, h, out))
    | inr (ref, known) ↦ absurd (ground (arith, h, known, new, old ref known))
  ]

  pub new_domain-Good :
      (id : VarId) (fresh : ℕ)
      → Old id fresh
      → (d : Domain V) → d ≡ new_domain fresh
      → Good id (suc fresh) d
  unfolding new_domain
  new_domain-Good id fresh old d e =
      (rw e refl, rw e (omega arith), stale id fresh d old (rw e refl))

  pub weaken :
      (id : VarId) (fresh fresh' : ℕ) (d : Domain V)
      → fresh ≤ fresh'
      → Good id fresh d
      → Good id fresh' d
  weaken id fresh fresh' d le (t, lt, c) = (t, omega arith, c)

  pub clear-Good :
      (id : VarId) (fresh : ℕ) (d : Domain V) → Old id fresh → Good id (suc fresh) (clear fresh d)
  unfolding clear
  clear-Good id fresh d old = (refl, omega arith, stale id fresh (clear fresh d) old refl)

  pub next-Good : (id : VarId) (fresh : ℕ) (d : Domain V) → Good id fresh d → Good id fresh (next d)
  unfolding next consistence
  next-Good id fresh d g = g

  pub add_var-ref :
      (d : Domain V) (name : Bytes) (val : V) → (Domain.add_var d name val).ref ≡ d.ref
  unfolding Domain.add_var
  add_var-ref d name val = elim (Option-cases (find name d.reflect)) [
    | inl out ↦ rw (out, Domain.add_var) refl
    | inr (i, there) ↦ rw (there, Domain.add_var) refl
  ]

  pub add_var-Good :
      (id : VarId) (fresh : ℕ) (d : Domain V) (name : Bytes) (val : V)
      → Good id fresh d
      → Good id fresh (Domain.add_var d name val)
  add_var-Good id fresh d name val (t, lt, c) = (
    (get_var_opt-add_var d name val t).0,
    subst (λ r. r < fresh) (sym (add_var-ref d name val)) lt,
    Coherent-add_var d name val id c,
  )

  module _ (id : VarId) (fresh fresh' : ℕ) (le : fresh ≤ fresh') where
    pub rest-Good :
        (stack : List (Domain V)) → All (Good id fresh) stack → All (Good id fresh') stack
    rest-Good stack =
        All-map (Good id fresh) (Good id fresh') stack (λ d. weaken id fresh fresh' d le)

    pub on_top-Good :
        (f : Domain V → Domain V) (stack after : List (Domain V))
        → ((d : Domain V) → Good id fresh d → Good id fresh' (f d))
        → All (Good id fresh) stack
        → on_top f stack ≡ ok after
        → All (Good id fresh') after
    unfolding on_top
    on_top-Good f [] after keeps g h = absurd cc
    on_top-Good f (d ∷ stack) after keeps g h =
        subst (All (Good id fresh')) (ok-injective _ _ h) (keeps d g.0, rest-Good stack g.1)

    pub on_bottom-Good :
        (f : Domain V → Domain V) (stack after : List (Domain V))
        → ((d : Domain V) → Good id fresh d → Good id fresh' (f d))
        → All (Good id fresh) stack
        → on_bottom f stack ≡ ok after
        → All (Good id fresh') after
    unfolding on_bottom
    on_bottom-Good f [] after keeps g h = absurd cc
    on_bottom-Good f (d ∷ []) after keeps g h =
        subst (All (Good id fresh')) (ok-injective _ _ h) (keeps d g.0, tt)
    on_bottom-Good f (d ∷ e ∷ stack) after keeps g h =
        let (rest, below, all) =
          bind-eq-ok (on_bottom f (e ∷ stack)) (λ rest. ok (d ∷ rest)) {t = after} h in
        subst (All (Good id fresh')) (ok-injective _ _ all)
          (weaken id fresh fresh' d le g.0, on_bottom-Good f (e ∷ stack) rest keeps g.1 below)

    -- A change of the current stack.
    pub on_current-IsStorage :
        (f : List (Domain V) → Result (List (Domain V))) (fiber : Option (List (Domain V)))
        (sets : List (List Bytes)) (domains : List (Domain V)) (buildin : List Bytes)
        (s s' : Storage V)
        → ((stack after : List (Domain V))
            → All (Good id fresh) stack
            → f stack ≡ ok after
            → All (Good id fresh') after)
        → Old id fresh'
        → s ≡ record {
          fiber = fiber;
          sets = sets;
          domains = domains;
          buildin = buildin;
          fresh = fresh';
        }
        → All (Good id fresh) (fiber_domains s)
        → All (Good id fresh) domains
        → on_current f s ≡ ok s'
        → IsStorage id s'
    unfolding on_current fiber_domains
    on_current-IsStorage f none sets domains buildin s s' keeps old e g_fiber g h =
        let (after, changed, is_after) =
          bind-eq-ok (f domains)
            (λ after. ok (record {
              fiber = none;
              sets = sets;
              domains = after;
              buildin = buildin;
              fresh = fresh';
            }))
            {t = s'} (subst (λ (u : Storage V). on_current f u ≡ ok s') e h) in
        subst (IsStorage id) (ok-injective _ _ is_after) (old, tt, keeps domains after g changed)
    on_current-IsStorage f (some stack) sets domains buildin s s' keeps old e g_fiber g h =
        let (after, changed, is_after) =
          bind-eq-ok (f stack)
            (λ after. ok (record {
              fiber = some after;
              sets = sets;
              domains = domains;
              buildin = buildin;
              fresh = fresh';
            }))
            {t = s'} (subst (λ (u : Storage V). on_current f u ≡ ok s') e h) in
        let g_stack = subst (λ (u : Storage V). All (Good id fresh) (fiber_domains u)) e g_fiber in
        subst (IsStorage id) (ok-injective _ _ is_after)
          (old, keeps stack after g_stack changed, rest-Good domains g)
