-- ===== src/Runtime/Storage/Identifiers.antt =====
-- Calls by an identifier, which they change.
use covscript.Prelude.{
  All-map, All-append, All-split, ok-injective, ℕ, suc, ◌<◌, Bool, List, [], ◌∷◌, All, some,
  Option-cases, Bool-cases, ok, bind-eq-ok, ◌⊎◌, inl, inr, get_elem?, ◌≡◌, sym, subst, ap, ◌∙◌,
  arith,
}
use covscript.Prelude.Names.{find}
use covscript.Runtime.Domain.{
  Domain, VarId, is_ref, consistence, exist, get_var_no_check, slot_at, add_var_optimal_id,
}
use covscript.Runtime.Domain
use covscript.Runtime.Domain.Cache.{Coherent, add_var_optimal_id-home}
use covscript.Runtime.Storage.{Storage, on_current, on_top}
use covscript.Runtime.Storage.Vars.{
  fiber_domains, scan, get_in_id, get_var_id, add_top_id, add_var_id,
}
use covscript.Runtime.Storage.Addresses.{
  all_domains, Below, Distinct, Home, Home-Coherent, Home-front, Home-back, Home-Below,
}
use covscript.Runtime.Storage.Invariant.{Good, IsStorage}

found : {A : Type 0} {a b : A} → some a ≡ some b → a ≡ b
found h = cc

widen : {A B C : Type 0} → A ⊎ B → (B → C) → A ⊎ C
widen (inl a) f = inl a
widen (inr b) f = inr (f b)

module _ {V : Type 0} where
  -- What a call has written to an identifier: nothing that counts, or where it was used.
  abbrev pub Moved : List (Domain V) → VarId → VarId → Type 0
  Moved ds id id' =
      (id'.id ≡ id.id) × (((id'.ref ≡ id.ref) × (id'.slot_id ≡ id.slot_id)) ⊎ Home ds id')

  no_check-Moved :
      (d : Domain V) (ds : List (Domain V)) (id id' : VarId) (i : ℕ) (v : V)
      → get_var_no_check d id i ≡ ok (v, id')
      → Moved (d ∷ ds) id id'
  unfolding get_var_no_check
  no_check-Moved d ds id id' i v h = elim (Bool-cases (is_ref d.ref id.ref)) [
    | inl cached ↦
        let read = bind-eq-ok (slot_at d id.slot_id) _ (rw (get_var_no_check, cached) at h) in
        let same = ap (λ r. r.1) (ok-injective _ _ read.2) in
        (
          ap (λ x. x.id) (sym same),
          inl (ap (λ x. x.ref) (sym same), ap (λ x. x.slot_id) (sym same)),
        )
    | inr stale ↦ elim (Option-cases (find id.id d.reflect)) [
      | inl out ↦ absurd (ground (arith, rw (get_var_no_check, stale, out) at h))
      | inr (slot, there) ↦
          let read = bind-eq-ok (slot_at d slot) _ (rw (get_var_no_check, stale, there) at h) in
          let same = ap (λ r. r.1) (ok-injective _ _ read.2) in
          (
            ap (λ x. x.id) (sym same),
            inr (
                inl (
                  ap (λ x. x.ref) (sym same),
                  subst (λ (x : VarId). find x.id d.reflect ≡ some x.slot_id) same there,
                )),
          )
    ]
  ]

  further :
      (d : Domain V) (ds : List (Domain V)) (id id' : VarId)
      → Moved ds id id'
      → Moved (d ∷ ds) id id'
  further d ds id id' (named, inl same) = (named, inl same)
  further d ds id id' (named, inr home) = (named, inr (inr home))

  scan-Moved :
      (ds : List (Domain V)) (id id' : VarId) (i : ℕ) (v : V)
      → scan ds id i ≡ some (ok (v, id'))
      → Moved ds id id'
  unfolding scan
  scan-Moved [] id id' i v h = absurd cc
  scan-Moved (d ∷ ds) id id' i v h = elim (Bool-cases (exist d id.id)) [
    | inl there ↦ no_check-Moved d ds id id' i v (found (rw there at h))
    | inr other ↦ further d ds id id' (scan-Moved ds id id' (suc i) v (rw other at h))
  ]

  get_in_id-Moved :
      (ds : List (Domain V)) (id id' : VarId) (v : V)
      → get_in_id ds id ≡ some (ok (v, id'))
      → Moved ds id id'
  unfolding get_in_id
  get_in_id-Moved ds id id' v h = elim (Option-cases (get_elem? ds id.domain_id)) [
    | inl out ↦ scan-Moved ds id id' 0 v (rw (get_in_id, out) at h)
    | inr (d, at_id) ↦ elim (Bool-cases (consistence d id)) [
      | inl cached ↦
          let read =
            bind-eq-ok (slot_at d id.slot_id) _ (found (rw (get_in_id, at_id, cached) at h)) in
          let same = ap (λ r. r.1) (ok-injective _ _ read.2) in
          (
            ap (λ x. x.id) (sym same),
            inl (ap (λ x. x.ref) (sym same), ap (λ x. x.slot_id) (sym same)),
          )
      | inr stale ↦ scan-Moved ds id id' 0 v (rw (get_in_id, at_id, stale) at h)
    ]
  ]

  pub get_var_id-Moved :
      (s : Storage V) (id id' : VarId) (v : V)
      → get_var_id s id ≡ ok (v, id')
      → Moved (all_domains s) id id'
  unfolding get_var_id all_domains
  get_var_id-Moved s id id' v h = elim (Option-cases (get_in_id (fiber_domains s) id)) [
    | inr (r, in_fiber) ↦
        let moved =
          get_in_id-Moved (fiber_domains s) id id' v
            (in_fiber ∙ ap some (rw (get_var_id, in_fiber) at h)) in
        (moved.0, widen moved.1 (Home-front (fiber_domains s) s.domains id'))
    | inl out ↦ elim (Option-cases (get_in_id s.domains id)) [
      | inr (r, in_domains) ↦
          let moved =
            get_in_id-Moved s.domains id id' v
              (in_domains ∙ ap some (rw (get_var_id, out, in_domains) at h)) in
          (moved.0, widen moved.1 (Home-back (fiber_domains s) s.domains id'))
      | inl missing ↦ absurd (ground (arith, rw (get_var_id, out, missing) at h))
    ]
  ]

  add_top_id-Moved :
      (id id' : VarId) (val : V) (is_override : Bool) (ds es : List (Domain V))
      → All (λ (d : Domain V). Coherent d id) ds
      → add_top_id id val is_override ds ≡ ok (es, id')
      → (on_top (λ d. Domain.add_var d id.id val) ds ≡ ok es) × Moved es id id'
  unfolding add_top_id on_top
  add_top_id-Moved id id' val is_override [] es c h = absurd cc
  add_top_id-Moved id id' val is_override (d ∷ ds) es c h =
      elim (Bool-cases (add_var_optimal_id d id val is_override).2) [
        | inr refused ↦ absurd (ground (arith, rw refused at h))
        | inl added ↦
            let home = add_var_optimal_id-home d id val is_override c.0 added in
            let made = ok-injective _ _ (rw added at h) in
            let top = add_var_optimal_id d id val is_override in
            (
              ap (λ e. ok (e ∷ ds)) (sym home.0) ∙ ap (λ r. ok r.0) made,
              subst (λ (r : List (Domain V) × VarId). Moved r.0 id r.1) made
                  (elim home.1 [
                    | inl same ↦
                        (ap (λ x. x.id) same, inl (ap (λ x. x.ref) same, ap (λ x. x.slot_id) same))
                    | inr (named, known, there) ↦
                        (named, inr (inl (known, ap (λ n. find n top.0.reflect) named ∙ there)))
                  ]),
            )
      ]

  pub add_var_id-Moved :
      (s s' : Storage V) (id id' : VarId) (val : V) (is_override : Bool)
      → All (λ (d : Domain V). Coherent d id) (fiber_domains s)
      → All (λ (d : Domain V). Coherent d id) s.domains
      → add_var_id s id val is_override ≡ ok (s', id')
      → (on_current (on_top (λ d. Domain.add_var d id.id val)) s ≡ ok s')
        × Moved (all_domains s') id id'
  unfolding add_var_id on_current all_domains fiber_domains
  add_var_id-Moved s s' id id' val is_override c_fiber c h = elim (Option-cases s.fiber) [
    | inl none_there ↦
        let top =
          bind-eq-ok (add_top_id id val is_override s.domains) _
            (rw (add_var_id, none_there) at h) in
        let moved = add_top_id-Moved id top.0.1 val is_override s.domains top.0.0 c top.1 in
        let made = ok-injective _ _ top.2 in
        (
          rw (on_current, none_there, moved.0) (ap (λ r. ok r.0) made),
          subst (λ (r : Storage V × VarId). Moved (all_domains r.0) id r.1) made
              (moved.1.0, widen moved.1.1 (Home-back (fiber_domains s) top.0.0 top.0.1)),
        )
    | inr (stack, there) ↦
        let top =
          bind-eq-ok (add_top_id id val is_override stack) _ (rw (add_var_id, there) at h) in
        let moved =
          add_top_id-Moved id top.0.1 val is_override stack top.0.0
            (rw (fiber_domains, there) at c_fiber) top.1 in
        let made = ok-injective _ _ top.2 in
        (
          rw (on_current, there, moved.0) (ap (λ r. ok r.0) made),
          subst (λ (r : Storage V × VarId). Moved (all_domains r.0) id r.1) made
              (moved.1.0, widen moved.1.1 (Home-front top.0.0 s.domains top.0.1)),
        )
  ]

  relabelled :
      (d : Domain V) (id id' : VarId)
      → id'.id ≡ id.id
      → id'.ref ≡ id.ref
      → id'.slot_id ≡ id.slot_id
      → Coherent d id
      → Coherent d id'
  unfolding consistence
  relabelled d id id' named known slot c h =
      ap (λ n. find n d.reflect) named
      ∙ c (ap (λ r. is_ref d.ref r) (sym known) ∙ h)
      ∙ ap some (sym slot)

  both_stacks :
      (s : Storage V) (id : VarId)
      → All (λ (d : Domain V). Coherent d id) (all_domains s)
      → All (λ (d : Domain V). Coherent d id) (fiber_domains s)
        × All (λ (d : Domain V). Coherent d id) s.domains
  unfolding all_domains
  both_stacks s id = All-split (λ (d : Domain V). Coherent d id) (fiber_domains s) s.domains

  -- The stack is as well-formed as it was, and agrees with the changed identifier.
  again :
      (fresh : ℕ) (id id' : VarId) (ds : List (Domain V))
      → All (Good id fresh) ds
      → All (λ (d : Domain V). Coherent d id') ds
      → All (Good id' fresh) ds
  again fresh id id' [] g c = tt
  again fresh id id' (d ∷ ds) g c = ((g.0.0, g.0.1, c.0), again fresh id id' ds g.1 c.1)

  pub Below-IsStorage :
      (id : VarId) (s : Storage V) → IsStorage id s → Below s.fresh (all_domains s)
  unfolding all_domains
  Below-IsStorage id s g =
      All-append (λ (d : Domain V). d.ref < s.fresh) (fiber_domains s) s.domains
        (All-map (Good id s.fresh) (λ (d : Domain V). d.ref < s.fresh) (fiber_domains s)
          (λ d h. h.1) g.1)
        (All-map (Good id s.fresh) (λ (d : Domain V). d.ref < s.fresh) s.domains (λ d h. h.1) g.2)

  pub Moved-IsStorage :
      (s : Storage V) (id id' : VarId)
      → Distinct (all_domains s)
      → Moved (all_domains s) id id'
      → IsStorage id s
      → IsStorage id' s
  Moved-IsStorage s id id' distinct (named, inl (known, slot)) g = (
    (λ ref h. g.0 ref (sym known ∙ h)),
    All-map (Good id s.fresh) (Good id' s.fresh) (fiber_domains s)
        (λ d h. (h.0, h.1, relabelled d id id' named known slot h.2)) g.1,
    All-map (Good id s.fresh) (Good id' s.fresh) s.domains
        (λ d h. (h.0, h.1, relabelled d id id' named known slot h.2)) g.2,
  )
  Moved-IsStorage s id id' distinct (named, inr home) g =
      let coherent = both_stacks s id' (Home-Coherent (all_domains s) id' distinct home) in
      (
        Home-Below s.fresh (all_domains s) id' (Below-IsStorage id s g) home,
        again s.fresh id id' (fiber_domains s) g.1 coherent.0,
        again s.fresh id id' s.domains g.2 coherent.1,
      )
