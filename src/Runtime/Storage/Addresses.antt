-- ===== src/Runtime/Storage/Addresses.antt =====
-- The addresses of the domains of a storage differ.
use covscript.Prelude.{
  ℕ, ◌<◌, List, [], ◌∷◌, ◌++◌, All, All-map, ok, ok-injective, Option, Option-cases, none, some,
  Result, bind-eq-ok, ◌⊎◌, inl, inr, true, ◌≡◌, refl, sym, subst, ap, ◌∙◌, arith,
}
use covscript.Runtime.Domain.{Domain, VarId, consistence, is_ref}
use covscript.Prelude.Names.{find}
use covscript.Runtime.Domain.Cache.{Coherent}
use covscript.Runtime.Storage.{Storage, on_current, on_top, on_bottom}
use covscript.Runtime.Storage.Vars.{fiber_domains}

same_ref : (a b : ℕ) → some a ≡ some b → a ≡ b
same_ref a b h = cc

module _ {V : Type 0} where
  -- Both stacks, the one of the fiber first.
  unfoldable pub all_domains : Storage V → List (Domain V)
  unfolding fiber_domains
  all_domains s = fiber_domains s ++ s.domains

  abbrev pub Apart : ℕ → List (Domain V) → Type 0
  Apart ref domains = All (λ (d : Domain V). ¬ (d.ref ≡ ref)) domains

  abbrev pub Below : ℕ → List (Domain V) → Type 0
  Below fresh domains = All (λ (d : Domain V). d.ref < fresh) domains

  abbrev pub Distinct : List (Domain V) → Type 0
  Distinct [] = Unit
  Distinct (d ∷ domains) = Apart d.ref domains × Distinct domains

  -- A change of one domain of a list: only the next address is new.
  pub data Edit (fresh : ℕ) : List (Domain V) → List (Domain V) → Type 0 where
    same : (ds : List (Domain V)) → Edit fresh ds ds
    inserted : (d : Domain V) (ds : List (Domain V)) → d.ref ≡ fresh → Edit fresh ds (d ∷ ds)
    removed : (d : Domain V) (ds : List (Domain V)) → Edit fresh (d ∷ ds) ds
    kept : (d e : Domain V) (ds : List (Domain V)) → e.ref ≡ d.ref → Edit fresh (d ∷ ds) (e ∷ ds)
    renewed : (d e : Domain V) (ds : List (Domain V)) → e.ref ≡ fresh → Edit fresh (d ∷ ds) (e ∷ ds)
    below :
        (d : Domain V) (ds es : List (Domain V)) → Edit fresh ds es → Edit fresh (d ∷ ds) (d ∷ es)

  Below-Apart : (fresh : ℕ) (ds : List (Domain V)) → Below fresh ds → Apart fresh ds
  Below-Apart fresh ds h =
      All-map (λ (d : Domain V). d.ref < fresh) (λ (d : Domain V). ¬ (d.ref ≡ fresh)) ds
        (λ d lt here. omega (arith, lt, here)) h

  Edit-Apart :
      (fresh ref : ℕ) (ds es : List (Domain V))
      → Edit fresh ds es
      → ref < fresh
      → Apart ref ds
      → Apart ref es
  Edit-Apart fresh ref _ _ (same ds) lt a = a
  Edit-Apart fresh ref _ _ (inserted d ds new) lt a = ((λ h. omega (arith, new, h, lt)), a)
  Edit-Apart fresh ref _ _ (removed d ds) lt a = a.1
  Edit-Apart fresh ref _ _ (kept d e ds old) lt a = ((λ h. a.0 (sym old ∙ h)), a.1)
  Edit-Apart fresh ref _ _ (renewed d e ds new) lt a = ((λ h. omega (arith, new, h, lt)), a.1)
  Edit-Apart fresh ref _ _ (below d ds es edit) lt a = (a.0, Edit-Apart fresh ref ds es edit lt a.1)

  pub Edit-Distinct :
      (fresh : ℕ) (ds es : List (Domain V))
      → Edit fresh ds es
      → Below fresh ds
      → Distinct ds
      → Distinct es
  Edit-Distinct fresh _ _ (same ds) b h = h
  Edit-Distinct fresh _ _ (inserted d ds new) b h =
      (subst (λ r. Apart r ds) (sym new) (Below-Apart fresh ds b), h)
  Edit-Distinct fresh _ _ (removed d ds) b h = h.1
  Edit-Distinct fresh _ _ (kept d e ds old) b h = (subst (λ r. Apart r ds) (sym old) h.0, h.1)
  Edit-Distinct fresh _ _ (renewed d e ds new) b h =
      (subst (λ r. Apart r ds) (sym new) (Below-Apart fresh ds b.1), h.1)
  Edit-Distinct fresh _ _ (below d ds es edit) b h =
      (Edit-Apart fresh d.ref ds es edit b.0 h.0, Edit-Distinct fresh ds es edit b.1 h.1)

  Edit-front :
      (fresh : ℕ) (front ds es : List (Domain V))
      → Edit fresh ds es
      → Edit fresh (front ++ ds) (front ++ es)
  Edit-front fresh [] ds es edit = edit
  Edit-front fresh (d ∷ front) ds es edit = below d _ _ (Edit-front fresh front ds es edit)

  Edit-back :
      (fresh : ℕ) (back ds es : List (Domain V))
      → Edit fresh ds es
      → Edit fresh (ds ++ back) (es ++ back)
  Edit-back fresh back _ _ (same ds) = same (ds ++ back)
  Edit-back fresh back _ _ (inserted d ds new) = inserted d (ds ++ back) new
  Edit-back fresh back _ _ (removed d ds) = removed d (ds ++ back)
  Edit-back fresh back _ _ (kept d e ds old) = kept d e (ds ++ back) old
  Edit-back fresh back _ _ (renewed d e ds new) = renewed d e (ds ++ back) new
  Edit-back fresh back _ _ (below d ds es edit) =
      below d (ds ++ back) (es ++ back) (Edit-back fresh back ds es edit)

  -- An edit of the current stack, and of the domains below.
  pub on_current-Edit :
      (fresh : ℕ) (f : List (Domain V) → Result (List (Domain V))) (s s' : Storage V)
      → ((ds es : List (Domain V)) → f ds ≡ ok es → Edit fresh ds es)
      → on_current f s ≡ ok s'
      → Edit fresh (all_domains s) (all_domains s')
  unfolding on_current all_domains fiber_domains
  on_current-Edit fresh f s s' edits h =
      elim s.fiber
          as (λ (o : Option (List (Domain V))).
            s.fiber ≡ o → Edit fresh (all_domains s) (all_domains s')) [
              | none ↦ λ at.
                  let changed = bind-eq-ok (f s.domains) _ (rw (on_current, at) at h) in
                  subst (λ (u : Storage V). Edit fresh (all_domains s) (all_domains u))
                    (ok-injective _ _ changed.2)
                    (rw (all_domains, fiber_domains, at) (edits s.domains changed.0 changed.1))
              | some stack ↦ λ at.
                  let changed = bind-eq-ok (f stack) _ (rw (on_current, at) at h) in
                  subst (λ (u : Storage V). Edit fresh (all_domains s) (all_domains u))
                    (ok-injective _ _ changed.2)
                    (rw (all_domains, fiber_domains, at)
                      (Edit-back fresh s.domains stack changed.0 (edits stack changed.0 changed.1)))
            ]
        refl

  pub on_top-Edit :
      (fresh : ℕ) (f : Domain V → Domain V) (ds es : List (Domain V))
      → ((d : Domain V) → ((f d).ref ≡ d.ref) ⊎ ((f d).ref ≡ fresh))
      → on_top f ds ≡ ok es
      → Edit fresh ds es
  unfolding on_top
  on_top-Edit fresh f [] es address h = absurd cc
  on_top-Edit fresh f (d ∷ ds) es address h =
      subst (Edit fresh (d ∷ ds)) (ok-injective _ _ h)
        (elim (address d) [ inl old ↦ kept d (f d) ds old | inr new ↦ renewed d (f d) ds new ])

  pub on_bottom-Edit :
      (fresh : ℕ) (f : Domain V → Domain V) (ds es : List (Domain V))
      → ((d : Domain V) → ((f d).ref ≡ d.ref) ⊎ ((f d).ref ≡ fresh))
      → on_bottom f ds ≡ ok es
      → Edit fresh ds es
  unfolding on_bottom on_top
  on_bottom-Edit fresh f [] es address h = absurd cc
  on_bottom-Edit fresh f (d ∷ []) es address h = on_top-Edit fresh f (d ∷ []) es address h
  on_bottom-Edit fresh f (d ∷ e ∷ ds) es address h =
      let rest = bind-eq-ok (on_bottom f (e ∷ ds)) (λ rest. ok (d ∷ rest)) {t = es} h in
      subst (Edit fresh (d ∷ e ∷ ds)) (ok-injective _ _ rest.2)
        (below d (e ∷ ds) rest.0 (on_bottom-Edit fresh f (e ∷ ds) rest.0 address rest.1))

  pub bottom_of-Edit :
      (fresh : ℕ) (s : Storage V) (domains : List (Domain V)) (fresh' : ℕ)
      → Edit fresh s.domains domains
      → Edit fresh (all_domains s) (all_domains (record s { domains = domains; fresh = fresh' }))
  unfolding all_domains fiber_domains
  bottom_of-Edit fresh s domains fresh' edit =
      Edit-front fresh (fiber_domains s) s.domains domains edit

  -- Where an identifier has been used: the domain has its address and its slot.
  abbrev pub Home : List (Domain V) → VarId → Type 0
  Home [] id = ⊥
  Home (d ∷ ds) id = ((id.ref ≡ some d.ref) × (find id.id d.reflect ≡ some id.slot_id)) ⊎ Home ds id

  ref_of :
      (d : Domain V) (id : VarId) (ref : ℕ)
      → id.ref ≡ some ref
      → consistence d id ≡ true
      → d.ref ≡ ref
  unfolding consistence is_ref
  ref_of d id ref known h = ground (arith, rw known at h)

  known_ref : (d : Domain V) (id : VarId) → consistence d id ≡ true → id.ref ≡ some d.ref
  unfolding consistence is_ref
  known_ref d id h = elim (Option-cases id.ref) [
    | inl out ↦ absurd (ground (arith, rw out at h))
    | inr (ref, known) ↦ known ∙ ap some (sym (ref_of d id ref known h))
  ]

  Home-Apart :
      (ref : ℕ) (ds : List (Domain V)) (id : VarId)
      → Apart ref ds
      → Home ds id
      → ¬ (id.ref ≡ some ref)
  Home-Apart ref [] id a home h = home
  Home-Apart ref (d ∷ ds) id a (inl (known, there)) h = a.0 cc
  Home-Apart ref (d ∷ ds) id a (inr home) h = Home-Apart ref ds id a.1 home h

  -- It agrees with all domains: the others have other addresses.
  pub Home-Coherent :
      (ds : List (Domain V)) (id : VarId)
      → Distinct ds
      → Home ds id
      → All (λ (d : Domain V). Coherent d id) ds
  Home-Coherent [] id distinct home = absurd home
  Home-Coherent (d ∷ ds) id distinct (inl (known, there)) = (
    (λ h. there),
    All-map (λ (e : Domain V). ¬ (e.ref ≡ d.ref)) (λ (e : Domain V). Coherent e id) ds
        (λ e other h. absurd (other (ref_of e id d.ref known h))) distinct.0,
  )
  Home-Coherent (d ∷ ds) id distinct (inr home) = (
    (λ h. absurd (Home-Apart d.ref ds id distinct.0 home (known_ref d id h))),
    Home-Coherent ds id distinct.1 home,
  )

  pub Home-front :
      (front back : List (Domain V)) (id : VarId) → Home front id → Home (front ++ back) id
  Home-front [] back id h = absurd h
  Home-front (d ∷ front) back id (inl h) = inl h
  Home-front (d ∷ front) back id (inr h) = inr (Home-front front back id h)

  pub Home-back :
      (front back : List (Domain V)) (id : VarId) → Home back id → Home (front ++ back) id
  Home-back [] back id h = h
  Home-back (d ∷ front) back id h = inr (Home-back front back id h)

  pub Home-Below :
      (fresh : ℕ) (ds : List (Domain V)) (id : VarId)
      → Below fresh ds
      → Home ds id
      → (ref : ℕ) → id.ref ≡ some ref
      → ref < fresh
  Home-Below fresh [] id b home ref h = absurd home
  Home-Below fresh (d ∷ ds) id b (inl (known, there)) ref h =
      omega (arith, b.0, same_ref d.ref ref (sym known ∙ h))
  Home-Below fresh (d ∷ ds) id b (inr home) ref h = Home-Below fresh ds id b.1 home ref h
