-- ===== src/Runtime/Storage/Restored.antt =====
-- Snapshots keep a storage sound.
use covscript.Prelude.{
  All-map, All-reverse_aux, ℕ, suc, ◌+◌, ◌≤◌, List, [], ◌∷◌, ◌++◌, All, length, ◌≡◌, refl, subst,
  arith,
}
use covscript.Prelude.Names.{Bytes}
use covscript.Runtime.Domain.{Domain, VarId, copy_domain}
use covscript.Runtime.Domain.Table.{IsDomain}
use covscript.Runtime.Storage.{Storage}
use covscript.Runtime.Storage.Vars.{fiber_domains}
use covscript.Runtime.Storage.Snapshot.{
  Snapshot, copies, create_snapshot, push_copies, restore_snapshot,
}
use covscript.Runtime.Storage.Addresses.{all_domains, Apart, Distinct, inserted, bottom_of-Edit}
use covscript.Runtime.Storage.Invariant.{Good, IsStorage, stale, rest-Good}
use covscript.Runtime.Storage.Sound.{Sound, edited}

fresh_same : (fresh fresh' : ℕ) → fresh' ≡ fresh + 0 → fresh ≡ fresh'
fresh_same fresh fresh' e = omega (arith, e)

module _ {V : Type 0} where
  copies-IsDomain :
      (ref : ℕ) (ds : List (Domain V)) → All IsDomain ds → All IsDomain (copies ref ds)
  unfolding copies copy_domain
  copies-IsDomain ref [] h = tt
  copies-IsDomain ref (d ∷ ds) h = (h.0, copies-IsDomain (suc ref) ds h.1)

  -- Later addresses may be given out.
  later :
      (id : VarId) (s : Storage V) (fresh : ℕ)
      → s.fresh ≤ fresh
      → IsStorage id s
      → IsStorage id (record s { fresh = fresh })
  unfolding fiber_domains
  later id s fresh le g = (
    (λ ref h. omega (arith, g.0 ref h, le)),
    rest-Good id s.fresh fresh le (fiber_domains s) g.1,
    rest-Good id s.fresh fresh le s.domains g.2,
  )

  pub create_snapshot-Sound :
      (ids : ℕ → VarId) (s : Storage V)
      → Sound ids s
      → Sound ids (create_snapshot s).1 × All IsDomain (create_snapshot s).0.domains
  unfolding create_snapshot all_domains fiber_domains
  create_snapshot-Sound ids s sound = (
    (sound.0, λ n. later (ids n) s (s.fresh + length s.domains) (omega arith) (sound.1 n)),
    All-reverse_aux IsDomain (copies s.fresh s.domains) []
        (copies-IsDomain s.fresh s.domains
          (All-map (Good (ids 0) s.fresh) IsDomain s.domains (λ d g. g.0) (sound.1 0).2))
        tt,
  )

  -- One domain of a snapshot is pushed.
  push-Sound :
      (ids : ℕ → VarId) (s : Storage V) (d : Domain V)
      → IsDomain d
      → d.ref ≡ s.fresh
      → Sound ids s
      → Sound ids (record s { domains = d ∷ s.domains; fresh = suc s.fresh })
  unfolding fiber_domains
  push-Sound ids s d table at sound =
      edited ids s _ sound
        (bottom_of-Edit s.fresh s (d ∷ s.domains) (suc s.fresh) (inserted d s.domains at))
        (λ n.
          let g = later (ids n) s (suc s.fresh) (omega arith) (sound.1 n) in
          (g.0, g.1, ((table, omega (arith, at), stale (ids n) s.fresh d (sound.1 n).0 at), g.2)))

  Apart-front :
      (ref : ℕ) (front back : List (Domain V)) → Apart ref (front ++ back) → Apart ref (front ++ [])
  Apart-front ref [] back h = tt
  Apart-front ref (d ∷ front) back h = (h.0, Apart-front ref front back h.1)

  Distinct-front :
      (front back : List (Domain V)) → Distinct (front ++ back) → Distinct (front ++ [])
  Distinct-front [] back h = tt
  Distinct-front (d ∷ front) back h =
      (Apart-front d.ref front back h.0, Distinct-front front back h.1)

  -- All domains are popped.
  emptied :
      (ids : ℕ → VarId) (s : Storage V) (sets : List (List Bytes))
      → Sound ids s
      → Sound ids (record s { domains = []; sets = sets })
  unfolding all_domains fiber_domains
  emptied ids s sets sound =
      (Distinct-front (fiber_domains s) s.domains sound.0, λ n. ((sound.1 n).0, (sound.1 n).1, tt))

  pushed-Sound :
      (ids : ℕ → VarId) (ds : List (Domain V)) (s : Storage V) (fresh : ℕ)
      → All IsDomain ds
      → fresh ≡ s.fresh + length ds
      → Sound ids s
      → Sound ids (record s { domains = push_copies s.fresh ds s.domains; fresh = fresh })
  unfolding push_copies copy_domain
  pushed-Sound ids [] s fresh tables e sound =
      subst (λ f. Sound ids (record s { fresh = f })) (fresh_same s.fresh fresh e) sound
  pushed-Sound ids (d ∷ ds) s fresh tables e sound =
      let copied = record d { ref = s.fresh } in
      pushed-Sound ids ds (record s { domains = copied ∷ s.domains; fresh = suc s.fresh }) fresh
        tables.1 (omega (arith, e)) (push-Sound ids s copied tables.0 refl sound)

  pub restore_snapshot-Sound :
      (ids : ℕ → VarId) (snap : Snapshot V) (s : Storage V)
      → All IsDomain snap.domains
      → Sound ids s
      → Sound ids (restore_snapshot snap s)
  unfolding restore_snapshot
  restore_snapshot-Sound ids snap s tables sound =
      pushed-Sound ids snap.domains _ (s.fresh + length snap.domains) tables refl
        (emptied ids s _ sound)
