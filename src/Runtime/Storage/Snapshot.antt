-- ===== src/Runtime/Storage/Snapshot.antt =====
-- `domain_snapshot` and `storage_transaction`: a failed compilation puts the scopes back. A `V` is a `var`, a
-- reference that its copies share: what a program assigns to the object behind it in place is not part of a
-- storage, and no snapshot holds it.
use covscript.Prelude.{
  ℕ, suc, ◌+◌, ◌≤◌, Bool, true, false, List, [], ◌∷◌, All, length, map, get_elem?, reverse,
  reverse-reverse, Option, none, some, Option-cases, inl, inr, ◌≡◌, refl, sym, ap, ◌∙◌, arith,
}
use mathlib.Core.List.{reverse_aux}
use covscript.Prelude.Names.{Bytes, find}
use covscript.Runtime.Domain.{Domain, copy_domain, get_var_opt}
use covscript.Runtime.Storage.{Storage}
use covscript.Runtime.Storage.Vars.{get_in}

-- Both lists have the bottom first.
pub record Snapshot (V : Type 0) : Type 0 where
  pub domains : List (Domain V)
  pub sets : List (List Bytes)

-- `m_storage` is an argument of the operations below.
pub record StorageTransaction (V : Type 0) : Type 0 where
  pub snap : Option (Snapshot V)
  pub committed : Bool

-- The loop that pushes the sets of a snapshot.
unfoldable pub push_sets : List (List Bytes) → List (List Bytes) → List (List Bytes)
push_sets [] stack = stack
push_sets (names ∷ sets) stack = push_sets sets (names ∷ stack)

push_sets-reverse_aux :
    (sets stack : List (List Bytes)) → push_sets sets stack ≡ reverse_aux sets stack
unfolding push_sets
push_sets-reverse_aux [] stack = refl
push_sets-reverse_aux (names ∷ sets) stack = push_sets-reverse_aux sets (names ∷ stack)

module _ {V : Type 0} where
  unfoldable pub copies : ℕ → List (Domain V) → List (Domain V)
  unfolding copy_domain
  copies ref [] = []
  copies ref (d ∷ domains) = copy_domain ref d ∷ copies (suc ref) domains

  unfoldable pub create_snapshot : Storage V → Snapshot V × Storage V
  unfolding copies
  create_snapshot s = (
    record { domains = reverse (copies s.fresh s.domains); sets = reverse s.sets },
    record s { fresh = s.fresh + length s.domains },
  )

  -- The loop that pushes the domains of a snapshot.
  unfoldable pub push_copies : ℕ → List (Domain V) → List (Domain V) → List (Domain V)
  unfolding copy_domain
  push_copies ref [] stack = stack
  push_copies ref (d ∷ domains) stack = push_copies (suc ref) domains (copy_domain ref d ∷ stack)

  unfoldable pub restore_snapshot : Snapshot V → Storage V → Storage V
  unfolding push_copies push_sets
  restore_snapshot snap s = record s {
    domains = push_copies s.fresh snap.domains [];
    sets = push_sets snap.sets [];
    fresh = s.fresh + length snap.domains;
  }

  unfoldable pub new_transaction : Storage V → StorageTransaction V × Storage V
  unfolding create_snapshot
  new_transaction s =
      let (snap, s') = create_snapshot s in (record { snap = some snap; committed = false }, s')

  unfoldable pub commit : StorageTransaction V → StorageTransaction V
  commit t = record t { snap = none; committed = true }

  unfoldable pub discard : StorageTransaction V → StorageTransaction V
  discard t = record t { snap = none }

  -- Also the destructor.
  unfoldable pub rollback : StorageTransaction V → Storage V → StorageTransaction V × Storage V
  unfolding restore_snapshot
  rollback t s = elim t.snap [
    | none ↦ (t, s)
    | some snap ↦ (record t { snap = none }, restore_snapshot snap s)
  ]

  -- A domain without its address.
  abbrev pub contents : Domain V → List (Bytes × ℕ) × List V × Bool
  contents d = (d.reflect, d.slot, d.optimize)

  contents-copies :
      (ref : ℕ) (domains : List (Domain V))
      → map contents (copies ref domains) ≡ map contents domains
  unfolding copies
  contents-copies ref [] = refl
  contents-copies ref (d ∷ domains) =
      ap (λ rest. contents d ∷ rest) (contents-copies (suc ref) domains)

  contents-reverse_aux :
      (domains stack : List (Domain V))
      → map contents (reverse_aux domains stack)
        ≡ reverse_aux (map contents domains) (map contents stack)
  contents-reverse_aux [] stack = refl
  contents-reverse_aux (d ∷ domains) stack = contents-reverse_aux domains (d ∷ stack)

  contents-push_copies :
      (ref : ℕ) (domains stack : List (Domain V))
      → map contents (push_copies ref domains stack)
        ≡ reverse_aux (map contents domains) (map contents stack)
  unfolding push_copies
  contents-push_copies ref [] stack = refl
  contents-push_copies ref (d ∷ domains) stack =
      contents-push_copies (suc ref) domains (record d { ref = ref } ∷ stack)

  -- An identifier that was used before `bound` knows none of the domains.
  abbrev pub Forgotten : ℕ → List (Domain V) → Type 0
  Forgotten bound stack = All (λ (d : Domain V). bound ≤ d.ref) stack

  push_copies-Forgotten :
      (bound ref : ℕ) (domains stack : List (Domain V))
      → bound ≤ ref
      → Forgotten bound stack
      → Forgotten bound (push_copies ref domains stack)
  unfolding push_copies
  push_copies-Forgotten bound ref [] stack le f = f
  push_copies-Forgotten bound ref (d ∷ domains) stack le f =
      push_copies-Forgotten bound (suc ref) domains (record d { ref = ref } ∷ stack) (omega arith)
        (le, f)

  slot_of : List (Bytes × ℕ) → List V → Bytes → Option V
  unfolding find
  slot_of reflect slot name = elim (find name reflect) [ none ↦ none | some i ↦ get_elem? slot i ]

  get_contents : List (List (Bytes × ℕ) × List V × Bool) → Bytes → Option V
  unfolding slot_of
  get_contents [] name = none
  get_contents ((reflect, slot, optimize) ∷ rest) name = elim (slot_of reflect slot name) [
    | some v ↦ some v
    | none ↦ get_contents rest name
  ]

  -- The value of a name depends on the contents alone.
  get_in-contents :
      (stack : List (Domain V)) (name : Bytes)
      → get_in stack name ≡ get_contents (map contents stack) name
  unfolding get_in get_var_opt get_contents slot_of
  get_in-contents [] name = refl
  get_in-contents (d ∷ stack) name = elim (Option-cases (get_var_opt d name)) [
    | inl out ↦ rw (get_in, get_contents, out) (get_in-contents stack name)
    | inr (v, there) ↦ rw (get_in, get_contents, there) refl
  ]

  restore-contents :
      (s later : Storage V)
      → map contents (restore_snapshot (create_snapshot s).0 later).domains ≡ map contents s.domains
  unfolding restore_snapshot create_snapshot
  restore-contents s later =
      contents-push_copies later.fresh (reverse (copies s.fresh s.domains)) []
      ∙ ap (λ l. reverse l)
          (contents-reverse_aux (copies s.fresh s.domains) []
            ∙ ap (λ l. reverse l) (contents-copies s.fresh s.domains))
      ∙ reverse-reverse (map contents s.domains)

  restore-sets :
      (s later : Storage V) → (restore_snapshot (create_snapshot s).0 later).sets ≡ s.sets
  unfolding restore_snapshot create_snapshot
  restore-sets s later = push_sets-reverse_aux (reverse s.sets) [] ∙ reverse-reverse s.sets

  -- A transaction that is rolled back puts back the sets of records and the contents of every domain, whatever
  -- the storage has become: each name stands for the same `var`, which refers to the same object. What has
  -- been assigned to that object in place stays. No identifier used before the rollback knows any of the
  -- new domains. One that was committed or discarded changes nothing.
  pub rollback-new_transaction :
      (s later : Storage V)
      → let t = (new_transaction s).0 in
        let back = (rollback t later).1 in
        (back.sets ≡ s.sets)
        × (map contents back.domains ≡ map contents s.domains)
        × ((name : Bytes) → get_in back.domains name ≡ get_in s.domains name)
        × Forgotten later.fresh back.domains
        × ((rollback (commit t) later).1 ≡ later)
        × ((rollback (discard t) later).1 ≡ later)
        × ((rollback (rollback t later).0 back).1 ≡ back)
  unfolding rollback new_transaction commit discard
  rollback-new_transaction s later =
      let same_contents = restore-contents s later in
      (
        restore-sets s later,
        same_contents,
        (λ name.
            get_in-contents (restore_snapshot (create_snapshot s).0 later).domains name
            ∙ ap (λ c. get_contents c name) same_contents
            ∙ sym (get_in-contents s.domains name)),
        push_copies-Forgotten later.fresh later.fresh (create_snapshot s).0.domains [] (omega arith)
            tt,
        refl,
        refl,
        refl,
      )
