-- ===== src/Runtime/Domain/Table.antt =====
-- A domain is a finite map from names to values.
use covscript.Prelude.{
  ℕ, suc, ◌<◌, true, List, [], ◌∷◌, length, length-append, length-set, get_elem?-set,
  get_elem?-push, none, some, Option-cases, Bool-cases, inl, inr, ◌==◌, ==_iff, if◌then◌else◌, ◌≡◌,
  refl, sym, ap, ◌∙◌, arith,
}
use covscript.Prelude.Names.{Bytes, same, same_iff, find}
use covscript.Runtime.Domain.{
  Domain, add_var, get_var_opt, rewind_loop, safe_rewind, clear, push_slot, write_slot,
}

-- The slots are numbered in the order in which the names came, and no name comes twice.
abbrev pub IsTable : List (Bytes × ℕ) → ℕ → Type 0
IsTable [] n = n ≡ 0
IsTable ((name, i) ∷ reflect) n = (n ≡ suc i) × (find name reflect ≡ none) × IsTable reflect i

pub find-lt :
    (reflect : List (Bytes × ℕ)) (n i : ℕ) (name : Bytes)
    → IsTable reflect n
    → find name reflect ≡ some i
    → i < n
unfolding find
find-lt [] n i name t h = cc
find-lt ((j, k) ∷ reflect) n i name t h = ground (arith, find-lt reflect k i name)

-- Two names share no slot.
find-injective :
    (reflect : List (Bytes × ℕ)) (n i : ℕ) (j k : Bytes)
    → IsTable reflect n
    → find j reflect ≡ some i
    → find k reflect ≡ some i
    → same j k ≡ true
unfolding find
find-injective [] n i j k t h g = cc
find-injective ((l, m) ∷ reflect) n i j k t h g = ground (
  arith,
  find-injective reflect m i j k,
  find-lt reflect m i j,
  find-lt reflect m i k,
  same_iff l j,
  same_iff l k,
  same_iff j k,
)

find-same :
    (reflect : List (Bytes × ℕ)) (j k : Bytes) (i m n : ℕ)
    → IsTable reflect n
    → find j reflect ≡ some i
    → find k reflect ≡ some m
    → (i == m) ≡ same j k
find-same reflect j k i m n t h g = elim (Bool-cases (same j k)) [
  | inl e ↦ ground (arith, same_iff j k, h, g)
  | inr e ↦ elim (Bool-cases (i == m)) [
    | inl f ↦
        absurd (cc (e, find-injective reflect n i j k t h (g ∙ ap some (sym ((==_iff i m).0 f)))))
    | inr f ↦ rw (e, f)
  ]
]

rewind_loop-nil :
    (reflect : List (Bytes × ℕ)) (n : ℕ) → IsTable reflect n → rewind_loop n reflect ≡ []
unfolding rewind_loop
rewind_loop-nil [] n t = rw t
rewind_loop-nil ((name, i) ∷ reflect) n t =
    rw (t.0, (==_iff i i).1 refl) (rewind_loop-nil reflect i t.2)

module _ {V : Type 0} where
  abbrev pub IsDomain : Domain V → Type 0
  IsDomain d = IsTable d.reflect (length d.slot)

  -- `safe_rewind`, which takes the variables away one by one from the last, ends as `clear` does.
  pub safe_rewind-clear : (ref : ℕ) (d : Domain V) → IsDomain d → safe_rewind ref d ≡ clear ref d
  unfolding safe_rewind clear
  safe_rewind-clear ref d t = rw (rewind_loop-nil d.reflect (length d.slot) t)

  write-IsDomain : (d : Domain V) (i : ℕ) (v : V) → IsDomain d → IsDomain (write_slot d i v)
  write-IsDomain d i v t = rw (length-set d.slot i v) t

  push-IsDomain :
      (d : Domain V) (name : Bytes) (v : V)
      → find name d.reflect ≡ none
      → IsDomain d
      → IsDomain (push_slot d name v)
  push-IsDomain d name v h t = rw (length-append d.slot (v ∷ [])) (omega arith, h, t)

  get-write :
      (d : Domain V) (name k : Bytes) (i : ℕ) (v : V)
      → IsDomain d
      → find name d.reflect ≡ some i
      → get_var_opt (write_slot d i v) k ≡ (if same name k then some v else get_var_opt d k)
  unfolding get_var_opt
  get-write d name k i v t h = elim (Option-cases (find k d.reflect)) [
    | inl out ↦ rw (out, get_var_opt) (ground (arith, out, h, same_iff name k))
    | inr (j, there) ↦ ground (
      arith,
      there,
      h,
      same_iff name k,
      get_elem?-set d.slot i j v (find-lt d.reflect (length d.slot) i name t h),
      find-same d.reflect name k i j (length d.slot) t h there,
    )
  ]

  get-push :
      (d : Domain V) (name k : Bytes) (v : V)
      → IsDomain d
      → find name d.reflect ≡ none
      → get_var_opt (push_slot d name v) k ≡ (if same name k then some v else get_var_opt d k)
  unfolding get_var_opt
  get-push d name k v t h = elim (Option-cases (find k d.reflect)) [
    | inl out ↦ ground (arith, out, h, same_iff name k, get_elem?-push d.slot (length d.slot) v)
    | inr (j, there) ↦ ground (
      arith,
      there,
      h,
      same_iff name k,
      get_elem?-push d.slot j v,
      get_elem?-push d.slot (length d.slot) v,
      find-lt d.reflect (length d.slot) j k t there,
    )
  ]

  -- Adding a variable keeps the domain well-formed and changes the map at its name alone: there
  -- the value is found from now on.
  pub get_var_opt-add_var :
      (d : Domain V) (name : Bytes) (val : V)
      → IsDomain d
      → IsDomain (add_var d name val)
        × ((k : Bytes)
            → get_var_opt (add_var d name val) k
              ≡ (if same name k then some val else get_var_opt d k))
  unfolding add_var
  get_var_opt-add_var d name val t = elim (Option-cases (find name d.reflect)) [
    | inl out ↦ rw (out, add_var) (push-IsDomain d name val out t, λ k. get-push d name k val t out)
    | inr (i, there) ↦
        rw (there, add_var) (write-IsDomain d i val t, λ k. get-write d name k i val t there)
  ]
