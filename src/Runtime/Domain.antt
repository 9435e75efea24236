-- ===== src/Runtime/Domain.antt =====
-- `var_id` and `domain_type` of include/covscript/core/core.hpp. `V` is `var`.
-- A reference to a variable is modelled by the value that it refers to. The address of a
-- `domain_ref`, by which a domain and a cached `var_id` know each other, is a number; what makes
-- a new one takes a number that the caller has not used.
pub mod Table
pub mod Cache
use covscript.Prelude.{
  ℕ, zero, suc, ◌-◌, Bool, true, false, List, [], ◌∷◌, ◌++◌, length, get_elem?, set, Option, none,
  some, Result, ok, err, String, runtime_error, out_of_range, ◌>>=◌, ◌==◌, if◌then◌else◌,
}
use covscript.Prelude.Names.{Bytes, same, find}

pub record VarId : Type 0 where
  pub domain_id : ℕ
  pub slot_id : ℕ
  pub ref : Option ℕ
  pub id : Bytes

-- `explicit var_id(std::string_view)`
abbrev pub var_id : Bytes → VarId
var_id name = record { domain_id = 0; slot_id = 0; ref = none; id = name }

pub record Domain (V : Type 0) : Type 0 where
  pub reflect : List (Bytes × ℕ)
  pub ref : ℕ
  pub slot : List V
  pub optimize : Bool

unfoldable pub is_ref : ℕ → Option ℕ → Bool
is_ref r none = false
is_ref r (some s) = s == r

-- `m_reflect.erase(rev[idx])`
unfoldable pub erase_slot : ℕ → List (Bytes × ℕ) → List (Bytes × ℕ)
erase_slot idx [] = []
erase_slot idx ((name, i) ∷ reflect) =
    if i == idx then reflect else (name, i) ∷ erase_slot idx reflect

-- The loop of `safe_rewind`, once for each slot that is left.
unfoldable pub rewind_loop : ℕ → List (Bytes × ℕ) → List (Bytes × ℕ)
unfolding erase_slot
rewind_loop zero reflect = reflect
rewind_loop (suc idx) reflect = rewind_loop idx (erase_slot idx reflect)

module _ {V : Type 0} where
  unfoldable pub new_domain : ℕ → Domain V
  new_domain ref = record { reflect = []; ref = ref; slot = []; optimize = false }

  -- The copy constructor.
  unfoldable pub copy_domain : ℕ → Domain V → Domain V
  copy_domain ref d = record d { ref = ref }

  unfoldable pub clear : ℕ → Domain V → Domain V
  clear ref d = record d { reflect = []; ref = ref; slot = []; optimize = false }

  unfoldable pub safe_rewind : ℕ → Domain V → Domain V
  unfolding rewind_loop
  safe_rewind ref d = record d {
    reflect = rewind_loop (length d.slot) d.reflect;
    ref = ref;
    slot = [];
    optimize = false;
  }

  unfoldable pub next : Domain V → Domain V
  next d = record d { optimize = true }

  unfoldable pub consistence : Domain V → VarId → Bool
  unfolding is_ref
  consistence d id = is_ref d.ref id.ref

  unfoldable pub exist : Domain V → Bytes → Bool
  unfolding find
  exist d name = elim (find name d.reflect) [ none ↦ false | some i ↦ true ]

  -- A new variable in a slot of its own.
  abbrev pub push_slot : Domain V → Bytes → V → Domain V
  push_slot d name val = record d {
    reflect = (name, length d.slot) ∷ d.reflect;
    slot = d.slot ++ val ∷ [];
  }

  abbrev pub write_slot : Domain V → ℕ → V → Domain V
  write_slot d i val = record d { slot = set d.slot i val }

  -- `add_var(const char *, const var &)`
  unfoldable pub add_var : Domain V → Bytes → V → Domain V
  unfolding find
  add_var d name val = elim (find name d.reflect) [
    | none ↦ push_slot d name val
    | some i ↦ write_slot d i val
  ]

  -- `add_var(const var_id &, const var &)`, which writes the slot into the identifier.
  unfoldable pub add_var_id : Domain V → VarId → V → Domain V × VarId
  unfolding find is_ref
  add_var_id d id val = elim (find id.id d.reflect) [
    | none ↦ (push_slot d id.id val, record id { slot_id = length d.slot; ref = some d.ref })
    | some i ↦
        if is_ref d.ref id.ref
        then (write_slot d id.slot_id val, id)
        else (write_slot d i val, record id { slot_id = i; ref = some d.ref })
  ]

  -- `add_var_optimal(const char *, const var &, bool)`
  unfoldable pub add_var_optimal : Domain V → Bytes → V → Bool → Domain V × Bool
  unfolding find
  add_var_optimal d name val override = elim (find name d.reflect) [
    | none ↦ (push_slot d name val, true)
    | some i ↦
        if d.optimize
        then (write_slot d i val, true)
        else if override
        then (write_slot d i val, true)
        else (d, false)
  ]

  -- `add_var_optimal(const var_id &, const var &, bool)`
  unfoldable pub add_var_optimal_id : Domain V → VarId → V → Bool → Domain V × VarId × Bool
  unfolding add_var_id
  add_var_optimal_id d id val override =
      if is_ref d.ref id.ref
      then if d.optimize
        then (write_slot d id.slot_id val, id, true)
        else if override
        then (let (e, id') = add_var_id d id val in (e, id', true))
        else (d, id, false)
      else (let (e, id') = add_var_id d id val in (e, id', true))

  -- `get_var_opt(std::string_view)`
  unfoldable pub get_var_opt : Domain V → Bytes → Option V
  unfolding find
  get_var_opt d name = elim (find name d.reflect) [ none ↦ none | some i ↦ get_elem? d.slot i ]

  -- `get_var_opt(const var_id &)`
  unfoldable pub get_var_opt_id : Domain V → VarId → Option V × VarId
  unfolding find is_ref
  get_var_opt_id d id =
      if is_ref d.ref id.ref
      then (get_elem? d.slot id.slot_id, id)
      else (elim (find id.id d.reflect) [
        | none ↦ (none, id)
        | some i ↦ (get_elem? d.slot i, record id { slot_id = i; ref = some d.ref })
      ])

  -- `m_slot[i]`. Out of range, where the source is undefined, the model says `out_of_range`.
  unfoldable pub slot_at : Domain V → ℕ → Result V
  slot_at d i = elim (get_elem? d.slot i) [ none ↦ err out_of_range | some v ↦ ok v ]

  -- The message names the variable; here as elsewhere the model leaves the name out.
  unfoldable pub get_slot_id : Domain V → Bytes → Result ℕ
  unfolding find
  get_slot_id d name = elim (find name d.reflect) [
    | none ↦ err (runtime_error "Use of undefined variable.")
    | some i ↦ ok i
  ]

  -- `get_var(std::string_view)`
  unfoldable pub get_var : Domain V → Bytes → Result V
  unfolding get_slot_id slot_at
  get_var d name = get_slot_id d name >>= λ i. slot_at d i

  -- `get_var(const var_id &)`
  unfoldable pub get_var_id : Domain V → VarId → Result (V × VarId)
  unfolding get_slot_id slot_at is_ref
  get_var_id d id =
      if is_ref d.ref id.ref
      then (slot_at d id.slot_id >>= λ v. ok (v, id))
      else (get_slot_id d id.id >>= λ i.
          slot_at d i >>= λ v. ok (v, record id { slot_id = i; ref = some d.ref }))

  -- `get_var_no_check(const var_id &, std::size_t)`; `m_reflect.at` throws on a missing name.
  unfoldable pub get_var_no_check : Domain V → VarId → ℕ → Result (V × VarId)
  unfolding find slot_at is_ref
  get_var_no_check d id domain_id =
      if is_ref d.ref id.ref
      then (slot_at d id.slot_id >>= λ v. ok (v, record id { domain_id = domain_id }))
      else (elim (find id.id d.reflect) [
        | none ↦ err out_of_range
        | some i ↦ slot_at d i >>= λ v.
            ok (v, record id { domain_id = domain_id; slot_id = i; ref = some d.ref })
      ])
