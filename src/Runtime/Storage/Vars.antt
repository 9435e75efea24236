-- ===== src/Runtime/Storage/Vars.antt =====
-- Reading and adding variables through the stacks of a `domain_manager`.
use covscript.Prelude.{
  ℕ, suc, Bool, List, [], ◌∷◌, get_elem?, Option, none, some, Result, ok, err, runtime_error,
  out_of_range, ◌>>=◌, if◌then◌else◌,
}
use covscript.Prelude.Names.{Bytes}
use covscript.Runtime.Domain.{
  Domain, VarId, consistence, exist, add_var_optimal, add_var_optimal_id, get_var_opt,
  get_var_no_check, slot_at,
}
use covscript.Runtime.Domain
use covscript.Runtime.Storage.{Storage, add_record, on_current, on_bottom, bottom, has}

module _ {ℓ} {T : Type ℓ} where
  abbrev pub undefined_variable : Result T
  undefined_variable = err (runtime_error "Use of undefined variable.")

  abbrev pub exists_already : Result T
  exists_already = err (runtime_error "Target domain exist variable.")

module _ {V : Type 0} where
  -- The domains behind `fiber_stack`; the null pointer has none to search.
  unfoldable pub fiber_domains : Storage V → List (Domain V)
  fiber_domains s = elim s.fiber [ none ↦ [] | some stack ↦ stack ]

  -- The loop of `get_var` over one stack, by name.
  unfoldable pub get_in : List (Domain V) → Bytes → Option V
  get_in [] name = none
  get_in (d ∷ stack) name = elim (get_var_opt d name) [ some v ↦ some v | none ↦ get_in stack name ]

  -- `get_var(const std::string &)`
  unfoldable pub get_var : Storage V → Bytes → Result V
  unfolding get_in fiber_domains
  get_var s name = elim (get_in (fiber_domains s) name) [
    | some v ↦ ok v
    | none ↦ elim (get_in s.domains name) [ some v ↦ ok v | none ↦ undefined_variable ]
  ]

  -- The loop of `get_var` over one stack, by identifier, from the domain at `i` on.
  unfoldable pub scan : List (Domain V) → VarId → ℕ → Option (Result (V × VarId))
  unfolding exist get_var_no_check
  scan [] id i = none
  scan (d ∷ stack) id i =
      let rest = scan stack id (suc i) in
      if exist d id.id then some (get_var_no_check d id i) else rest

  -- First the domain that the identifier remembers, then the loop.
  unfoldable pub get_in_id : List (Domain V) → VarId → Option (Result (V × VarId))
  unfolding consistence slot_at
  get_in_id stack id = elim (get_elem? stack id.domain_id) [
    | none ↦ scan stack id 0
    | some d ↦
        if consistence d id
        then some (slot_at d id.slot_id >>= λ v. ok (v, id))
        else scan stack id 0
  ]

  -- `get_var(const var_id &)`
  unfoldable pub get_var_id : Storage V → VarId → Result (V × VarId)
  unfolding get_in_id fiber_domains
  get_var_id s id = elim (get_in_id (fiber_domains s) id) [
    | some found ↦ found
    | none ↦ elim (get_in_id s.domains id) [ some found ↦ found | none ↦ undefined_variable ]
  ]

  unfoldable pub get_var_global : Storage V → Bytes → Result V
  unfolding bottom
  get_var_global s name = bottom s.domains >>= λ d. Domain.get_var d name

  -- The top of one stack, by name.
  unfoldable pub add_top : Bytes → V → Bool → List (Domain V) → Result (List (Domain V))
  unfolding add_var_optimal
  add_top name val is_override [] = err out_of_range
  add_top name val is_override (d ∷ stack) =
      let (e, added) = add_var_optimal d name val is_override in
      if added then ok (e ∷ stack) else exists_already

  -- `add_var(name, val, is_override)`, and `add_var_no_return`.
  unfoldable pub add_var : Storage V → Bytes → V → Bool → Result (Storage V)
  unfolding on_current add_top
  add_var s name val is_override = on_current (add_top name val is_override) s

  -- The top of one stack, by identifier.
  unfoldable pub add_top_id : VarId → V → Bool → List (Domain V) → Result (List (Domain V) × VarId)
  unfolding add_var_optimal_id
  add_top_id id val is_override [] = err out_of_range
  add_top_id id val is_override (d ∷ stack) =
      let (e, id', added) = add_var_optimal_id d id val is_override in
      if added then ok (e ∷ stack, id') else exists_already

  -- `add_var` and `add_var_no_return` for a `var_id`, which they write to.
  unfoldable pub add_var_id : Storage V → VarId → V → Bool → Result (Storage V × VarId)
  unfolding add_top_id
  add_var_id s id val is_override = elim s.fiber [
    | some stack ↦ add_top_id id val is_override stack >>= λ (after, id').
        ok (record s { fiber = some after }, id')
    | none ↦ add_top_id id val is_override s.domains >>= λ (after, id').
        ok (record s { domains = after }, id')
  ]

  unfoldable pub add_var_global : Storage V → Bytes → V → Result (Storage V)
  unfolding bottom on_bottom exist Domain.add_var
  add_var_global s name val = bottom s.domains >>= λ global.
      if exist global name
      then exists_already
      else on_bottom (λ d. Domain.add_var d name val) s.domains >>= λ domains.
          ok (record s { domains = domains })

  unfoldable pub add_buildin_var : Storage V → Bytes → V → Result (Storage V)
  unfolding add_record add_var_global
  add_buildin_var s name val = add_record s name >>= λ s'.
      add_var_global (record s' { buildin = name ∷ s'.buildin }) name val

  -- The pairs that `get_namespace` puts into the new namespace.
  pub exported : List Bytes → Domain V → List (Bytes × ℕ) → List (Bytes × V)
  unfolding has
  exported buildin d [] = []
  exported buildin d ((name, i) ∷ reflect) =
      let rest = exported buildin d reflect in
      if has name buildin
      then rest
      else elim (get_elem? d.slot i) [ none ↦ rest | some v ↦ (name, v) ∷ rest ]

  unfoldable pub get_namespace : Storage V → Result (List (Bytes × V))
  unfolding bottom exported
  get_namespace s = bottom s.domains >>= λ global. ok (exported s.buildin global global.reflect)

  unfoldable pub involve_loop : Domain V → List (Bytes × ℕ) → Bool → Storage V → Result (Storage V)
  unfolding slot_at add_var
  involve_loop d [] is_override s = ok s
  involve_loop d ((name, i) ∷ reflect) is_override s = slot_at d i >>= λ val.
      add_var s name val is_override >>= λ s'. involve_loop d reflect is_override s'

  unfoldable pub involve_domain : Storage V → Domain V → Bool → Result (Storage V)
  unfolding involve_loop
  involve_domain s d is_override = involve_loop d d.reflect is_override s
