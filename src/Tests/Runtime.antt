-- ===== src/Tests/Runtime.antt =====
-- Scopes: a global `x` and `y`, and an `x` in a block.
use covscript.Prelude.{
  ℕ, false, [], ◌∷◌, All, map, none, some, ok, ◌≡◌, refl, if◌then◌else◌, not, ◌&&◌,
}
use covscript.Prelude.Names.{Bytes, find, same}
use covscript.Runtime.Domain.{
  Domain, VarId, is_ref, add_var, add_var_id, add_var_optimal_id, get_var_opt, get_var_opt_id,
  safe_rewind, clear, consistence, exist,
}
use covscript.Runtime.Domain.Table.{IsDomain, safe_rewind-clear, get_var_opt-add_var}
use covscript.Runtime.Domain.Cache.{Coherent, Coherent-Transparent, add_var_optimal_id-add_var}
use covscript.Runtime.Domain
use covscript.Runtime.Domain.{var_id}
use covscript.Runtime.Storage.{new_storage, add_domain}
use covscript.Runtime.Storage.Vars
use covscript.Runtime.Storage.Vars.{add_top_id}
use covscript.Runtime.Storage.Sound.{by_add_domain}
use covscript.Runtime.Storage.Reachable.{
  Program, write, first_program, Steps, start, step, by_call, by_add_var_id, IsProgram,
  Steps-IsProgram, first-IsProgram, get_var_id-Reachable,
}
use covscript.Runtime.Storage.{Storage}
use covscript.Runtime.Storage.Vars.{fiber_domains, scan, get_in, get_var, get_var_id}
use covscript.Runtime.Storage.Lookup.{Located, value, get_var_id-get_var}
use covscript.Runtime.Storage.Snapshot.{
  new_transaction, rollback, commit, discard, contents, Forgotten, rollback-new_transaction,
}

abbrev x : Bytes
x = 120 ∷ []

abbrev y : Bytes
y = 121 ∷ []

abbrev globals : Domain ℕ
globals = record { reflect = (y, 1) ∷ (x, 0) ∷ []; ref = 4; slot = 10 ∷ 20 ∷ []; optimize = false }

abbrev block : Domain ℕ
block = record { reflect = (x, 0) ∷ []; ref = 5; slot = 30 ∷ []; optimize = false }

-- `y`, as it was found in `globals` below `block`.
abbrev y_id : VarId
y_id = record { domain_id = 1; slot_id = 1; ref = some 4; id = y }

abbrev storage : Storage ℕ
storage = record {
  fiber = none;
  sets = (x ∷ []) ∷ (y ∷ x ∷ []) ∷ [];
  domains = block ∷ globals ∷ [];
  buildin = [];
  fresh = 6;
}

globals-IsDomain : IsDomain globals
unfolding find
globals-IsDomain = (refl, refl, (refl, refl, refl))

block-IsDomain : IsDomain block
unfolding find
block-IsDomain = (refl, refl, refl)

globals-Coherent : Coherent globals y_id
unfolding find
globals-Coherent _ = refl

block-Coherent : Coherent block y_id
unfolding consistence is_ref
block-Coherent h = cc

find_y : get_var_id storage y_id ≡ ok (20, y_id)
unfolding get_var_id scan fiber_domains
find_y = refl

storage-Located : Located storage.domains y_id
unfolding exist find
storage-Located d at_id known = (refl, tt)

fibers-IsDomain : All IsDomain (fiber_domains storage)
unfolding fiber_domains
fibers-IsDomain = tt

fibers-Coherent : All (λ d. Coherent d y_id) (fiber_domains storage)
unfolding fiber_domains
fibers-Coherent = tt

fibers-Located : Located (fiber_domains storage) y_id
unfolding fiber_domains
fibers-Located d at_id known = tt

safe_rewind-clear_example : safe_rewind 7 globals ≡ clear 7 globals
safe_rewind-clear_example = safe_rewind-clear 7 globals globals-IsDomain

get_var_opt-add_var_example :
    IsDomain (add_var globals x 11)
    × ((k : Bytes)
        → get_var_opt (add_var globals x 11) k
          ≡ (if same x k then some 11 else get_var_opt globals k))
get_var_opt-add_var_example = get_var_opt-add_var globals x 11 globals-IsDomain

Coherent-Transparent_example :
    ((get_var_opt_id globals y_id).0 ≡ get_var_opt globals y)
    × Coherent globals (get_var_opt_id globals y_id).1
    × ((add_var_id globals y_id 21).0 ≡ add_var globals y 21)
    × Coherent (add_var_id globals y_id 21).0 (add_var_id globals y_id 21).1
    × Coherent (add_var_id globals y_id 21).0 y_id
Coherent-Transparent_example =
    Coherent-Transparent globals y_id y_id 21 globals-Coherent globals-Coherent

add_var_optimal_id-add_var_example :
    ((add_var_optimal_id globals y_id 21 false).0 ≡ (
      if consistence globals y_id && not globals.optimize && not false
      then globals
      else add_var globals y 21))
    × ((add_var_optimal_id globals y_id 21 false).2
        ≡ not (consistence globals y_id && not globals.optimize && not false))
add_var_optimal_id-add_var_example =
    add_var_optimal_id-add_var globals y_id 21 false globals-Coherent

get_var_id-get_var_example : value (get_var_id storage y_id) ≡ get_var storage y
get_var_id-get_var_example =
    get_var_id-get_var storage y_id fibers-IsDomain (block-IsDomain, (globals-IsDomain, tt))
      fibers-Coherent (block-Coherent, (globals-Coherent, tt)) fibers-Located storage-Located

-- The block's `x` was written and its scope left before the rollback.
abbrev later : Storage ℕ
later = record storage { domains = globals ∷ []; sets = []; fresh = 9 }

rollback-new_transaction_example :
    let t = (new_transaction storage).0 in
    let back = (rollback t later).1 in
    (back.sets ≡ storage.sets)
    × (map contents back.domains ≡ map contents storage.domains)
    × ((name : Bytes) → get_in back.domains name ≡ get_in storage.domains name)
    × Forgotten later.fresh back.domains
    × ((rollback (commit t) later).1 ≡ later)
    × ((rollback (discard t) later).1 ≡ later)
    × ((rollback (rollback t later).0 back).1 ≡ back)
rollback-new_transaction_example = rollback-new_transaction storage later

-- A program that opens a scope and adds an `x`.
abbrev opened : Storage ℕ
opened = record {
  fiber = none;
  sets = [] ∷ [];
  domains =
      record { reflect = []; ref = 1; slot = []; optimize = false }
      ∷ record { reflect = []; ref = 0; slot = []; optimize = false }
      ∷ [];
  buildin = [];
  fresh = 2;
}

abbrev with_x : Storage ℕ
with_x = record opened {
  domains =
      record { reflect = (x, 0) ∷ []; ref = 1; slot = 3 ∷ []; optimize = false }
      ∷ record { reflect = []; ref = 0; slot = []; optimize = false }
      ∷ [];
}

open_scope : add_domain {V = ℕ} new_storage ≡ ok opened
unfolding add_domain new_storage
open_scope = refl

-- `x`, as it was added in `opened`.
abbrev x_id : VarId
x_id = record { domain_id = 0; slot_id = 0; ref = some 1; id = x }

add_x : Vars.add_var_id opened (var_id x) 3 false ≡ ok (with_x, x_id)
unfolding Vars.add_var_id add_top_id Domain.add_var_optimal_id find
add_x = refl

abbrev first : Program ℕ
first = first_program (λ n. x)

abbrev in_scope : Program ℕ
in_scope = record first { storage = opened }

abbrev with_x_program : Program ℕ
with_x_program = record in_scope {
  storage = with_x;
  identifiers = write in_scope.identifiers 0 x_id;
}

calls : Steps first with_x_program
unfolding first_program
calls =
    step first in_scope with_x_program
      (step first first in_scope (start first)
        (by_call first opened (by_add_domain new_storage opened open_scope)))
      (by_add_var_id in_scope 0 3 false with_x x_id add_x)

Steps-IsProgram_example : IsProgram with_x_program
Steps-IsProgram_example =
    Steps-IsProgram first with_x_program calls (first-IsProgram (λ n. x) first refl)

get_var_id-Reachable_example : value (get_var_id with_x (var_id x)) ≡ get_var with_x x
get_var_id-Reachable_example = get_var_id-Reachable (λ n. x) with_x_program x calls
