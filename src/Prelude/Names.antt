-- ===== src/Prelude/Names.antt =====
-- Texts as lists of bytes, and tables with texts for keys.
use Prim.Native.Nat.{ℕ}
use mathlib.Core.Bool.{Bool, true, false, ◌&&◌}
use mathlib.Core.List.{List, [], ◌∷◌}
use mathlib.Core.Logic.{◌↔◌}
use mathlib.Core.Option.{Option, none, some}
use mathlib.Core.Path.{◌≡◌, refl}
use native.Mathlib.Omega.{arith}
use covscript.Prelude.Tests.{◌==◌, if◌then◌else◌}

abbrev pub Bytes : Type 0
Bytes = List ℕ

unfoldable pub same : Bytes → Bytes → Bool
same [] [] = true
same (c ∷ cs) (d ∷ ds) = c == d && same cs ds
same _ _ = false

pub same_iff : (s t : Bytes) → (same s t ≡ true) ↔ (s ≡ t)
unfolding same
same_iff [] [] = ((λ h. refl), (λ h. refl))
same_iff (c ∷ cs) (d ∷ ds) = ground (arith, same_iff cs ds)
same_iff _ _ = ground arith

module _ {ℓ} {A : Type ℓ} where
  -- `map_t::find`
  unfoldable pub find : Bytes → List (Bytes × A) → Option A
  unfolding same
  find k [] = none
  find k ((j, a) ∷ table) = if same j k then some a else find k table
