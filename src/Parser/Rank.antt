-- ===== src/Parser/Rank.antt =====
-- The shape of the trees that `build_tree` makes: precedence and the order of the tokens.
pub mod Pushes
pub mod Total
pub mod Written
pub mod Rebuild
use covscript.Prelude.{ℕ, suc, ◌≤◌, List, [], ◌∷◌, true, Option, some, ok, ◌≡◌, ◌⊎◌, All}
use covscript.Container.Tree.{Tree, nil, node}
use covscript.Parser.Build.{get_signal_level, is_left_associative}
use covscript.Syntax.Token.{Token}

module _ {V : Type 0} where
  -- An operand, or an expression whose outermost signal has level `n` at least.
  pub data AtLeast (n : ℕ) : Tree (Option (Token V)) → Type 0 where
    lone : {o : Option (Token V)} → AtLeast n (node o nil nil)
    level :
        {d : Option (Token V)} {l r : Tree (Option (Token V))} {m : ℕ}
        → get_signal_level d ≡ ok m
        → n ≤ m
        → AtLeast n (node d l r)

  -- Every signal binds no tighter than those on its left, and less tightly than those on its
  -- right. `chained` holds of an assignment, whose right side may be an assignment.
  pub data Ranked : Tree (Option (Token V)) → Type 0 where
    lone : {o : Option (Token V)} → Ranked (node o nil nil)
    binary :
        {d : Option (Token V)} {l r : Tree (Option (Token V))} {n : ℕ}
        → get_signal_level d ≡ ok n
        → Ranked l
        → Ranked r
        → AtLeast n l
        → AtLeast (suc n) r ⊎ ((is_left_associative d ≡ ok true) × AtLeast n r)
        → Ranked (node d l r)

  -- The right side of a signal of level `n`.
  abbrev pub RightOf : ℕ → Option (Token V) → Tree (Option (Token V)) → Type 0
  RightOf n d r = AtLeast (suc n) r ⊎ ((is_left_associative d ≡ ok true) × AtLeast n r)

  -- All signals have a level.
  abbrev pub HasLevels : List (Token V) → Type 0
  HasLevels = All (λ s. (n : ℕ) × (get_signal_level (some s) ≡ ok n))

  -- Signals, each with the operand behind it.
  abbrev pub tail_weave : List (Token V) → List (Option (Token V)) → List (Option (Token V))
  tail_weave [] objects = objects
  tail_weave (s ∷ signals) [] = some s ∷ tail_weave signals []
  tail_weave (s ∷ signals) (object ∷ objects) = some s ∷ object ∷ tail_weave signals objects

  abbrev pub weave : List (Token V) → List (Option (Token V)) → List (Option (Token V))
  weave signals [] = []
  weave signals (object ∷ objects) = object ∷ tail_weave signals objects
