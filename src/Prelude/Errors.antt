-- ===== src/Prelude/Errors.antt =====
-- The interpreter's exceptions as values: `compile_error`, `runtime_error`, `internal_error` and
-- `lang_error` of include/covscript/core/components.hpp, each with its message.
use Prim.Native.Nat.{ℕ}
use Prim.Native.String.{String}
use mathlib.Core.Path.{◌≡◌, refl}
use mathlib.Core.Logic.{◌⊎◌, inl, inr}

-- `out_of_range` is that of `std::deque::at`, `exception` the `cs::exception` with its line. `out_of_fuel` belongs to the model: a recursion on fuel reached its bound.
pub data Error : Type 0 where
  compile_error : String → Error
  runtime_error : String → Error
  internal_error : String → Error
  lang_error : String → Error
  out_of_range : Error
  exception : ℕ → String → Error
  out_of_fuel : Error

-- What a function returns or throws.
pub data Result {ℓ} (T : Type ℓ) : Type ℓ where
  ok : T → Result T
  err : Error → Result T

module _ {ℓ κ} {S : Type ℓ} {T : Type κ} where
  infixl 5 ◌>>=◌
  -- An exception leaves the rest of a function undone.
  abbrev pub ◌>>=◌ : Result S → (S → Result T) → Result T
  err thrown >>= next = err thrown
  ok s >>= next = next s

  -- A sequence that returned has returned from both of its parts.
  pub bind-eq-ok :
      (step : Result S) (next : S → Result T) {t : T}
      → (step >>= next) ≡ ok t
      → (s : S) × (step ≡ ok s) × (next s ≡ ok t)
  bind-eq-ok (err thrown) next returned = cc
  bind-eq-ok (ok s) next returned = (s, refl, returned)

pub bind_assoc {ℓ} :
    {A B C : Type ℓ} (m : Result A) (f : A → Result B) (g : B → Result C)
    → ((m >>= f) >>= g) ≡ (m >>= λ a. f a >>= g)
bind_assoc (err e) f g = refl
bind_assoc (ok a) f g = refl

pub Result-cases {ℓ} :
    {A : Type ℓ} (m : Result A) → ((e : Error) × (m ≡ err e)) ⊎ ((a : A) × (m ≡ ok a))
Result-cases (ok a) = inr (a, refl)
Result-cases (err e) = inl (e, refl)

pub ok-injective {ℓ} : {A : Type ℓ} (a b : A) → ok a ≡ ok b → a ≡ b
ok-injective a b h = cc
