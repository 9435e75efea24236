-- ===== src/Statement/Outcome.antt =====
-- What running a statement comes to: an exception leaves the state as it was when it was thrown.
use covscript.Prelude.{Bool, true, false, Error, if◌then◌else◌, ◌≡◌, refl}

-- `stuck` belongs to the model: a loop has used up its fuel.
pub data Outcome (S A : Type 0) : Type 0 where
  returned : A → S → Outcome S A
  threw : Error → S → Outcome S A
  stuck : Outcome S A

-- A statement that returns goes on with the next.
unfoldable pub and_next : {S A B : Type 0} → Outcome S A → (A → S → Outcome S B) → Outcome S B
and_next (returned a s) next = next a s
and_next (threw e s) next = threw e s
and_next stuck next = stuck

-- A destructor, or a catch clause that throws again: something done to the state and the error on any way out.
unfoldable pub on_exit : {S T A : Type 0} → (S → T) → (Error → Error) → Outcome S A → Outcome T A
on_exit leave change (returned a s) = returned a (leave s)
on_exit leave change (threw e s) = threw (change e) (leave s)
on_exit leave change stuck = stuck

-- What holds of a result, and of the state in which something was thrown.
unfoldable pub Leads : {S A : Type 0} → (A → S → Type 0) → (S → Type 0) → Outcome S A → Type 0
Leads P Q (returned a s) = P a s
Leads P Q (threw e s) = Q s
Leads P Q stuck = true ≡ true

module _ {S A B : Type 0} (P : A → S → Type 0) (Q : S → Type 0) (P' : B → S → Type 0) where
  pub Leads-next :
      (m : Outcome S A) (next : A → S → Outcome S B)
      → Leads P Q m
      → ((a : A) (s : S) → P a s → Leads P' Q (next a s))
      → Leads P' Q (and_next m next)
  unfolding Leads and_next
  Leads-next (returned a s) next h g = g a s h
  Leads-next (threw e s) next h g = h
  Leads-next stuck next h g = refl

module _ {S T A : Type 0} (P : A → S → Type 0) (Q : S → Type 0) (P' : A → T → Type 0)
    (Q' : T → Type 0) where
  pub Leads-exit :
      (leave : S → T) (change : Error → Error) (m : Outcome S A)
      → Leads P Q m
      → ((a : A) (s : S) → P a s → P' a (leave s))
      → ((s : S) → Q s → Q' (leave s))
      → Leads P' Q' (on_exit leave change m)
  unfolding Leads on_exit
  Leads-exit leave change (returned a s) h g f = g a s h
  Leads-exit leave change (threw e s) h g f = f s h
  Leads-exit leave change stuck h g f = refl

pub Leads-if :
    {S A : Type 0} (P : A → S → Type 0) (Q : S → Type 0) (b : Bool) (m k : Outcome S A)
    → (b ≡ true → Leads P Q m)
    → (b ≡ false → Leads P Q k)
    → Leads P Q (if b then m else k)
Leads-if P Q true m k h g = h refl
Leads-if P Q false m k h g = g refl
