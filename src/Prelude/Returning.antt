-- ===== src/Prelude/Returning.antt =====
-- How a Go call ends: it returns a value, or it panics (a nil pointer, an index out of range).
use mathlib.Core.Path.{◌≡◌, refl}
use mathlib.Core.Option.{Option, none, some}

pub data Run {ℓ} (A : Type ℓ) : Type ℓ where
  ok : A → Run A
  panic : Run A

infixl 5 ◌>>=◌
abbrev pub ◌>>=◌ {ℓ κ} : {A : Type ℓ} {B : Type κ} → Run A → (A → Run B) → Run B
ok a >>= f = f a
panic >>= f = panic

-- A nil pointer that is followed panics.
abbrev pub deref {ℓ} : {A : Type ℓ} → Option A → Run A
deref none = panic
deref (some a) = ok a

-- The call returns, with a value that satisfies `P`.
abbrev pub Returns {ℓ} : {A : Type ℓ} → (A → Type 0) → Run A → Type 0
Returns P (ok a) = P a
Returns P panic = ⊥

module _ {ℓ} {A : Type ℓ} {P : A → Type 0} where
  pub Returns-eq : (r : Run A) → Returns P r → (a : A) × (r ≡ ok a) × P a
  Returns-eq (ok a) p = (a, refl, p)
  Returns-eq panic p = absurd p

  pub Returns-bind {κ} :
      {B : Type κ} (Q : B → Type 0) (r : Run A) (f : A → Run B)
      → Returns P r
      → ((a : A) → P a → Returns Q (f a))
      → Returns Q (r >>= f)
  Returns-bind Q (ok a) f p k = k a p
  Returns-bind Q panic f p k = absurd p

  pub Returns-map : (Q : A → Type 0) (r : Run A) → Returns P r → ((a : A) → P a → Q a) → Returns Q r
  Returns-map Q (ok a) p k = k a p
  Returns-map Q panic p k = absurd p
