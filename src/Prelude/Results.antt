-- ===== src/Prelude/Results.antt =====
-- Python's exceptions as values: `err e` is a raise that nothing has caught.
use mathlib.Core.Path.{◌≡◌, refl}

pub data Result {ℓ} (E A : Type ℓ) : Type ℓ where
  ok : A → Result E A
  err : E → Result E A

module _ {ℓ} {E A B : Type ℓ} where
  infixl 5 ◌>>=◌
  -- What follows a statement runs only if the statement does not raise.
  abbrev pub ◌>>=◌ : Result E A → (A → Result E B) → Result E B
  (err raised) >>= next = err raised
  (ok value) >>= next = next value

  -- Inversion of a successful chain.
  pub >>=-eq-ok :
      (first : Result E A) (next : A → Result E B) {b : B}
      → (first >>= next) ≡ ok b
      → (a : A) × (first ≡ ok a) × (next a ≡ ok b)
  >>=-eq-ok (ok value) next h = (value, refl, h)
  >>=-eq-ok (err raised) next h = cc

pub ok-injective {ℓ} : {E A : Type ℓ} {a b : A} → Path (Result E A) (ok a) (ok b) → a ≡ b
ok-injective e = cc
