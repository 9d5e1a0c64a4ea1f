-- ===== src/Prelude/Results.antt =====
-- A Go pair of a value and an `error`, of which exactly one is meaningful.
use mathlib.Core.Path.{◌≡◌, refl, subst}

pub data Result {ℓ} (E A : Type ℓ) : Type ℓ where
  err : E → Result E A
  ok : A → Result E A

-- `if err != nil { return err }`.
module _ {ℓ} {E A B : Type ℓ} where
  infixl 5 ◌>>=◌
  abbrev pub ◌>>=◌ : Result E A → (A → Result E B) → Result E B
  err fault >>= next = err fault
  ok value >>= next = next value

  pub >>=-eq-ok :
      {b : B} (first : Result E A) (next : A → Result E B)
      → (first >>= next) ≡ ok b
      → (value : A) × (first ≡ ok value) × (next value ≡ ok b)
  >>=-eq-ok (err fault) next returned = cc
  >>=-eq-ok (ok value) next returned = (value, refl, returned)

infixl 5 ◌>>◌
abbrev pub ◌>>◌ {ℓ} : {E B : Type ℓ} → Result E (Unit {ℓ}) → Result E B → Result E B
first >> second = first >>= λ _. second

-- A claim about the value of a call, if the call does not fail.
pub data Ensures {ℓ} {E A : Type ℓ} (P : A → Type ℓ) : Result E A → Type ℓ where
  failing : {fault : E} → Ensures P (err fault)
  giving : {value : A} → P value → Ensures P (ok value)

module _ {ℓ} {E A : Type ℓ} where
  -- A later step may use what an earlier one has returned.
  pub Ensures-bind :
      {B : Type ℓ} {Q : B → Type ℓ} {next : A → Result E B} (first : Result E A)
      → ((value : A) → first ≡ ok value → Ensures Q (next value))
      → Ensures Q (first >>= next)
  Ensures-bind (err fault) step = failing
  Ensures-bind (ok value) step = step value refl

  pub given : {P : A → Type ℓ} {r : Result E A} (value : A) → Ensures P r → r ≡ ok value → P value
  given value failing e = cc
  given {P} value (giving p) e = subst P (cc) p

  pub Ensures-map :
      {P Q : A → Type ℓ} {r : Result E A}
      → ((value : A) → P value → Q value)
      → Ensures P r
      → Ensures Q r
  Ensures-map weaker failing = failing
  Ensures-map weaker (giving {value} p) = giving (weaker value p)

-- A claim about the error of a call, if the call fails.
pub data Blames {ℓ} {E A : Type ℓ} (P : E → Type ℓ) : Result E A → Type ℓ where
  blamed : {fault : E} → P fault → Blames P (err fault)
  fine : {value : A} → Blames P (ok value)

module _ {ℓ} {E : Type ℓ} {P : E → Type ℓ} where
  pub Blames-bind :
      {A B : Type ℓ} {first : Result E A} {next : A → Result E B}
      → Blames P first
      → ((value : A) → Blames P (next value))
      → Blames P (first >>= next)
  Blames-bind (blamed p) step = blamed p
  Blames-bind (fine {value}) step = step value

  pub at_fault : {A : Type ℓ} {r : Result E A} (fault : E) → Blames P r → r ≡ err fault → P fault
  at_fault fault (blamed p) e = subst P (cc) p
  at_fault fault fine e = cc
