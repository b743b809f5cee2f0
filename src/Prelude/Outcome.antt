-- ===== src/Prelude/Outcome.antt =====
-- How a call ends: with a value, at a failed `assert`, in an operation that C leaves undefined (an
-- int that overflows, a shift by its width), or with the fuel of a loop used up.
use mathlib.Core.Path.{◌≡◌, refl}
use mathlib.Core.Logic.{◌⊎◌, inl, inr}
use mathlib.Core.Bool.{Bool, true, false}
use study_libevent.Prelude.Tests.{if◌then◌else◌}

pub data Run {ℓ} (A : Type ℓ) : Type ℓ where
  done : A → Run A
  aborted : Run A
  undefined : Run A
  stuck : Run A

infixl 5 ◌>>=◌
abbrev pub ◌>>=◌ {ℓ κ} : {A : Type ℓ} {B : Type κ} → Run A → (A → Run B) → Run B
done a >>= f = f a
aborted >>= f = aborted
undefined >>= f = undefined
stuck >>= f = stuck

-- The call returns, and its value satisfies `P`.
pub data Ensures {ℓ κ} {A : Type ℓ} (P : A → Type κ) : Run A → Type (ℓ ⊔ κ) where
  returns : {a : A} → P a → Ensures P (done a)

module _ {ℓ κ} {A : Type ℓ} {P : A → Type κ} where
  pub Ensures-bind {ℓ' κ'} :
      {B : Type ℓ'} {Q : B → Type κ'} {r : Run A} {f : A → Run B}
      → Ensures P r
      → ((a : A) → P a → Ensures Q (f a))
      → Ensures Q (r >>= f)
  Ensures-bind (returns p) k = k _ p

  pub Ensures-map {κ'} :
      {Q : A → Type κ'} {r : Run A} → Ensures P r → ((a : A) → P a → Q a) → Ensures Q r
  Ensures-map (returns p) k = returns (k _ p)

  pub Ensures-if :
      {x y : Run A} (b : Bool)
      → (b ≡ true → Ensures P x)
      → (b ≡ false → Ensures P y)
      → Ensures P (if b then x else y)
  Ensures-if true p q = p refl
  Ensures-if false p q = q refl

  pub Ensures-and {κ'} :
      {Q : A → Type κ'} {r : Run A} → Ensures P r → Ensures Q r → Ensures (λ a. P a × Q a) r
  Ensures-and (returns p) (returns q) = returns (p, q)

  pub Ensures-inv : {r : Run A} → Ensures P r → (a : A) × (r ≡ done a) × P a
  Ensures-inv (returns p) = (_, refl, p)

-- The call does not abort and does nothing undefined, and if it returns, its value satisfies `P`.
pub data Safe {ℓ κ} {A : Type ℓ} (P : A → Type κ) : Run A → Type (ℓ ⊔ κ) where
  finished : {a : A} → P a → Safe P (done a)
  unfinished : Safe P stuck

module _ {ℓ κ} {A : Type ℓ} {P : A → Type κ} where
  pub Safe-of_Ensures : {r : Run A} → Ensures P r → Safe P r
  Safe-of_Ensures (returns p) = finished p

  pub Safe-bind {ℓ' κ'} :
      {B : Type ℓ'} {Q : B → Type κ'} {r : Run A} {f : A → Run B}
      → Safe P r
      → ((a : A) → P a → Safe Q (f a))
      → Safe Q (r >>= f)
  Safe-bind (finished p) k = k _ p
  Safe-bind unfinished k = unfinished

  pub Safe-if :
      {x y : Run A} (b : Bool)
      → (b ≡ true → Safe P x)
      → (b ≡ false → Safe P y)
      → Safe P (if b then x else y)
  Safe-if true p q = p refl
  Safe-if false p q = q refl

-- `int` results that are 0 or -1.
pub data Status : Type 0 where
  ok fail : Status

pub Status-cases : (st : Status) → (st ≡ ok) ⊎ (st ≡ fail)
Status-cases ok = inl refl
Status-cases fail = inr refl
