-- ===== src/Prelude/Position.antt =====
-- The first place in a list where a test passes.
use Prim.Native.Nat.{ℕ, zero, suc, ◌+◌, ◌-◌, ◌≤◌, ◌<◌}
use mathlib.Core.Path.{◌≡◌, refl}
use mathlib.Core.Bool.{Bool, true, false}
use mathlib.Core.List.{List, [], ◌∷◌, ◌++◌}
use native.Mathlib.Omega.{arith}
use study_libevent.Prelude.Lists.{length, take, drop, get_or, get_or-drop, length-drop}
use study_libevent.Prelude.Tests.{if◌then◌else◌, Bool-cases}
use mathlib.Core.Logic.{inl, inr}

-- Every entry satisfies `P`.
abbrev pub All {ℓ κ} : {A : Type ℓ} → (A → Type κ) → List A → Type κ
All P [] = Unit
All P (x ∷ xs) = P x × All P xs

pub All-append {ℓ κ} :
    {A : Type ℓ} (P : A → Type κ) (xs ys : List A) → All P xs → All P ys → All P (xs ++ ys)
All-append P [] ys h g = g
All-append P (x ∷ xs) ys (h, hs) g = (h, All-append P xs ys hs g)

-- The index of the first entry that passes, or the length.
unfoldable pub position : (ℕ → Bool) → List ℕ → ℕ
position p [] = 0
position p (x ∷ xs) = let rest = suc (position p xs) in if p x then 0 else rest

pub position-nil : (p : ℕ → Bool) → position p [] ≡ 0
unfolding position
position-nil p = refl

pub position-le : (p : ℕ → Bool) (xs : List ℕ) → position p xs ≤ length xs
unfolding position
position-le p [] = omega arith
position-le p (x ∷ xs) = ground (arith, position-le p xs)

-- No entry before it passes.
pub position-before :
    (p : ℕ → Bool) (xs : List ℕ) → All (λ x. p x ≡ false) (take (position p xs) xs)
unfolding position
position-before p [] = tt
position-before p (x ∷ xs) = elim (Bool-cases (p x)) [
  | inl e ↦ rw e tt
  | inr e ↦ rw e (e, position-before p xs)
]

-- The entry at it passes.
pub position-at :
    (p : ℕ → Bool) (xs : List ℕ)
    → position p xs < length xs
    → p (get_or xs (position p xs) 0) ≡ true
unfolding position
position-at p [] h = absurd (omega arith)
position-at p (x ∷ xs) h = elim (Bool-cases (p x)) [
  | inl e ↦ rw e e
  | inr e ↦ rw e (position-at p xs (ground arith))
]

pub position-before_at :
    (p : ℕ → Bool) (xs : List ℕ) (k : ℕ) → k < position p xs → p (get_or xs k 0) ≡ false
unfolding position
position-before_at p [] k h = absurd (omega arith)
position-before_at p (x ∷ xs) zero h = ground arith
position-before_at p (x ∷ xs) (suc k) h =
    ground (arith, λ (g : k < position p xs). position-before_at p xs k g)

-- The scan of a longer list from index `i`.
pub position_step :
    (p : ℕ → Bool) (i : ℕ) (xs : List ℕ)
    → i < length xs
    → position p (drop i xs) ≡ (if p (get_or xs i 0) then 0 else suc (position p (drop (suc i) xs)))
unfolding position
position_step p i [] h = absurd (omega arith)
position_step p zero (x ∷ xs) h = refl
position_step p (suc i) (x ∷ xs) h = position_step p i xs (omega arith)

-- The first place from index `m` on.
pub position-from :
    (p : ℕ → Bool) (xs : List ℕ) (m : ℕ)
    → m ≤ length xs
    → let j = m + position p (drop m xs) in
      (j ≤ length xs)
      × ((k : ℕ) → m ≤ k → k < j → p (get_or xs k 0) ≡ false)
      × (j < length xs → p (get_or xs j 0) ≡ true)
position-from p xs m h =
    let size = length-drop m xs in
    (
      omega (arith, size, position-le p (drop m xs)),
      (λ k lo hi.
          let e : m + (k - m) ≡ k = omega arith in
          rw (get_or-drop, e) at (position-before_at p (drop m xs) (k - m) (omega arith))),
      λ inside. rw get_or-drop at (position-at p (drop m xs) (omega (arith, size))),
    )
