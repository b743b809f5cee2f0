-- ===== src/Prelude/Occurs.antt =====
-- How often a number stands in a list, the removal of one occurrence, and sums over lists of lists.
use Prim.Native.Nat.{ℕ, zero, suc, ◌+◌, ◌-◌, ◌≤◌, ◌<◌}
use mathlib.Core.Path.{◌≡◌, refl, ap, ◌∙◌}
use mathlib.Core.Bool.{Bool, true, false}
use mathlib.Core.Logic.{inl, inr}
use mathlib.Core.List.{List, [], ◌∷◌, ◌++◌}
use native.Mathlib.Omega.{arith}
use study_libevent.Prelude.Tests.{◌==◌, ==_iff, if◌then◌else◌, Bool-cases}
use study_libevent.Prelude.Lists.{length, set, get_or}

-- A field of numbered structures, with one of them changed.
abbrev pub assign {ℓ} : {A : Type ℓ} → (ℕ → A) → ℕ → A → ℕ → A
assign f i v j = if i == j then v else f j

abbrev pub bit : Bool → ℕ
bit true = 1
bit false = 0

abbrev pub occurrences : ℕ → List ℕ → ℕ
occurrences e [] = 0
occurrences e (x ∷ xs) = bit (x == e) + occurrences e xs

-- `TAILQ_REMOVE` of an element that stands in the list once
unfoldable pub remove_first : ℕ → List ℕ → List ℕ
remove_first e [] = []
remove_first e (x ∷ xs) = let rest = remove_first e xs in if x == e then xs else x ∷ rest

-- The number of elements that `free` does not exempt.
abbrev pub weight : (ℕ → Bool) → List ℕ → ℕ
weight free [] = 0
weight free (x ∷ xs) = (if free x then 0 else 1) + weight free xs

abbrev pub sum_of : (List ℕ → ℕ) → List (List ℕ) → ℕ
sum_of f [] = 0
sum_of f (xs ∷ xss) = f xs + sum_of f xss

pub occurrences-append :
    (e : ℕ) (xs ys : List ℕ) → occurrences e (xs ++ ys) ≡ occurrences e xs + occurrences e ys
occurrences-append e [] ys = omega arith
occurrences-append e (x ∷ xs) ys = omega (arith, occurrences-append e xs ys)

pub occurrences-remove_first :
    (x e : ℕ) (xs : List ℕ)
    → occurrences x (remove_first e xs)
      ≡ (if e == x then occurrences x xs - 1 else occurrences x xs)
unfolding remove_first
occurrences-remove_first x e [] = ground arith
occurrences-remove_first x e (y ∷ xs) = ground (arith, occurrences-remove_first x e xs)

pub length-remove_first :
    (e : ℕ) (xs : List ℕ) → 1 ≤ occurrences e xs → length (remove_first e xs) + 1 ≡ length xs
unfolding remove_first
length-remove_first e [] h = omega arith
length-remove_first e (x ∷ xs) h = ground (arith, length-remove_first e xs)

pub weight-append :
    (free : ℕ → Bool) (xs ys : List ℕ) → weight free (xs ++ ys) ≡ weight free xs + weight free ys
weight-append free [] ys = omega arith
weight-append free (x ∷ xs) ys = omega (arith, weight-append free xs ys)

pub weight-remove_first :
    (free : ℕ → Bool) (e : ℕ) (xs : List ℕ)
    → 1 ≤ occurrences e xs
    → weight free (remove_first e xs) + (if free e then 0 else 1) ≡ weight free xs
unfolding remove_first
weight-remove_first free e [] h = omega arith
weight-remove_first free e (x ∷ xs) h = ground (arith, weight-remove_first free e xs)

pub sum_of-set :
    (f : List ℕ → ℕ) (xss : List (List ℕ)) (i : ℕ) (v : List ℕ)
    → i < length xss
    → sum_of f (set xss i v) + f (get_or xss i []) ≡ sum_of f xss + f v
sum_of-set f [] i v h = absurd (omega arith)
sum_of-set f (xs ∷ xss) zero v h = omega arith
sum_of-set f (xs ∷ xss) (suc i) v h = omega (arith, sum_of-set f xss i v (omega arith))

pub sum_of-get_or :
    (f : List ℕ → ℕ) (xss : List (List ℕ)) (i : ℕ)
    → i < length xss
    → f (get_or xss i []) ≤ sum_of f xss
sum_of-get_or f [] i h = absurd (omega arith)
sum_of-get_or f (xs ∷ xss) zero h = omega arith
sum_of-get_or f (xs ∷ xss) (suc i) h = omega (arith, sum_of-get_or f xss i (omega arith))

pub occurrences-weight :
    (free : ℕ → Bool) (e : ℕ) (xs : List ℕ) → free e ≡ false → occurrences e xs ≤ weight free xs
occurrences-weight free e [] h = omega arith
occurrences-weight free e (x ∷ xs) h =
    let rest = occurrences-weight free e xs h in
    elim (Bool-cases (x == e)) [
      | inl t ↦ let same : free x ≡ false = ap free ((==_iff x e).0 t) ∙ h in ground (arith, rest)
      | inr t ↦ ground (arith, rest)
    ]

-- An element that does not stand in the list may become free or lose that.
pub weight-assign :
    (free : ℕ → Bool) (e : ℕ) (v : Bool) (xs : List ℕ)
    → occurrences e xs ≡ 0
    → weight (assign free e v) xs ≡ weight free xs
weight-assign free e v [] h = refl
weight-assign free e v (x ∷ xs) h = ground (arith, weight-assign free e v xs)

pub sum_of-weight-assign :
    (free : ℕ → Bool) (e : ℕ) (v : Bool) (xss : List (List ℕ))
    → ((k : ℕ) → occurrences e (get_or xss k []) ≡ 0)
    → sum_of (weight (assign free e v)) xss ≡ sum_of (weight free) xss
sum_of-weight-assign free e v [] h = refl
sum_of-weight-assign free e v (xs ∷ xss) h =
    omega
      (arith, weight-assign free e v xs (h 0), sum_of-weight-assign free e v xss (λ k. h (suc k)))
