-- ===== src/Events/First.antt =====
-- About the active queues of event.c: the first that is not empty, and the calls for one of them.
use study_libevent.Prelude.{
  ℕ, zero, suc, ◌-◌, ◌≤◌, ◌<◌, ◌≡◌, ◌≢◌, refl, sym, ap, ap₂, ◌∙◌, subst, List, [], ◌∷◌, ◌++◌, Bool,
  Bool-cases, Option-cases, inl, inr, true, false, ◌&&◌, ◌==◌, ==_iff, if◌then◌else◌, length,
  get_or, get_or-set, set, replicate, bit, occurrences, sum_of, Run, Ensures, arith, Option, none,
  some,
}
use study_libevent.Prelude.Occurs.{remove_first}
use study_libevent.Events.{Base, What}
use study_libevent.Events.Loop.{first_active}
use study_libevent.Events.Valid.{IsValid}

-- The calls for a queue, in its order
abbrev pub calls_of : (ℕ → ℕ) → (ℕ → What) → List ℕ → List (ℕ × What)
calls_of ncalls res [] = []
calls_of ncalls res (e ∷ es) = replicate (ncalls e) (e, res e) ++ calls_of ncalls res es

pub calls_of_cong :
    (f g : ℕ → ℕ) (res : ℕ → What) (es : List ℕ)
    → ((x : ℕ) → occurrences x es ≢ 0 → f x ≡ g x)
    → calls_of f res es ≡ calls_of g res es
calls_of_cong f g res [] h = refl
calls_of_cong f g res (e ∷ es) h =
    let self : (e == e) ≡ true = (==_iff e e).1 refl in
    ap₂ (λ n rest. replicate n (e, res e) ++ rest) (h e λ z. ground arith)
      (calls_of_cong f g res es λ x p. h x λ z. p (omega arith))

pub one_more : (n : ℕ) (c : ℕ × What) → n ≢ 0 → replicate n c ≡ c ∷ replicate (n - 1) c
one_more zero c h = absurd (h refl)
one_more (suc n) c h = let e : n ≡ suc n - 1 = omega arith in ap (λ k. c ∷ replicate k c) e

pub none_of : (n : ℕ) (c : ℕ × What) → n ≡ 0 → replicate n c ≡ []
none_of zero c h = refl
none_of (suc n) c h = absurd (omega arith)

pub head_removed : (e : ℕ) (es : List ℕ) → remove_first e (e ∷ es) ≡ es
unfolding remove_first
head_removed e es = let self : (e == e) ≡ true = (==_iff e e).1 refl in rw self refl

pub other_queue :
    (queues : List (List ℕ)) (i k : ℕ) (es : List ℕ)
    → i < length queues
    → (if i == k then [] else get_or (set queues i es) k [])
      ≡ (if i == k then [] else get_or queues k [])
other_queue queues i k es h = elim (Bool-cases (i == k)) [
  | inl t ↦ rw t refl
  | inr t ↦ rw (t, get_or-set queues i k es [] h, t) refl
]

-- The queues before `i` are empty, and queue `i` is not.
abbrev pub IsFirst : List (List ℕ) → ℕ → Type 0
IsFirst queues i = (get_or queues i [] ≢ []) × ((k : ℕ) → k < i → get_or queues k [] ≡ [])

moved_on :
    (o : Option ℕ) (i : ℕ)
    → elim o as (λ _. Option ℕ) [ none ↦ none | some j ↦ some (suc j) ] ≡ some i
    → (j : ℕ) × (o ≡ some j) × (suc j ≡ i)
moved_on none i h = absurd (cc)
moved_on (some j) i h = (j, refl, cc)

behind_empty :
    (queues : List (List ℕ)) (j : ℕ)
    → ((k : ℕ) → k < j → get_or queues k [] ≡ [])
    → (k : ℕ) → k < suc j
    → get_or ([] ∷ queues) k [] ≡ []
behind_empty queues j h zero p = refl
behind_empty queues j h (suc k) p = h k (omega arith)

pub first_active-IsFirst :
    (queues : List (List ℕ)) (i : ℕ) → first_active queues ≡ some i → IsFirst queues i
unfolding first_active
first_active-IsFirst [] i h = absurd (cc)
first_active-IsFirst ([] ∷ queues) i h =
    let (j, n, next) = moved_on (first_active queues) i h in
    let (filled, before) = first_active-IsFirst queues j n in
    subst (IsFirst ([] ∷ queues)) next (filled, behind_empty queues j before)
first_active-IsFirst ((e ∷ es) ∷ queues) i h =
    let start : 0 ≡ i = cc in
    subst (IsFirst ((e ∷ es) ∷ queues)) start ((λ p. cc), λ k p. absurd (omega arith))

pub length-get_or :
    (queues : List (List ℕ)) (i : ℕ) → length (get_or queues i []) ≤ sum_of length queues
length-get_or [] i = omega arith
length-get_or (q ∷ queues) zero = omega arith
length-get_or (q ∷ queues) (suc i) = omega (arith, length-get_or queues i)

pub on_false {ℓ κ} :
    {A : Type ℓ} {P : A → Type κ} (x y : Run A) (c : Bool)
    → c ≡ false
    → Ensures P y
    → Ensures P (elim c [ true ↦ x | false ↦ y ])
on_false x y true h q = absurd (cc)
on_false x y false h q = q

pub first_active_exists :
    (queues : List (List ℕ)) → sum_of length queues ≢ 0 → first_active queues ≢ none
unfolding first_active
first_active_exists [] h = absurd (h refl)
first_active_exists ([] ∷ queues) h = elim (Option-cases (first_active queues)) [
  | inl n ↦ absurd (first_active_exists queues (λ z. h (omega arith)) n)
  | inr (i, n) ↦ rw n (λ p. cc)
]
first_active_exists ((e ∷ es) ∷ queues) h = λ p. cc

-- The head of an active queue is active.
pub head_active :
    {B : Type 0} (b : Base B) (i e : ℕ) (es : List ℕ)
    → IsValid b
    → get_or b.activequeues i [] ≡ e ∷ es
    → b.is_active e ≡ true
head_active b i e es v p =
    let self : (e == e) ≡ true = (==_iff e e).1 refl in
    let here : occurrences e (e ∷ es) ≡ bit (b.is_active e && (i == b.ev_pri e)) =
      ap (occurrences e) (sym p) ∙ v.active e i in
    ground arith
