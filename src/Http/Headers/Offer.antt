-- ===== src/Http/Headers/Offer.antt =====
-- About `evhttp_header_is_valid_value` and `evhttp_add_header` of http.c.
use study_libevent.Prelude.{
  ℕ, zero, suc, ◌+◌, ◌≤◌, ◌<◌, ◌≡◌, refl, sym, ◌↔◌, List, [], ◌∷◌, ◌++◌, Bool, true, false, ◌&&◌,
  ◌||◌, not, ◌==◌, if◌then◌else◌, length, done, Status, ok, fail, Ensures, Ensures-bind, Ensures-if,
  Ensures-map, returns, All, subst, Bool-cases, inl, inr, arith,
}
use study_libevent.Evbuffer.Lines.{is_eol}
use study_libevent.Http.Lines.{NotEol}
use study_libevent.Http.Headers.{
  Header, is_blank, starts_blank, skip_eol, find_eol, valid_loop, header_is_valid_value, has_eol,
  add_header_internal, add_header,
}

-- Whether what stands behind a CR or LF continues the line.
abbrev pub continues : List ℕ → Bool
continues [] = false
continues (d ∷ ds) = is_eol d || is_blank d

-- Behind every CR or LF stands another, a space or a tab.
abbrev pub Folded : List ℕ → Type 0
Folded [] = Unit
Folded (c ∷ cs) = (is_eol c ≡ true → continues cs ≡ true) × Folded cs

length-skip_eol : (cs : List ℕ) → length (skip_eol cs) ≤ length cs
unfolding skip_eol
length-skip_eol [] = omega arith
length-skip_eol (c ∷ cs) = ground (arith, length-skip_eol cs)

length-find_eol : (cs : List ℕ) → length (find_eol cs) ≤ length cs
unfolding find_eol
length-find_eol [] = omega arith
length-find_eol (c ∷ cs) = ground (arith, length-find_eol cs)

skip_eol_more : (d : ℕ) (ds : List ℕ) → is_eol d ≡ true → skip_eol (d ∷ ds) ≡ skip_eol ds
unfolding skip_eol
skip_eol_more d ds h = rw h refl

skip_eol_stop : (d : ℕ) (ds : List ℕ) → is_eol d ≡ false → skip_eol (d ∷ ds) ≡ d ∷ ds
unfolding skip_eol
skip_eol_stop d ds h = rw h refl

or_left : (a b : Bool) → a ≡ true → (a || b) ≡ true
or_left a b h = ground arith

or_right : {a b : Bool} → a ≡ false → ((a || b) ≡ true) ↔ (b ≡ true)
or_right {a} {b} h = ground arith

-- A run of line ends is well folded where a space or a tab follows it.
eol_run :
    (c : ℕ) (cs : List ℕ)
    → is_eol c ≡ true
    → Folded (c ∷ cs) ↔ ((starts_blank (skip_eol cs) ≡ true) × Folded (skip_eol cs))
unfolding starts_blank
eol_run c [] h = unfold skip_eol in (λ (f, g). (f h, tt), λ (f, g). (λ _. f, tt))
eol_run c (d ∷ ds) h = elim (Bool-cases (is_eol d)) [
  | inl e ↦
      let (there, back) = eol_run d ds e in
      rw (skip_eol_more d ds e) (λ (f, g). there g, λ p. (λ _. or_left _ _ e, back p))
  | inr e ↦
      let (there, back) = or_right {b = is_blank d} e in
      rw (skip_eol_stop d ds e) (λ (f, g). (there (f h), g), λ (f, g). (λ _. back f, g))
]

-- The search for a line end skips what is well folded.
find_eol-Folded : (cs : List ℕ) → Folded cs ↔ Folded (find_eol cs)
unfolding find_eol
find_eol-Folded [] = (λ h. h, λ h. h)
find_eol-Folded (c ∷ cs) =
    let (there, back) = find_eol-Folded cs in
    elim (Bool-cases (is_eol c)) [
      | inl e ↦
          let same : (if is_eol c then c ∷ cs else find_eol cs) ≡ c ∷ cs = rw e refl in
          (subst Folded (sym same), subst Folded same)
      | inr e ↦
          let same : (if is_eol c then c ∷ cs else find_eol cs) ≡ find_eol cs = rw e refl in
          (λ (f, g). subst Folded (sym same) (there g), λ g. (λ t. cc, back (subst Folded same g)))
    ]

find_eol-starts : (cs ds : List ℕ) (d : ℕ) → find_eol cs ≡ d ∷ ds → is_eol d ≡ true
unfolding find_eol
find_eol-starts [] ds d e = cc
find_eol-starts (c ∷ cs) ds d e = elim (Bool-cases (is_eol c)) [
  | inl t ↦ let same : c ≡ d = grind arith in cc
  | inr t ↦ find_eol-starts cs ds d (rw t at e)
]

-- The loop from what `find_eol` found.
module _ (fuel : ℕ)
    (ih : (q : List ℕ)
      → length q < fuel
      → Ensures (λ v. (v ≡ true) ↔ Folded q) (valid_loop fuel q)) where
  found_step :
      (found : List ℕ)
      → ((d : ℕ) (ds : List ℕ) → found ≡ d ∷ ds → is_eol d ≡ true)
      → length found < suc fuel
      → Ensures
          (λ v. (v ≡ true) ↔ Folded found)
          (if length found == 0
            then done true
            else if not (starts_blank (skip_eol found))
            then done false
            else valid_loop fuel (skip_eol found))
  found_step [] starts small = returns (λ _. tt, λ _. refl)
  found_step (d ∷ ds) starts small =
      let eol = starts d ds refl in
      let (there, back) = eol_run d ds eol in
      let some_left : (length (d ∷ ds) == 0) ≡ false = ground arith in
      rw (some_left, skip_eol_more d ds eol)
        (Ensures-if (not (starts_blank (skip_eol ds))) (λ t. returns (λ p. cc, λ f. cc (there f).0))
          λ t.
            Ensures-map (ih (skip_eol ds) (omega (arith, length-skip_eol ds)))
              λ v (yes_v, no_v). (λ p. back (ground arith, yes_v p), λ f. no_v (there f).1))

valid_loop-Folded :
    (fuel : ℕ) (p : List ℕ)
    → length p < fuel
    → Ensures (λ v. (v ≡ true) ↔ Folded p) (valid_loop fuel p)
unfolding valid_loop
valid_loop-Folded zero p h = absurd (omega arith)
valid_loop-Folded (suc fuel) p h =
    let (there, back) = find_eol-Folded p in
    Ensures-map
      (found_step fuel (valid_loop-Folded fuel) (find_eol p) (λ d ds e. find_eol-starts p ds d e)
        (omega (arith, length-find_eol p)))
      λ v (f, g). (λ q. back (f q), λ q. g (there q))

-- `evhttp_header_is_valid_value` returns, and accepts exactly the values in which a CR or LF, or
-- a space or a tab, follows every CR and LF.
header_is_valid_value-Folded :
    (value : List ℕ) → Ensures (λ v. (v ≡ true) ↔ Folded value) (header_is_valid_value value)
unfolding header_is_valid_value
header_is_valid_value-Folded value = valid_loop-Folded (length value + 1) value (omega arith)

has_eol-NotEol : (key : List ℕ) → has_eol key ≡ false → All NotEol key
unfolding has_eol
has_eol-NotEol [] h = tt
has_eol-NotEol (c ∷ cs) h = (ground arith, has_eol-NotEol cs (ground arith))

NotEol-has_eol : (key : List ℕ) → All NotEol key → has_eol key ≡ false
unfolding has_eol
NotEol-has_eol [] h = refl
NotEol-has_eol (c ∷ cs) (h, hs) = rw h (NotEol-has_eol cs hs)

-- The headers that pass the two checks. Several line ends in a row pass, too, where a space or a tab
-- stands behind the last of them.
pub record IsAccepted (h : Header) : Type 0 where
  pub key_line : All NotEol h.key
  pub value_lines : Folded h.value

-- What `evhttp_add_header` does with the header `h`.
pub record Offered (alloc : ℕ → Bool) (headers : List Header) (h : Header)
    (r : Status × List Header) : Type 0 where
  pub accepted : r.0 ≡ ok → IsAccepted h × (r.1 ≡ headers ++ h ∷ [])
  pub refused : r.0 ≡ fail → r.1 ≡ headers
  pub taken : IsAccepted h → ((k : ℕ) → alloc k ≡ true) → r.0 ≡ ok

add_header_internal-Offered :
    (alloc : ℕ → Bool) (headers : List Header) (h : Header)
    → IsAccepted h
    → Offered alloc headers h (add_header_internal alloc headers h.key h.value)
unfolding add_header_internal
add_header_internal-Offered alloc headers h good =
    elim (Bool-cases (alloc 0 && alloc 1 && alloc 2)) [
      | inl e ↦
          rw e (record { accepted = λ _. (good, refl); refused = λ p. cc; taken = λ _ _. refl })
      | inr e ↦ rw e (record {
        accepted = λ p. cc;
        refused = λ _. refl;
        taken = λ _ g. ground (arith, g 0, g 1, g 2);
      })
    ]

-- `evhttp_add_header` returns. With 0 the key has no CR or LF, in the value every CR and LF is
-- followed by another, a space or a tab, and the header stands behind the old ones; with -1 the
-- headers are unchanged. Where both conditions hold and memory is given, it returns 0: also for a
-- value with several line ends in a row, where http.c's comment expects only one.
pub add_header-Offered :
    (alloc : ℕ → Bool) (headers : List Header) (h : Header)
    → Ensures (Offered alloc headers h) (add_header alloc headers h.key h.value)
unfolding add_header
add_header-Offered alloc headers h =
    Ensures-if (has_eol h.key)
      (λ t. returns (record {
        accepted = λ p. cc;
        refused = λ _. refl;
        taken = λ good _. cc (NotEol-has_eol h.key good.key_line);
      }))
      λ t.
        Ensures-bind (header_is_valid_value-Folded h.value)
          λ v (there, back). returns (judged v there back (has_eol-NotEol h.key t))
  where
    judged :
        (v : Bool)
        → (v ≡ true → Folded h.value)
        → (Folded h.value → v ≡ true)
        → All NotEol h.key
        → Offered alloc headers h
            (if v then add_header_internal alloc headers h.key h.value else (fail, headers))
    judged true there back line =
        add_header_internal-Offered alloc headers h
          (record { key_line = line; value_lines = there refl })
    judged false there back line = record {
      accepted = λ p. cc;
      refused = λ _. refl;
      taken = λ good _. cc (back good.value_lines);
    }
