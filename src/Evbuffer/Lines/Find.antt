-- ===== src/Evbuffer/Lines/Find.antt =====
-- About `evbuffer_find` of buffer.c.
use study_libevent.Prelude.{
  ℕ, zero, suc, ◌+◌, ◌-◌, ◌≤◌, ◌<◌, ◌≡◌, ◌≢◌, refl, ◌∙◌, List, [], ◌∷◌, true, false, ltb, ltb→lt,
  ◌==◌, ==_iff, length, length-drop, get_or, drop, Ensures, Ensures-if, returns, arith, inl, inr,
  Bool-cases, Option-cases, subst, Option, none, some,
}
use study_libevent.Prelude.Memory.{window}
use study_libevent.Evbuffer.{Evbuffer, contents}
use study_libevent.Evbuffer.Valid.{IsValid, length-contents}
use study_libevent.Evbuffer.Lines.{memchr, memcmp_eq, find_loop, find}
use study_libevent.Evbuffer.Lines.Eol.{FoundByte, memchr-FoundByte, behind}

-- `what` stands at offset `p`.
abbrev pub IsAt : List ℕ → List ℕ → ℕ → Type 0
IsAt what bytes p = (p + length what ≤ length bytes) × (window p (length what) bytes ≡ what)

abbrev pub FoundAt : List ℕ → List ℕ → Option ℕ → Type 0
FoundAt what bytes none = (p : ℕ) → ¬ IsAt what bytes p
FoundAt what bytes (some p) = IsAt what bytes p × ((q : ℕ) → q < p → ¬ IsAt what bytes q)

memcmp_eq_sound : (xs ys : List ℕ) → memcmp_eq xs ys ≡ true → xs ≡ ys
unfolding memcmp_eq
memcmp_eq_sound [] [] h = refl
memcmp_eq_sound [] (y ∷ ys) h = cc
memcmp_eq_sound (x ∷ xs) [] h = cc
memcmp_eq_sound (x ∷ xs) (y ∷ ys) h = ground (arith, memcmp_eq_sound xs ys)

memcmp_eq_refl : (xs : List ℕ) → memcmp_eq xs xs ≡ true
unfolding memcmp_eq
memcmp_eq_refl [] = refl
memcmp_eq_refl (x ∷ xs) = ground (arith, memcmp_eq_refl xs)

get_or-window :
    (p : ℕ) (c : ℕ) (ws bytes : List ℕ)
    → window p (suc (length ws)) bytes ≡ c ∷ ws
    → get_or bytes p 0 ≡ c
get_or-window zero c ws [] h = cc
get_or-window zero c ws (x ∷ bytes) h = cc
get_or-window (suc p) c ws [] h = cc
get_or-window (suc p) c ws (x ∷ bytes) h = get_or-window p c ws bytes h

module _ (c : ℕ) (ws bytes : List ℕ) where
  abbrev what : List ℕ
  what = c ∷ ws

  -- Where the first byte does not stand, `what` does not.
  not-IsAt :
      (search q : ℕ)
      → search ≤ q
      → get_or (drop search bytes) (q - search) 0 ≢ c
      → ¬ IsAt what bytes q
  not-IsAt search q le ne (inside, same) =
      ne (behind bytes search q le ∙ get_or-window q c ws bytes same)

  missed :
      (search k : ℕ)
      → ((q : ℕ) → q < search → ¬ IsAt what bytes q)
      → FoundByte c (drop search bytes) (some k)
      → (q : ℕ) → q < search + k
      → ¬ IsAt what bytes q
  missed search k passed (inside, at, before) q h here = elim (Bool-cases (ltb q search)) [
    | inl e ↦ passed q (ltb→lt q search e) here
    | inr e ↦ not-IsAt search q (ground arith) (before (q - search) (ground arith)) here
  ]

  missed_all :
      (search : ℕ)
      → ((q : ℕ) → q < search → ¬ IsAt what bytes q)
      → FoundByte c (drop search bytes) none
      → (q : ℕ) → ¬ IsAt what bytes q
  missed_all search passed miss q here = elim (Bool-cases (ltb q search)) [
    | inl e ↦ passed q (ltb→lt q search e) here
    | inr e ↦
        let inside : q - search < length (drop search bytes) =
          ground (arith, length-drop search bytes, here.0) in
        not-IsAt search q (ground arith) (miss (q - search) inside) here
  ]

  differs : (p : ℕ) → memcmp_eq (window p (length what) bytes) what ≡ false → ¬ IsAt what bytes p
  differs p t (inside, same) =
      let e : memcmp_eq what what ≡ false = subst (λ xs. memcmp_eq xs what ≡ false) same t in
      cc (memcmp_eq_refl what)

  -- The loop has passed no place so far.
  find_loop-FoundAt :
      (fuel search : ℕ)
      → search ≤ length bytes
      → length bytes < search + fuel
      → ((q : ℕ) → q < search → ¬ IsAt what bytes q)
      → Ensures (FoundAt what bytes) (find_loop fuel c what bytes search)
  unfolding find_loop
  find_loop-FoundAt zero search le f passed = absurd (omega arith)
  find_loop-FoundAt (suc fuel) search le f passed =
      let found = memchr-FoundByte c (drop search bytes) in
      elim (Option-cases (memchr c (drop search bytes))) [
        | inl e ↦
            rw (e, find_loop)
              (returns (missed_all search passed (subst (FoundByte c (drop search bytes)) e found)))
        | inr (k, e) ↦
            let at = subst (FoundByte c (drop search bytes)) e found in
            let before = missed search k passed at in
            let next : search + k + 1 ≡ suc (search + k) = omega arith in
            let inside : search + k < length bytes =
              omega (arith, at.0, length-drop search bytes) in
            rw (e, find_loop, next)
              (Ensures-if (ltb (length bytes) (search + k + length what))
                (λ over. returns λ q here. before q (ground (arith, here.0)) here)
                λ fits.
                  Ensures-if (memcmp_eq (window (search + k) (length what) bytes) what)
                    (λ t. returns ((ground arith, memcmp_eq_sound _ _ t), before))
                    λ t. find_loop-FoundAt fuel (suc (search + k)) inside (omega arith) λ q h here.
                      elim (Bool-cases (q == search + k)) [
                        | inl same ↦
                            differs (search + k) t
                              (subst (IsAt what bytes) ((==_iff q _).0 same) here)
                        | inr ne ↦ before q (ground arith) here
                      ])
      ]

-- For a valid buffer and a non-empty string, `evbuffer_find` ends: with the first offset at which
-- the string stands in the bytes, or with NULL where it stands at none.
pub find-FoundAt :
    (b : Evbuffer) (c : ℕ) (ws : List ℕ)
    → IsValid b
    → Ensures (FoundAt (c ∷ ws) (contents b)) (find b (c ∷ ws))
unfolding find
find-FoundAt b c ws v =
    let size = length-contents v in
    find_loop-FoundAt c ws (contents b) (b.off + 1) 0 (omega arith) (omega (arith, size))
      (λ q h. absurd (omega arith))
