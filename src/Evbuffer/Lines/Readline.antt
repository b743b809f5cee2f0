-- ===== src/Evbuffer/Lines/Readline.antt =====
-- About `evbuffer_readline` of buffer.c.
use study_libevent.Prelude.{
  ℕ, suc, ◌+◌, ◌^◌, ◌<◌, ◌≡◌, refl, sym, ap, ◌∙◌, List, [], ◌∷◌, ◌++◌, Bool, true, false,
  if◌then◌else◌, ltb, ltb→lt, lt→ltb, ◌==◌, ==_iff, ◌&&◌, not, length, get_or, take, drop, drop_all,
  drop_cons, take-append-drop, done, Ensures, returns, arith, inl, inr, ◌⊎◌, Bool-cases, position,
  position-le, position-before, position-at, Option, none, some, All, subst, take_all,
}
use study_libevent.Evbuffer.{Evbuffer, contents, sub_size}
use study_libevent.Evbuffer.Valid.{IsValid, length-contents}
use study_libevent.Evbuffer.Add.{Reported, Reported-refl, drain-Drained}
use study_libevent.Evbuffer.Lines.{add_uint, is_eol, scan, pair_eol, readline_at, readline}
use study_libevent.Evbuffer.Lines.Scan.{scan_start}

-- What is left behind the end of a line that starts with `c`: a second, other byte of CR and LF
-- belongs to the end.
abbrev pub skip_pair : ℕ → List ℕ → List ℕ
skip_pair c [] = []
skip_pair c (d ∷ ds) = if is_eol d && not (d == c) then ds else d ∷ ds

-- What `evbuffer_readline` returns.
pub record LineRead (malloc : ℕ → Bool) (b : Evbuffer) (r : Option (List ℕ) × Evbuffer)
    : Type 0 where
  pub valid : IsValid r.1
  pub reported : Reported b r.1
  pub on_null :
      r.0 ≡ none
      → (r.1 ≡ b) × (All (λ c. is_eol c ≡ false) (contents b) ⊎ ((n : ℕ) × (malloc n ≡ false)))
  pub on_line :
      (line : List ℕ)
      → r.0 ≡ some line
      → (c : ℕ) × (tail : List ℕ) × (contents b ≡ line ++ c ∷ tail)
        × All (λ x. is_eol x ≡ false) line
        × (is_eol c ≡ true)
        × (contents r.1 ≡ skip_pair c tail)

-- The bytes behind the end of the line at index `i`.
drained : List ℕ → ℕ → ℕ
drained bytes i = add_uint (if pair_eol bytes i then add_uint i 1 else i) 1

pair_eol_inside :
    (bytes : List ℕ) (i : ℕ)
    → length bytes < 2 ^ 32
    → suc i < length bytes
    → let d = get_or bytes (suc i) 0 in pair_eol bytes i ≡ (is_eol d && not (d == get_or bytes i 0))
unfolding pair_eol
pair_eol_inside bytes i small h =
    let next : i + 1 ≡ suc i = omega arith in
    let test : ltb i (sub_size (length bytes) 1) ≡ true = lt→ltb _ _ (omega arith) in
    rw (next, test)

pair_eol_end : (bytes : List ℕ) (i : ℕ) → length bytes ≡ suc i → pair_eol bytes i ≡ false
unfolding pair_eol
pair_eol_end bytes i h =
    let test : ltb i (sub_size (length bytes) 1) ≡ false = rw h (ground arith) in rw test

drop-drained :
    (bytes : List ℕ) (i : ℕ)
    → length bytes < 2 ^ 32
    → i < length bytes
    → drop (drained bytes i) bytes ≡ skip_pair (get_or bytes i 0) (drop (suc i) bytes)
unfolding drained
drop-drained bytes i small h = elim (Bool-cases (ltb (suc i) (length bytes))) [
  | inl e ↦
      let inside = ltb→lt _ _ e in
      let one : add_uint i 1 ≡ suc i = omega arith in
      let two : add_uint (suc i) 1 ≡ suc (suc i) = omega arith in
      let cut = drop_cons (suc i) bytes 0 inside in
      elim (Bool-cases (pair_eol bytes i)) [
        | inl p ↦ rw (cut, ← pair_eol_inside bytes i small inside, p, one, two) refl
        | inr p ↦ rw (p, one, cut, ← pair_eol_inside bytes i small inside, p) refl
      ]
  | inr e ↦
      let last : length bytes ≡ suc i = ground arith in
      let one : add_uint i 1 ≡ suc i = omega arith in
      rw (pair_eol_end bytes i last, one, drop_all (suc i) bytes (omega arith)) refl
]

-- The list cut at index `i`.
pub split_at :
    (bytes : List ℕ) (i : ℕ)
    → i < length bytes
    → bytes ≡ take i bytes ++ get_or bytes i 0 ∷ drop (suc i) bytes
split_at bytes i h =
    sym (take-append-drop i bytes) ∙ ap (λ t. take i bytes ++ t) (drop_cons i bytes 0 h)

readline_at-LineRead :
    (malloc : ℕ → Bool) (b : Evbuffer)
    → IsValid b
    → b.off < 2 ^ 32
    → LineRead malloc b (readline_at malloc b (position is_eol (contents b)))
unfolding readline_at drained
readline_at-LineRead malloc b v small = elim (Bool-cases (i == b.off)) [
  | inl e ↦ rw e (record {
    valid = v;
    reported = Reported-refl b;
    on_null = λ _. (
      refl,
      inl (
          subst (All _) (take_all i bytes (omega (arith, size, (==_iff i b.off).0 e)))
            (position-before is_eol bytes)),
    );
    on_line = λ line p. cc;
  })
  | inr e ↦ elim (Bool-cases (malloc (add_uint i 1))) [
    | inl m ↦
        let inside : i < length bytes = ground (arith, size, position-le is_eol bytes) in
        let d = drain-Drained b (drained bytes i) v in
        rw (e, m)
          (record {
            valid = d.valid;
            reported = d.reported;
            on_null = λ p. cc;
            on_line = λ line p.
                let same : take i bytes ≡ line = cc in
                (
                  get_or bytes i 0,
                  drop (suc i) bytes,
                  subst (λ l. bytes ≡ l ++ get_or bytes i 0 ∷ drop (suc i) bytes) same
                      (split_at bytes i inside),
                  subst (All (λ x. is_eol x ≡ false)) same (position-before is_eol bytes),
                  position-at is_eol bytes inside,
                  d.bytes ∙ drop-drained bytes i (omega (arith, size)) inside,
                );
          })
    | inr m ↦
        rw (e, m)
          (record {
            valid = v;
            reported = Reported-refl b;
            on_null = λ _. (refl, inr (add_uint i 1, m));
            on_line = λ line p. cc;
          })
  ]
]
  where
    bytes : List ℕ
    bytes = contents b

    i : ℕ
    i = position is_eol bytes

    size : length bytes ≡ b.off
    size = length-contents v

-- For a valid buffer of fewer than 2 ^ 32 bytes, `evbuffer_readline` ends and leaves a valid
-- buffer. A line is the bytes before the first CR or LF; with it are drained that byte and a
-- following other one of the two; with NULL the buffer is unchanged, and there was no CR or LF or
-- `malloc` refused. The callback is told once if the length changed and not otherwise.
pub readline-LineRead :
    (malloc : ℕ → Bool) (b : Evbuffer)
    → IsValid b
    → b.off < 2 ^ 32
    → Ensures (LineRead malloc b) (readline malloc b)
unfolding readline
readline-LineRead malloc b v small =
    let size = length-contents v in
    let found : scan is_eol (b.off + 1) (contents b) 0 ≡ done (position is_eol (contents b)) =
      ap (λ k. scan is_eol (k + 1) (contents b) 0) (sym size)
      ∙ scan_start is_eol (contents b) (omega (arith, size)) in
    rw found (returns (readline_at-LineRead malloc b v small))
