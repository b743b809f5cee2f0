-- ===== src/Http/Lines.antt =====
-- About `evbuffer_readline` on the lines that http.c writes, which end with CR LF.
use study_libevent.Prelude.{
  ℕ, ◌^◌, ◌<◌, ◌≡◌, refl, sym, ap, ◌∙◌, subst, List, [], ◌∷◌, ◌++◌, Bool, true, false, Option, none,
  some, All, Ensures, Ensures-map, inl, inr, ◌⊎◌, ◌==◌, take, drop, take-append-drop, length,
  length-append, append_assoc, not, ◌&&◌, arith, Bool-cases,
}
use study_libevent.Prelude.Position.{position}
use study_libevent.Evbuffer.{Evbuffer, contents}
use study_libevent.Evbuffer.Valid.{IsValid, length-contents}
use study_libevent.Evbuffer.Lines.{is_eol, readline}
use study_libevent.Evbuffer.Lines.Readline.{LineRead, readline-LineRead, skip_pair}
use study_libevent.Http.{c_string}

abbrev pub NotEol : ℕ → Type 0
NotEol c = is_eol c ≡ false

abbrev pub NotNul : ℕ → Type 0
NotNul c = (c == 0) ≡ false

-- The first line end splits a list in one way.
first_eol :
    (l m : List ℕ) (c d : ℕ) (t u : List ℕ)
    → l ++ c ∷ t ≡ m ++ d ∷ u
    → All NotEol l
    → All NotEol m
    → is_eol c ≡ true
    → is_eol d ≡ true
    → (l ≡ m) × (c ≡ d) × (t ≡ u)
first_eol [] [] c d t u e hl hm hc hd = (refl, cc, cc)
first_eol [] (y ∷ m) c d t u e hl (hy, hm) hc hd = absurd cc
first_eol (x ∷ l) [] c d t u e (hx, hl) hm hc hd = absurd cc
first_eol (x ∷ l) (y ∷ m) c d t u e (hx, hl) (hy, hm) hc hd =
    let rest : l ++ c ∷ t ≡ m ++ d ∷ u = cc in
    let (same, mark, tail) = first_eol l m c d t u rest hl hm hc hd in (cc, mark, tail)

no_eol : (l : List ℕ) (c : ℕ) (t : List ℕ) → is_eol c ≡ true → All NotEol (l ++ c ∷ t) → ⊥
no_eol [] c t hc (h, hs) = cc
no_eol (x ∷ l) c t hc (h, hs) = no_eol l c t hc hs

-- The next line of a buffer that begins with `line` and CR LF.
pub record NextLine (line rest : List ℕ) (r : Option (List ℕ) × Evbuffer) : Type 0 where
  pub found : r.0 ≡ some line
  pub valid : IsValid r.1
  pub left : contents r.1 ≡ rest

pub readline-NextLine :
    (malloc : ℕ → Bool) (b : Evbuffer) (line rest : List ℕ)
    → ((n : ℕ) → malloc n ≡ true)
    → IsValid b
    → b.off < 2 ^ 32
    → contents b ≡ line ++ 13 ∷ 10 ∷ rest
    → All NotEol line
    → Ensures (NextLine line rest) (readline malloc b)
readline-NextLine malloc b line rest grants v small bytes clean =
    Ensures-map (readline-LineRead malloc b v small) λ r p. next_of r p
  where
    cr : is_eol 13 ≡ true
    cr = unfold is_eol in refl

    next_of : (r : Option (List ℕ) × Evbuffer) → LineRead malloc b r → NextLine line rest r
    next_of (none, c) p = absurd (refused (p.on_null refl).1)
      where
        refused : All NotEol (contents b) ⊎ ((n : ℕ) × (malloc n ≡ false)) → ⊥
        refused (inl all) = no_eol line 13 (10 ∷ rest) cr (subst (All NotEol) bytes all)
        refused (inr (n, null)) = cc (grants n)
    next_of (some l, c) p =
        let (d, tail, whole, hl, hd, after) = p.on_line l refl in
        let (same, mark, left) =
          first_eol l line d 13 tail (10 ∷ rest) (sym whole ∙ bytes) hl clean hd cr in
        record {
          found = ap some same;
          valid = p.valid;
          left = rw (mark, left) at after ∙ (unfold is_eol in refl);
        }

-- A string with no NUL in it is the whole block.
pub c_string_whole : (s : List ℕ) → All NotNul s → c_string s ≡ s
unfolding c_string position
c_string_whole [] h = refl
c_string_whole (c ∷ s) (h, hs) = rw h (ap (◌∷◌ c) (c_string_whole s hs))

-- A NUL ends the string.
pub c_string_ended : (s : List ℕ) → All NotNul s → c_string (s ++ 0 ∷ []) ≡ s
unfolding c_string position
c_string_ended [] h = refl
c_string_ended (c ∷ s) (h, hs) = rw h (ap (◌∷◌ c) (c_string_ended s hs))

-- `xs` ends with `ys`.
abbrev pub EndsWith : List ℕ → List ℕ → Type 0
EndsWith xs ys = (front : List ℕ) × (xs ≡ front ++ ys)

pub EndsWith-trans : {xs ys zs : List ℕ} → EndsWith xs ys → EndsWith ys zs → EndsWith xs zs
EndsWith-trans {xs} {ys} {zs} (f, p) (g, q) =
    (f ++ g, p ∙ ap (λ t. f ++ t) q ∙ sym (append_assoc f g zs))

pub EndsWith-drop : (n : ℕ) (xs : List ℕ) → EndsWith xs (drop n xs)
EndsWith-drop n xs = (take n xs, sym (take-append-drop n xs))

skip_pair-EndsWith : (c : ℕ) (tail : List ℕ) → EndsWith tail (skip_pair c tail)
skip_pair-EndsWith c [] = ([], refl)
skip_pair-EndsWith c (d ∷ ds) = elim (Bool-cases (is_eol d && not (d == c))) [
  | inl e ↦ rw e (d ∷ [], refl)
  | inr e ↦ rw e ([], refl)
]

-- A line that was read is taken from the front.
pub line_taken :
    {malloc : ℕ → Bool} {b : Evbuffer} {r : Option (List ℕ) × Evbuffer}
    → IsValid b
    → LineRead malloc b r
    → (line : List ℕ) → r.0 ≡ some line
    → (r.1.off < b.off) × EndsWith (contents b) (contents r.1) × All NotEol line
line_taken {b = b} {r = r} v p line found =
    let (d, tail, whole, clean, eol, after) = p.on_line line found in
    let behind : EndsWith (contents b) tail =
      (line ++ d ∷ [], whole ∙ sym (append_assoc line (d ∷ []) tail)) in
    let (f, cut) = skip_pair-EndsWith d tail in
    (
      omega (
        arith,
        length-contents p.valid,
        length-contents v,
        ap length after,
        ap length whole,
        ap length cut,
        length-append line (d ∷ tail),
        length-append f (skip_pair d tail),
      ),
      rw after (EndsWith-trans behind (f, cut)),
      clean,
    )
