-- ===== src/Http/Headers/Queue.antt =====
-- About `evhttp_find_header`, `evhttp_remove_header` and `evhttp_clear_headers` of http.c.
use study_libevent.Prelude.{
  ℕ, ◌≡◌, refl, ap, List, [], ◌∷◌, ◌++◌, map, true, Option, none, some, Status, ok, fail, All,
  Bool-cases, inl, inr, arith,
}
use study_libevent.Http.Headers.{
  Header, to_lower, strcasecmp_eq, find_header, remove_header, behind, clear_headers,
}

-- `strcasecmp` compares the strings in lower case.
strcasecmp_lem : (a b : List ℕ) → (strcasecmp_eq a b ≡ true → map to_lower a ≡ map to_lower b)
unfolding strcasecmp_eq
strcasecmp_lem [] [] h = refl
strcasecmp_lem [] (y ∷ b) h = cc
strcasecmp_lem (x ∷ a) [] h = cc
strcasecmp_lem (x ∷ a) (y ∷ b) h =
    let first : to_lower x ≡ to_lower y = ground arith in
    let rest = strcasecmp_lem a b (ground arith) in cc

strcasecmp_refl : (a b : List ℕ) → map to_lower a ≡ map to_lower b → strcasecmp_eq a b ≡ true
unfolding strcasecmp_eq
strcasecmp_refl [] [] h = refl
strcasecmp_refl [] (y ∷ b) h = absurd cc
strcasecmp_refl (x ∷ a) [] h = absurd cc
strcasecmp_refl (x ∷ a) (y ∷ b) h =
    let first : to_lower x ≡ to_lower y = cc in
    let rest : map to_lower a ≡ map to_lower b = cc in
    let later = strcasecmp_refl a b rest in ground arith

-- The header's key is `key` but for the case of its letters.
abbrev pub Named : List ℕ → Header → Type 0
Named key h = map to_lower h.key ≡ map to_lower key

-- The first header named `key`, between those before and behind it.
pub record First (key : List ℕ) (headers : List Header) : Type 0 where
  pub before : List Header
  pub header : Header
  pub after : List Header
  pub whole : headers ≡ before ++ header ∷ after
  pub others : All (λ h. ¬ Named key h) before
  pub named : Named key header

-- What the two operations do: at the first header of that name, or at none.
pub data Searched (key : List ℕ) (headers : List Header)
    : Option (List ℕ) → Status × List Header → Type 0 where
  at_first :
      (f : First key headers) → Searched key headers (some f.header.value) (ok, f.before ++ f.after)
  nowhere : All (λ h. ¬ Named key h) headers → Searched key headers none (fail, headers)

-- A header of another name in front.
Searched-behind :
    {key : List ℕ} {headers : List Header} {o : Option (List ℕ)} {r : Status × List Header}
    (h : Header)
    → (¬ Named key h)
    → Searched key headers o r
    → Searched key (h ∷ headers) o (behind h r)
unfolding behind
Searched-behind h other (at_first f) = at_first (record {
  before = h ∷ f.before;
  header = f.header;
  after = f.after;
  whole = ap (◌∷◌ h) f.whole;
  others = (other, f.others);
  named = f.named;
})
Searched-behind h other (nowhere all) = nowhere (other, all)

-- `evhttp_find_header` returns the value of the first header of that name in any case of letters, and
-- `evhttp_remove_header` returns 0 and takes just this header out, where there is one; where there
-- is none, the one returns NULL, and the other -1 with the headers unchanged.
pub remove_header-Searched :
    (headers : List Header) (key : List ℕ)
    → Searched key headers (find_header headers key) (remove_header headers key)
unfolding find_header remove_header
remove_header-Searched [] key = nowhere tt
remove_header-Searched (h ∷ hs) key = elim (Bool-cases (strcasecmp_eq h.key key)) [
  | inl e ↦ rw e (
      at_first (record {
        before = [];
        header = h;
        after = hs;
        whole = refl;
        others = tt;
        named = strcasecmp_lem h.key key e;
      }))
  | inr e ↦ rw e (
      Searched-behind h (λ same. cc (strcasecmp_refl h.key key same))
        (remove_header-Searched hs key))
]

clear_headers_lem : (headers : List Header) → clear_headers headers ≡ []
unfolding clear_headers
clear_headers_lem [] = refl
clear_headers_lem (h ∷ hs) = clear_headers_lem hs
