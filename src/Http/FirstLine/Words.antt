-- ===== src/Http/FirstLine/Words.antt =====
-- About the words of a request line, and the headers that `evhttp_make_header_request` of http.c
-- adds and removes.
use study_libevent.Prelude.{
  ℕ, zero, suc, ◌+◌, ◌/◌, ◌≤◌, ◌<◌, ◌≡◌, refl, sym, subst, List, [], ◌∷◌, ◌++◌, append_assoc,
  length, Bool, true, false, ◌&&◌, ◌==◌, if◌then◌else◌, ltb, Option, some, done, ◌>>=◌, Status, ok,
  Ensures, Ensures-bind, returns, All, All-append, Bool-cases, inl, inr, arith,
}
use study_libevent.Evbuffer.{Evbuffer, Realloc, size_max}
use study_libevent.Evbuffer.Valid.{IsValid}
use study_libevent.Evbuffer.Add.{Grants}
use study_libevent.Evbuffer.Lines.{is_eol, memcmp_eq}
use study_libevent.Http.Text.{Without, strsep_found, strsep_last}
use study_libevent.Http.Lines.{NotEol, NotNul}
use study_libevent.Evbuffer.Io.{int_max}
use study_libevent.Http.Output.{Puts, add_vprintf-Puts}
use study_libevent.Http.Headers.{
  Header, find_header, remove_header, behind, add_header, strcasecmp_eq, starts_blank, is_blank,
  skip_spaces,
}
use study_libevent.Http.Headers.Offer.{add_header-Offered}
use study_libevent.Http.Headers.RoundTrip.{IsPlain, NotEol-Folded}
use study_libevent.Http.FirstLine.{
  Method, get, post, head, method_name, FirstLine, version_1, is_proxy, store_uri, read_version,
  read_method, split_version, split_uri, split_method, parse_request_line, print_decimal,
  request_line, proxy_connection, content_length, is_post, is_null, make_header_request,
}

IsDecimal : ℕ → Type 0
IsDecimal c = (48 ≤ c) × (c < 58)

print_decimal-IsDecimal : (fuel n : ℕ) → All IsDecimal (print_decimal fuel n)
unfolding print_decimal IsDecimal
print_decimal-IsDecimal zero n = tt
print_decimal-IsDecimal (suc fuel) n = elim (Bool-cases (ltb n 10)) [
  | inl e ↦ rw e ((omega arith, ground arith), tt)
  | inr e ↦ rw e (
      All-append IsDecimal (print_decimal fuel (n / 10)) _ (print_decimal-IsDecimal fuel (n / 10))
        ((omega arith, omega arith), tt))
]

decimal-NotEol :
    (xs : List ℕ) → All IsDecimal xs → All NotEol xs × All NotNul xs × (skip_spaces xs ≡ xs)
unfolding IsDecimal is_eol skip_spaces
decimal-NotEol [] h = (tt, tt, refl)
decimal-NotEol (c ∷ cs) (h, hs) =
    let (eol, nul, start) = decimal-NotEol cs hs in
    let space : (c == 32) ≡ false = ground arith in
    ((ground arith, eol), (ground arith, nul), rw space refl)

-- The header that a request with a body gets.
abbrev pub length_header : ℕ → Header
length_header n = record { key = content_length; value = print_decimal 20 n }

length_header-IsPlain : (n : ℕ) → IsPlain (length_header n)
unfolding is_eol starts_blank is_blank
length_header-IsPlain n =
    let (eol, nul, start) = decimal-NotEol (print_decimal 20 n) (print_decimal-IsDecimal 20 n) in
    record {
      key_some = λ e. cc;
      key_start = refl;
      key_line = ground arith;
      key_string = ground arith;
      key_colon = ground arith;
      value_start = start;
      value_line = eol;
      value_string = nul;
    }

remove_header-IsPlain :
    (headers : List Header) (key : List ℕ)
    → All IsPlain headers
    → All IsPlain (remove_header headers key).1
unfolding remove_header behind
remove_header-IsPlain [] key hs = tt
remove_header-IsPlain (h ∷ headers) key (p, ps) = elim (Bool-cases (strcasecmp_eq h.key key)) [
  | inl e ↦ rw e ps
  | inr e ↦ rw e (under (remove_header headers key) (remove_header-IsPlain headers key ps))
]
  where
    under : (r : Status × List Header) → All IsPlain r.1 → All IsPlain (behind h r).1
    under (st, hs) g = (p, g)

-- The headers of a request: without "Proxy-Connection", and for POST with a "Content-Length".
abbrev pub sent_headers : Method → List Header → ℕ → List Header
sent_headers type headers n =
    let kept = (remove_header headers proxy_connection).1 in
    if is_post type && is_null (find_header kept content_length)
    then kept ++ length_header n ∷ []
    else kept

pub make_header_request-Puts :
    (realloc : ℕ → Realloc) (alloc : ℕ → Bool) (req : FirstLine) (uri : List ℕ)
    (headers : List Header) (n : ℕ) (out : Evbuffer)
    → ((k : ℕ) → Grants (realloc k))
    → ((k : ℕ) → alloc k ≡ true)
    → IsValid out
    → All IsPlain headers
    → out.off + length (request_line req uri) + 64 ≤ size_max
    → length (request_line req uri) < int_max
    → Ensures
        (λ (r : List Header × Evbuffer).
          (r.0 ≡ sent_headers req.type headers n)
          × All IsPlain r.0
          × Puts out (request_line req uri) r.1)
        (make_header_request realloc alloc req uri headers n out)
unfolding make_header_request
make_header_request-Puts realloc alloc req uri headers n out grants memory v plain fits small =
    let kept = (remove_header headers proxy_connection).1 in
    let clean = remove_header-IsPlain headers proxy_connection plain in
    let p = length_header-IsPlain n in
    Ensures-bind (add_vprintf-Puts realloc out (request_line req uri) grants v fits small) λ r puts.
      either (is_post req.type && is_null (find_header kept content_length)) kept clean p r puts
  where
    either :
        (b : Bool) (kept : List Header)
        → All IsPlain kept
        → IsPlain (length_header n)
        → (r : Option ℕ × Evbuffer) → Puts out (request_line req uri) r.1
        → Ensures
            (λ (s : List Header × Evbuffer).
              (s.0 ≡ (if b then kept ++ length_header n ∷ [] else kept))
              × All IsPlain s.0
              × Puts out (request_line req uri) s.1)
            (if b
              then (add_header alloc kept content_length (print_decimal 20 n) >>= λ s.
                  done (s.1, r.1))
              else done (kept, r.1))
    either true kept clean p r puts =
        Ensures-bind (add_header-Offered alloc kept (length_header n)) λ s o.
          let good : s.0 ≡ ok =
            o.taken
              (record {
                key_line = p.key_line;
                value_lines = NotEol-Folded (print_decimal 20 n) p.value_line;
              })
              memory in
          let added = (o.accepted good).1 in
          returns (
            added,
            subst (All IsPlain) (sym added)
                (All-append IsPlain kept (length_header n ∷ []) clean (p, tt)),
            puts,
          )
    either false kept clean p r puts = returns (refl, clean, puts)

-- The request line without its end.
abbrev pub text : Method → List ℕ → ℕ → List ℕ
text type uri minor = method_name type ++ 32 ∷ (uri ++ 32 ∷ (version_1 ++ (48 + minor) ∷ []))

pub request_line-text :
    (req : FirstLine) (uri : List ℕ) (m : ℕ)
    → req.major ≡ 1
    → req.minor ≡ m
    → m < 2
    → request_line req uri ≡ text req.type uri m ++ 13 ∷ 10 ∷ []
unfolding print_decimal
request_line-text req uri zero one e h = rw (one, e) (simp append_assoc)
request_line-text req uri (suc zero) one e h = rw (one, e) (simp append_assoc)
request_line-text req uri (suc (suc m)) one e h = absurd (omega arith)

-- A URI that a request line can carry.
pub record IsTarget (uri : List ℕ) : Type 0 where
  pub one_word : Without 32 uri
  pub one_line : All NotEol uri
  pub string : All NotNul uri

pub method-word :
    (t : Method)
    → Without 32 (method_name t) × All NotEol (method_name t) × All NotNul (method_name t)
unfolding method_name is_eol
method-word get = ground arith
method-word post = ground arith
method-word head = ground arith

pub version-word :
    (m : ℕ)
    → m < 2
    → Without 32 (version_1 ++ (48 + m) ∷ [])
      × All NotEol (version_1 ++ (48 + m) ∷ [])
      × All NotNul (version_1 ++ (48 + m) ∷ [])
unfolding is_eol
version-word m h = ground arith

-- What the reader stores of a request line.
abbrev pub stored : FirstLine → Method → List ℕ → ℕ → FirstLine
stored old t uri m = record {
  type = t;
  major = 1;
  minor = m;
  uri = some uri;
  proxy = if is_proxy uri then true else old.proxy;
}

read_words :
    (old : FirstLine) (t : Method) (uri : List ℕ) (m : ℕ)
    → m < 2
    → read_method true old (method_name t) uri (version_1 ++ (48 + m) ∷ [])
      ≡ (ok, stored old t uri m)
unfolding read_method read_version store_uri method_name memcmp_eq
read_words old get uri zero h = refl
read_words old get uri (suc zero) h = refl
read_words old post uri zero h = refl
read_words old post uri (suc zero) h = refl
read_words old head uri zero h = refl
read_words old head uri (suc zero) h = refl
read_words old t uri (suc (suc m)) h = absurd (omega arith)

pub parse_text :
    (old : FirstLine) (t : Method) (uri : List ℕ) (m : ℕ)
    → IsTarget uri
    → m < 2
    → parse_request_line true old (text t uri m) ≡ (ok, stored old t uri m)
unfolding parse_request_line split_method split_uri split_version
parse_text old t uri m target h =
    let version = version_1 ++ (48 + m) ∷ [] in
    rw
      (
        strsep_found 32 (method_name t) (uri ++ 32 ∷ version) (method-word t).0,
        strsep_found 32 uri version target.one_word,
        strsep_last 32 version (version-word m h).0,
      )
      (read_words old t uri m h)
