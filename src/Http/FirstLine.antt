-- ===== src/Http/FirstLine.antt =====
-- The request line of http.c: `evhttp_method`, `evhttp_make_header_request`,
-- `evhttp_parse_request_line` and `evhttp_parse_firstline`, which is modelled for EVHTTP_REQUEST.
--
-- `strdup` says whether it has memory. A request to be sent has a `uri` that is not NULL.
pub mod Words
pub mod RoundTrip
use study_libevent.Prelude.{
  ℕ, zero, suc, ◌+◌, ◌/◌, ◌%◌, List, [], ◌∷◌, ◌++◌, Bool, true, false, ◌&&◌, not, Option, none,
  some, ltb, ◌==◌, if◌then◌else◌, Run, done, ◌>>=◌, Status, ok, fail,
}
use study_libevent.Evbuffer.{Evbuffer, Realloc}
use study_libevent.Evbuffer.Io.{add_vprintf}
use study_libevent.Evbuffer.Lines.{memcmp_eq, readline}
use study_libevent.Http.{
  MessageRead, all_data_read, more_data_expected, data_corrupted, c_string, strsep,
}
use study_libevent.Http.Headers.{Header, find_header, remove_header, add_header}

-- `enum evhttp_cmd_type`
pub data Method : Type 0 where
  get post head : Method

-- `evhttp_method`
unfoldable pub method_name : Method → List ℕ
method_name get = b'G' ∷ b'E' ∷ b'T' ∷ []
method_name post = b'P' ∷ b'O' ∷ b'S' ∷ b'T' ∷ []
method_name head = b'H' ∷ b'E' ∷ b'A' ∷ b'D' ∷ []

-- The fields of `struct evhttp_request` of the first line; `uri` is none for NULL, `proxy` the flag
-- EVHTTP_PROXY_REQUEST.
pub record FirstLine : Type 0 where
  pub type : Method
  pub major : ℕ
  pub minor : ℕ
  pub uri : Option (List ℕ)
  pub proxy : Bool

-- "HTTP/1."
abbrev pub version_1 : List ℕ
version_1 = b'H' ∷ b'T' ∷ b'T' ∷ b'P' ∷ b'/' ∷ b'1' ∷ b'.' ∷ []

-- `strlen(req->uri) > 0 && req->uri[0] != '/'`
pub is_proxy : List ℕ → Bool
is_proxy [] = false
is_proxy (c ∷ cs) = not (c == 47)

-- The last part of `evhttp_parse_request_line`, with the answer of strdup
pub store_uri : Bool → FirstLine → List ℕ → Status × FirstLine
store_uri false req uri = (fail, record req { uri = none })
store_uri true req uri =
    (ok, record req { uri = some uri; proxy = if is_proxy uri then true else req.proxy })

-- The comparisons with the version
pub read_version : Bool → FirstLine → List ℕ → List ℕ → Status × FirstLine
read_version strdup req uri version =
    if memcmp_eq version (version_1 ++ b'0' ∷ [])
    then store_uri strdup (record req { major = 1; minor = 0 }) uri
    else if memcmp_eq version (version_1 ++ b'1' ∷ [])
    then store_uri strdup (record req { major = 1; minor = 1 }) uri
    else (fail, req)

-- The comparisons with the method
pub read_method : Bool → FirstLine → List ℕ → List ℕ → List ℕ → Status × FirstLine
read_method strdup req method uri version =
    if memcmp_eq method (method_name get)
    then read_version strdup (record req { type = get }) uri version
    else if memcmp_eq method (method_name post)
    then read_version strdup (record req { type = post }) uri version
    else if memcmp_eq method (method_name head)
    then read_version strdup (record req { type = head }) uri version
    else (fail, req)

-- The third call of `strsep`, of what follows the URI
pub split_version :
    Bool → FirstLine → List ℕ → List ℕ → List ℕ × Option (List ℕ) → Status × FirstLine
split_version strdup req method uri (version, some rest) = (fail, req)
split_version strdup req method uri (version, none) = read_method strdup req method uri version

-- The second call, of what follows the method
pub split_uri : Bool → FirstLine → List ℕ → List ℕ × Option (List ℕ) → Status × FirstLine
split_uri strdup req method (uri, none) = (fail, req)
split_uri strdup req method (uri, some line) = split_version strdup req method uri (strsep 32 line)

-- The first call
pub split_method : Bool → FirstLine → List ℕ × Option (List ℕ) → Status × FirstLine
split_method strdup req (method, none) = (fail, req)
split_method strdup req (method, some line) = split_uri strdup req method (strsep 32 line)

pub parse_request_line : Bool → FirstLine → List ℕ → Status × FirstLine
parse_request_line strdup req line = split_method strdup req (strsep 32 line)

-- The status that `evhttp_parse_firstline` returns for the result of parsing a line
pub line_status : Status → MessageRead
line_status ok = all_data_read
line_status fail = data_corrupted

-- `evhttp_parse_firstline` behind `evbuffer_readline`
pub on_first_line :
    Bool → FirstLine → Option (List ℕ) × Evbuffer → MessageRead × FirstLine × Evbuffer
on_first_line strdup req (none, buffer) = (more_data_expected, req, buffer)
on_first_line strdup req (some line, buffer) =
    let parsed = parse_request_line strdup req (c_string line) in
    (line_status parsed.0, parsed.1, buffer)

pub parse_firstline :
    (ℕ → Bool) → Bool → FirstLine → Evbuffer → Run (MessageRead × FirstLine × Evbuffer)
parse_firstline malloc strdup req buffer =
    readline malloc buffer >>= λ r. done (on_first_line strdup req r)

-- `%d` or `%ld` of a number below `10 ^ fuel`
unfoldable pub print_decimal : ℕ → ℕ → List ℕ
print_decimal zero n = []
print_decimal (suc fuel) n =
    let rest = print_decimal fuel (n / 10) in
    if ltb n 10 then (48 + n) ∷ [] else rest ++ (48 + n % 10) ∷ []

-- The output of `"%s %s HTTP/%d.%d\r\n"`
abbrev pub request_line : FirstLine → List ℕ → List ℕ
request_line req uri =
    method_name req.type
    ++ 32
      ∷ (uri
          ++ 32
            ∷ (b'H'
                ∷ b'T'
                ∷ b'T'
                ∷ b'P'
                ∷ b'/'
                ∷ (print_decimal 3 req.major
                    ++ b'.' ∷ (print_decimal 3 req.minor ++ 13 ∷ 10 ∷ []))))

abbrev pub proxy_connection : List ℕ
proxy_connection =
    b'P' ∷ b'r' ∷ b'o' ∷ b'x' ∷ b'y' ∷ b'-' ∷ b'C' ∷ b'o' ∷ b'n' ∷ b'n' ∷ b'e' ∷ b'c' ∷ b't' ∷ b'i'
    ∷ b'o' ∷ b'n' ∷ []

abbrev pub content_length : List ℕ
content_length =
    b'C' ∷ b'o' ∷ b'n' ∷ b't' ∷ b'e' ∷ b'n' ∷ b't' ∷ b'-' ∷ b'L' ∷ b'e' ∷ b'n' ∷ b'g' ∷ b't' ∷ b'h'
    ∷ []

unfoldable pub is_post : Method → Bool
is_post post = true
is_post _ = false

unfoldable pub is_null : Option (List ℕ) → Bool
is_null none = true
is_null (some v) = false

-- `evhttp_make_header_request`, for a body of `length` bytes: the output headers and the output
pub make_header_request :
    (ℕ → Realloc)
    → (ℕ → Bool)
    → FirstLine
    → List ℕ
    → List Header
    → ℕ
    → Evbuffer
    → Run (List Header × Evbuffer)
make_header_request realloc alloc req uri headers length out =
    let kept = (remove_header headers proxy_connection).1 in
    add_vprintf realloc (some (request_line req uri)) out >>= λ r.
    if is_post req.type && is_null (find_header kept content_length)
    then (add_header alloc kept content_length (print_decimal 20 length) >>= λ s. done (s.1, r.1))
    else done (kept, r.1)
