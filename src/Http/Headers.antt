-- ===== src/Http/Headers.antt =====
-- The headers of a message: `struct evkeyvalq` and its operations, `evhttp_parse_headers` and the
-- loop of `evhttp_make_header` that prints them, of http.c.
--
-- A list of headers is the queue from its head. `strcasecmp` is that of the C locale. Memory is an
-- argument: `alloc` answers calloc and the two calls of strdup by their number, `grow` realloc.
pub mod Offer
pub mod Queue
pub mod Print
pub mod Parse
pub mod RoundTrip
use study_libevent.Prelude.{
  ℕ, zero, suc, ◌+◌, List, [], ◌∷◌, ◌++◌, Bool, true, false, ◌&&◌, ◌||◌, not, Option, none, some,
  leb, ltb, ◌==◌, if◌then◌else◌, length, Run, done, stuck, ◌>>=◌, Status, ok, fail,
}
use study_libevent.Evbuffer.{Evbuffer, Realloc, add, add_buffer}
use study_libevent.Evbuffer.Io.{add_vprintf}
use study_libevent.Evbuffer.Lines.{is_eol, readline}
use study_libevent.Http.{
  MessageRead, all_data_read, more_data_expected, data_corrupted, c_string, strsep,
}

-- `struct evkeyval`
pub record Header : Type 0 where
  pub key : List ℕ
  pub value : List ℕ

unfoldable pub to_lower : ℕ → ℕ
to_lower c = if leb 65 c && leb c 90 then c + 32 else c

-- `strcasecmp(a, b) == 0`
unfoldable pub strcasecmp_eq : List ℕ → List ℕ → Bool
strcasecmp_eq [] [] = true
strcasecmp_eq (x ∷ xs) (y ∷ ys) = (to_lower x == to_lower y) && strcasecmp_eq xs ys
strcasecmp_eq _ _ = false

unfoldable pub find_header : List Header → List ℕ → Option (List ℕ)
find_header [] key = none
find_header (h ∷ hs) key = if strcasecmp_eq h.key key then some h.value else find_header hs key

-- `evhttp_clear_headers`
pub clear_headers : List Header → List Header
clear_headers [] = []
clear_headers (h ∷ hs) = clear_headers hs

-- `TAILQ_REMOVE` of the header that was found, under those before it
unfoldable pub behind : Header → Status × List Header → Status × List Header
behind h (st, hs) = (st, h ∷ hs)

unfoldable pub remove_header : List Header → List ℕ → Status × List Header
remove_header [] key = (fail, [])
remove_header (h ∷ hs) key =
    let rest = behind h (remove_header hs key) in if strcasecmp_eq h.key key then (ok, hs) else rest

-- `*p == ' ' || *p == '\t'`
unfoldable pub is_blank : ℕ → Bool
is_blank c = (c == 32) || (c == 9)

-- Whether a string starts with a space or a tab.
unfoldable pub starts_blank : List ℕ → Bool
starts_blank [] = false
starts_blank (c ∷ cs) = is_blank c

-- `p += strspn(p, "\r\n")`
unfoldable pub skip_eol : List ℕ → List ℕ
skip_eol [] = []
skip_eol (c ∷ cs) = let rest = skip_eol cs in if is_eol c then rest else c ∷ cs

-- `strpbrk(p, "\r\n")`, [] for NULL
unfoldable pub find_eol : List ℕ → List ℕ
find_eol [] = []
find_eol (c ∷ cs) = let rest = find_eol cs in if is_eol c then c ∷ cs else rest

-- The loop of `evhttp_header_is_valid_value`, and its body at a line end.
unfoldable pub valid_loop : ℕ → List ℕ → Run Bool
valid_loop zero p = stuck
valid_loop (suc fuel) p =
    let found = find_eol p in
    let next = valid_loop fuel (skip_eol found) in
    if length found == 0
    then done true
    else if not (starts_blank (skip_eol found))
    then done false
    else next

unfoldable pub header_is_valid_value : List ℕ → Run Bool
header_is_valid_value value = valid_loop (length value + 1) value

-- `strchr(key, '\r') != NULL || strchr(key, '\n') != NULL`
pub has_eol : List ℕ → Bool
has_eol [] = false
has_eol (c ∷ cs) = is_eol c || has_eol cs

unfoldable pub add_header_internal :
    (ℕ → Bool) → List Header → List ℕ → List ℕ → Status × List Header
add_header_internal alloc headers key value =
    if alloc 0 && alloc 1 && alloc 2
    then (ok, headers ++ record { key = key; value = value } ∷ [])
    else (fail, headers)

pub add_header : (ℕ → Bool) → List Header → List ℕ → List ℕ → Run (Status × List Header)
add_header alloc headers key value =
    if has_eol key
    then done (fail, headers)
    else (header_is_valid_value value >>= λ valid.
        done (if valid then add_header_internal alloc headers key value else (fail, headers)))

-- `evhttp_append_to_last_header`
pub append_to_last_header : Bool → List Header → List ℕ → Status × List Header
append_to_last_header grow [] line = (fail, [])
append_to_last_header grow (h ∷ []) line =
    if grow then (ok, record h { value = h.value ++ line } ∷ []) else (fail, h ∷ [])
append_to_last_header grow (h ∷ i ∷ hs) line = behind h (append_to_last_header grow (i ∷ hs) line)

-- `svalue += strspn(svalue, " ")`
unfoldable pub skip_spaces : List ℕ → List ℕ
skip_spaces [] = []
skip_spaces (c ∷ cs) = let rest = skip_spaces cs in if c == 32 then rest else c ∷ cs

-- The C library's answers in one round of the reader.
pub record Memory : Type 0 where
  pub malloc : ℕ → Bool
  pub alloc : ℕ → Bool
  pub grow : Bool

-- A line with a key, split by `strsep(&svalue, ":")`
pub header_line : (ℕ → Bool) → List Header → List ℕ × Option (List ℕ) → Run (Status × List Header)
header_line alloc headers (skey, none) = done (fail, headers)
header_line alloc headers (skey, some svalue) = add_header alloc headers skey (skip_spaces svalue)

-- What the loop makes of a line that is not empty.
pub parse_line : Memory → List Header → List ℕ → Run (Status × List Header)
parse_line memory headers line =
    if starts_blank line
    then done (append_to_last_header memory.grow headers line)
    else header_line memory.alloc headers (strsep 58 line)

abbrev pub Parsed : Type 0
Parsed = MessageRead × List Header × Evbuffer

-- What follows a parsed line: the next round, or `goto error`.
pub after_line :
    (List Header → Evbuffer → Run Parsed) → Evbuffer → Status × List Header → Run Parsed
after_line go_on buffer (ok, headers) = go_on headers buffer
after_line go_on buffer (fail, headers) = done (data_corrupted, headers, buffer)

-- What follows a line, as a C string.
unfoldable pub on_header :
    (List Header → Evbuffer → Run Parsed) → Memory → List Header → Evbuffer → List ℕ → Run Parsed
on_header go_on memory headers buffer [] = done (all_data_read, headers, buffer)
on_header go_on memory headers buffer (c ∷ cs) =
    parse_line memory headers (c ∷ cs) >>= after_line go_on buffer

-- What follows `evbuffer_readline`.
unfoldable pub on_header_line :
    (List Header → Evbuffer → Run Parsed)
    → Memory
    → List Header
    → Option (List ℕ) × Evbuffer
    → Run Parsed
on_header_line go_on memory headers (none, buffer) = done (more_data_expected, headers, buffer)
on_header_line go_on memory headers (some line, buffer) =
    on_header go_on memory headers buffer (c_string line)

-- The loop from round `k` on
unfoldable pub parse_loop : ℕ → ℕ → (ℕ → Memory) → List Header → Evbuffer → Run Parsed
parse_loop zero k memory headers buffer = stuck
parse_loop (suc fuel) k memory headers buffer =
    readline (memory k).malloc buffer
    >>= on_header_line (parse_loop fuel (suc k) memory) (memory k) headers

-- `evhttp_parse_headers`, on `req->input_headers`
unfoldable pub parse_headers : (ℕ → Memory) → List Header → Evbuffer → Run Parsed
parse_headers memory headers buffer = parse_loop (buffer.off + 1) 0 memory headers buffer

-- The output of `"%s: %s\r\n"`
abbrev pub print_header : Header → List ℕ
print_header h = h.key ++ 58 ∷ 32 ∷ (h.value ++ 13 ∷ 10 ∷ [])

-- The loop of `evhttp_make_header`
pub print_loop : (ℕ → ℕ → Realloc) → ℕ → List Header → Evbuffer → Run Evbuffer
print_loop realloc k [] out = done out
print_loop realloc k (h ∷ hs) out =
    add_vprintf (realloc k) (some (print_header h)) out >>= λ r. print_loop realloc (suc k) hs r.1

-- `evhttp_make_header` behind the request or status line: the headers, the empty line and the
-- body. The results are the output of the connection and the rest of the body's buffer.
pub make_header : (ℕ → ℕ → Realloc) → List Header → Evbuffer → Evbuffer → Run (Evbuffer × Evbuffer)
make_header realloc headers out body = print_loop realloc 2 headers out >>= λ printed.
    add (realloc 0 0) printed (13 ∷ 10 ∷ []) >>= λ ended.
    let joined : Run (Evbuffer × Evbuffer) =
      (add_buffer (realloc 1 0) ended.1 body >>= λ r. done (r.1, r.2)) in
    if ltb 0 body.off then joined else done (ended.1, body)
