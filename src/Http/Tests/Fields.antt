-- ===== src/Http/Tests/Fields.antt =====
-- First lines and headers, of http.c.
use study_libevent.Prelude.{
  ℕ, ◌≡◌, refl, List, [], ◌∷◌, true, false, none, done, ◌>>=◌, ok, Ensures, arith,
}
use study_libevent.Prelude.Position.{position}
use study_libevent.Evbuffer.{contents, drain, advance, notify_change, notify}
use study_libevent.Evbuffer.Valid.{IsValid}
use study_libevent.Evbuffer.Lines.{is_eol, readline, readline_at, scan, pair_eol}
use study_libevent.Http.{all_data_read, c_string}
use study_libevent.Http.Headers.{
  Header, Parsed, find_header, remove_header, strcasecmp_eq, to_lower, behind, add_header,
  parse_headers, make_header, header_is_valid_value, valid_loop, find_eol, skip_eol, starts_blank,
  is_blank, parse_loop, on_header_line, on_header,
}
use study_libevent.Http.Headers.Offer.{Offered, add_header-Offered}
use study_libevent.Http.Headers.Queue.{Searched, remove_header-Searched}
use study_libevent.Http.Headers.RoundTrip.{parse_headers-make_header}
use study_libevent.Http.Headers.Parse.{HeadersRead, parse_headers-HeadersRead}
use study_libevent.Http.FirstLine.{FirstLine, post}
use study_libevent.Http.Tests.{
  grant, grant-Grants, ample, holding, holding_nothing, no_size, header, header-IsPlain,
}

parse_headers-make_header_example :
    Ensures
      (λ (r : Parsed).
        (r.0 ≡ all_data_read)
        × (r.1 ≡ header ∷ header ∷ [])
        × IsValid r.2
        × (contents r.2 ≡ 65 ∷ []))
      (make_header (λ i j. grant) (header ∷ []) (holding []) (holding (65 ∷ [])) >>= λ sent.
        parse_headers ample (header ∷ []) sent.0)
parse_headers-make_header_example =
    parse_headers-make_header ample (λ i j. grant) (header ∷ []) (header ∷ []) (holding [])
      (holding (65 ∷ [])) (λ k n. refl) (λ k n. refl) (λ i j. grant-Grants) holding_nothing refl
      (omega arith) (header-IsPlain, tt) (omega arith)

-- A line without a colon
parse_headers-HeadersRead_example :
    Ensures (HeadersRead ample (contents no_size)) (parse_headers ample [] no_size)
parse_headers-HeadersRead_example =
    parse_headers-HeadersRead ample [] no_size tt (omega arith) (omega arith)

-- The value "x\r\nSet: 1", which begins a line of its own
abbrev injected : Header
injected = record { key = 65 ∷ []; value = 120 ∷ 13 ∷ 10 ∷ 83 ∷ 101 ∷ 116 ∷ 58 ∷ 32 ∷ 49 ∷ [] }

add_header-Offered_example :
    Ensures
      (Offered (λ k. true) (header ∷ []) injected)
      (add_header (λ k. true) (header ∷ []) injected.key injected.value)
add_header-Offered_example = add_header-Offered (λ k. true) (header ∷ []) injected

remove_header-Searched_example :
    Searched
      (97 ∷ 66 ∷ [])
      (injected ∷ header ∷ [])
      (find_header (injected ∷ header ∷ []) (97 ∷ 66 ∷ []))
      (remove_header (injected ∷ header ∷ []) (97 ∷ 66 ∷ []))
remove_header-Searched_example = remove_header-Searched (injected ∷ header ∷ []) (97 ∷ 66 ∷ [])

remove_named : remove_header (injected ∷ header ∷ []) (97 ∷ 66 ∷ []) ≡ (ok, injected ∷ [])
unfolding remove_header strcasecmp_eq to_lower behind
remove_named = refl

-- Two line ends before a space pass, and print an empty line.
two_line_ends : header_is_valid_value (97 ∷ 13 ∷ 10 ∷ 13 ∷ 10 ∷ 32 ∷ 98 ∷ []) ≡ done true
unfolding header_is_valid_value valid_loop find_eol skip_eol starts_blank is_blank is_eol
two_line_ends = refl

-- "\n", which is left where a CR LF is cut, ends the headers.
cut_line_end :
    parse_headers ample (header ∷ []) (holding (10 ∷ []))
    ≡ done (all_data_read, header ∷ [], record (holding (10 ∷ [])) { off = 0 })
unfolding parse_headers parse_loop on_header_line on_header readline readline_at scan pair_eol
    is_eol c_string position drain advance notify_change notify
cut_line_end = refl

-- "POST /a HTTP/1.1"
abbrev request : FirstLine
request = record { type = post; major = 1; minor = 1; uri = none; proxy = false }

abbrev target : List ℕ
target = 47 ∷ 97 ∷ []
