-- ===== src/Http/FirstLine/RoundTrip.antt =====
-- About a request that `evhttp_make_header` of http.c wrote, read by `evhttp_parse_firstline` and
-- `evhttp_parse_headers`.
use study_libevent.Prelude.{ℕ, ◌≡◌, List}
use study_libevent.Evbuffer.{Evbuffer}
use study_libevent.Http.{MessageRead, all_data_read}
use study_libevent.Http.Headers.{Header, Parsed}
use study_libevent.Http.Headers.RoundTrip.{Finished}
use study_libevent.Http.FirstLine.{FirstLine}

-- What arrives of a request: its first line, its headers and its body.
pub record Arrived (first : FirstLine) (headers : List Header) (body : List ℕ)
    (r : (MessageRead × FirstLine × Evbuffer) × Parsed) : Type 0 where
  pub first_read : r.0.0 ≡ all_data_read
  pub first_line : r.0.1 ≡ first
  pub headers_read : Finished headers body r.1
