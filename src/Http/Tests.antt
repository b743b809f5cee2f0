-- ===== src/Http/Tests.antt =====
-- Messages and answers of the C library for the tests of the text layer of http.c.
mod Bodies
mod Fields
mod Uris
use study_libevent.Prelude.{ℕ, refl, List, [], ◌∷◌, true, none, some, length, arith}
use study_libevent.Evbuffer.{Evbuffer, Realloc}
use study_libevent.Evbuffer.Valid.{IsValid}
use study_libevent.Evbuffer.Add.{Grants}
use study_libevent.Evbuffer.Lines.{is_eol}
use study_libevent.Http.Headers.{Header, Memory, starts_blank, is_blank, skip_spaces}
use study_libevent.Http.Headers.RoundTrip.{IsPlain}

abbrev pub grant : Realloc
grant size = some (λ i. 0)

pub grant-Grants : Grants grant
grant-Grants size e = cc

abbrev pub ample : ℕ → Memory
ample k = record { malloc = λ n. true; alloc = λ n. true; grow = true }

-- A buffer whose block is just the given bytes.
abbrev pub holding : List ℕ → Evbuffer
holding bytes = record {
  memory = bytes;
  buffer = 0;
  misalign = 0;
  totallen = length bytes;
  off = length bytes;
  cb = none;
  calls = [];
}

pub holding_nothing : IsValid (holding [])
holding_nothing = omega arith

-- "zz\n"
abbrev pub no_size : Evbuffer
no_size = holding (122 ∷ 122 ∷ 10 ∷ [])

-- "Ab: x y"
abbrev pub header : Header
header = record { key = 65 ∷ 98 ∷ []; value = 120 ∷ 32 ∷ 121 ∷ [] }

pub header-IsPlain : IsPlain header
unfolding is_eol starts_blank is_blank skip_spaces
header-IsPlain = record {
  key_some = λ e. cc;
  key_start = refl;
  key_line = (refl, (refl, tt));
  key_string = (refl, (refl, tt));
  key_colon = (refl, (refl, tt));
  value_start = refl;
  value_line = (refl, (refl, (refl, tt)));
  value_string = (refl, (refl, (refl, tt)));
}
