-- ===== src/Evbuffer/Tests.antt =====
-- The buffer operations of buffer.c on concrete buffers.
use study_libevent.Prelude.{
  ℕ, ◌≤◌, ◌≡◌, refl, List, [], ◌∷◌, Option, none, some, take, Ensures, arith, length, length-take,
  true,
}
use study_libevent.Prelude.Memory.{write}
use study_libevent.Evbuffer.{
  Evbuffer, Realloc, contents, expand, add, append, store, notify_change, notify, drain, advance,
  add_buffer,
}
use study_libevent.Evbuffer.Valid.{IsValid}
use study_libevent.Evbuffer.Grow.{Expanded, expand-Expanded}
use study_libevent.Evbuffer.Add.{Added, Drained, Grants, add-Added, drain-Drained}
use study_libevent.Evbuffer.Transfer.{Moved, add_buffer-Moved}
use study_libevent.Evbuffer.Lines.{crlf, readline, readln, find}
use study_libevent.Evbuffer.Lines.Readline.{LineRead, readline-LineRead}
use study_libevent.Evbuffer.Lines.Readln.{LineTaken, readln-LineTaken}
use study_libevent.Evbuffer.Lines.Find.{FoundAt, find-FoundAt}
use study_libevent.Evbuffer.Io.{read_size, read_fd, add_vprintf}
use study_libevent.Evbuffer.Io.Descriptor.{ReadIn, read_fd-ReadIn}
use study_libevent.Evbuffer.Io.Printf.{Printed, add_vprintf-Printed}

abbrev grant : Realloc
grant size = some (λ i. 0)

grant-Grants : Grants grant
grant-Grants size e = cc

-- "AB\r\nC" behind two drained bytes
abbrev held : Evbuffer
held = record {
  memory = 0 ∷ 0 ∷ 65 ∷ 66 ∷ 13 ∷ 10 ∷ 67 ∷ 0 ∷ [];
  buffer = 2;
  misalign = 2;
  totallen = 8;
  off = 5;
  cb = some 7;
  calls = [];
}

abbrev other_held : Evbuffer
other_held = record {
  memory = 88 ∷ 0 ∷ [];
  buffer = 0;
  misalign = 0;
  totallen = 2;
  off = 1;
  cb = none;
  calls = [];
}

held-IsValid : IsValid held
held-IsValid = omega arith

other_held-IsValid : IsValid other_held
other_held-IsValid = omega arith

contents-held : contents held ≡ 65 ∷ 66 ∷ 13 ∷ 10 ∷ 67 ∷ []
contents-held = refl

add-held : append held (68 ∷ []) ≡ record held {
  memory = 0 ∷ 0 ∷ 65 ∷ 66 ∷ 13 ∷ 10 ∷ 67 ∷ 68 ∷ [];
  off = 6;
  calls = (7, 5, 6) ∷ [];
}
unfolding append store notify write
add-held = refl

drain-held :
    drain held 4 ≡ record held { buffer = 6; misalign = 6; off = 1; calls = (7, 5, 1) ∷ [] }
unfolding drain advance notify_change notify
drain-held = refl

add-Added_example : Ensures (Added grant held (68 ∷ 69 ∷ [])) (add grant held (68 ∷ 69 ∷ []))
add-Added_example = add-Added grant held (68 ∷ 69 ∷ []) held-IsValid

expand-Expanded_example : Ensures (Expanded grant held 100) (expand grant held 100)
expand-Expanded_example = expand-Expanded grant held 100 held-IsValid

drain-Drained_example : Drained held 4 (drain held 4)
drain-Drained_example = drain-Drained held 4 held-IsValid

add_buffer-Moved_example : Ensures (Moved grant held other_held) (add_buffer grant held other_held)
add_buffer-Moved_example = add_buffer-Moved grant held other_held held-IsValid other_held-IsValid

readline-LineRead_example : Ensures (LineRead (λ n. true) held) (readline (λ n. true) held)
readline-LineRead_example = readline-LineRead (λ n. true) held held-IsValid (omega arith)

readln-LineTaken_example : Ensures (LineTaken (λ n. true) crlf held) (readln (λ n. true) held crlf)
readln-LineTaken_example = readln-LineTaken (λ n. true) crlf held held-IsValid (omega arith)

find-FoundAt_example : Ensures (FoundAt (13 ∷ 10 ∷ []) (contents held)) (find held (13 ∷ 10 ∷ []))
find-FoundAt_example = find-FoundAt held 13 (10 ∷ []) held-IsValid

abbrev two : List ℕ
two = 70 ∷ 71 ∷ []

-- A descriptor that answers with what is asked for, up to two bytes.
abbrev two_bytes : ℕ → Option (List ℕ)
two_bytes n = some (take n two)

two_bytes_short : (m : ℕ) (bytes : List ℕ) → two_bytes m ≡ some bytes → length bytes ≤ m
two_bytes_short m bytes e = grind (arith, length-take m two)

read_fd-ReadIn_example :
    Ensures (ReadIn grant two_bytes (read_size 2 none 8) held) (read_fd grant 2 two_bytes held none)
read_fd-ReadIn_example = read_fd-ReadIn grant 2 two_bytes held none held-IsValid two_bytes_short

abbrev limit : Option ℕ
limit = some 50

abbrev three : Option ℕ
three = some 3

add_vprintf-Printed_example :
    Ensures
      (Printed (λ k. grant) held (72 ∷ 73 ∷ []))
      (add_vprintf (λ k. grant) (some (72 ∷ 73 ∷ [])) held)
add_vprintf-Printed_example =
    add_vprintf-Printed (λ k. grant) (72 ∷ 73 ∷ []) held (λ e. absurd (omega arith)) held-IsValid
