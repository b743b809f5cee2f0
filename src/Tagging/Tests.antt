-- ===== src/Tagging/Tests.antt =====
-- The codecs and the messages of event_tagging.c on concrete values.
use study_libevent.Prelude.{
  ℕ, ◌≡◌, refl, List, [], ◌∷◌, none, some, ◌>>=◌, Ensures, arith, done, undefined, inl,
}
use study_libevent.Evbuffer.{Evbuffer, Realloc}
use study_libevent.Evbuffer.Valid.{IsValid}
use study_libevent.Evbuffer.Add.{Grants}
use study_libevent.Tagging.{int_of, tag_bytes, tag_of, tag_loop, int_length, get_nibble}
use study_libevent.Tagging.Integers.{Encoded, int_of-Encoded}
use study_libevent.Tagging.Groups.{Grouped, last-Grouped, tag_bytes-Grouped, tag_of-group_value}
use study_libevent.Tagging.Messages.{marshal_int, marshal, unmarshal}
use study_libevent.Tagging.Messages.Wire.{IsMessage, Grown, marshal-IsMessage}
use study_libevent.Tagging.Messages.Read.{Received, unmarshal-Received}
use study_libevent.Tagging.Messages.Safety.{Handed, unmarshal-Handed}
use study_libevent.Tagging.Messages.Ints.{IntSent, marshal_int-IntSent}
use study_libevent.Tagging.Messages.RoundTrip.{Delivered, unmarshal-marshal}

abbrev grant : Realloc
grant size = some (λ i. 0)

grant-Grants : Grants grant
grant-Grants size e = cc

abbrev unused : Evbuffer
unused = record {
  memory = [];
  buffer = 0;
  misalign = 0;
  totallen = 0;
  off = 0;
  cb = none;
  calls = [];
}

unused-IsValid : IsValid unused
unused-IsValid = omega arith

-- The byte 65 under tag 5, and the byte 9 behind the message
abbrev message : List ℕ
message = 5 ∷ 1 ∷ 65 ∷ []

abbrev received : Evbuffer
received = record {
  memory = 5 ∷ 1 ∷ 65 ∷ 9 ∷ [];
  buffer = 0;
  misalign = 0;
  totallen = 4;
  off = 4;
  cb = none;
  calls = [];
}

received-IsValid : IsValid received
received-IsValid = omega arith

one-Encoded : Encoded 1 (1 ∷ [])
unfolding get_nibble
one-Encoded = record {
  nibbles = 1;
  at_least = omega arith;
  at_most = omega arith;
  size = refl;
  are_bytes = omega arith;
  header = refl;
  value = refl;
}

message-IsMessage : IsMessage 5 (65 ∷ []) message
message-IsMessage = record {
  tag_part = 5 ∷ [];
  length_part = 1 ∷ [];
  whole = refl;
  tagged = last-Grouped 4 5 (omega arith);
  measured = one-Encoded;
  tag_small = omega arith;
}

int_of-Encoded_example : int_of (1 ∷ 65 ∷ []) ≡ some (1, 1)
int_of-Encoded_example = int_of-Encoded 1 (1 ∷ []) (65 ∷ []) one-Encoded (omega arith)

tag_bytes-Grouped_example : Ensures (Grouped 5 0xDEADBEEF) (tag_bytes 0xDEADBEEF)
tag_bytes-Grouped_example = tag_bytes-Grouped 0xDEADBEEF (omega arith)

-- 300 in two groups, and a byte behind them
tag_of-group_value_example : tag_of (0xac ∷ 2 ∷ 65 ∷ []) ≡ done (some (300, 2))
tag_of-group_value_example =
    tag_of-group_value (0xac ∷ []) 2 (65 ∷ []) ((omega arith, omega arith), tt) (omega arith)
      (omega arith) (omega arith) (omega arith)

-- The shift of a sixth byte is undefined.
six_bytes : tag_of (0x80 ∷ 0x80 ∷ 0x80 ∷ 0x80 ∷ 0x80 ∷ 1 ∷ []) ≡ undefined
unfolding tag_of tag_loop int_length
six_bytes = refl

marshal-IsMessage_example :
    Ensures (Grown (IsMessage 5 (65 ∷ [])) received) (marshal (λ k. grant) received 5 (65 ∷ []))
marshal-IsMessage_example =
    marshal-IsMessage (λ k. grant) received 5 (65 ∷ []) received-IsValid (λ k. grant-Grants)
      (omega arith) (omega arith) (omega arith)

unmarshal-Received_example :
    Ensures
      (Received received 5
        (65 ∷ [])
        message
        (9 ∷ [])
        received-IsValid
        message-IsMessage
        refl
        (omega arith)
        unused)
      (unmarshal grant received unused)
unmarshal-Received_example =
    unmarshal-Received received 5 (65 ∷ []) message (9 ∷ []) received-IsValid message-IsMessage refl
      (omega arith) grant unused unused-IsValid grant-Grants (omega arith)

unmarshal-marshal_example :
    Ensures
      (Delivered 5 (65 ∷ []) unused)
      (marshal (λ k. grant) unused 5 (65 ∷ []) >>= λ src. unmarshal grant src unused)
unmarshal-marshal_example =
    unmarshal-marshal (λ k. grant) (λ k. grant-Grants) unused 5 (65 ∷ []) unused-IsValid refl
      (omega arith) (omega arith) grant unused grant-Grants unused-IsValid (omega arith)

-- A payload of 20 bytes is announced, of which one is there.
abbrev cut_off : Evbuffer
cut_off = record {
  memory = 5 ∷ 0x14 ∷ 0x10 ∷ 9 ∷ [];
  buffer = 0;
  misalign = 0;
  totallen = 4;
  off = 4;
  cb = none;
  calls = [];
}

cut_off-IsValid : IsValid cut_off
cut_off-IsValid = omega arith

unmarshal-Handed_example : Ensures (Handed cut_off unused) (unmarshal grant cut_off unused)
unmarshal-Handed_example =
    unmarshal-Handed grant cut_off unused (omega arith) cut_off-IsValid unused-IsValid (inl refl)

marshal_int-IntSent_example :
    Ensures (IntSent received 5 0xBEEF) (marshal_int (λ k. grant) received unused 5 0xBEEF)
marshal_int-IntSent_example =
    marshal_int-IntSent (λ k. grant) received unused 5 0xBEEF received-IsValid unused-IsValid
      (λ k. grant-Grants) (omega arith) (omega arith) (omega arith)
