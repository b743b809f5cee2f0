-- ===== src/Evbuffer/Valid.antt =====
-- The invariant of `struct evbuffer`, and what a call may change.
use study_libevent.Prelude.{ℕ, ◌+◌, ◌≤◌, ◌≡◌, refl, ◌∙◌, length, arith}
use study_libevent.Prelude.Memory.{length-window, length-write, window-write_front}
use study_libevent.Evbuffer.{Evbuffer, size_max, contents, new, align, notify}

pub record IsValid (b : Evbuffer) : Type 0 where
  pub aligned : b.buffer ≡ b.misalign
  pub sized : length b.memory ≡ b.totallen
  pub fits : b.misalign + b.off ≤ b.totallen
  pub small : b.totallen ≤ size_max

-- The two buffers differ at most in how they store their bytes.
pub record SameView (b b' : Evbuffer) : Type 0 where
  pub bytes : contents b' ≡ contents b
  pub off : b'.off ≡ b.off
  pub cb : b'.cb ≡ b.cb
  pub calls : b'.calls ≡ b.calls

pub SameView-refl : (b : Evbuffer) → SameView b b
SameView-refl b = record { bytes = refl; off = refl; cb = refl; calls = refl }

pub SameView-trans : {a b c : Evbuffer} → SameView a b → SameView b c → SameView a c
SameView-trans p q = record {
  bytes = q.bytes ∙ p.bytes;
  off = q.off ∙ p.off;
  cb = q.cb ∙ p.cb;
  calls = q.calls ∙ p.calls;
}

pub length-contents : {b : Evbuffer} → IsValid b → length (contents b) ≡ b.off
length-contents {b} v = length-window b.buffer b.off b.memory (omega arith)

pub new-IsValid : IsValid new
unfolding new
new-IsValid = omega arith

pub align-IsValid : {b : Evbuffer} → IsValid b → IsValid (align b)
unfolding align
align-IsValid {b} v = ground (arith, length-contents v, length-write 0 (contents b) b.memory)

pub align-SameView : {b : Evbuffer} → IsValid b → SameView b (align b)
unfolding align
align-SameView {b} v = record {
  bytes = window-write_front b.off (contents b) b.memory (length-contents v);
  off = refl;
  cb = refl;
  calls = refl;
}

pub notify-IsValid : {b : Evbuffer} (m n : ℕ) → IsValid b → IsValid (notify b m n)
unfolding notify
notify-IsValid {b} m n v = ground arith

pub contents-notify : (b : Evbuffer) (m n : ℕ) → contents (notify b m n) ≡ contents b
unfolding notify
contents-notify b m n = ground arith
