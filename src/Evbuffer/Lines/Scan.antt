-- ===== src/Evbuffer/Lines/Scan.antt =====
-- About the counting loops of `evbuffer_readline` and `evbuffer_readln` of buffer.c.
use study_libevent.Prelude.{
  ℕ, zero, suc, ◌+◌, ◌^◌, ◌≤◌, ◌<◌, ◌≡◌, ap, ◌∙◌, List, Bool, ltb, ltb→lt, length, drop, drop_all,
  done, arith, inl, inr, Bool-cases, position, position_step, position-nil,
}
use study_libevent.Evbuffer.Lines.{add_uint, scan}

-- On fewer than 2 ^ 32 bytes the counter does not wrap and the loop ends.
pub scan-position :
    (stop : ℕ → Bool) (fuel : ℕ) (bytes : List ℕ) (i : ℕ)
    → length bytes < 2 ^ 32
    → i ≤ length bytes
    → length bytes < i + fuel
    → scan stop fuel bytes i ≡ done (i + position stop (drop i bytes))
unfolding scan
scan-position stop zero bytes i small le f = absurd (omega arith)
scan-position stop (suc fuel) bytes i small le f = elim (Bool-cases (ltb i (length bytes))) [
  | inl e ↦
      let here : i < length bytes = ltb→lt i (length bytes) e in
      let next : add_uint i 1 ≡ suc i = omega arith in
      rw (next, e, position_step stop i bytes here)
        (ground (arith, scan-position stop fuel bytes (suc i) small (omega arith) (omega arith)))
  | inr e ↦
      let end : length bytes ≤ i = ground arith in
      rw (e, drop_all i bytes end, position-nil) (ap done (omega arith))
]

-- From the start of the bytes.
pub scan_start :
    (stop : ℕ → Bool) (bytes : List ℕ)
    → length bytes < 2 ^ 32
    → scan stop (length bytes + 1) bytes 0 ≡ done (position stop bytes)
scan_start stop bytes small =
    scan-position stop (length bytes + 1) bytes 0 small (omega arith) (omega arith)
    ∙ ap done (omega arith)
