-- ===== src/Evbuffer/Io/Printf.antt =====
-- About `evbuffer_add_vprintf` of buffer.c.
use study_libevent.Prelude.{
  ℕ, suc, false, ◌+◌, ◌-◌, ◌≤◌, ◌<◌, ◌≡◌, ◌≢◌, refl, sym, ap, ◌∙◌, List, [], ◌∷◌, ◌++◌,
  append_assoc, Option, none, some, length, length-append, length-take, take, take_all, inl, inr,
  ◌⊎◌, ltb, ltb→lt, Run, Status, ok, fail, Ensures, Ensures-if, Ensures-bind, returns, ◌==◌, arith,
}
use study_libevent.Prelude.Memory.{
  window, write, window-write, window-write_before, length-write, take-window, take-append_self,
}
use study_libevent.Evbuffer.{Evbuffer, Realloc, size_max, contents, add_size, sub_size, notify}
use study_libevent.Evbuffer.Valid.{
  IsValid, SameView, SameView-refl, SameView-trans, length-contents, notify-IsValid,
  contents-notify,
}
use study_libevent.Evbuffer.Grow.{Expanded, expand-Expanded}
use study_libevent.Evbuffer.Io.{
  int_max, format_into, expand_for, printf_loop, or_error, printf_text, add_vprintf,
}

module _ (b : Evbuffer) (space : ℕ) (text : List ℕ) (v : IsValid b)
    (room : b.misalign + b.off + space ≤ b.totallen) (some_room : 0 < space) where
  length-printed :
      length (write (b.buffer + b.off) (take (space - 1) text ++ 0 ∷ []) b.memory) ≡ length b.memory
  length-printed =
      length-write (b.buffer + b.off) (take (space - 1) text ++ 0 ∷ []) b.memory (
        omega (arith, length-append (take (space - 1) text) (0 ∷ []), length-take (space - 1) text))

  -- Formatting writes into the free space only.
  format_into-SameView : SameView b (format_into b space text)
  unfolding format_into
  format_into-SameView =
      let at = b.buffer + b.off in
      let printed = write at (take (space - 1) text ++ 0 ∷ []) b.memory in
      record {
        bytes =
            window-write_before b.buffer b.off (at + (space - 1)) (0 ∷ []) printed (omega arith)
            ∙ window-write_before b.buffer b.off at _ b.memory (omega arith);
        off = refl;
        cb = refl;
        calls = refl;
      }

  format_into-IsValid : IsValid (format_into b space text)
  unfolding format_into
  format_into-IsValid =
      let at = b.buffer + b.off in
      let printed = write at (take (space - 1) text ++ 0 ∷ []) b.memory in
      ground (
        arith,
        length-printed,
        length-write (at + (space - 1)) (0 ∷ []) printed (omega (arith, length-printed)),
      )

  -- What fits stands behind the old bytes.
  format_into_fits :
      length text < space
      → window b.buffer (b.off + length text) (format_into b space text).memory ≡ contents b ++ text
  unfolding format_into
  format_into_fits fits =
      let at = b.buffer + b.off in
      let n = b.off + length text in
      let printed = write at (text ++ 0 ∷ []) b.memory in
      let size = length-append text (0 ∷ []) in
      let whole : window b.buffer (b.off + length (text ++ 0 ∷ [])) printed
          ≡ contents b ++ (text ++ 0 ∷ []) =
        window-write b.buffer b.off (text ++ 0 ∷ []) b.memory (omega (arith, size)) in
      let cut : take n (contents b ++ (text ++ 0 ∷ [])) ≡ contents b ++ text =
        rw (← append_assoc (contents b) text (0 ∷ [])) (
          ap (λ k. take k ((contents b ++ text) ++ 0 ∷ []))
            (omega (arith, length-append (contents b) text, length-contents v))
          ∙ take-append_self (contents b ++ text) (0 ∷ [])) in
      rw (take_all (space - 1) text (omega arith)) (
        window-write_before b.buffer n (at + (space - 1)) (0 ∷ []) printed (omega arith)
        ∙ sym
            (take-window n b.buffer (b.off + length (text ++ 0 ∷ [])) printed (omega (arith, size)))
        ∙ ap (take n) whole
        ∙ cut)

-- No room for the output: the size is too large, for the buffer or for vsnprintf, or a call of
-- `realloc` refused one.
abbrev pub Refused : (ℕ → Realloc) → Evbuffer → List ℕ → Type 0
Refused realloc b text =
    (size_max < b.off + length text + 64)
    ⊎ (int_max < length text)
    ⊎ ((k : ℕ) × (size : ℕ) × (size ≤ size_max) × (realloc k size ≡ none))

-- What `evbuffer_add_vprintf` returns for the output `text`.
pub record Printed (realloc : ℕ → Realloc) (b : Evbuffer) (text : List ℕ) (r : Option ℕ × Evbuffer)
    : Type 0 where
  pub valid : IsValid r.1
  pub on_error :
      r.0 ≡ none → (contents r.1 ≡ contents b) × (r.1.calls ≡ b.calls) × Refused realloc b text
  pub printed :
      (n : ℕ)
      → r.0 ≡ some n
      → (n ≡ length text)
        × (contents r.1 ≡ contents b ++ text)
        × (r.1.calls ≡ (notify b b.off (b.off + n)).calls)

expand_for-Expanded :
    (realloc : Realloc) (b : Evbuffer) (sz : ℕ)
    → IsValid b
    → sz ≢ int_max
    → Ensures (Expanded realloc b (sz + 1)) (expand_for realloc b sz)
unfolding expand_for
expand_for-Expanded realloc b sz v ne =
    let defined : (sz == int_max) ≡ false = ground arith in
    rw defined (expand-Expanded realloc b (sz + 1) v)

calls_cong :
    (x y : Evbuffer) (m n k : ℕ)
    → x.cb ≡ y.cb
    → x.calls ≡ y.calls
    → n ≡ k
    → (notify x m n).calls ≡ (notify y m k).calls
unfolding notify
calls_cong x y m n k e c h = rw h (ground arith)

-- The last statements of the loop.
Printed-round :
    (realloc : ℕ → Realloc) (b c : Evbuffer) (space : ℕ) (text : List ℕ)
    → SameView b c
    → IsValid c
    → c.misalign + c.off + space ≤ c.totallen
    → length text < space
    → let b' = format_into c space text in
      let b'' = record b' { off = add_size c.off (length text) } in
      Printed realloc b text (some (length text), notify b'' b.off b''.off)
unfolding format_into
Printed-round realloc b c space text same v room fits =
    let b' = format_into c space text in
    let b'' = record b' { off = add_size c.off (length text) } in
    let v' = format_into-IsValid c space text v room (omega arith) in
    let wide : add_size c.off (length text) ≡ c.off + length text = omega arith in
    let stored = format_into_fits c space text v room (omega arith) fits in
    record {
      valid =
          notify-IsValid {b = b''} b.off b''.off (record {
            aligned = v'.aligned;
            sized = v'.sized;
            fits = omega arith;
            small = v'.small;
          });
      on_error = λ p. cc;
      printed = λ n p.
          let same_n : length text ≡ n = grind arith in
          (
            sym same_n,
            contents-notify b'' b.off b''.off ∙ rw wide (stored ∙ ap (λ xs. xs ++ text) same.bytes),
            calls_cong b'' b b.off b''.off (b.off + n) same.cb same.calls (omega (arith, same.off)),
          );
    }

Printed-error :
    (realloc : ℕ → Realloc) (b c : Evbuffer) (text : List ℕ)
    → IsValid c
    → SameView b c
    → Refused realloc b text
    → Printed realloc b text (none, c)
Printed-error realloc b c text v same why = record {
  valid = v;
  on_error = λ _. (same.bytes, same.calls, why);
  printed = λ n p. cc;
}

free_space :
    {c : Evbuffer}
    → IsValid c
    → sub_size c.totallen (add_size c.misalign c.off) ≡ c.totallen - (c.misalign + c.off)
free_space v = omega arith

module _ (realloc : ℕ → Realloc) (text : List ℕ) (b : Evbuffer)
    (next_size : length text ≢ int_max) where
  -- What follows an expansion for `n` bytes of a buffer with the same view.
  or_error-Printed :
      (k n : ℕ) (c : Evbuffer) (go_on : Evbuffer → Run (Option ℕ × Evbuffer))
      → n ≤ length text + 64
      → SameView b c
      → ((d : Evbuffer)
          → SameView b d
          → IsValid d
          → d.misalign + d.off + n ≤ d.totallen
          → Ensures (Printed realloc b text) (go_on d))
      → (r : Status × Evbuffer) → Expanded (realloc k) c n r
      → Ensures (Printed realloc b text) (or_error go_on r)
  unfolding or_error
  or_error-Printed k n c go_on few same keep (ok, d) e =
      keep d (SameView-trans same e.same) e.valid (e.room refl)
  or_error-Printed k n c go_on few same keep (fail, d) e =
      returns
        (Printed-error realloc b d text e.valid (SameView-trans same e.same) (why (e.refused refl)))
    where
      why :
          (size_max < c.off + n) ⊎ ((size : ℕ) × (size ≤ size_max) × (realloc k size ≡ none))
          → Refused realloc b text
      why (inl over) = inl (omega (arith, same.off))
      why (inr (size, le, null)) = inr (inr (k, size, le, null))

  -- One round: the output fits, or the next round has room for it.
  printf_round :
      (fuel k : ℕ) (c : Evbuffer)
      → SameView b c
      → IsValid c
      → c.misalign + c.off < c.totallen
      → (c.totallen ≤ c.misalign + c.off + length text
          → (d : Evbuffer) → SameView b d
          → IsValid d
          → d.misalign + d.off + (length text + 1) ≤ d.totallen
          → Ensures (Printed realloc b text) (printf_loop fuel (suc k) realloc text b.off d))
      → Ensures (Printed realloc b text) (printf_loop (suc fuel) k realloc text b.off c)
  unfolding printf_loop
  printf_round fuel k c same v room next =
      let space = sub_size c.totallen (add_size c.misalign c.off) in
      let free = free_space v in
      Ensures-if (ltb c.totallen (add_size c.misalign c.off)) (λ t. absurd (ground arith))
        λ _.
          Ensures-if (ltb int_max (length text))
            (λ t. returns (
              Printed-error realloc b (format_into c space text) text
                (format_into-IsValid c space text v (omega arith) (omega arith))
                (SameView-trans same
                  (format_into-SameView c space text v (omega arith) (omega arith)))
                (inr (inl (ltb→lt _ _ t)))))
            λ _.
              Ensures-if (ltb (length text) space)
                (λ t.
                  returns
                    (Printed-round realloc b c space text same v (omega arith) (ltb→lt _ _ t)))
                λ t.
                  let c' = format_into c space text in
                  let same' =
                    SameView-trans same
                      (format_into-SameView c space text v (omega arith) (omega arith)) in
                  Ensures-bind
                    (expand_for-Expanded (realloc k) c' (length text)
                      (format_into-IsValid c space text v (omega arith) (omega arith)) next_size)
                    (or_error-Printed k (length text + 1) c' _ (omega arith) same'
                      (next (ground (arith, free))))

  -- A failing vsnprintf or the loop, after the first expansion.
  printf_loop-Printed :
      (c : Evbuffer)
      → SameView b c
      → IsValid c
      → c.misalign + c.off + 64 ≤ c.totallen
      → Ensures (Printed realloc b text) (printf_text realloc (some text) b.off c)
  unfolding printf_text
  printf_loop-Printed c same v room =
      printf_round 1 1 c same v (omega arith)
        λ _ d same' v' room'. printf_round 0 2 d same' v' (omega arith) λ full. absurd (omega arith)

  -- For a valid buffer and any output of the formatting but one of INT_MAX bytes, by which an int
  -- overflows in `sz + 1`, `evbuffer_add_vprintf` returns within two rounds of its loop and leaves a valid buffer: with a count, that is the output's length,
  -- the whole output stands behind the old bytes, and the callback was called for that change;
  -- with -1 the bytes and the calls are unchanged, and the old length, the output's and 64 exceed
  -- `size_max` together, the output's length exceeds INT_MAX, or `realloc` refused a size.
  pub add_vprintf-Printed :
      IsValid b → Ensures (Printed realloc b text) (add_vprintf realloc (some text) b)
  unfolding add_vprintf
  add_vprintf-Printed v =
      Ensures-bind (expand-Expanded (realloc 0) b 64 v)
        (or_error-Printed 0 64 b _ (omega arith) (SameView-refl b) printf_loop-Printed)
