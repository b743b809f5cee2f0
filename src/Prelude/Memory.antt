-- ===== src/Prelude/Memory.antt =====
-- Blocks of bytes: `memcpy` into a block, `realloc` of a block, and the window of a block that a
-- pointer and a length describe.
use Prim.Native.Nat.{ℕ, zero, suc, ◌+◌, ◌≤◌, ◌<◌}
use Prim.Native.Nat.add
use mathlib.Core.Path.{◌≡◌, refl, ap, ◌∙◌}
use mathlib.Core.List.{List, [], ◌∷◌, ◌++◌}
use native.Mathlib.Omega.{arith}
use study_libevent.Prelude.Lists.{
  get_or, length, take, drop, length-append, length-take, length-drop, drop-take, drop-drop,
}

module _ {ℓ} {A : Type ℓ} where
  -- `memcpy` of `xs` to index `i` of a block that holds index `i + length xs`.
  unfoldable pub write : ℕ → List A → List A → List A
  write zero xs mem = xs ++ drop (length xs) mem
  write (suc i) xs [] = []
  write (suc i) xs (m ∷ mem) = m ∷ write i xs mem

  -- The `n` bytes from index `i`.
  abbrev pub window : ℕ → ℕ → List A → List A
  window i n mem = take n (drop i mem)

  -- The `n` entries that a function has from index `i`.
  pub fill : (ℕ → A) → ℕ → ℕ → List A
  fill f i zero = []
  fill f i (suc n) = f i ∷ fill f (suc i) n

  -- `realloc` to `n` bytes keeps what fits; the bytes behind it are indeterminate, `junk`.
  pub resize : (ℕ → A) → ℕ → List A → List A
  unfolding fill
  resize junk zero mem = []
  resize junk (suc n) [] = fill junk 0 (suc n)
  resize junk (suc n) (m ∷ mem) = m ∷ resize (λ i. junk (suc i)) n mem

  pub length-fill : (f : ℕ → A) (i n : ℕ) → length (fill f i n) ≡ n
  unfolding fill
  length-fill f i zero = refl
  length-fill f i (suc n) = ap suc (length-fill f (suc i) n)

  pub length-resize : (junk : ℕ → A) (n : ℕ) (mem : List A) → length (resize junk n mem) ≡ n
  unfolding resize
  length-resize junk zero mem = refl
  length-resize junk (suc n) [] = length-fill junk 0 (suc n)
  length-resize junk (suc n) (m ∷ mem) = ap suc (length-resize (λ i. junk (suc i)) n mem)

  pub length-window : (i n : ℕ) (mem : List A) → i + n ≤ length mem → length (window i n mem) ≡ n
  length-window i n mem h = omega (arith, length-take n (drop i mem), length-drop i mem)

  pub length-write :
      (i : ℕ) (xs mem : List A) → i + length xs ≤ length mem → length (write i xs mem) ≡ length mem
  unfolding write
  length-write zero xs mem h =
      omega (arith, length-append xs (drop (length xs) mem), length-drop (length xs) mem)
  length-write (suc i) xs [] h = refl
  length-write (suc i) xs (m ∷ mem) h = ap suc (length-write i xs mem (omega arith))

  pub take-append_self : (xs ys : List A) → take (length xs) (xs ++ ys) ≡ xs
  take-append_self [] ys = refl
  take-append_self (x ∷ xs) ys = ap (◌∷◌ x) (take-append_self xs ys)

  pub drop-append_self : (xs ys : List A) → drop (length xs) (xs ++ ys) ≡ ys
  drop-append_self [] ys = refl
  drop-append_self (x ∷ xs) ys = drop-append_self xs ys

  -- What is written just behind a window extends it.
  pub window-write :
      (i n : ℕ) (xs mem : List A)
      → i + n + length xs ≤ length mem
      → window i (n + length xs) (write (i + n) xs mem) ≡ window i n mem ++ xs
  unfolding write
  window-write zero zero xs mem h = rw (add.zero (length xs)) (take-append_self xs _)
  window-write zero (suc n) xs [] h = absurd (omega arith)
  window-write zero (suc n) xs (m ∷ mem) h =
      rw (add.zero (suc n), add.suc n (length xs))
        (ap (◌∷◌ m) (rw (add.zero n) at (window-write zero n xs mem (omega arith))))
  window-write (suc i) n xs [] h = absurd (omega arith)
  window-write (suc i) n xs (m ∷ mem) h = rw (add.suc i n) (window-write i n xs mem (omega arith))

  -- A write behind a window leaves it.
  pub window-write_before :
      (i n j : ℕ) (xs mem : List A) → i + n ≤ j → window i n (write j xs mem) ≡ window i n mem
  unfolding write
  window-write_before i zero j xs mem h = refl
  window-write_before i (suc n) zero xs mem h = absurd (omega arith)
  window-write_before i (suc n) (suc j) xs [] h = refl
  window-write_before zero (suc n) (suc j) xs (m ∷ mem) h =
      ap (◌∷◌ m) (window-write_before zero n j xs mem (omega arith))
  window-write_before (suc i) (suc n) (suc j) xs (m ∷ mem) h =
      window-write_before i (suc n) j xs mem (omega arith)

  pub window-resize :
      (junk : ℕ → A) (n k : ℕ) (mem : List A)
      → k ≤ n
      → k ≤ length mem
      → take k (resize junk n mem) ≡ take k mem
  unfolding resize
  window-resize junk n zero mem h g = refl
  window-resize junk zero (suc k) mem h g = absurd (omega arith)
  window-resize junk (suc n) (suc k) [] h g = absurd (omega arith)
  window-resize junk (suc n) (suc k) (m ∷ mem) h g =
      ap (◌∷◌ m) (window-resize (λ i. junk (suc i)) n k mem (omega arith) (omega arith))

  pub get_or-resize :
      (junk : ℕ → A) (n : ℕ) (mem : List A) (i : ℕ) (d : A)
      → i < n
      → i < length mem
      → get_or (resize junk n mem) i d ≡ get_or mem i d
  unfolding resize
  get_or-resize junk zero mem i d h g = absurd (omega arith)
  get_or-resize junk (suc n) [] i d h g = absurd (omega arith)
  get_or-resize junk (suc n) (m ∷ mem) zero d h g = refl
  get_or-resize junk (suc n) (m ∷ mem) (suc i) d h g =
      get_or-resize (λ k. junk (suc k)) n mem i d (omega arith) (omega arith)

  -- `memmove` of a window to the front.
  pub window-write_front :
      (n : ℕ) (xs mem : List A) → length xs ≡ n → take n (write zero xs mem) ≡ xs
  unfolding write
  window-write_front n xs mem h = rw (← h) (take-append_self xs _)

  -- The window behind `k` bytes of a window.
  pub drop-window :
      (k i n : ℕ) (mem : List A) → drop k (window i (k + n) mem) ≡ window (i + k) n mem
  drop-window k i n mem = drop-take k n (drop i mem) ∙ ap (take n) (drop-drop i k mem)

  pub take-window : (k i n : ℕ) (mem : List A) → k ≤ n → take k (window i n mem) ≡ window i k mem
  take-window zero i n mem h = refl
  take-window (suc k) zero (suc n) [] h = refl
  take-window (suc k) zero (suc n) (m ∷ mem) h = ap (◌∷◌ m) (take-window k zero n mem (omega arith))
  take-window (suc k) i zero mem h = absurd (omega arith)
  take-window (suc k) (suc i) (suc n) [] h = refl
  take-window (suc k) (suc i) (suc n) (m ∷ mem) h = take-window (suc k) i (suc n) mem h
