-- ===== src/MinHeap.antt =====
-- min_heap.h: the heap of events, ordered by their timeouts.
--
-- An event is a number; `timeout` and `min_heap_idx` are the fields of the events, `min_heap_idx` at
-- `no_index` being the C value -1. `p` is the block of `a` slots. Seconds and microseconds are not
-- negative. An `unsigned` has 32 bits. `realloc` says for which numbers of slots it gives a block,
-- and `junk` what stands in its new slots.
pub mod Order
pub mod Place
pub mod Move
pub mod Up
pub mod Child
pub mod Down
pub mod Remove
pub mod Pop
pub mod Reserve
pub mod Push
mod Tests
use study_libevent.Prelude.{
  ℕ, zero, suc, ◌+◌, ◌-◌, ◌*◌, ◌/◌, ◌%◌, ◌^◌, List, [], Bool, true, false, ◌&&◌, ◌||◌, not, Option,
  none, some, ltb, leb, ◌==◌, if◌then◌else◌, get_or, set, Status, ok, fail, Run, done, stuck, ◌>>=◌,
}
use study_libevent.Prelude.Memory.{resize}

pub record Timeval : Type 0 where
  pub tv_sec : ℕ
  pub tv_usec : ℕ

-- `evutil_timercmp(tvp, uvp, >)`
unfoldable pub timercmp_gt : Timeval → Timeval → Bool
timercmp_gt t u = if t.tv_sec == u.tv_sec then ltb u.tv_usec t.tv_usec else ltb u.tv_sec t.tv_sec

pub record MinHeap : Type 0 where
  pub p : List ℕ
  pub n : ℕ
  pub a : ℕ
  pub min_heap_idx : ℕ → ℕ

abbrev pub no_index : ℕ
no_index = 2 ^ 32 - 1

abbrev pub update : (ℕ → ℕ) → ℕ → ℕ → ℕ → ℕ
update f i v j = if i == j then v else f j

abbrev pub slot : MinHeap → ℕ → ℕ
slot s i = get_or s.p i 0

-- `min_heap_ctor`
unfoldable pub ctor : (ℕ → ℕ) → MinHeap
ctor idx = record { p = []; n = 0; a = 0; min_heap_idx = idx }

-- `min_heap_elem_init`
unfoldable pub elem_init : MinHeap → ℕ → MinHeap
elem_init s e = record s { min_heap_idx = update s.min_heap_idx e no_index }

-- `min_heap_empty` and `min_heap_size`
unfoldable pub empty : MinHeap → Bool
empty s = s.n == 0

-- `min_heap_top`
unfoldable pub top : MinHeap → Option ℕ
top s = if s.n == 0 then none else some (slot s 0)

-- `(s->p[i] = e)->min_heap_idx = i`
unfoldable pub place : MinHeap → ℕ → ℕ → MinHeap
place s i e = record s { p = set s.p i e; min_heap_idx = update s.min_heap_idx e i }

-- `min_heap_reserve` for `n` slots
unfoldable pub reserve : (ℕ → Bool) → (ℕ → ℕ) → MinHeap → ℕ → Status × MinHeap
reserve realloc junk s n =
    let twice = if s.a == 0 then 8 else s.a * 2 % 2 ^ 32 in
    let a = if ltb twice n then n else twice in
    if ltb s.a n
    then (if realloc a then (ok, record s { p = resize junk a s.p; a = a }) else (fail, s))
    else (ok, s)

abbrev pub parent : ℕ → ℕ
parent c = (c - 1) / 2

-- The even child of a hole, one behind the odd one.
abbrev pub even_child : ℕ → ℕ
even_child i = 2 * (i + 1) % 2 ^ 32

module _ (timeout : ℕ → Timeval) where
  unfoldable pub elem_greater : ℕ → ℕ → Bool
  elem_greater a b = timercmp_gt (timeout a) (timeout b)

  -- `min_heap_shift_up_`; the parent of hole 0 is not read.
  unfoldable pub shift_up : ℕ → MinHeap → ℕ → ℕ → Run MinHeap
  shift_up zero s hole e = stuck
  shift_up (suc fuel) s hole e =
      let up = shift_up fuel (place s hole (slot s (parent hole))) (parent hole) e in
      if ltb 0 hole && elem_greater (slot s (parent hole)) e then up else done (place s hole e)

  -- `min_child -= min_child == s->n || …`
  unfoldable pub min_child : MinHeap → ℕ → ℕ
  min_child s hole =
      let c = even_child hole in
      if c == s.n || elem_greater (slot s c) (slot s (c - 1)) then c - 1 else c

  -- `min_heap_shift_down_`
  unfoldable pub shift_down : ℕ → MinHeap → ℕ → ℕ → Run MinHeap
  shift_down zero s hole e = stuck
  shift_down (suc fuel) s hole e =
      let c = min_child s hole in
      let down = shift_down fuel (place s hole (slot s c)) c e in
      if leb (even_child hole) s.n && elem_greater e (slot s c)
      then down
      else shift_up (hole + 1) s hole e

  -- `min_heap_push`
  unfoldable pub push_reserved : ℕ → Status × MinHeap → Run (Status × MinHeap)
  push_reserved e (ok, s) =
      shift_up (s.n + 1) (record s { n = (s.n + 1) % 2 ^ 32 }) s.n e >>= λ s'. done (ok, s')
  push_reserved e (fail, s) = done (fail, s)

  unfoldable pub push : (ℕ → Bool) → (ℕ → ℕ) → MinHeap → ℕ → Run (Status × MinHeap)
  push realloc junk s e = push_reserved e (reserve realloc junk s ((s.n + 1) % 2 ^ 32))

  -- `min_heap_pop`
  unfoldable pub pop : MinHeap → Run (Option ℕ × MinHeap)
  pop s =
      let e = slot s 0 in
      let s' = record s { n = s.n - 1 } in
      let removed =
        shift_down (s.n + 1) s' 0 (slot s (s.n - 1)) >>= λ r. done (some e, elem_init r e) in
      if s.n == 0 then done (none, s) else removed

  -- `min_heap_erase`
  unfoldable pub erase : MinHeap → ℕ → Run (Status × MinHeap)
  erase s e =
      let hole = s.min_heap_idx e in
      let s' = record s { n = s.n - 1 } in
      let last = slot s (s.n - 1) in
      let up = shift_up (hole + 1) s' hole last in
      let down = shift_down (s.n + 1) s' hole last in
      let moved = if ltb 0 hole && elem_greater (slot s (parent hole)) last then up else down in
      if hole == no_index then done (fail, s) else (moved >>= λ r. done (ok, elem_init r e))
