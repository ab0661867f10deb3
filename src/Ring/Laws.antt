-- ===== src/Ring/Laws.antt =====
-- Which bytes of the ring seahorn/lib/ring_buffer_helper.c hands out.
use verify_c_common.Base.{
  ℕ, ◌+◌, ◌%◌, ◌≤◌, ◌<◌, ◌≡◌, ◌≢◌, ◌⊎◌, inl, inr, Bool, Bool-cases, ◌==◌, true, false, not, ltb,
  refl, arith,
}
use verify_c_common.World.{Ptr, null, at, World, pruned, Cmd, and_then, advance, Ensures}
use verify_c_common.World.Rules.{Ensures-bind, Ensures-assume, Ensures-mono}
use verify_c_common.Alloc.{bounded_malloc_havoc}
use verify_c_common.Alloc.Laws.{bounded_malloc_havoc-Allocated}
use verify_c_common.Buffers.{fuzz_can_fail_malloc_havoc}
use verify_c_common.Structs.{sea_allocator, ByteBuf, RingBuffer}
use verify_c_common.Ring.{
  place_ends, initialize_ring_buffer, fuzz_initialize_ring_buffer, member_in_range,
  fuzz_member_in_range, member_in_ring_buf, at_end, at_start, in_use, any_allocator,
}

abbrev pub offset : Ptr → ℕ
offset null = 0
offset (at b i) = i

-- A ring in block `b`, `size` bytes long, with head and tail at `h` and `t`.
abbrev pub ring_at : (b size h t : ℕ) → RingBuffer
ring_at b size h t = record {
  allocator = sea_allocator;
  allocation = at b 0;
  head = at b h;
  tail = at b t;
  allocation_end = at b size;
}

abbrev pub IsRing : (b size h t : ℕ) → RingBuffer → Type 0
IsRing b size h t ring = (ring ≡ ring_at b size h t) × (h < size) × (t < size)

pub place_ends-at :
    (b size : ℕ) (w : World)
    → Ensures
        (λ ring _. IsRing b size (offset ring.head) (offset ring.tail) ring)
        (place_ends size (at b 0) w)
unfolding place_ends
place_ends-at b size w = ground arith

place_ends-IsRing :
    (b size : ℕ) (p : Ptr) (w : World)
    → p ≡ at b 0
    → Ensures (λ ring _. (h : ℕ) × (t : ℕ) × IsRing b size h t ring) (place_ends size p w)
place_ends-IsRing b size p w e = rw (e) (
    Ensures-mono _ _ (place_ends size (at b 0) w) (place_ends-at b size w)
      λ ring u is_ring. (offset ring.head, offset ring.tail, is_ring))

place_ends-none : (size : ℕ) (p : Ptr) (w : World) → size ≡ 0 → place_ends size p w ≡ pruned
unfolding place_ends
place_ends-none size p w e = ground arith

allocate-IsRing :
    (size : ℕ) (w : World)
    → Ensures
        (λ ring _. (h : ℕ) × (t : ℕ) × IsRing w.fresh size h t ring)
        (and_then (bounded_malloc_havoc size w) (place_ends size))
allocate-IsRing size w = elim (Bool-cases (size == 0)) [
  | inl empty ↦
      rw ((bounded_malloc_havoc-Allocated w size).1 (ground arith))
        (rw (place_ends-none size null w (ground arith)) tt)
  | inr full ↦
      Ensures-bind (λ p _. p ≡ at w.fresh 0)
        (λ ring _. (h : ℕ) × (t : ℕ) × IsRing w.fresh size h t ring) (bounded_malloc_havoc size w)
        (place_ends size)
        (Ensures-mono _ _ (bounded_malloc_havoc size w)
          ((bounded_malloc_havoc-Allocated w size).0 (ground arith)).0
          (λ p u (made, havoc). made.address))
        (λ p u e. place_ends-IsRing w.fresh size p u e)
]

pub sea_ring-IsRing :
    (size : ℕ) (w : World)
    → Ensures
        (λ ring _. (h : ℕ) × (t : ℕ) × IsRing w.fresh size h t ring)
        (initialize_ring_buffer size w)
unfolding initialize_ring_buffer
sea_ring-IsRing size w =
    Ensures-assume (λ ring _. (h : ℕ) × (t : ℕ) × IsRing w.fresh size h t ring) (ltb 0 size) w _
      λ _. allocate-IsRing size w

fuzz_memory :
    (size : ℕ) (w : World)
    → w.oom w.fresh ≡ false
    → Ensures (λ p _. p ≡ at w.fresh 0) (fuzz_can_fail_malloc_havoc size w)
unfolding fuzz_can_fail_malloc_havoc
fuzz_memory size w room = ground arith

-- In every run that is not cut short `initialize_ring_buffer` gives a ring of the size that is asked for, and
-- its variant for fuzzing one of at most that size, if `malloc` has memory.
pub initialize_ring_buffer-IsRing :
    (max size : ℕ) (w : World)
    → 0 < max
    → w.oom w.fresh ≡ false
    → Ensures
        (λ ring _. (h : ℕ) × (t : ℕ) × IsRing w.fresh size h t ring)
        (initialize_ring_buffer size w)
      × Ensures
          (λ ring _. (n : ℕ) × (h : ℕ) × (t : ℕ) × (n ≤ size) × IsRing w.fresh n h t ring)
          (fuzz_initialize_ring_buffer max size w)
unfolding fuzz_initialize_ring_buffer
initialize_ring_buffer-IsRing max size w pos room =
    let positive : (max == 0) ≡ false = ground arith in
    let n = size % max in
    (
      sea_ring-IsRing size w,
      Ensures-assume
          (λ ring _. (n : ℕ) × (h : ℕ) × (t : ℕ) × (n ≤ size) × IsRing w.fresh n h t ring)
          (ltb 0 size) w _
          (λ _. rw (positive) (
            Ensures-bind _ _ (fuzz_can_fail_malloc_havoc n w) _ (fuzz_memory n w room) λ p u e.
              Ensures-mono _ _ (place_ends n p u) (place_ends-IsRing w.fresh n p u e)
                λ ring v (h, t, is_ring). (n, h, t, omega arith, is_ring))),
    )

-- The byte at `i` of a ring is in use: between tail and head, around the end if need be.
abbrev pub InUse : (size h t i : ℕ) → Type 0
InUse size h t i = (h < t → ((t ≤ i) × (i < size)) ⊎ (i < h)) × (t < h → (t ≤ i) × (i < h))

-- The buffer lies in the block `b` of the ring, and all its bytes are in use.
abbrev pub HandedOut : (b size h t : ℕ) → ByteBuf → Type 0
HandedOut b size h t buf =
    (buf.buffer ≡ at b (offset buf.buffer))
    × ((i : ℕ) → i < buf.capacity → InUse size h t (offset buf.buffer + i))

-- What both variants of `ensure_byte_buf_has_allocated_buffer_member_in_range` do: they put the
-- buffer between the two pointers, and no assertion fails.
abbrev pub InRange : (ByteBuf → (lo hi : Ptr) → Cmd ByteBuf) → Type 0
InRange in_range =
    (buf : ByteBuf) (b lo hi : ℕ) (w : World)
    → lo < hi
    → Ensures
        (λ out _.
          (out.buffer ≡ at b (offset out.buffer))
          × (lo ≤ offset out.buffer)
          × (offset out.buffer + out.capacity ≤ hi))
        (in_range buf (at b lo) (at b hi) w)

member_in_range-InRange : InRange member_in_range
unfolding member_in_range
member_in_range-InRange buf b lo hi w lt = ground arith

fuzz_member_in_range-InRange : InRange fuzz_member_in_range
unfolding fuzz_member_in_range
fuzz_member_in_range-InRange buf b lo hi w lt = ground arith

module _ (in_range : ByteBuf → (lo hi : Ptr) → Cmd ByteBuf) (spec : InRange in_range)
    (b size h t : ℕ) (buf : ByteBuf) where
  between :
      (lo hi : ℕ) (w : World)
      → lo < hi
      → ((i : ℕ) → lo ≤ i → i < hi → InUse size h t i)
      → Ensures (λ out _. HandedOut b size h t out) (in_range buf (at b lo) (at b hi) w)
  between lo hi w lt used =
      Ensures-mono _ _ (in_range buf (at b lo) (at b hi) w) (spec buf b lo hi w lt)
        λ out u (address, above, below).
          (address, λ i lt'. used (offset out.buffer + i) (omega arith) (omega arith))

  at_end-HandedOut :
      (w : World)
      → h < t
      → t < size
      → Ensures (λ out _. HandedOut b size h t out) (at_end in_range buf (ring_at b size h t) w)
  at_end-HandedOut w lt small =
      let same : (b == b) ≡ true = ground arith in
      let below : ltb t size ≡ true = ground arith in
      rw (same, below)
        (between t size w small (λ i le lt'. ((λ g. inl (le, lt')), (λ g. absurd (omega arith)))))

  at_start-HandedOut :
      (w : World)
      → h < t
      → Ensures (λ out _. HandedOut b size h t out) (at_start in_range buf (ring_at b size h t) w)
  at_start-HandedOut w lt = elim (Bool-cases (ltb 0 h)) [
    | inl above ↦
        let same : (b == b) ≡ true = ground arith in
        rw (same, above)
          (between 0 h w (ground arith) (λ i le lt'. ((λ g. inr lt'), (λ g. absurd (omega arith)))))
    | inr none_there ↦ let same : (b == b) ≡ true = ground arith in rw (same, none_there) tt
  ]

  in_use-HandedOut :
      (wraps : Bool) (w : World)
      → h ≢ t
      → t < size
      → wraps ≡ ltb h t
      → Ensures
          (λ out _. HandedOut b size h t out)
          (in_use in_range buf (ring_at b size h t) wraps w)
  in_use-HandedOut true w differ small e = elim (Bool-cases (not (w.tape w.pos == 0))) [
    | inl choice ↦ rw (choice) (at_end-HandedOut (advance 1 w) (ground arith) small)
    | inr choice ↦ rw (choice) (at_start-HandedOut (advance 1 w) (ground arith))
  ]
  in_use-HandedOut false w differ small e =
      between t h w (ground arith) (λ i le lt. ((λ g. ground arith), (λ g. (le, lt))))

pub ring_buf-HandedOut :
    (in_range : ByteBuf → (lo hi : Ptr) → Cmd ByteBuf)
    → InRange in_range
    → (buf : ByteBuf) (b size h t : ℕ) (w : World) → h ≢ t
    → t < size
    → Ensures
        (λ out _. HandedOut b size h t out)
        (member_in_ring_buf in_range buf (ring_at b size h t) w)
unfolding member_in_ring_buf
ring_buf-HandedOut in_range spec buf b size h t w differ small =
    let same : (b == b) ≡ true = ground arith in
    rw (same) (
      in_use-HandedOut in_range spec b size h t
        (record buf { allocator = any_allocator in_range (not (w.tape w.pos == 0)) }) (ltb h t)
        (advance 1 w) differ small refl)

-- On a ring whose head and tail differ, no assertion of either variant of
-- `ensure_byte_buf_has_allocated_buffer_member_in_ring_buf` fails, and all bytes of the buffer lie in
-- the part of the ring that is in use.
pub member_in_ring_buf-HandedOut :
    (buf : ByteBuf) (b size h t : ℕ) (w : World)
    → h ≢ t
    → t < size
    → Ensures
        (λ out _. HandedOut b size h t out)
        (member_in_ring_buf member_in_range buf (ring_at b size h t) w)
      × Ensures
          (λ out _. HandedOut b size h t out)
          (member_in_ring_buf fuzz_member_in_range buf (ring_at b size h t) w)
member_in_ring_buf-HandedOut buf b size h t w differ small = (
  ring_buf-HandedOut member_in_range member_in_range-InRange buf b size h t w differ small,
  ring_buf-HandedOut fuzz_member_in_range fuzz_member_in_range-InRange buf b size h t w differ
      small,
)
