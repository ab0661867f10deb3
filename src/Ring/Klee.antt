-- ===== src/Ring/Klee.antt =====
-- The rings of lib/klee_ring_buffer_helper.c: the buffer gets all the room up to the end of its range.
use verify_c_common.Base.{
  ℕ, ◌<◌, ◌≡◌, ◌≢◌, ◌⊎◌, inl, inr, ltb, leb, not, ◌&&◌, ◌||◌, Bool-cases, arith,
}
use verify_c_common.World.{
  Ptr, at, null, ptr_eq, shift, World, Cmd, and_then, nd_size_t, assume, sassert, pure, ◌>>=◌, ◌>>◌,
  Ensures,
}
use verify_c_common.World.Rules.{Ensures-bind}
use verify_c_common.Alloc.Klee.{klee_bounded_malloc_havoc, alloc_size}
use verify_c_common.Structs.{ByteBuf, RingBuffer}
use verify_c_common.Ring.{
  less, distance, place_ends, member_in_range, fuzz_member_in_range, member_in_ring_buf,
}
use verify_c_common.Ring.Laws.{
  IsRing, ring_at, offset, InRange, HandedOut, ring_buf-HandedOut, member_in_ring_buf-HandedOut,
  place_ends-at,
}

-- If the head stands at the start of the memory then so does the tail.
abbrev ends_in_order : RingBuffer → Cmd RingBuffer
ends_in_order ring_buf = do
  assume
      (not (ptr_eq ring_buf.head ring_buf.allocation) || ptr_eq ring_buf.tail ring_buf.allocation)
  pure ring_buf

-- `max_size` is KLEE_MAX_SIZE.
unfoldable pub klee_initialize_ring_buffer : (max_size size : ℕ) → Cmd RingBuffer
klee_initialize_ring_buffer max_size size = do
  assume (ltb 0 size && leb size max_size)
  allocation ← klee_bounded_malloc_havoc size
  ring_buf ← place_ends size allocation
  ends_in_order ring_buf

unfoldable pub klee_member_in_range : ByteBuf → (lo hi : Ptr) → Cmd ByteBuf
klee_member_in_range buf lo hi = do
  ordered ← less lo hi
  sassert ordered
  space ← distance hi lo
  pos ← nd_size_t
  assume (ltb pos space)
  max_capacity ← distance hi (shift lo pos)
  sassert (ltb 0 max_capacity)
  assume (ltb 0 max_capacity && leb max_capacity max_capacity)
  len ← nd_size_t
  assume (leb len max_capacity)
  pure (record buf { buffer = shift lo pos; capacity = max_capacity; len = len })

klee_member_in_range-InRange : InRange klee_member_in_range
unfolding klee_member_in_range
klee_member_in_range-InRange buf b lo hi w lt = ground arith

-- On a ring whose head and tail differ, no assertion of `ensure_byte_buf_has_allocated_buffer_member_in_ring_buf` fails under
-- SeaHorn, when fuzzing, or under KLEE, and all the bytes of the buffer lie in the part of the ring that
-- is in use.
pub every_member_in_ring_buf-HandedOut :
    (buf : ByteBuf) (b size h t : ℕ) (w : World)
    → h ≢ t
    → t < size
    → Ensures
        (λ out _. HandedOut b size h t out)
        (member_in_ring_buf member_in_range buf (ring_at b size h t) w)
      × Ensures
          (λ out _. HandedOut b size h t out)
          (member_in_ring_buf fuzz_member_in_range buf (ring_at b size h t) w)
      × Ensures
          (λ out _. HandedOut b size h t out)
          (member_in_ring_buf klee_member_in_range buf (ring_at b size h t) w)
every_member_in_ring_buf-HandedOut buf b size h t w differ small =
    let (sea, fuzz) = member_in_ring_buf-HandedOut buf b size h t w differ small in
    (
      sea,
      fuzz,
      ring_buf-HandedOut klee_member_in_range klee_member_in_range-InRange buf b size h t w differ
          small,
    )

-- What KLEE starts from: a ring whose tail stands at the start if its head does, or none at all.
abbrev pub NullOrRing : (b size : ℕ) → RingBuffer → World → Type 0
NullOrRing b size ring u =
    (ring.allocation ≡ null)
    ⊎ ((IsRing b size (offset ring.head) (offset ring.tail) ring)
        × (offset ring.head ≡ 0 → offset ring.tail ≡ 0))

ends_in_order-NullOrRing :
    (b size h t : ℕ) (ring : RingBuffer) (u : World)
    → IsRing b size h t ring
    → Ensures (NullOrRing b size) (ends_in_order ring u)
ends_in_order-NullOrRing b size h t ring u (e, h_lt, t_lt) = rw (e) (ground arith)

placed-NullOrRing :
    (b size : ℕ) (u : World)
    → Ensures (NullOrRing b size) (and_then (place_ends size (at b 0) u) ends_in_order)
placed-NullOrRing b size u =
    Ensures-bind _ _ (place_ends size (at b 0) u) _ (place_ends-at b size u) λ ring v is_ring.
      ends_in_order-NullOrRing b size (offset ring.head) (offset ring.tail) ring v is_ring

placed_nowhere :
    (b size : ℕ) (u : World)
    → Ensures (NullOrRing b size) (and_then (place_ends size null u) ends_in_order)
unfolding place_ends
placed_nowhere b size u = ground arith

klee_memory :
    (size : ℕ) (w : World)
    → Ensures (λ p _. (p ≡ null) ⊎ (p ≡ at w.fresh 0)) (klee_bounded_malloc_havoc size w)
unfolding klee_bounded_malloc_havoc alloc_size
klee_memory size w = ground arith

-- Under KLEE `initialize_ring_buffer` faults in no run, and gives a ring of the size that is asked for,
-- in a new block, where the tail is at the start if the head is; or its memory is NULL.
pub klee_initialize_ring_buffer-NullOrRing :
    (max_size size : ℕ) (w : World)
    → Ensures (NullOrRing w.fresh size) (klee_initialize_ring_buffer max_size size w)
unfolding klee_initialize_ring_buffer
klee_initialize_ring_buffer-NullOrRing max_size size w =
    elim (Bool-cases (ltb 0 size && leb size max_size)) [
      | inl fits ↦ rw (fits) (
          Ensures-bind _ _ (klee_bounded_malloc_havoc size w) _ (klee_memory size w) λ p u found.
            elim found [
              | inl nothing ↦ rw (nothing) (placed_nowhere w.fresh size u)
              | inr new ↦ rw (new) (placed-NullOrRing w.fresh size u)
            ])
      | inr no_fit ↦ rw (no_fit) tt
    ]
