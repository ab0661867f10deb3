-- ===== src/Ring.antt =====
-- The ring buffers of lib/ring_buffer_helper.c and fuzz_ring_buffer_helper.c.
pub mod Laws
pub mod Klee
use verify_c_common.Base.{
  ℕ, ◌+◌, ◌-◌, ◌%◌, Bool, true, false, Option, none, some, ltb, leb, ◌==◌, ◌&&◌, if◌then◌else◌,
}
use verify_c_common.World.{
  Ptr, null, at, ptr_eq, shift, World, Cmd, ok, crash, nd_size_t, nd_bool, assume, sassert, pure,
  ◌>>=◌, ◌>>◌,
}
use verify_c_common.Alloc.{bounded_malloc_havoc}
use verify_c_common.Structs.{sea_allocator, ByteBuf, RingBuffer, StructPtr}
use verify_c_common.Buffers.{remainder, fuzz_can_fail_malloc_havoc}

-- Pointers into different blocks have no order and no difference.
abbrev pub less : Ptr → Ptr → Cmd Bool
less null q w = crash w
less (at b i) null w = crash w
less (at b i) (at c j) w = if b == c then ok (ltb i j) w else crash w

abbrev pub distance : (hi lo : Ptr) → Cmd ℕ
distance null q w = crash w
distance (at b i) null w = crash w
distance (at b i) (at c j) w = if b == c then ok (i - j) w else crash w

-- Head and tail at any two places of the new memory.
unfoldable pub place_ends : (size : ℕ) → Ptr → Cmd RingBuffer
place_ends size allocation = do
  position_head ← nd_size_t
  position_tail ← nd_size_t
  assume (ltb position_head size)
  assume (ltb position_tail size)
  pure (record {
    allocator = sea_allocator;
    allocation = allocation;
    head = shift allocation position_head;
    tail = shift allocation position_tail;
    allocation_end = shift allocation size;
  })

unfoldable pub initialize_ring_buffer : (size : ℕ) → Cmd RingBuffer
initialize_ring_buffer size = do
  assume (ltb 0 size)
  allocation ← bounded_malloc_havoc size
  place_ends size allocation

-- For fuzzing `size` is cut to the bound first; there `bounded_malloc_havoc` and `can_fail_malloc_havoc` are
-- the same.
unfoldable pub fuzz_initialize_ring_buffer : (max_buffer_size size : ℕ) → Cmd RingBuffer
fuzz_initialize_ring_buffer max_buffer_size size = do
  assume (ltb 0 size)
  alloc_sz ← remainder size max_buffer_size
  allocation ← fuzz_can_fail_malloc_havoc alloc_sz
  place_ends alloc_sz allocation

-- The buffer is put at a place between `lo` and `hi`.
unfoldable pub member_in_range : ByteBuf → (lo hi : Ptr) → Cmd ByteBuf
member_in_range buf lo hi = do
  ordered ← less lo hi
  sassert ordered
  space ← distance hi lo
  pos ← nd_size_t
  assume (ltb pos space)
  max_capacity ← distance hi (shift lo pos)
  sassert (ltb 0 max_capacity)
  assume (ltb 0 buf.capacity && leb buf.capacity max_capacity)
  pure (record buf { buffer = shift lo pos })

-- For fuzzing the place and the capacity are cut to size instead of assumed.
unfoldable pub fuzz_member_in_range : ByteBuf → (lo hi : Ptr) → Cmd ByteBuf
fuzz_member_in_range buf lo hi = do
  ordered ← less lo hi
  sassert ordered
  space ← distance hi lo
  any_pos ← nd_size_t
  pos ← remainder any_pos space
  max_capacity ← distance hi (shift lo pos)
  sassert (ltb 0 max_capacity)
  assume (ltb 0 buf.capacity)
  capacity ← remainder buf.capacity (max_capacity + 1)
  pure (record buf { buffer = shift lo pos; capacity = capacity })

-- One of the two functions above.
module _ (in_range : ByteBuf → (lo hi : Ptr) → Cmd ByteBuf) where
  abbrev pub at_end : ByteBuf → RingBuffer → Cmd ByteBuf
  at_end buf ring_buf = do
    below ← less ring_buf.tail ring_buf.allocation_end
    assume below
    in_range buf ring_buf.tail ring_buf.allocation_end

  abbrev pub at_start : ByteBuf → RingBuffer → Cmd ByteBuf
  at_start buf ring_buf = do
    below ← less ring_buf.allocation ring_buf.head
    assume below
    in_range buf ring_buf.allocation ring_buf.head

  -- [....H    T....]
  abbrev pub around : ByteBuf → RingBuffer → Bool → Cmd ByteBuf
  around buf ring_buf true = at_end buf ring_buf
  around buf ring_buf false = at_start buf ring_buf

  -- With the outcome of `head < tail`; the other picture is [    T....H    ].
  abbrev pub in_use : ByteBuf → RingBuffer → Bool → Cmd ByteBuf
  in_use buf ring_buf true = nd_bool >>= around buf ring_buf
  in_use buf ring_buf false = in_range buf ring_buf.tail ring_buf.head

  abbrev pub any_allocator : Bool → ℕ
  any_allocator b = if b then 0 else sea_allocator

  unfoldable pub member_in_ring_buf : ByteBuf → RingBuffer → Cmd ByteBuf
  member_in_ring_buf buf ring_buf = do
    b ← nd_bool
    wraps ← less ring_buf.head ring_buf.tail
    in_use (record buf { allocator = any_allocator b }) ring_buf wraps

unfoldable pub ring_buffers_are_equal : StructPtr RingBuffer → StructPtr RingBuffer → Bool
ring_buffers_are_equal none none = true
ring_buffers_are_equal none (some r2) = false
ring_buffers_are_equal (some r1) none = false
ring_buffers_are_equal (some (x, r1)) (some (y, r2)) =
    if (r1.allocator == r2.allocator)
      && (ptr_eq r1.allocation r2.allocation && ptr_eq r1.allocation_end r2.allocation_end)
    then ptr_eq r1.head r2.head && ptr_eq r1.tail r2.tail
    else false
