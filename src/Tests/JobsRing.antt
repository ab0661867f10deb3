-- ===== src/Tests/JobsRing.antt =====
-- The unit proofs of ring buffers with functions that do what aws-c-common documents.
use verify_c_common.Base.{ℕ, ◌==◌, leb, not, Bool, true, if◌then◌else◌}
use verify_c_common.World.{null, ptr_eq, is_null, shift, World, Cmd, Returns, pure}
use verify_c_common.Structs.{ByteBuf, RingBuffer}
use verify_c_common.Buffers.{initialize_byte_buf}
use verify_c_common.Ring.{initialize_ring_buffer, place_ends, member_in_ring_buf, member_in_range}
use verify_c_common.Alloc.{bounded_malloc_havoc}
use verify_c_common.Jobs.Ring.{
  RingTests, release_harness, release_set_up, release_assertions, any_ring_and_buf,
}
use verify_c_common.Tests.{world_of}

-- Which states may follow each other is left open here: all hold of each ring.
abbrev tests : RingTests
tests = record {
  ring_is_valid = λ ring w. not (is_null ring.allocation);
  buf_is_valid = λ buf w. leb buf.len buf.capacity;
  is_empty = λ ring. ptr_eq ring.head ring.tail;
  is_empty_state = λ ring. true;
  is_front_valid_state = λ ring. true;
  is_middle_valid_state = λ ring. true;
  is_ends_valid_state = λ ring. true;
  belongs_to_pool = λ ring buf. true;
}

abbrev release : RingBuffer × ByteBuf → Cmd (RingBuffer × ByteBuf)
release (ring, buf) = pure (
  record ring { tail = shift buf.buffer buf.capacity },
  record { len = 0; buffer = null; capacity = 0; allocator = 0 },
)

-- A buffer of 3 bytes with one in use, allocated without failure, and a ring of 8 bytes with head and tail at 5 and 2.
abbrev choices : ℕ → ℕ
choices i =
    if i == 0
    then 1
    else if i == 1
    then 3
    else if i == 6
    then 8
    else if i == 16
    then 5
    else if i == 17
    then 2
    else 0

abbrev world : World
world = record (world_of 0) { tape = choices }

-- The run passes, and is not cut short.
release_passes : Returns (λ _ _. Unit {0}) (release_harness tests 16 release world)
unfolding release_harness release_set_up release_assertions any_ring_and_buf initialize_byte_buf
    initialize_ring_buffer place_ends member_in_ring_buf member_in_range bounded_malloc_havoc
release_passes = tt

-- The bytes behind the head.
abbrev acquire : ℕ × RingBuffer × ByteBuf → Cmd (Bool × RingBuffer × ByteBuf)
acquire (n, ring, buf) = pure (
  true,
  record ring { head = shift ring.head n },
  record { len = 0; buffer = ring.head; capacity = n; allocator = 0 },
)

abbrev belongs : Bool × RingBuffer × ByteBuf → Cmd (Bool × RingBuffer × ByteBuf)
belongs (_, ring, buf) = pure (true, ring, buf)
