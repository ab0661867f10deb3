-- ===== src/Jobs/Ring.antt =====
-- The unit proofs seahorn/jobs/ring_buffer_*.
pub mod Release
pub mod Acquire
pub mod Pool
use verify_c_common.Base.{
  ℕ, ◌≡◌, refl, Bool, true, false, Option, none, some, ltb, bool_eq, ◌+◌, ◌-◌, ◌%◌, ◌^◌, not, ◌&&◌,
  ◌||◌, ◌==◌, leb, if◌then◌else◌,
}
use verify_c_common.World.{
  Ptr, null, at, ok, fault, ptr_eq, shift, deref, World, Outcome, Cmd, nd_size_t, nd_bool, assume,
  sassert, pure, ◌>>=◌, ◌>>◌, and_then,
}
use verify_c_common.Structs.{ByteBuf, RingBuffer, sea_allocator}
use verify_c_common.Buffers.{
  initialize_byte_buf, ensure_byte_buf_has_allocated_buffer_member, byte_bufs_are_equal,
}
use verify_c_common.Ring.{
  initialize_ring_buffer, member_in_ring_buf, member_in_range, ring_buffers_are_equal,
}
use verify_c_common.Jobs.{harness_on}
use verify_c_common.Jobs.Tests.{sassert_on, assume_on}

-- The tests of aws-c-common that these proofs use. They read, and change nothing.
pub record RingTests : Type 0 where
  pub ring_is_valid : RingBuffer → World → Bool
  pub buf_is_valid : ByteBuf → World → Bool
  pub is_empty : RingBuffer → Bool
  pub is_empty_state : RingBuffer → Bool
  pub is_front_valid_state : RingBuffer → Bool
  pub is_middle_valid_state : RingBuffer → Bool
  pub is_ends_valid_state : RingBuffer → Bool
  pub belongs_to_pool : RingBuffer → ByteBuf → Bool

-- `&ring_buf` and `&ring_buf_old` are two addresses.
abbrev pub unchanged_ring : (ring_buf ring_buf_old : RingBuffer) → Bool
unchanged_ring ring_buf ring_buf_old =
    ring_buffers_are_equal (some (1, ring_buf)) (some (2, ring_buf_old))

abbrev pub unchanged_buf : (buf buf_old : ByteBuf) → Bool
unchanged_buf buf buf_old = byte_bufs_are_equal (some (3, buf_old)) (some (4, buf))

-- The buffer, cut short unless it is valid, and the ring.
module _ (tests : RingTests) (max_buffer_size : ℕ) where
  unfoldable pub any_ring_and_buf : Cmd (RingBuffer × ByteBuf)
  unfolding initialize_byte_buf initialize_ring_buffer
  any_ring_and_buf = do
    buf ← initialize_byte_buf max_buffer_size
    assume_on (tests.buf_is_valid buf)
    ring_buf_size ← nd_size_t
    ring_buf ← initialize_ring_buffer ring_buf_size
    pure (ring_buf, buf)

  abbrev pub handed_out : RingBuffer × ByteBuf → Cmd (RingBuffer × ByteBuf)
  handed_out (ring_buf, buf) w =
      (do
        assume (not (tests.is_empty ring_buf))
        assume_on (tests.ring_is_valid ring_buf)
        buf' ← member_in_ring_buf member_in_range buf ring_buf
        pure (ring_buf, buf'))
        w

  unfoldable pub release_set_up : Cmd (RingBuffer × ByteBuf)
  release_set_up = any_ring_and_buf >>= handed_out

  unfoldable pub release_assertions : RingBuffer × ByteBuf → RingBuffer × ByteBuf → Cmd (Unit {0})
  release_assertions (ring_buf_old, buf_old) (ring_buf, buf) = do
    sassert_on (tests.ring_is_valid ring_buf)
    sassert (ring_buf.allocator == ring_buf_old.allocator)
    sassert (ptr_eq ring_buf.allocation ring_buf_old.allocation)
    sassert (ptr_eq ring_buf.head ring_buf_old.head)
    sassert (ptr_eq ring_buf.tail (shift buf_old.buffer buf_old.capacity))
    sassert (ptr_eq ring_buf.allocation_end ring_buf_old.allocation_end)
    sassert (buf.allocator == 0)
    sassert (ptr_eq buf.buffer null)
    sassert (buf.len == 0)
    sassert (buf.capacity == 0)
    sassert (
        not (tests.is_front_valid_state ring_buf_old)
        || (tests.is_empty_state ring_buf || tests.is_middle_valid_state ring_buf))
    sassert (
        not (tests.is_middle_valid_state ring_buf_old)
        || (tests.is_empty_state ring_buf
            || (tests.is_middle_valid_state ring_buf || tests.is_ends_valid_state ring_buf)))
    sassert (
        not (tests.is_ends_valid_state ring_buf_old)
        || (tests.is_empty_state ring_buf
            || (tests.is_middle_valid_state ring_buf || tests.is_ends_valid_state ring_buf)))

  unfoldable pub release_harness :
      (RingBuffer × ByteBuf → Cmd (RingBuffer × ByteBuf)) → World → Outcome (Unit {0})
  release_harness release w = harness_on (release_set_up w) release release_assertions
