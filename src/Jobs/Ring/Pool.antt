-- ===== src/Jobs/Ring/Pool.antt =====
-- seahorn/jobs/ring_buffer_buf_belongs_to_pool, ring_buffer_init and ring_buffer_clean_up.
pub mod Post
use verify_c_common.Base.{
  ℕ, ◌+◌, ◌-◌, ◌%◌, ◌^◌, Bool, true, false, Option, none, some, not, ◌&&◌, ◌||◌, ◌==◌, leb, ltb,
  bool_eq, if◌then◌else◌,
}
use verify_c_common.World.{
  Ptr, null, at, ptr_eq, shift, deref, World, Outcome, ok, fault, Cmd, nd_size_t, nd_bool, assume,
  sassert, pure, ◌>>=◌, ◌>>◌, and_then,
}
use verify_c_common.Structs.{ByteBuf, RingBuffer, sea_allocator}
use verify_c_common.Buffers.{ensure_byte_buf_has_allocated_buffer_member}
use verify_c_common.Ring.{initialize_ring_buffer, member_in_ring_buf, member_in_range}
use verify_c_common.Jobs.{harness_on}
use verify_c_common.Jobs.Tests.{sassert_on, assume_on}
use verify_c_common.Jobs.Ring.{RingTests, any_ring_and_buf, unchanged_ring, unchanged_buf}

module _ (tests : RingTests) (max_buffer_size : ℕ) where
  abbrev as_member : RingBuffer × ByteBuf → (is_member : Bool) → Cmd ByteBuf
  as_member (ring_buf, buf) true = do
    assume (not (tests.is_empty ring_buf))
    member_in_ring_buf member_in_range buf ring_buf
  as_member (ring_buf, buf) false = ensure_byte_buf_has_allocated_buffer_member max_buffer_size buf

  abbrev member_or_not : RingBuffer × ByteBuf → Cmd (Bool × RingBuffer × ByteBuf)
  member_or_not (ring_buf, buf) = do
    is_member ← nd_bool
    buf' ← as_member (ring_buf, buf) is_member
    assume_on (tests.ring_is_valid ring_buf)
    assume_on (tests.buf_is_valid buf')
    pure (is_member, ring_buf, buf')

  -- Whether the buffer is a member, the ring and the buffer.
  unfoldable pub belongs_to_pool_set_up : Cmd (Bool × RingBuffer × ByteBuf)
  belongs_to_pool_set_up = any_ring_and_buf tests max_buffer_size >>= member_or_not

  unfoldable pub belongs_to_pool_assertions :
      Bool × RingBuffer × ByteBuf → Bool × RingBuffer × ByteBuf → Cmd (Unit {0})
  belongs_to_pool_assertions (is_member, ring_buf_old, buf_old) (result, ring_buf, buf) = do
    sassert (bool_eq is_member result)
    sassert_on (tests.ring_is_valid ring_buf)
    sassert_on (tests.buf_is_valid buf)
    sassert (unchanged_ring ring_buf_old ring_buf)
    sassert (unchanged_buf buf buf_old)

  unfoldable pub belongs_to_pool_harness :
      (Bool × RingBuffer × ByteBuf → Cmd (Bool × RingBuffer × ByteBuf)) → World → Outcome (Unit {0})
  belongs_to_pool_harness belongs_to_pool w =
      harness_on (belongs_to_pool_set_up w) belongs_to_pool belongs_to_pool_assertions

  unfoldable pub init_set_up : Cmd ℕ
  init_set_up = do size ← nd_size_t; assume (ltb 0 size); pure size

  -- `allocation_end - allocation` as a `size_t`.
  abbrev pub span : (hi lo : Ptr) → Cmd ℕ
  span null q w = fault
  span (at b i) null w = fault
  span (at b i) (at c j) w = if b == c then ok ((i + 2 ^ 64 - j) % 2 ^ 64) w else fault

  -- The new ring, or `none` where the function has not returned AWS_OP_SUCCESS.
  unfoldable pub init_assertions : ℕ → Option RingBuffer → Cmd (Unit {0})
  init_assertions size none = pure tt
  init_assertions size (some ring_buf) = do
    sassert_on (tests.ring_is_valid ring_buf)
    sassert (ring_buf.allocator == sea_allocator)
    space ← span ring_buf.allocation_end ring_buf.allocation
    sassert (space == size)

  unfoldable pub init_harness : (ℕ → Cmd (Option RingBuffer)) → World → Outcome (Unit {0})
  init_harness init w = harness_on (init_set_up w) init init_assertions

  unfoldable pub clean_up_set_up : Cmd RingBuffer
  clean_up_set_up = do
    ring_buf_size ← nd_size_t
    ring_buf ← initialize_ring_buffer ring_buf_size
    assume_on (tests.ring_is_valid ring_buf)
    pure ring_buf

  unfoldable pub clean_up_assertions : RingBuffer → RingBuffer → Cmd (Unit {0})
  clean_up_assertions _ ring_buf = do
    sassert (ring_buf.allocator == 0)
    sassert (ptr_eq ring_buf.allocation null)
    sassert (ptr_eq ring_buf.head null)
    sassert (ptr_eq ring_buf.tail null)
    sassert (ptr_eq ring_buf.allocation_end null)

  unfoldable pub clean_up_harness : (RingBuffer → Cmd RingBuffer) → World → Outcome (Unit {0})
  clean_up_harness clean_up w = harness_on (clean_up_set_up w) clean_up clean_up_assertions
