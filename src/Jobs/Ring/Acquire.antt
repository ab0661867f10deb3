-- ===== src/Jobs/Ring/Acquire.antt =====
-- seahorn/jobs/ring_buffer_acquire and ring_buffer_acquire_up_to.
pub mod Post
use verify_c_common.Base.{
  ℕ, ◌+◌, ◌-◌, ◌%◌, ◌^◌, Bool, true, false, Option, none, some, not, ◌&&◌, ◌||◌, ◌==◌, leb, ltb,
  bool_eq, if◌then◌else◌,
}
use verify_c_common.World.{
  Ptr, null, at, ptr_eq, shift, deref, World, Outcome, ok, fault, Cmd, nd_size_t, nd_bool, assume,
  sassert, pure, ◌>>=◌, ◌>>◌, and_then,
}
use verify_c_common.Structs.{ByteBuf, RingBuffer, sea_allocator}
use verify_c_common.Buffers.{ensure_byte_buf_has_allocated_buffer_member}
use verify_c_common.Ring.{initialize_ring_buffer, member_in_ring_buf, member_in_range}
use verify_c_common.Jobs.{harness_on}
use verify_c_common.Jobs.Tests.{sassert_on, assume_on}
use verify_c_common.Jobs.Ring.{RingTests, any_ring_and_buf, unchanged_ring, unchanged_buf}

module _ (tests : RingTests) (max_buffer_size : ℕ) where
  abbrev pub keep_valid : ℕ × RingBuffer × ByteBuf → Cmd (ℕ × RingBuffer × ByteBuf)
  keep_valid (requested_size, ring_buf, buf) w =
      (do assume_on (tests.ring_is_valid ring_buf); pure (requested_size, ring_buf, buf)) w

  abbrev with_size : RingBuffer × ByteBuf → Cmd (ℕ × RingBuffer × ByteBuf)
  with_size (ring_buf, buf) w =
      (do requested_size ← nd_size_t; keep_valid (requested_size, ring_buf, buf)) w

  -- The requested size, the ring and the buffer.
  unfoldable pub acquire_set_up : Cmd (ℕ × RingBuffer × ByteBuf)
  acquire_set_up = any_ring_and_buf tests max_buffer_size >>= with_size

  abbrev pub states_fit : (ring_buf_old ring_buf : RingBuffer) → Cmd (Unit {0})
  states_fit ring_buf_old ring_buf = do
    sassert (not (tests.is_empty_state ring_buf_old) || tests.is_front_valid_state ring_buf)
    sassert (not (tests.is_front_valid_state ring_buf_old) || tests.is_front_valid_state ring_buf)
    sassert (
        not (tests.is_middle_valid_state ring_buf_old)
        || (tests.is_middle_valid_state ring_buf || tests.is_ends_valid_state ring_buf))
    sassert (not (tests.is_ends_valid_state ring_buf_old) || tests.is_ends_valid_state ring_buf)
    sassert (not (tests.is_front_valid_state ring_buf_old && tests.is_middle_valid_state ring_buf))

  abbrev pub same_memory : (ring_buf_old ring_buf : RingBuffer) → Cmd (Unit {0})
  same_memory ring_buf_old ring_buf = do
    sassert (ring_buf.allocator == ring_buf_old.allocator)
    sassert (ptr_eq ring_buf.allocation ring_buf_old.allocation)
    sassert (ptr_eq ring_buf.allocation_end ring_buf_old.allocation_end)

  abbrev pub ends_moved : ℕ → (ring_buf_old ring_buf : RingBuffer) → Bool → Cmd (Unit {0})
  ends_moved requested_size ring_buf_old ring_buf true = do
    sassert (ptr_eq ring_buf.head (shift ring_buf_old.allocation requested_size))
    sassert (ptr_eq ring_buf.tail ring_buf_old.allocation)
  ends_moved requested_size ring_buf_old ring_buf false = do
    sassert (
        ptr_eq ring_buf.head (shift ring_buf_old.allocation requested_size)
        || ptr_eq ring_buf.head (shift ring_buf_old.head requested_size))
    sassert (ptr_eq ring_buf.tail ring_buf_old.tail)

  abbrev pub acquired :
      ℕ → (ring_buf_old ring_buf : RingBuffer) → ByteBuf → (success : Bool) → Cmd (Unit {0})
  acquired requested_size ring_buf_old ring_buf buf true = do
    sassert_on (tests.buf_is_valid buf)
    sassert (buf.capacity == requested_size)
    sassert_on (λ w. deref w buf.buffer buf.capacity)
    sassert (buf.len == 0)
    sassert (tests.belongs_to_pool ring_buf buf)
    ends_moved requested_size ring_buf_old ring_buf (tests.is_empty ring_buf_old)
    states_fit ring_buf_old ring_buf
  acquired requested_size ring_buf_old ring_buf buf false =
      sassert (unchanged_ring ring_buf ring_buf_old)

  -- `success`: the function has returned AWS_OP_SUCCESS.
  unfoldable pub acquire_assertions :
      ℕ × RingBuffer × ByteBuf → Bool × RingBuffer × ByteBuf → Cmd (Unit {0})
  acquire_assertions (requested_size, ring_buf_old, _) (success, ring_buf, buf) = do
    acquired requested_size ring_buf_old ring_buf buf success
    sassert_on (tests.ring_is_valid ring_buf)
    same_memory ring_buf_old ring_buf

  unfoldable pub acquire_harness :
      (ℕ × RingBuffer × ByteBuf → Cmd (Bool × RingBuffer × ByteBuf)) → World → Outcome (Unit {0})
  acquire_harness acquire w = harness_on (acquire_set_up w) acquire acquire_assertions

  abbrev with_sizes : RingBuffer × ByteBuf → Cmd (ℕ × ℕ × RingBuffer × ByteBuf)
  with_sizes (ring_buf, buf) w =
      (do
        minimum_size ← nd_size_t
        requested_size ← nd_size_t
        assume (leb minimum_size requested_size)
        assume_on (tests.ring_is_valid ring_buf)
        assume_on (tests.buf_is_valid buf)
        pure (minimum_size, requested_size, ring_buf, buf))
        w

  -- The minimum size, the requested size, the ring and the buffer.
  unfoldable pub acquire_up_to_set_up : Cmd (ℕ × ℕ × RingBuffer × ByteBuf)
  acquire_up_to_set_up = any_ring_and_buf tests max_buffer_size >>= with_sizes

  abbrev pub acquired_up_to :
      (minimum_size requested_size : ℕ) (ring_buf_old ring_buf : RingBuffer)
      → ByteBuf
      → (success : Bool) → Cmd (Unit {0})
  acquired_up_to minimum_size requested_size ring_buf_old ring_buf buf true = do
    sassert_on (tests.buf_is_valid buf)
    sassert (leb minimum_size buf.capacity && leb buf.capacity requested_size)
    sassert (buf.len == 0)
    sassert (tests.belongs_to_pool ring_buf buf)
    states_fit ring_buf_old ring_buf
  acquired_up_to minimum_size requested_size ring_buf_old ring_buf buf false =
      sassert (unchanged_ring ring_buf ring_buf_old)

  unfoldable pub acquire_up_to_assertions :
      ℕ × ℕ × RingBuffer × ByteBuf → Bool × RingBuffer × ByteBuf → Cmd (Unit {0})
  acquire_up_to_assertions (minimum_size, requested_size, ring_buf_old, _)
        (success, ring_buf, buf) =
      do
        sassert_on (tests.ring_is_valid ring_buf)
        acquired_up_to minimum_size requested_size ring_buf_old ring_buf buf success
        same_memory ring_buf_old ring_buf

  unfoldable pub acquire_up_to_harness :
      (ℕ × ℕ × RingBuffer × ByteBuf → Cmd (Bool × RingBuffer × ByteBuf))
      → World
      → Outcome (Unit {0})
  acquire_up_to_harness acquire_up_to w =
      harness_on (acquire_up_to_set_up w) acquire_up_to acquire_up_to_assertions
