-- ===== src/Jobs/ByteBuf.antt =====
-- The unit proofs seahorn/jobs/byte_buf_clean_up, byte_buf_clean_up_secure, byte_buf_init, byte_buf_advance and
-- byte_buf_write_u8, with the function of aws-c-common as a parameter.
pub mod Post
use verify_c_common.Base.{
  ℕ, ◌+◌, ◌%◌, ◌^◌, Bool, true, false, Option, none, some, ◌==◌, ltb, add_size, if◌then◌else◌,
}
use verify_c_common.World.{
  Ptr, null, ptr_eq, World, Outcome, Cmd, nd_size_t, nd_uint8_t, nd_bool, assume, sassert, pure,
  and_then, ◌>>=◌, ◌>>◌,
}
use verify_c_common.Structs.{ByteBuf, sea_allocator}
use verify_c_common.Buffers.{initialize_byte_buf}
use verify_c_common.Utils.{
  StoredByte, save_byte_from_array, assert_byte_from_buffer_matches, assert_byte_buf_equivalence,
}
use verify_c_common.Jobs.{harness_on}
use verify_c_common.Jobs.Tests.{sassert_on, assume_on}

unfoldable pub same_buf : (buf old : ByteBuf) → StoredByte → Cmd (Unit {0})
unfolding assert_byte_buf_equivalence
same_buf buf old old_byte =
    assert_byte_buf_equivalence (some (1, buf)) (some (2, old)) (some old_byte)

-- `aws_byte_buf_is_valid`, and the bound that is set when the proofs are built.
module _ (buf_is_valid : ByteBuf → World → Bool) (max_buffer_size : ℕ) where
  unfoldable pub any_buf : Cmd ByteBuf
  unfolding initialize_byte_buf
  any_buf = do buf ← initialize_byte_buf max_buffer_size; assume_on (buf_is_valid buf); pure buf

  -- The same for both functions that clean up.
  unfoldable pub clean_up_assertions : (old buf : ByteBuf) → Cmd (Unit {0})
  clean_up_assertions old buf = do
    sassert (buf.allocator == 0)
    sassert (ptr_eq buf.buffer null)
    sassert (buf.len == 0)
    sassert (buf.capacity == 0)

  unfoldable pub clean_up_harness : (ByteBuf → Cmd ByteBuf) → World → Outcome (Unit {0})
  clean_up_harness clean_up w = harness_on (any_buf w) clean_up clean_up_assertions

  unfoldable pub init_set_up : Cmd (ByteBuf × ℕ)
  unfolding initialize_byte_buf
  init_set_up = do
    buf ← initialize_byte_buf max_buffer_size
    capacity ← nd_size_t
    pure (buf, capacity)

  unfoldable pub init_assertions : ByteBuf × ℕ → Bool × ByteBuf → Cmd (Unit {0})
  init_assertions (old, capacity) (true, buf) = do
    sassert_on (buf_is_valid buf)
    sassert (buf.allocator == sea_allocator)
    sassert (buf.len == 0)
    sassert (buf.capacity == capacity)
  init_assertions (old, capacity) (false, buf) = pure tt

  unfoldable pub init_harness : (ByteBuf → ℕ → Cmd (Bool × ByteBuf)) → World → Outcome (Unit {0})
  init_harness init w =
      harness_on (init_set_up w) (λ (buf, capacity). init buf capacity) init_assertions

  unfoldable pub write_set_up : Cmd (ByteBuf × ℕ × StoredByte)
  unfolding initialize_byte_buf save_byte_from_array
  write_set_up = do
    buf ← initialize_byte_buf max_buffer_size
    x ← nd_uint8_t
    assume_on (buf_is_valid buf)
    old_byte ← save_byte_from_array buf.buffer buf.len
    pure (buf, x, old_byte)

  abbrev pub written : (old : ByteBuf) → StoredByte → ByteBuf → (success : Bool) → Cmd (Unit {0})
  written old old_byte buf true = do
    sassert (buf.len == add_size old.len 1)
    sassert (old.capacity == buf.capacity)
    sassert (old.allocator == buf.allocator)
  written old old_byte buf false = same_buf buf old old_byte

  unfoldable pub write_assertions : ByteBuf × ℕ × StoredByte → Bool × ByteBuf → Cmd (Unit {0})
  write_assertions (old, x, old_byte) (success, buf) = do
    written old old_byte buf success
    sassert_on (buf_is_valid buf)

  unfoldable pub write_harness : (ByteBuf → ℕ → Cmd (Bool × ByteBuf)) → World → Outcome (Unit {0})
  write_harness write_u8 w =
      harness_on (write_set_up w) (λ (buf, x, _). write_u8 buf x) write_assertions

  -- A copy of `buf`, or another one.
  abbrev pub output_for : ByteBuf → (same : Bool) → Cmd ByteBuf
  output_for buf true = pure buf
  output_for buf false = do
    output ← initialize_byte_buf max_buffer_size
    assume_on (buf_is_valid output)
    pure output

  -- The buffer, the output, the length and the saved byte.
  unfoldable pub advance_set_up : Cmd (ByteBuf × ByteBuf × ℕ × StoredByte)
  unfolding initialize_byte_buf save_byte_from_array
  advance_set_up = do
    buf ← initialize_byte_buf max_buffer_size
    len ← nd_size_t
    assume_on (buf_is_valid buf)
    same ← nd_bool
    output ← output_for buf same
    old_byte ← save_byte_from_array buf.buffer buf.len
    pure (buf, output, len, old_byte)

  abbrev pub moved :
      (old : ByteBuf) (len : ℕ)
      → StoredByte
      → (buf output : ByteBuf) → (success : Bool) → Cmd (Unit {0})
  moved old len old_byte buf output true = do
    sassert (buf.len == add_size old.len len)
    sassert (buf.capacity == old.capacity)
    sassert (buf.allocator == old.allocator)
    if ltb 0 old.len then assert_byte_from_buffer_matches buf.buffer (some old_byte) else pure tt
    sassert (output.len == 0)
    sassert (output.capacity == len)
    sassert (output.allocator == 0)
  moved old len old_byte buf output false = do
    same_buf buf old old_byte
    sassert (output.len == 0)
    sassert (output.capacity == 0)
    sassert (output.allocator == 0)
    sassert (ptr_eq output.buffer null)

  unfoldable pub advance_assertions :
      ByteBuf × ByteBuf × ℕ × StoredByte → Bool × ByteBuf × ByteBuf → Cmd (Unit {0})
  advance_assertions (old, _, len, old_byte) (success, buf, output) = do
    moved old len old_byte buf output success
    sassert_on (buf_is_valid buf)
    sassert_on (buf_is_valid output)

  unfoldable pub advance_harness :
      (ByteBuf → ByteBuf → ℕ → Cmd (Bool × ByteBuf × ByteBuf)) → World → Outcome (Unit {0})
  advance_harness advance w =
      harness_on (advance_set_up w) (λ (buf, output, len, _). advance buf output len)
        advance_assertions
