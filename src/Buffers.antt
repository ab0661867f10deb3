-- ===== src/Buffers.antt =====
-- The helpers for byte buffers, cursors, array lists and priority queues: lib/byte_buf_helper.c,
-- array_list_helper.c, priority_queue_helper.c, their variants for fuzzing, and the cursor of
-- aws-c-common-stubs/byte_cursor_advance_nospec_override.c.
pub mod Init
pub mod Klee
pub mod Every
pub mod Cursor
use Prim.Native.Nat.{bit_and}
use verify_c_common.Base.{
  ℕ, ◌+◌, ◌*◌, ◌%◌, ◌/◌, Bool, true, false, Option, none, some, ltb, leb, ◌==◌, ◌&&◌, if◌then◌else◌,
  size_max, add_size, sub_size, mul_size,
}
use verify_c_common.World.{
  Ptr, null, ptr_eq, is_null, shift, World, Cmd, ok, crash, nd_size_t, assume, pure, ◌>>=◌, ◌>>◌,
}
use verify_c_common.Alloc.{
  malloc, memhavoc, can_fail_malloc_havoc, bounded_malloc_havoc, sea_malloc_aligned_havoc,
}
use verify_c_common.Structs.{sea_allocator, ByteBuf, ByteCursor, ArrayList, StructPtr, same_struct}

-- `%` on a `size_t`; the remainder by 0 is undefined.
abbrev pub remainder : ℕ → ℕ → Cmd ℕ
remainder n m w = if m == 0 then crash w else ok (n % m) w

-- The variant of lib/fuzz_allocators.c, where only `malloc` itself fails.
abbrev havoc_unless_null : Ptr → ℕ → Cmd Ptr
havoc_unless_null p size w = if is_null p then ok p w else (do memhavoc p size; pure p) w

unfoldable pub fuzz_can_fail_malloc_havoc : ℕ → Cmd Ptr
unfolding malloc memhavoc
fuzz_can_fail_malloc_havoc size = do data_ptr ← malloc size; havoc_unless_null data_ptr size

-- `sea_max_buffer_size` is set when the proofs are built.
module _ (max_buffer_size : ℕ) where
  unfoldable pub initialize_byte_buf : Cmd ByteBuf
  unfolding can_fail_malloc_havoc
  initialize_byte_buf = do
    len ← nd_size_t
    cap ← nd_size_t
    assume (leb len cap)
    assume (leb cap max_buffer_size)
    buffer ← can_fail_malloc_havoc cap
    pure (record { len = len; buffer = buffer; capacity = cap; allocator = sea_allocator })

  abbrev len_within : ℕ → ℕ → ℕ
  len_within len cap = if cap == 0 then 0 else len % cap

  unfoldable pub fuzz_initialize_byte_buf : Cmd ByteBuf
  unfolding fuzz_can_fail_malloc_havoc memhavoc
  fuzz_initialize_byte_buf = do
    len ← nd_size_t
    any_cap ← nd_size_t
    cap ← remainder any_cap max_buffer_size
    data_ptr ← fuzz_can_fail_malloc_havoc cap
    buffer ← havoc_unless_null data_ptr cap
    pure (record {
      len = len_within len cap;
      buffer = buffer;
      capacity = cap;
      allocator = sea_allocator;
    })

  unfoldable pub initialize_byte_cursor : Cmd ByteCursor
  unfolding can_fail_malloc_havoc
  initialize_byte_cursor = do
    len ← nd_size_t
    assume (leb len max_buffer_size)
    p ← can_fail_malloc_havoc max_buffer_size
    pure (record { len = len; ptr = p })

  unfoldable pub initialize_byte_cursor_aligned : Cmd ByteCursor
  unfolding sea_malloc_aligned_havoc
  initialize_byte_cursor_aligned = do
    len ← nd_size_t
    assume (leb len max_buffer_size)
    p ← sea_malloc_aligned_havoc max_buffer_size
    pure (record { len = len; ptr = p })

  unfoldable pub fuzz_initialize_byte_cursor : Cmd ByteCursor
  unfolding fuzz_can_fail_malloc_havoc
  fuzz_initialize_byte_cursor = do
    any_len ← nd_size_t
    len ← remainder any_len max_buffer_size
    p ← fuzz_can_fail_malloc_havoc max_buffer_size
    pure (record { len = len; ptr = p })

  unfoldable pub ensure_byte_buf_has_allocated_buffer_member : ByteBuf → Cmd ByteBuf
  unfolding bounded_malloc_havoc
  ensure_byte_buf_has_allocated_buffer_member buf = do
    p ← bounded_malloc_havoc max_buffer_size
    pure (record buf { allocator = sea_allocator; buffer = p })

abbrev pub byte_buf_is_bounded : ByteBuf → ℕ → Bool
byte_buf_is_bounded buf max_size = leb buf.capacity max_size

abbrev pub byte_cursor_is_bounded : ByteCursor → ℕ → Bool
byte_cursor_is_bounded cursor max_size = leb cursor.len max_size

abbrev pub byte_buf_has_allocator : ByteBuf → Bool
byte_buf_has_allocator buf = buf.allocator == sea_allocator

unfoldable pub byte_bufs_are_equal : StructPtr ByteBuf → StructPtr ByteBuf → Bool
byte_bufs_are_equal none none = true
byte_bufs_are_equal none (some b2) = false
byte_bufs_are_equal (some b1) none = false
byte_bufs_are_equal (some (x, b1)) (some (y, b2)) =
    (b1.len == b2.len)
    && (ptr_eq b1.buffer b2.buffer
        && ((b1.capacity == b2.capacity) && (b1.allocator == b2.allocator)))

unfoldable pub initialize_array_list : Cmd ArrayList
unfolding can_fail_malloc_havoc
initialize_array_list = do
  current_size ← nd_size_t
  length ← nd_size_t
  item_size ← nd_size_t
  p ← can_fail_malloc_havoc current_size
  pure (record {
    alloc = sea_allocator;
    current_size = current_size;
    length = length;
    item_size = item_size;
    data_ptr = p;
  })

abbrev pub array_list_is_bounded :
    ArrayList → (max_initial_item_allocation max_item_size : ℕ) → Bool
array_list_is_bounded list max_initial_item_allocation max_item_size =
    leb list.item_size max_item_size && leb list.length max_initial_item_allocation

unfoldable pub initialize_bounded_array_list : (max_len max_item_size : ℕ) → Cmd ArrayList
unfolding can_fail_malloc_havoc
initialize_bounded_array_list max_len max_item_size = do
  current_size ← nd_size_t
  item_size ← nd_size_t
  length ← nd_size_t
  p ← can_fail_malloc_havoc current_size
  assume (leb item_size max_item_size && leb length max_len)
  pure (record {
    alloc = sea_allocator;
    current_size = current_size;
    length = length;
    item_size = item_size;
    data_ptr = p;
  })

abbrev pub at_least_one : ℕ → ℕ
at_least_one n = if n == 0 then 1 else n

abbrev pub data_of_size : ℕ → Cmd Ptr
data_of_size size w = if size == 0 then ok null w else fuzz_can_fail_malloc_havoc size w

unfoldable pub fuzz_initialize_bounded_array_list : (max_len max_item_size : ℕ) → Cmd ArrayList
unfolding fuzz_can_fail_malloc_havoc
fuzz_initialize_bounded_array_list max_len max_item_size = do
  any_item_size ← nd_size_t
  item_size ← remainder any_item_size max_item_size
  any_length ← nd_size_t
  length ← remainder any_length max_len
  p ← data_of_size (mul_size (at_least_one item_size) length)
  pure (record {
    alloc = sea_allocator;
    current_size = mul_size (at_least_one item_size) length;
    length = length;
    item_size = at_least_one item_size;
    data_ptr = p;
  })

-- The comparison function of the queue is the non-deterministic one.
pub record PriorityQueue : Type 0 where
  pub container : ArrayList
  pub backpointers : ArrayList

unfoldable pub initialize_priority_queue : Cmd PriorityQueue
unfolding initialize_array_list
initialize_priority_queue = do
  container ← initialize_array_list
  backpointers ← initialize_array_list
  pure (record { container = container; backpointers = backpointers })

unfoldable pub priority_queue_is_bounded :
    PriorityQueue → (max_initial_item_allocation max_item_size : ℕ) → Bool
priority_queue_is_bounded queue max_initial_item_allocation max_item_size =
    array_list_is_bounded queue.container max_initial_item_allocation max_item_size
    && array_list_is_bounded queue.backpointers max_initial_item_allocation 8

-- `aws_byte_cursor_advance_nospec`: the cursor that is returned, and what `cursor` becomes.
-- `aws_nospec_mask` belongs to aws-c-common.
module _ (nospec_mask : (index bound : ℕ) → ℕ) where
  abbrev masked_ptr : ℕ → Ptr → Ptr
  masked_ptr mask p = if mask == 0 then null else p

  abbrev advance_masked : (mask : ℕ) → ByteCursor → ℕ → ByteCursor × ByteCursor
  advance_masked mask cursor len = (
    record { ptr = masked_ptr mask cursor.ptr; len = bit_and (bit_and len mask) mask },
    record {
      ptr = shift (masked_ptr mask cursor.ptr) (bit_and len mask);
      len = sub_size (bit_and cursor.len mask) (bit_and len mask);
    },
  )

  unfoldable pub byte_cursor_advance_nospec : ByteCursor → ℕ → ByteCursor × ByteCursor
  byte_cursor_advance_nospec cursor len =
      if leb len cursor.len && (leb len (size_max / 2) && leb cursor.len (size_max / 2))
      then advance_masked (nospec_mask len (add_size cursor.len 1)) cursor len
      else (record { ptr = null; len = 0 }, cursor)
