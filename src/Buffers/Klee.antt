-- ===== src/Buffers/Klee.antt =====
-- The KLEE variants lib/klee_byte_buf_helper.c, klee_array_list_helper.c and
-- klee_priority_queue_helper.c: what the memory does not hold is not claimed.
pub mod Laws
use verify_c_common.Base.{ℕ, ◌+◌, ◌*◌, ◌%◌, ◌^◌, Bool, leb, ◌&&◌, size_max, mul_size}
use verify_c_common.World.{
  Ptr, null, at, World, Cmd, ok, advance, nd_size_t, assume, pure, ◌>>=◌, ◌>>◌,
}
use verify_c_common.Alloc.{sea_malloc_aligned_havoc}
use verify_c_common.Alloc.Klee.{klee_bounded_malloc_havoc, klee_can_fail_malloc_havoc}
use verify_c_common.Structs.{sea_allocator, ByteBuf, ByteCursor, ArrayList}
use verify_c_common.Buffers.{PriorityQueue}

-- An `int`, as the pattern of its 32 bits.
abbrev pub nd_int : Cmd ℕ
nd_int w = ok (w.tape w.pos % 2 ^ 32) (advance 1 w)

abbrev pub buf_of : (buffer : Ptr) → (len capacity : ℕ) → ByteBuf
buf_of buffer len capacity = record {
  len = len;
  buffer = buffer;
  capacity = capacity;
  allocator = sea_allocator;
}

-- The length is chosen where there is memory only.
abbrev pub buf_in : (cap : ℕ) → Ptr → Cmd ByteBuf
buf_in cap null w = ok (buf_of null 0 0) w
buf_in cap (at b i) w = (do len ← nd_size_t; assume (leb len cap); pure (buf_of (at b i) len cap)) w

abbrev cursor_in : (max_buffer_size : ℕ) → Ptr → Cmd ByteCursor
cursor_in max_buffer_size null w = ok (record { len = 0; ptr = null }) w
cursor_in max_buffer_size (at b i) w =
    (do
      len ← nd_size_t
      assume (leb len max_buffer_size)
      pure (record { len = len; ptr = at b i }))
      w

module _ (max_buffer_size : ℕ) where
  unfoldable pub klee_initialize_byte_buf : Cmd ByteBuf
  unfolding klee_can_fail_malloc_havoc
  klee_initialize_byte_buf = do
    cap ← nd_size_t
    assume (leb cap max_buffer_size)
    buffer ← klee_can_fail_malloc_havoc cap
    buf_in cap buffer

  unfoldable pub klee_initialize_byte_cursor : Cmd ByteCursor
  unfolding klee_can_fail_malloc_havoc
  klee_initialize_byte_cursor = do
    p ← klee_can_fail_malloc_havoc max_buffer_size
    cursor_in max_buffer_size p

  unfoldable pub klee_initialize_byte_cursor_aligned : Cmd ByteCursor
  unfolding sea_malloc_aligned_havoc
  klee_initialize_byte_cursor_aligned = do
    p ← sea_malloc_aligned_havoc max_buffer_size
    cursor_in max_buffer_size p

-- Here the size is the capacity that the buffer has already, and the length is chosen anew.
unfoldable pub klee_ensure_byte_buf_has_allocated_buffer_member : ByteBuf → Cmd ByteBuf
unfolding klee_bounded_malloc_havoc
klee_ensure_byte_buf_has_allocated_buffer_member buf = do
  buffer ← klee_bounded_malloc_havoc buf.capacity
  len ← nd_size_t
  assume (leb len buf.capacity)
  pure (buf_of buffer len buf.capacity)

-- The test of the bounds cuts a run short where the items do not fit the list.
unfoldable pub klee_array_list_is_bounded :
    ArrayList → (max_initial_item_allocation max_item_size : ℕ) → Cmd Bool
klee_array_list_is_bounded list max_initial_item_allocation max_item_size = do
  assume (
      leb (list.length * list.item_size) size_max
      && leb (mul_size list.length list.item_size) list.current_size)
  pure (leb list.item_size max_item_size && leb list.length max_initial_item_allocation)

abbrev list_of : (data_ptr : Ptr) → (current_size length item_size : ℕ) → ArrayList
list_of data_ptr current_size length item_size = record {
  alloc = sea_allocator;
  current_size = current_size;
  length = length;
  item_size = item_size;
  data_ptr = data_ptr;
}

abbrev list_in : (current_size item_size : ℕ) → Ptr → Cmd ArrayList
list_in current_size item_size null w = ok (list_of null 0 0 item_size) w
list_in current_size item_size (at b i) w =
    (do length ← nd_size_t; pure (list_of (at b i) current_size length item_size)) w

-- The bounds `sea_max_array_list_len` and `sea_max_array_list_item_size`, and `klee_max_memory_size`.
module _ (max_memory_size max_len max_item_size : ℕ) where
  abbrev if_bounded : ArrayList → Cmd ArrayList
  if_bounded list = do
    bounded ← klee_array_list_is_bounded list max_len max_item_size
    assume bounded
    pure list

  unfoldable pub klee_initialize_bounded_array_list : Cmd ArrayList
  unfolding klee_can_fail_malloc_havoc klee_array_list_is_bounded
  klee_initialize_bounded_array_list = do
    current_size ← nd_size_t
    assume (leb current_size max_memory_size)
    item_size ← nd_size_t
    data_ptr ← klee_can_fail_malloc_havoc current_size
    list ← list_in current_size item_size data_ptr
    if_bounded list

  unfoldable pub klee_initialize_priority_queue : Cmd PriorityQueue
  klee_initialize_priority_queue = do
    container ← klee_initialize_bounded_array_list
    backpointers ← klee_initialize_bounded_array_list
    pure (record { container = container; backpointers = backpointers })

-- The order of a queue: any two items compare in any way, each time anew.
unfoldable pub nd_aws_priority_queue_compare_fn : (a b : Ptr) → Cmd ℕ
nd_aws_priority_queue_compare_fn a b = nd_int

-- Both lists are tested, whatever comes out for the first; a pointer has 8 bytes.
unfoldable pub klee_priority_queue_is_bounded :
    PriorityQueue → (max_initial_item_allocation max_item_size : ℕ) → Cmd Bool
unfolding klee_array_list_is_bounded
klee_priority_queue_is_bounded queue max_initial_item_allocation max_item_size = do
  b1 ← klee_array_list_is_bounded queue.container max_initial_item_allocation max_item_size
  b2 ← klee_array_list_is_bounded queue.backpointers max_initial_item_allocation 8
  pure (b1 && b2)
