-- ===== src/Buffers/Klee/Laws.antt =====
-- What the KLEE initialisers of byte buffers, cursors, lists and queues give.
use verify_c_common.Base.{
  ℕ, ◌+◌, ◌%◌, leb, Bool-cases, ◌*◌, ◌^◌, ◌≤◌, ◌≡◌, ◌≢◌, ◌⊎◌, inl, inr, true, size_max, arith,
}
use verify_c_common.World.{Ptr, null, at, World, and_then, Ensures, advance, ok}
use verify_c_common.World.Rules.{Ensures-bind, Ensures-mono, Ensures-of_Returns}
use verify_c_common.Alloc.{readable}
use verify_c_common.Alloc.Klee.{
  klee_bounded_malloc_havoc, klee_can_fail_malloc_havoc, klee_malloc_havoc-readable,
}
use verify_c_common.Structs.{sea_allocator, ByteBuf, ArrayList}
use verify_c_common.Buffers.Klee.{
  klee_array_list_is_bounded, klee_initialize_byte_buf, klee_initialize_byte_cursor,
  klee_initialize_bounded_array_list, klee_initialize_priority_queue, buf_in, cursor_in, list_in,
  klee_priority_queue_is_bounded, if_bounded,
}

-- NULL, or memory of the size that was asked for.
abbrev Memory : ℕ → Ptr → World → Type 0
Memory size p u = (p ≡ null) ⊎ (readable u p size ≡ true)

forget :
    (size : ℕ) (p : Ptr) (u : World)
    → (p ≡ null) ⊎ ((size ≢ 0) × (readable u p size ≡ true))
    → Memory size p u
forget size p u (inl e) = inl e
forget size p u (inr (_, r)) = inr r

klee_malloc_havoc-Memory :
    (size : ℕ) (w : World)
    → Ensures (Memory size) (klee_bounded_malloc_havoc size w)
      × Ensures (Memory size) (klee_can_fail_malloc_havoc size w)
klee_malloc_havoc-Memory size w =
    let (bounded, can_fail) = klee_malloc_havoc-readable size w in
    (
      Ensures-mono _ _ (klee_bounded_malloc_havoc size w)
          (Ensures-of_Returns _ (klee_bounded_malloc_havoc size w) bounded) (forget size),
      Ensures-mono _ _ (klee_can_fail_malloc_havoc size w)
          (Ensures-of_Returns _ (klee_can_fail_malloc_havoc size w) can_fail) (forget size),
    )

-- All the bytes that the capacity promises can be read.
abbrev pub HasMemory : ℕ → ByteBuf → World → Type 0
HasMemory max buf u =
    (buf.len ≤ buf.capacity)
    × (buf.capacity ≤ max)
    × (buf.allocator ≡ sea_allocator)
    × (readable u buf.buffer buf.capacity ≡ true)

buf_in-HasMemory :
    (max cap : ℕ) (p : Ptr) (u : World)
    → cap ≤ max
    → Memory cap p u
    → Ensures (HasMemory max) (buf_in cap p u)
buf_in-HasMemory max cap null u le m = ground arith
buf_in-HasMemory max cap (at b i) u le m = ground arith

cursor_in-readable :
    (max : ℕ) (p : Ptr) (u : World)
    → Memory max p u
    → Ensures
        (λ cursor v. (cursor.len ≤ max) × (readable v cursor.ptr cursor.len ≡ true))
        (cursor_in max p u)
cursor_in-readable max null u m = ground arith
cursor_in-readable max (at b i) u m = ground arith

-- The items fit the memory, and the bounds hold.
abbrev pub HoldsItems : (max_len max_item_size : ℕ) → ArrayList → World → Type 0
HoldsItems max_len max_item_size list u =
    (list.item_size ≤ max_item_size)
    × (list.length ≤ max_len)
    × (list.length * list.item_size ≤ list.current_size)
    × (list.length * list.item_size ≤ size_max)
    × (readable u list.data_ptr list.current_size ≡ true)

list_in-readable :
    (current_size item_size : ℕ) (p : Ptr) (u : World)
    → Memory current_size p u
    → Ensures
        (λ list v. readable v list.data_ptr list.current_size ≡ true)
        (list_in current_size item_size p u)
list_in-readable current_size item_size null u m = ground arith
list_in-readable current_size item_size (at b i) u m = ground arith

module _ (max_memory_size max_len max_item_size : ℕ) where
  if_bounded-HoldsItems :
      (list : ArrayList) (u : World)
      → readable u list.data_ptr list.current_size ≡ true
      → Ensures
          (HoldsItems max_len max_item_size)
          (if_bounded max_memory_size max_len max_item_size list u)
  unfolding klee_array_list_is_bounded
  if_bounded-HoldsItems list u r = ground arith

  chosen_list-HoldsItems :
      (current_size item_size : ℕ) (w : World)
      → Ensures (HoldsItems max_len max_item_size) (
          and_then (klee_can_fail_malloc_havoc current_size w) λ p u.
            and_then
              (list_in current_size item_size p u)
              (if_bounded max_memory_size max_len max_item_size))
  chosen_list-HoldsItems current_size item_size w =
      Ensures-bind _ _ (klee_can_fail_malloc_havoc current_size w) _
        (klee_malloc_havoc-Memory current_size w).1
        λ p u m.
          Ensures-bind _ _ (list_in current_size item_size p u) _
            (list_in-readable current_size item_size p u m)
            λ list v r. if_bounded-HoldsItems list v r

  klee_initialize_bounded_array_list-HoldsItems :
      (w : World)
      → Ensures
          (HoldsItems max_len max_item_size)
          (klee_initialize_bounded_array_list max_memory_size max_len max_item_size w)
  unfolding klee_initialize_bounded_array_list
  klee_initialize_bounded_array_list-HoldsItems w =
      let size = w.tape w.pos % 2 ^ 64 in
      elim (Bool-cases (leb size max_memory_size)) [
        | inl small ↦
            rw (small)
              (chosen_list-HoldsItems size (w.tape (w.pos + 1) % 2 ^ 64) (advance 1 (advance 1 w)))
        | inr large ↦ rw (large) tt
      ]

module _ (max : ℕ) (w : World) where
  -- Under KLEE the initialisers of byte buffers and cursors give memory for every byte that they promise: for the whole capacity
  -- of a buffer, and for the whole length of a cursor, neither more than the bound.
  pub klee_initialize_byte_buf-HasMemory :
      Ensures (HasMemory max) (klee_initialize_byte_buf max w)
      × Ensures
          (λ cursor u. (cursor.len ≤ max) × (readable u cursor.ptr cursor.len ≡ true))
          (klee_initialize_byte_cursor max w)
  unfolding klee_initialize_byte_buf klee_initialize_byte_cursor
  klee_initialize_byte_buf-HasMemory =
      let cap = w.tape w.pos % 2 ^ 64 in
      (
        elim (Bool-cases (leb cap max)) [
          | inl small ↦ rw (small) (
              Ensures-bind _ _ (klee_can_fail_malloc_havoc cap (advance 1 w)) _
                (klee_malloc_havoc-Memory cap (advance 1 w)).1
                λ p u m. buf_in-HasMemory max cap p u (ground arith) m)
          | inr large ↦ rw (large) tt
        ],
        Ensures-bind _ _ (klee_can_fail_malloc_havoc max w) _ (klee_malloc_havoc-Memory max w).1
            λ p u m. cursor_in-readable max p u m,
      )

abbrev IsBounded : (max_len max_item_size : ℕ) → ArrayList → Type 0
IsBounded max_len max_item_size list =
    (list.item_size ≤ max_item_size)
    × (list.length ≤ max_len)
    × (list.length * list.item_size ≤ list.current_size)
    × (list.length * list.item_size ≤ size_max)

test_passes :
    (max_len max_item_size : ℕ) (list : ArrayList) (limit : ℕ) (w : World)
    → IsBounded max_len max_item_size list
    → klee_array_list_is_bounded list max_len limit w ≡ ok (leb list.item_size limit) w
unfolding klee_array_list_is_bounded
test_passes max_len max_item_size list limit w h = ground arith

-- On a queue that the KLEE initialiser gives, the test of its bounds cuts no run short, and it holds
-- exactly if an item of the backpointers has at most the 8 bytes of a pointer.
pub klee_priority_queue_is_bounded-initialize :
    (max_memory_size max_len max_item_size : ℕ) (w : World)
    → Ensures
        (λ queue u.
          klee_priority_queue_is_bounded queue max_len max_item_size u
          ≡ ok (leb queue.backpointers.item_size 8) u)
        (klee_initialize_priority_queue max_memory_size max_len max_item_size w)
unfolding klee_initialize_priority_queue klee_priority_queue_is_bounded
klee_priority_queue_is_bounded-initialize max_memory_size max_len max_item_size w =
    let made = klee_initialize_bounded_array_list max_memory_size max_len max_item_size in
    let fits =
      klee_initialize_bounded_array_list-HoldsItems max_memory_size max_len max_item_size in
    Ensures-bind _ _ (made w) _ (fits w) λ container u c.
      Ensures-bind _ _ (made u) _ (fits u) λ backpointers v b.
        let first = test_passes max_len max_item_size container max_item_size v (omega arith) in
        let second = test_passes max_len max_item_size backpointers 8 v (omega arith) in
        ground (arith, first, second)
