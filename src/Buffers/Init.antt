-- ===== src/Buffers/Init.antt =====
-- What the initialisers of byte buffers, cursors and array lists give: the same under SeaHorn and
-- for fuzzing.
use native.Mathlib.Nat.{mul-le-mul, mod-lt}
use verify_c_common.Base.{◌%◌, ◌^◌, ◌+◌, ℕ, ◌*◌, ◌≤◌, ◌<◌, ◌≡◌, ◌⊎◌, true, size_max, arith}
use verify_c_common.World.{Ptr, null, World, Ensures}
use verify_c_common.Alloc.{readable}
use verify_c_common.Structs.{sea_allocator, ByteBuf}
use verify_c_common.Buffers.{
  at_least_one, initialize_byte_buf, fuzz_initialize_byte_buf, initialize_byte_cursor,
  fuzz_initialize_byte_cursor, initialize_bounded_array_list, fuzz_initialize_bounded_array_list,
  array_list_is_bounded,
}

-- NULL, or `n` bytes of a live block.
abbrev pub NullOr : World → Ptr → ℕ → Type 0
NullOr u p n = (p ≡ null) ⊎ (readable u p n ≡ true)

abbrev pub BoundedBuf : ℕ → ByteBuf → World → Type 0
BoundedBuf max buf u =
    (buf.len ≤ buf.capacity)
    × (buf.capacity ≤ max)
    × (buf.allocator ≡ sea_allocator)
    × NullOr u buf.buffer buf.capacity

module _ (max : ℕ) (w : World) where
  -- In every run that is not cut short both variants of `initialize_byte_buf` give a buffer whose length is at most its capacity, whose
  -- capacity is at most the bound, and whose memory is NULL or has the capacity.
  pub initialize_byte_buf-BoundedBuf :
      (0 < max)
      → Ensures (BoundedBuf max) (initialize_byte_buf max w)
        × Ensures (BoundedBuf max) (fuzz_initialize_byte_buf max w)
  unfolding initialize_byte_buf fuzz_initialize_byte_buf
  initialize_byte_buf-BoundedBuf pos = (ground arith, ground arith)

  -- Both variants of `initialize_byte_cursor` give a cursor whose length is at most the bound, and
  -- whose memory is NULL or has that many bytes.
  pub initialize_byte_cursor-NullOr :
      (0 < max)
      → Ensures
          (λ cursor u. (cursor.len ≤ max) × NullOr u cursor.ptr max)
          (initialize_byte_cursor max w)
        × Ensures
            (λ cursor u. (cursor.len ≤ max) × NullOr u cursor.ptr max)
            (fuzz_initialize_byte_cursor max w)
  unfolding initialize_byte_cursor fuzz_initialize_byte_cursor
  initialize_byte_cursor-NullOr pos = (ground arith, ground arith)

-- In every run that is not cut short both variants of `initialize_bounded_array_list` give a list in the bounds whose memory is NULL or
-- has the size that the list says; the one for fuzzing moreover gives a list that is full, with
-- items of at least one byte, as long as the product of the bounds is a `size_t`.
pub initialize_bounded_array_list-NullOr :
    (max_len max_item_size : ℕ) (w : World)
    → 0 < max_len
    → 0 < max_item_size
    → max_len * max_item_size ≤ size_max
    → Ensures
        (λ list u.
          (array_list_is_bounded list max_len max_item_size ≡ true)
          × NullOr u list.data_ptr list.current_size)
        (initialize_bounded_array_list max_len max_item_size w)
      × Ensures
          (λ list u.
            (array_list_is_bounded list max_len max_item_size ≡ true)
            × NullOr u list.data_ptr list.current_size
            × (1 ≤ list.item_size)
            × (list.current_size ≡ list.item_size * list.length))
          (fuzz_initialize_bounded_array_list max_len max_item_size w)
unfolding initialize_bounded_array_list fuzz_initialize_bounded_array_list
initialize_bounded_array_list-NullOr max_len max_item_size w pos pos' fits = (
  ground arith,
  (let a = w.tape w.pos % 2 ^ 64 % max_item_size in
      let b = w.tape (w.pos + 1) % 2 ^ 64 % max_len in
      let a_lt : a < max_item_size = mod-lt (w.tape w.pos % 2 ^ 64) pos' in
      let b_lt : b < max_len = mod-lt (w.tape (w.pos + 1) % 2 ^ 64) pos in
      let i_le : at_least_one a ≤ max_item_size = ground arith in
      let b_le : b ≤ max_len = omega arith in
      let product : at_least_one a * b ≤ max_item_size * max_len = mul-le-mul i_le b_le in
      ground (arith, product)),
)
