-- ===== src/Utils.antt =====
-- seahorn/lib/utils.c: the assertions that compare memory at one non-deterministic byte.
pub mod Laws
use verify_c_common.Base.{
  ℕ, ◌-◌, ◌/◌, ◌^◌, Bool, true, false, Option, none, some, not, ◌&&◌, ◌||◌, ◌==◌, ltb, bool_eq,
  if◌then◌else◌, size_max,
}
use verify_c_common.World.{
  Ptr, null, at, ptr_eq, is_null, shift, World, ok, Cmd, pure, ◌>>=◌, ◌>>◌, assume, sassert, load,
  nd_size_t, nd_uint8_t, nd_uint64_t, nd_bool,
}
use verify_c_common.Structs.{ByteBuf, ByteCursor, ArrayList, StructPtr, same_struct, is_struct}

-- include/proof_allocators.h: `SIZE_MAX >> (OBJECT_BITS + 1)`, with OBJECT_BITS 8.
abbrev pub max_malloc : ℕ
max_malloc = size_max / 2 ^ 9

pub record StoredByte : Type 0 where
  pub index : ℕ
  pub byte : ℕ

unfoldable pub assert_bytes_match : (a b : Ptr) → (len : ℕ) → Cmd (Unit {0})
unfolding load
assert_bytes_match a b len = do
  sassert (len == 0 || bool_eq (is_null a) (is_null b))
  if ltb 0 len && not (is_null a) && not (is_null b)
      then (do
        i ← nd_size_t
        assume (ltb i len && ltb len max_malloc)
        x ← load (shift a i)
        y ← load (shift b i)
        sassert (x == y))
      else pure tt

unfoldable pub assert_all_bytes_are : (a : Ptr) → (c len : ℕ) → Cmd (Unit {0})
unfolding load
assert_all_bytes_are a c len =
    if ltb 0 len && not (is_null a)
    then (do i ← nd_size_t; assume (ltb i len); x ← load (shift a i); sassert (x == c))
    else pure tt

unfoldable pub assert_all_zeroes : (a : Ptr) → (len : ℕ) → Cmd (Unit {0})
unfolding assert_all_bytes_are
assert_all_zeroes a len = assert_all_bytes_are a 0 len

unfoldable pub assert_byte_from_buffer_matches : (buffer : Ptr) → Option StoredByte → Cmd (Unit {0})
unfolding load
assert_byte_from_buffer_matches buffer none = pure tt
assert_byte_from_buffer_matches buffer (some b) =
    if is_null buffer then pure tt else (do x ← load (shift buffer b.index); sassert (x == b.byte))

-- What is stored at `storage`, which is never NULL: it is written before it is tested.
unfoldable pub save_byte_from_array : (array : Ptr) → (size : ℕ) → Cmd StoredByte
unfolding load
save_byte_from_array array size = do
  index ← nd_size_t
  if ltb 0 size && not (is_null array)
      then (do
        assume (ltb index size)
        byte ← load (shift array index)
        pure (record { index = index; byte = byte }))
      else (do byte ← nd_uint8_t; pure (record { index = index; byte = byte }))

-- The comparisons of two structures that are there.
unfoldable pub array_list_fields : ArrayList → ArrayList → Option StoredByte → Cmd (Unit {0})
unfolding assert_byte_from_buffer_matches
array_list_fields lhs rhs rhs_byte = do
  sassert (lhs.alloc == rhs.alloc)
  sassert (lhs.current_size == rhs.current_size)
  sassert (lhs.length == rhs.length)
  sassert (lhs.item_size == rhs.item_size)
  if ltb 0 lhs.current_size then assert_byte_from_buffer_matches lhs.data_ptr rhs_byte else pure tt

unfoldable pub byte_buf_fields : ByteBuf → ByteBuf → Option StoredByte → Cmd (Unit {0})
unfolding assert_byte_from_buffer_matches
byte_buf_fields lhs rhs rhs_byte = do
  sassert (lhs.len == rhs.len)
  sassert (lhs.capacity == rhs.capacity)
  sassert (lhs.allocator == rhs.allocator)
  if ltb 0 lhs.len then assert_byte_from_buffer_matches lhs.buffer rhs_byte else pure tt

unfoldable pub byte_cursor_fields : ByteCursor → ByteCursor → Option StoredByte → Cmd (Unit {0})
unfolding assert_byte_from_buffer_matches
byte_cursor_fields lhs rhs rhs_byte = do
  sassert (lhs.len == rhs.len)
  if ltb 0 lhs.len then assert_byte_from_buffer_matches lhs.ptr rhs_byte else pure tt

-- `if (lhs == rhs) return; else sassert(lhs && rhs);`, and then `fields`.
abbrev pub equivalence :
    {A : Type 0}
    → (A → A → Option StoredByte → Cmd (Unit {0}))
    → StructPtr A
    → StructPtr A
    → Option StoredByte
    → Cmd (Unit {0})
equivalence fields none none b w = ok tt w
equivalence fields none (some r) b w = sassert false w
equivalence fields (some l) none b w = sassert false w
equivalence fields (some l) (some r) b w = if l.0 == r.0 then ok tt w else fields l.1 r.1 b w

unfoldable pub assert_array_list_equivalence :
    StructPtr ArrayList → StructPtr ArrayList → Option StoredByte → Cmd (Unit {0})
unfolding array_list_fields
assert_array_list_equivalence = equivalence array_list_fields

unfoldable pub assert_byte_buf_equivalence :
    StructPtr ByteBuf → StructPtr ByteBuf → Option StoredByte → Cmd (Unit {0})
unfolding byte_buf_fields
assert_byte_buf_equivalence = equivalence byte_buf_fields

-- `sassert(!lhs == !rhs)`, and the fields if both are there.
unfoldable pub assert_byte_cursor_equivalence :
    StructPtr ByteCursor → StructPtr ByteCursor → Option StoredByte → Cmd (Unit {0})
unfolding byte_cursor_fields
assert_byte_cursor_equivalence none none b = sassert true
assert_byte_cursor_equivalence none (some r) b = sassert false
assert_byte_cursor_equivalence (some l) none b = sassert false
assert_byte_cursor_equivalence (some l) (some r) b = byte_cursor_fields l.1 r.1 b

unfoldable pub nondet_equals : (a b : Ptr) → Cmd Bool
nondet_equals a b = do
  sassert (not (is_null a))
  sassert (not (is_null b))
  if ptr_eq a b then pure true else nd_bool

unfoldable pub uninterpreted_hasher : (a : Ptr) → Cmd ℕ
uninterpreted_hasher a = nd_uint64_t
