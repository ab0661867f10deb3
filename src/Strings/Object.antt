-- ===== src/Strings/Object.antt =====
-- `ensure_string_is_allocated` of lib/string_helper.c, klee_string_helper.c and fuzz_string_helper.c:
-- a `struct aws_string` whose bytes end with a zero.
use verify_c_common.Base.{
  ℕ, ◌+◌, ◌≤◌, ◌≡◌, ◌⊎◌, inl, true, Option, none, some, ltb, if◌then◌else◌, add_size, sub_size,
  size_max, refl, arith,
}
use verify_c_common.World.{
  Ptr, null, at, is_null, shift, World, ok, Cmd, nd_bool, nd_size_t, assume, store, pure, ◌>>=◌,
  ◌>>◌, Ensures,
}
use verify_c_common.World.Rules.{Ensures-bind}
use verify_c_common.Alloc.{malloc, memhavoc, sea_malloc_havoc_safe, readable, window}
use verify_c_common.Alloc.Klee.{klee_bounded_malloc_havoc, alloc_size}
use verify_c_common.Structs.{sea_allocator}
use verify_c_common.Buffers.{remainder}

-- The fields, and where the bytes of the flexible array begin.
pub record AwsString : Type 0 where
  pub allocator : ℕ
  pub len : ℕ
  pub bytes : Ptr

-- `sizeof(struct aws_string)` and the offset of its `bytes`.
module _ (struct_size bytes_offset : ℕ) where
  -- The bytes are in the memory, the other fields in the record.
  unfoldable pub set_fields : (len : ℕ) → Ptr → Cmd (Option AwsString)
  set_fields len null w = ok none w
  set_fields len (at b i) w =
      (do
        has_allocator ← nd_bool
        store (shift (at b i) (bytes_offset + len)) 0
        pure (
            some (record {
              allocator = if has_allocator then sea_allocator else 0;
              len = len;
              bytes = shift (at b i) bytes_offset;
            })))
        w

  abbrev pub string_size : (len : ℕ) → ℕ
  string_size len = add_size (add_size struct_size len) 1

  unfoldable pub ensure_string_is_allocated : (len : ℕ) → Cmd (Option AwsString)
  ensure_string_is_allocated len = do
    str ← sea_malloc_havoc_safe (string_size len)
    set_fields len str

  abbrev havoc_unless_null : Ptr → ℕ → Cmd (Unit {0})
  havoc_unless_null p size w = if is_null p then ok tt w else memhavoc p size w

  unfoldable pub klee_ensure_string_is_allocated : (len : ℕ) → Cmd (Option AwsString)
  klee_ensure_string_is_allocated len = do
    str ← klee_bounded_malloc_havoc (string_size len)
    havoc_unless_null str (string_size len)
    set_fields len str

  -- `memhavoc` leaves NULL alone.
  unfoldable pub fuzz_ensure_string_is_allocated : (len : ℕ) → Cmd (Option AwsString)
  fuzz_ensure_string_is_allocated len = do
    str ← malloc (string_size len)
    memhavoc str (add_size struct_size len)
    set_fields len str

  -- With one of the three functions above.
  module _ (allocate : (len : ℕ) → Cmd (Option AwsString)) where
    unfoldable pub bounded_length : (max_size : ℕ) → Cmd (Option AwsString)
    bounded_length max_size = do len ← nd_size_t; assume (ltb len max_size); allocate len

    unfoldable pub fuzz_bounded_length : (max_size : ℕ) → Cmd (Option AwsString)
    fuzz_bounded_length max_size = do
      any_len ← nd_size_t
      len ← remainder any_len max_size
      allocate len

    -- The bound is SIZE_MAX under SeaHorn, KLEE_MAX_STRING_SIZE or FUZZ_MAX_STRING_LEN else.
    unfoldable pub nondet_length : (limit : ℕ) → Cmd (Option AwsString)
    unfolding bounded_length
    nondet_length limit = bounded_length (sub_size (sub_size limit 1) struct_size)

-- No string, or one of `len` bytes that can be read and the zero behind them.
abbrev pub NullOrAwsString : (len : ℕ) → Option AwsString → World → Type 0
NullOrAwsString len none u = Unit
NullOrAwsString len (some s) u =
    (s.len ≡ len)
    × ((s.allocator ≡ 0) ⊎ (s.allocator ≡ sea_allocator))
    × (readable u s.bytes (len + 1) ≡ true)
    × (window u s.bytes len ≡ 0)

module _ (struct_size bytes_offset len : ℕ) (inside : bytes_offset ≤ struct_size)
    (fits : struct_size + len + 1 ≤ size_max) where
  set_fields-NullOrAwsString :
      (p : Ptr) (w : World)
      → (p ≡ null) ⊎ (readable w p (struct_size + len + 1) ≡ true)
      → Ensures (NullOrAwsString len) (set_fields struct_size bytes_offset len p w)
  unfolding set_fields store
  set_fields-NullOrAwsString null w r = tt
  set_fields-NullOrAwsString (at b i) w r = ground arith

  size_lem : string_size struct_size bytes_offset len ≡ struct_size + len + 1
  size_lem = omega arith

  abbrev Memory : (size : ℕ) → Ptr → World → Type 0
  Memory size p w = (p ≡ null) ⊎ (readable w p size ≡ true)

  havoc_safe-Memory : (size : ℕ) (w : World) → Ensures (Memory size) (sea_malloc_havoc_safe size w)
  unfolding sea_malloc_havoc_safe
  havoc_safe-Memory size w = ground arith

  klee-Memory : (size : ℕ) (w : World) → Ensures (Memory size) (klee_bounded_malloc_havoc size w)
  unfolding klee_bounded_malloc_havoc alloc_size
  klee-Memory size w = ground arith

  malloc-Memory : (size : ℕ) (w : World) → Ensures (Memory size) (malloc size w)
  unfolding malloc
  malloc-Memory size w = ground arith

  memhavoc-Memory :
      (size n : ℕ) (p : Ptr) (w : World)
      → n ≤ size
      → Memory size p w
      → Ensures (λ _ u. Memory size p u) (memhavoc p n w)
  unfolding memhavoc
  memhavoc-Memory size n null w le m = inl refl
  memhavoc-Memory size n (at b i) w le m = ground arith

  havoc_unless_null-Memory :
      (size : ℕ) (p : Ptr) (w : World)
      → Memory size p w
      → Ensures (λ _ u. Memory size p u) (havoc_unless_null struct_size bytes_offset p size w)
  havoc_unless_null-Memory size null w m = m
  havoc_unless_null-Memory size (at b i) w m = memhavoc-Memory size size (at b i) w (omega arith) m

  -- Each of the three variants of `ensure_string_is_allocated` gives NULL or a string of the length
  -- that is asked for, whose bytes can be read and end with a zero, and whose allocator is NULL or that
  -- of the unit proofs; no access is out of bounds, as long as the size of the structure with its bytes
  -- is a `size_t`.
  pub ensure_string_is_allocated-NullOrAwsString :
      (w : World)
      → Ensures (NullOrAwsString len) (ensure_string_is_allocated struct_size bytes_offset len w)
        × Ensures
            (NullOrAwsString len)
            (klee_ensure_string_is_allocated struct_size bytes_offset len w)
        × Ensures
            (NullOrAwsString len)
            (fuzz_ensure_string_is_allocated struct_size bytes_offset len w)
  unfolding ensure_string_is_allocated klee_ensure_string_is_allocated
      fuzz_ensure_string_is_allocated
  ensure_string_is_allocated-NullOrAwsString w =
      let size = struct_size + len + 1 in
      let e = size_lem in
      let e' : add_size struct_size len ≡ struct_size + len = omega arith in
      let set = set_fields struct_size bytes_offset len in
      (
        rw (e) (
            Ensures-bind _ _ (sea_malloc_havoc_safe size w) set (havoc_safe-Memory size w)
              set_fields-NullOrAwsString),
        rw (e) (
            Ensures-bind _ _ (klee_bounded_malloc_havoc size w) _ (klee-Memory size w) λ p u m.
              Ensures-bind _ _ (havoc_unless_null struct_size bytes_offset p size u) _
                (havoc_unless_null-Memory size p u m) λ _ v m'. set_fields-NullOrAwsString p v m'),
        rw (e, e')
            (Ensures-bind _ _ (malloc size w) _ (malloc-Memory size w) λ p u m.
              Ensures-bind _ _ (memhavoc p (struct_size + len) u) _
                (memhavoc-Memory size (struct_size + len) p u (omega arith) m)
                λ _ v m'. set_fields-NullOrAwsString p v m'),
      )

-- No string, or one of its own length.
abbrev pub OfItsLength : Option AwsString → World → Type 0
OfItsLength none u = Unit
OfItsLength (some s) u = NullOrAwsString s.len (some s) u
