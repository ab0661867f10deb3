-- ===== src/Strings.antt =====
-- C strings: lib/sea_string.cc and the functions of lib/string_helper.c that allocate a C string.
pub mod Length
pub mod Fresh
pub mod Klee
pub mod Fuzz
pub mod Object
use verify_c_common.Base.{
  ℕ, zero, suc, ◌+◌, ◌-◌, Bool, true, false, ltb, leb, ◌==◌, not, if◌then◌else◌,
}
use verify_c_common.World.{
  Ptr, null, is_null, shift, World, Outcome, ok, Cmd, and_then, load, store, nd_size_t, assume,
  pure, ◌>>=◌, ◌>>◌,
}
use verify_c_common.Alloc.{sea_malloc_havoc, sea_malloc_havoc_safe, sea_malloc_aligned_havoc}

-- `Loop<i, N>::call`, with `k` steps left to N.
unfoldable pub end_loop : (k i : ℕ) → Ptr → Cmd ℕ
end_loop zero i str w = ok i w
end_loop (suc k) i str w =
    and_then (load (shift str i) w)
      λ c u. elim (c == 0) [ true ↦ ok i u | false ↦ end_loop k (i + 1) str u ]

-- The loop of `sea_init_str`, with `k` rounds left.
unfoldable pub nonzero_loop : (k j : ℕ) → Ptr → (str_len : ℕ) → Cmd (Unit {0})
nonzero_loop zero j str str_len w = ok tt w
nonzero_loop (suc k) j str str_len w = elim (ltb j str_len) [
  | true ↦
      and_then (load (shift str j) w)
        λ c u. and_then (assume (not (c == 0)) u) λ _. nonzero_loop k (j + 1) str str_len
  | false ↦ nonzero_loop k (j + 1) str str_len w
]

-- `max_string_len` is MAX_STRING_LEN, which `sea_max_string_len` returns too.
module _ (max_string_len : ℕ) where
  unfoldable pub sea_strlen : Ptr → (max_size : ℕ) → Cmd ℕ
  sea_strlen str max_size w =
      and_then (end_loop max_string_len 0 str w)
        λ size u. ok (if leb size max_size then size else 0) u

  unfoldable pub sea_init_str : Ptr → (str_len : ℕ) → Cmd (Unit {0})
  sea_init_str str str_len w =
      and_then (store (shift str str_len) 0 w) λ _. nonzero_loop max_string_len 0 str str_len

  -- The string, and what `*len` is afterwards: it is left alone where the result is NULL.
  abbrev pub init_unless_null : (alloc_size len : ℕ) → Ptr → Cmd (Ptr × ℕ)
  init_unless_null alloc_size len str w = elim (is_null str) [
    | true ↦ ok (null, len) w
    | false ↦ and_then (sea_init_str str (alloc_size - 1) w) λ _. pure (str, alloc_size - 1)
  ]

  abbrev pub assume_size : (max_size alloc_size : ℕ) → Cmd (Unit {0})
  assume_size max_size alloc_size = do
    assume (ltb 0 alloc_size)
    assume (leb alloc_size max_size)
    assume (leb max_size max_string_len)

  unfoldable pub c_str_of : (alloc : ℕ → Cmd Ptr) → (max_size len : ℕ) → Cmd (Ptr × ℕ)
  c_str_of alloc max_size len = do
    alloc_size ← nd_size_t
    assume_size max_size alloc_size
    str ← alloc alloc_size
    init_unless_null alloc_size len str

  unfoldable pub ensure_c_str_is_nd_allocated : (max_size len : ℕ) → Cmd (Ptr × ℕ)
  unfolding c_str_of
  ensure_c_str_is_nd_allocated = c_str_of sea_malloc_havoc

  unfoldable pub ensure_c_str_is_nd_allocated_safe : (max_size len : ℕ) → Cmd (Ptr × ℕ)
  unfolding c_str_of
  ensure_c_str_is_nd_allocated_safe = c_str_of sea_malloc_havoc_safe

  unfoldable pub ensure_c_str_is_nd_allocated_aligned : (max_size len : ℕ) → Cmd (Ptr × ℕ)
  unfolding c_str_of
  ensure_c_str_is_nd_allocated_aligned = c_str_of sea_malloc_aligned_havoc
