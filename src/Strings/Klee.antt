-- ===== src/Strings/Klee.antt =====
-- The C strings of lib/klee_string_helper.c, and what they are.
use verify_c_common.Base.{ℕ, ◌-◌, ◌≡◌, ◌⊎◌, Bool, true, false, ltb, leb, ◌&&◌}
use verify_c_common.World.{
  Ptr, null, at, shift, World, ok, pruned, Cmd, and_then, nd_size_t, assume, store, pure, ◌>>=◌,
  ◌>>◌,
}
use verify_c_common.Alloc.{readable, memhavoc, sea_malloc_aligned_havoc}
use verify_c_common.Alloc.Klee.{klee_bounded_malloc_havoc, klee_can_fail_malloc_havoc, alloc_size}
use verify_c_common.Strings.{nonzero_loop, c_str_of}

-- The loop `for (j = 0; j < *len; j++)` is that of `sea_init_str` with as many rounds as there are bytes.
unfoldable pub klee_init_str : Ptr → (len : ℕ) → Cmd (Unit {0})
klee_init_str str len w = and_then (store (shift str len) 0 w) λ _. nonzero_loop len 0 str len

-- Where `safe` is set a run without memory is cut short, else NULL is returned and `*len` left alone.
abbrev klee_init : (safe : Bool) → (alloc_size len : ℕ) → Ptr → Cmd (Ptr × ℕ)
klee_init true alloc_size len null w = pruned
klee_init false alloc_size len null w = ok (null, len) w
klee_init safe alloc_size len (at b i) w =
    (do
      memhavoc (at b i) alloc_size
      klee_init_str (at b i) (alloc_size - 1)
      pure (at b i, alloc_size - 1))
      w

abbrev klee_alloc : (safe : Bool) → ℕ → Cmd Ptr
klee_alloc true = klee_bounded_malloc_havoc
klee_alloc false = klee_can_fail_malloc_havoc

unfoldable pub klee_c_str : (safe : Bool) → (max_size len : ℕ) → Cmd (Ptr × ℕ)
klee_c_str safe max_size len = do
  sz ← nd_size_t
  assume (ltb 0 sz && leb sz max_size)
  str ← klee_alloc safe sz
  klee_init safe sz len str

unfoldable pub klee_ensure_c_str_is_nd_allocated : (max_size len : ℕ) → Cmd (Ptr × ℕ)
klee_ensure_c_str_is_nd_allocated = klee_c_str false

unfoldable pub klee_ensure_c_str_is_nd_allocated_safe : (max_size len : ℕ) → Cmd (Ptr × ℕ)
klee_ensure_c_str_is_nd_allocated_safe = klee_c_str true

-- This one is as under SeaHorn, with the bound MAX_STRING_LEN.
unfoldable pub klee_ensure_c_str_is_nd_allocated_aligned :
    (max_string_len max_size len : ℕ) → Cmd (Ptr × ℕ)
unfolding c_str_of
klee_ensure_c_str_is_nd_allocated_aligned max_string_len =
    c_str_of max_string_len sea_malloc_aligned_havoc

abbrev Room : World → ℕ → Ptr → World → Type 0
Room w sz p u = (p ≡ null) ⊎ ((p ≡ at w.fresh 0) × (readable u (at w.fresh 0) sz ≡ true))
