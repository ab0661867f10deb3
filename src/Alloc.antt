-- ===== src/Alloc.antt =====
-- lib/sea_allocators.c and lib/proof_allocators.c under seahorn: the allocators of the unit proofs.
-- `malloc`, `free`, `memcpy` and `memset` are the standard library's, on a heap of blocks;
-- `memhavoc` is as in lib/nd_fuzz.c, with a byte of the tape for each byte of the range.
pub mod Klee
pub mod Laws
pub mod Override
use Prim.Native.Nat.{bit_and}
use verify_c_common.Base.{
  ℕ, suc, ◌+◌, ◌-◌, ◌%◌, ◌^◌, Bool, true, false, Option, none, some, not, ◌&&◌, ◌==◌, ltb, leb,
  if◌then◌else◌, add_size, size_max,
}
use verify_c_common.World.{
  Ptr, null, at, is_null, Block, World, ok, Cmd, pure, ◌>>=◌, ◌>>◌, assume, sassert, crash, nd_bool,
  update,
}

abbrev pub block : ℕ → (ℕ → ℕ) → Block
block n f = record { size = n; bytes = f }

-- A fresh block of `sz` bytes whose contents are not determined, or NULL.
unfoldable pub malloc : ℕ → Cmd Ptr
malloc sz w =
    if w.oom w.fresh
    then ok null (record w { fresh = suc w.fresh })
    else ok (at w.fresh 0) (record w {
      fresh = suc w.fresh;
      blocks = update w.blocks w.fresh (some (block sz (w.junk w.fresh)));
    })

abbrev pub free_block : Option Block → ℕ → Cmd (Unit {0})
free_block none b w = crash w
free_block (some k) b w = ok tt (record w { blocks = update w.blocks b none })

-- Freeing NULL does nothing; freeing anything but the start of a live block is a fault.
unfoldable pub free : Ptr → Cmd (Unit {0})
free null w = ok tt w
free (at b i) w = if i == 0 then free_block (w.blocks b) b w else crash w

-- The bytes `f 0 … f (n - 1)` laid over the offsets from `i` on.
abbrev pub overlay : (ℕ → ℕ) → ℕ → ℕ → (ℕ → ℕ) → ℕ → ℕ
overlay old i n f j = if leb i j && ltb j (i + n) then f (j - i) else old j

abbrev pub fill_block : Option Block → ℕ → ℕ → ℕ → (ℕ → ℕ) → Cmd (Unit {0})
fill_block none b i n f w = crash w
fill_block (some k) b i n f w =
    if leb (i + n) k.size
    then ok tt
        (record w { blocks = update w.blocks b (some (block k.size (overlay k.bytes i n f))) })
    else crash w

-- Writes `n` bytes from `p` on. Of NULL only an empty range can be written.
unfoldable pub fill : Ptr → ℕ → (ℕ → ℕ) → Cmd (Unit {0})
fill null n f w = if n == 0 then ok tt w else crash w
fill (at b i) n f w = fill_block (w.blocks b) b i n f w

-- What `n` bytes from `p` on are.
abbrev pub window_of : Option Block → ℕ → ℕ → ℕ
window_of none i j = 0
window_of (some k) i j = k.bytes (i + j)

abbrev pub window : World → Ptr → ℕ → ℕ
window w null j = 0
window w (at b i) j = window_of (w.blocks b) i j

abbrev pub readable_block : Option Block → ℕ → Bool
readable_block none n = false
readable_block (some k) n = leb n k.size

abbrev pub readable : World → Ptr → ℕ → Bool
readable w null n = n == 0
readable w (at b i) n = readable_block (w.blocks b) (i + n)

unfoldable pub memcpy : (dst src : Ptr) → (len : ℕ) → Cmd (Unit {0})
unfolding fill
memcpy dst src len w = if readable w src len then fill dst len (window w src) w else crash w

unfoldable pub memset : Ptr → (c len : ℕ) → Cmd (Unit {0})
unfolding fill
memset dst c len = fill dst len (λ _. c % 2 ^ 8)

-- `memhavoc(NULL, n)` does nothing.
unfoldable pub memhavoc : Ptr → ℕ → Cmd (Unit {0})
unfolding fill
memhavoc null n w = ok tt w
memhavoc (at b i) n w =
    fill (at b i) n (λ j. w.tape (w.pos + j) % 2 ^ 8) (record w { pos = w.pos + n })

unfoldable pub sea_malloc : ℕ → Cmd Ptr
unfolding malloc
sea_malloc sz = do fails ← nd_bool; if fails then pure null else malloc sz

-- AWS_ALIGN_ROUND_UP(value, 8): `((value) + 7) & ~7` in `size_t`.
unfoldable pub align_round_up : ℕ → ℕ
align_round_up value = bit_and (add_size value 7) (size_max - 7)

unfoldable pub sea_malloc_aligned : ℕ → Cmd Ptr
unfolding align_round_up sea_malloc
sea_malloc_aligned sz = sea_malloc (align_round_up sz)

unfoldable pub sea_malloc_havoc : ℕ → Cmd Ptr
unfolding sea_malloc memhavoc
sea_malloc_havoc sz = do p ← sea_malloc sz; memhavoc p sz; pure p

unfoldable pub sea_malloc_safe : ℕ → Cmd Ptr
unfolding malloc
sea_malloc_safe sz = do p ← malloc sz; assume (not (is_null p)); pure p

unfoldable pub sea_malloc_havoc_safe : ℕ → Cmd Ptr
unfolding sea_malloc_havoc
sea_malloc_havoc_safe sz = do p ← sea_malloc_havoc sz; assume (not (is_null p)); pure p

unfoldable pub sea_malloc_aligned_safe : ℕ → Cmd Ptr
unfolding sea_malloc_aligned
sea_malloc_aligned_safe sz = do p ← sea_malloc_aligned sz; assume (not (is_null p)); pure p

unfoldable pub sea_malloc_aligned_havoc : ℕ → Cmd Ptr
unfolding sea_malloc_aligned memhavoc
sea_malloc_aligned_havoc sz = do p ← sea_malloc_aligned sz; memhavoc p sz; pure p

unfoldable pub sea_free : Ptr → Cmd (Unit {0})
unfolding free
sea_free p = free p

unfoldable pub sea_realloc : Ptr → ℕ → Cmd Ptr
unfolding sea_free sea_malloc
sea_realloc p sz = do if is_null p then pure tt else sea_free p; sea_malloc sz

unfoldable pub bounded_malloc_havoc : ℕ → Cmd Ptr
unfolding sea_malloc_havoc_safe
bounded_malloc_havoc size = if size == 0 then pure null else sea_malloc_havoc_safe size

unfoldable pub can_fail_malloc_havoc : ℕ → Cmd Ptr
unfolding sea_malloc_havoc
can_fail_malloc_havoc size = if size == 0 then pure null else sea_malloc_havoc size

-- `can_fail` is whether SEA_ALLOCATOR_CAN_FAIL is defined.
unfoldable pub s_malloc_allocator : (can_fail : Bool) → ℕ → Cmd Ptr
unfolding can_fail_malloc_havoc bounded_malloc_havoc
s_malloc_allocator true size = can_fail_malloc_havoc size
s_malloc_allocator false size = bounded_malloc_havoc size

unfoldable pub s_free_allocator : Ptr → Cmd (Unit {0})
unfolding free
s_free_allocator p = free p

-- AWS_FATAL_PRECONDITION is `sassert`.
unfoldable pub s_realloc_allocator : (can_fail : Bool) → Ptr → (oldsize newsize : ℕ) → Cmd Ptr
unfolding s_malloc_allocator s_free_allocator memcpy
s_realloc_allocator can_fail p oldsize newsize = do
  sassert (not (newsize == 0))
  if leb newsize oldsize then pure p else (do
    new_mem ← s_malloc_allocator can_fail newsize
    if is_null p then pure tt else (do memcpy new_mem p oldsize; s_free_allocator p)
    pure new_mem)
