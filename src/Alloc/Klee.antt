-- ===== src/Alloc/Klee.antt =====
-- The allocators of seahorn/lib/klee_allocators.c (without Symbiotic) and smack_allocators.c, and the
-- sizes that seahorn/lib/klee_switch.c makes concrete.
use verify_c_common.Base.{ℕ, ◌≡◌, ◌≢◌, ◌⊎◌, Bool, true, leb, ◌==◌, ◌&&◌, if◌then◌else◌, arith}
use verify_c_common.World.{Ptr, null, is_null, World, Cmd, ok, nd_bool, pure, ◌>>=◌, ◌>>◌, Returns}
use verify_c_common.Alloc.{malloc, memhavoc, readable}

-- The cases of the switch are the sizes from 1 to 4096, each for itself.
unfoldable pub alloc_size : ℕ → ℕ
alloc_size sz = if leb 1 sz && leb sz 4096 then sz else if leb sz 4096 then 4096 else sz

abbrev havoc_unless_null : Ptr → ℕ → Cmd Ptr
havoc_unless_null p size w = if is_null p then ok p w else (do memhavoc p size; pure p) w

unfoldable pub klee_bounded_malloc_havoc : ℕ → Cmd Ptr
unfolding malloc memhavoc
klee_bounded_malloc_havoc size w =
    if size == 0 then ok null w else (do p ← malloc (alloc_size size); havoc_unless_null p size) w

abbrev null_or : ℕ → Bool → Cmd Ptr
null_or size b w = if b then ok null w else klee_bounded_malloc_havoc size w

unfoldable pub klee_can_fail_malloc_havoc : ℕ → Cmd Ptr
unfolding klee_bounded_malloc_havoc
klee_can_fail_malloc_havoc size = nd_bool >>= null_or size

-- `memhavoc` gets the pointer even if `malloc` has failed.
unfoldable pub smack_bounded_malloc_havoc : ℕ → Cmd Ptr
unfolding malloc memhavoc
smack_bounded_malloc_havoc size = do p ← malloc size; memhavoc p size; pure p

unfoldable pub smack_can_fail_malloc_havoc : ℕ → Cmd Ptr
unfolding malloc memhavoc
smack_can_fail_malloc_havoc size w =
    if size == 0 then ok null w else (do p ← malloc size; memhavoc p size; pure p) w

-- Every size but 0 is kept; for 0 the switch gives 4096.
pub alloc_size_lem : (sz : ℕ) → (sz ≢ 0 → alloc_size sz ≡ sz) × (alloc_size 0 ≡ 4096)
unfolding alloc_size
alloc_size_lem sz = (ground arith, ground arith)

-- Under KLEE neither allocator cuts a run short or faults: each gives NULL, or memory of just the size
-- that is asked for.
pub klee_malloc_havoc-readable :
    (size : ℕ) (w : World)
    → Returns
        (λ p u. (p ≡ null) ⊎ ((size ≢ 0) × (readable u p size ≡ true)))
        (klee_bounded_malloc_havoc size w)
      × Returns
          (λ p u. (p ≡ null) ⊎ ((size ≢ 0) × (readable u p size ≡ true)))
          (klee_can_fail_malloc_havoc size w)
unfolding klee_bounded_malloc_havoc klee_can_fail_malloc_havoc alloc_size
klee_malloc_havoc-readable size w = (ground arith, ground arith)
