-- ===== src/Alloc/Laws.antt =====
-- What the allocators of seahorn/lib/sea_allocators.c and proof_allocators.c return.
use mathlib.Core.Option
use verify_c_common.Base.{
  ℕ, suc, ◌+◌, ◌-◌, ◌%◌, ◌^◌, ◌≤◌, ◌<◌, ◌≡◌, ◌≢◌, ◌⊎◌, true, false, Option, none, some, arith,
}
use verify_c_common.Base.Bits.{bit_and-not_seven}
use verify_c_common.World.{Ptr, null, at, Block, World, ok, fault, Ensures, Returns}
use verify_c_common.Alloc.{
  sea_malloc_aligned_havoc, sea_realloc, align_round_up, window, readable, bounded_malloc_havoc,
  can_fail_malloc_havoc, s_realloc_allocator,
}

-- All blocks but `b` are in `u` as they were in `w`.
abbrev pub SameBut : ℕ → World → World → Type 0
SameBut b w u = (c : ℕ) → c ≢ b → u.blocks c ≡ w.blocks c

abbrev pub size_of : World → ℕ → Option ℕ
size_of w b = Option.map (λ (k : Block). k.size) (w.blocks b)

-- `p` is a new block of `sz` bytes, and nothing else has changed on the heap.
pub record Allocated (w : World) (sz : ℕ) (p : Ptr) (u : World) : Type 0 where
  pub address : p ≡ at w.fresh 0
  pub size : size_of u w.fresh ≡ some sz
  pub others : SameBut w.fresh w u
  pub grown : u.fresh ≡ suc w.fresh

-- Its bytes are those that the tape holds from `from` on.
abbrev pub Havoc : World → ℕ → ℕ → Ptr → World → Type 0
Havoc w from sz p u = (j : ℕ) → j < sz → window u p j ≡ w.tape (from + j) % 2 ^ 8

abbrev pub Unchanged : World → Ptr → World → Type 0
Unchanged w p u = (p ≡ null) × ((c : ℕ) → u.blocks c ≡ w.blocks c)

-- AWS_ALIGN_ROUND_UP rounds up to the next multiple of 8, as long as that is a `size_t`, and to 0
-- beyond that.
pub align_round_up_bounds :
    (v : ℕ)
    → v < 2 ^ 64
    → (v ≤ 2 ^ 64 - 8
        → (v ≤ align_round_up v) × (align_round_up v < v + 8) × (align_round_up v % 8 ≡ 0))
      × (2 ^ 64 - 8 < v → align_round_up v ≡ 0)
unfolding align_round_up
align_round_up_bounds v h = rw (bit_and-not_seven ((v + 7) % 2 ^ 64) (omega arith)) (omega arith)

module _ (w : World) (sz : ℕ) where
  -- `bounded_malloc_havoc` of a size that is not 0 returns a new block of just that size, whose
  -- bytes are the next ones of the tape, and never NULL; it does return where `malloc` succeeds and
  -- is let succeed. Size 0 gives NULL and changes nothing.
  pub bounded_malloc_havoc-Allocated :
      (sz ≢ 0
        → Ensures
            (λ p u. Allocated w sz p u × Havoc w (w.pos + 1) sz p u)
            (bounded_malloc_havoc sz w)
          × (w.tape w.pos ≡ 0
              → w.oom w.fresh ≡ false
              → Returns (λ p u. Allocated w sz p u) (bounded_malloc_havoc sz w)))
      × (sz ≡ 0 → bounded_malloc_havoc sz w ≡ ok null w)
  unfolding bounded_malloc_havoc
  bounded_malloc_havoc-Allocated = ground arith

  -- `can_fail_malloc_havoc` never cuts a run short and never faults: it returns a new block of just
  -- the size that is asked for, with the next bytes of the tape, or NULL with the heap unchanged;
  -- NULL exactly if the size is 0, `nd_malloc_is_fail` says so, or `malloc` fails.
  pub can_fail_malloc_havoc-Allocated :
      Returns
        (λ p u.
          (sz ≢ 0
            → w.tape w.pos ≡ 0
            → w.oom w.fresh ≡ false
            → Allocated w sz p u × Havoc w (w.pos + 1) sz p u)
          × ((sz ≡ 0) ⊎ (w.tape w.pos ≢ 0) ⊎ (w.oom w.fresh ≡ true) → Unchanged w p u))
        (can_fail_malloc_havoc sz w)
  unfolding can_fail_malloc_havoc
  can_fail_malloc_havoc-Allocated = ground arith

  -- `sea_malloc_aligned_havoc` returns NULL with the heap unchanged, or a new block whose size is
  -- the next multiple of 8, and whose first `sz` bytes are those of the tape.
  pub sea_malloc_aligned_havoc-Allocated :
      sz ≤ 2 ^ 64 - 8
      → Returns
          (λ p u.
            (Allocated w (align_round_up sz) p u × Havoc w (w.pos + 1) sz p u) ⊎ Unchanged w p u)
          (sea_malloc_aligned_havoc sz w)
  unfolding sea_malloc_aligned_havoc
  sea_malloc_aligned_havoc-Allocated h = ground (arith, align_round_up_bounds sz (omega arith))

  -- Near SIZE_MAX the rounded size is 0, and filling the block runs out of its bounds.
  pub sea_malloc_aligned_havoc-fault :
      2 ^ 64 - 8 < sz
      → sz < 2 ^ 64
      → w.tape w.pos ≡ 0
      → w.oom w.fresh ≡ false
      → sea_malloc_aligned_havoc sz w ≡ fault
  unfolding sea_malloc_aligned_havoc
  sea_malloc_aligned_havoc-fault g l t o = ground (arith, align_round_up_bounds sz l)

-- `p` is the start of a live block of at least `n` bytes, older than the next allocation.
pub record Owned (w : World) (b n : ℕ) : Type 0 where
  pub holds : readable w (at b 0) n ≡ true
  pub old : b < w.fresh

module _ (w : World) (b n newsize : ℕ) (own : Owned w b n) where
  -- `sea_realloc`, which stands in for `realloc`, frees the old block in every run, also where it
  -- returns NULL; what it returns otherwise is a new block of the new size.
  pub sea_realloc-free :
      Returns
        (λ q u.
          (u.blocks b ≡ none)
          × ((q ≡ null) ⊎ ((q ≡ at w.fresh 0) × (size_of u w.fresh ≡ some newsize))))
        (sea_realloc (at b 0) newsize w)
  unfolding sea_realloc
  sea_realloc-free = ground (arith, own.old, own.holds)

  -- `s_realloc_allocator` where allocation cannot fail: a smaller size changes nothing; a larger
  -- one moves the `oldsize` bytes to a new block of the new size and frees the old block.
  pub s_realloc_allocator-copy :
      newsize ≢ 0
      → Ensures
          (λ q u.
            (newsize ≤ n → (q ≡ at b 0) × (u ≡ w))
            × (n < newsize
                → (q ≡ at w.fresh 0)
                  × (size_of u w.fresh ≡ some newsize)
                  × (u.blocks b ≡ none)
                  × ((j : ℕ) → j < n → window u q j ≡ window w (at b 0) j)))
          (s_realloc_allocator false (at b 0) n newsize w)
  unfolding s_realloc_allocator
  s_realloc_allocator-copy h = ground (arith, own.old, own.holds)

  -- `s_realloc_allocator` where allocation can fail: a larger size is a write through NULL when it
  -- does.
  pub s_realloc_allocator-fault :
      n ≢ 0 → n < newsize → w.tape w.pos ≢ 0 → s_realloc_allocator true (at b 0) n newsize w ≡ fault
  unfolding s_realloc_allocator
  s_realloc_allocator-fault z l t = ground (arith, own.old, own.holds)
