-- ===== src/Alloc/Override/Laws.antt =====
-- What the replaced allocation functions of seahorn/lib/allocator_override.c do.
use native.Mathlib.Decide.{dec_lt}
use verify_c_common.Base.{
  ℕ, ◌≤◌, ◌<◌, ◌≡◌, ◌≢◌, ◌⊎◌, Option, none, some, leb, ◌==◌, false, inl, inr, arith,
}
use verify_c_common.World.{Ptr, null, at, World, failed, Returns}
use verify_c_common.World.Rules.{Returns-bind}
use verify_c_common.Alloc.{window}
use verify_c_common.Alloc.Laws.{Owned, SameBut, size_of}
use verify_c_common.Alloc.Override.{Status, op_success, op_err, mem_acquire, move_to, mem_realloc}

-- A failed allocation: NULL, the heap as it was, and the error is set.
pub record OutOfMemory (error_oom : ℕ) (w : World) (p : Ptr) (u : World) : Type 0 where
  pub result : p ≡ null
  pub error : u.last_error ≡ error_oom
  pub heap : (c : ℕ) → u.blocks c ≡ w.blocks c

pub record NewBlock (w : World) (n : ℕ) (p : Ptr) (u : World) : Type 0 where
  pub result : p ≡ at w.fresh 0
  pub size : size_of u w.fresh ≡ some n
  pub error : u.last_error ≡ w.last_error

module _ (oom : ℕ) (mul : ℕ → ℕ → Option ℕ) where
  -- `aws_mem_acquire` asserts that the size is not 0, and returns a new block of that size, with the
  -- thread's error untouched, or NULL with AWS_ERROR_OOM raised.
  pub mem_acquire_lem :
      (w : World) (size : ℕ)
      → (size ≡ 0 → mem_acquire oom mul size w ≡ failed)
        × (size ≢ 0
            → Returns
                (λ p u. (NewBlock w size p u × SameBut w.fresh w u) ⊎ OutOfMemory oom w p u)
                (mem_acquire oom mul size w))
  unfolding mem_acquire
  mem_acquire_lem w size = ground arith

  -- What `aws_mem_realloc` leaves of a block `b` whose first `oldsize` bytes are the old contents.
  pub record Realloced (w : World) (b oldsize newsize : ℕ) (s : Status) (q : Ptr) (u : World)
      : Type 0 where
    pub released : newsize ≡ 0 → (s ≡ op_success) × (q ≡ null) × (u.blocks b ≡ none)
    pub kept : newsize ≢ 0 → newsize ≤ oldsize → (s ≡ op_success) × (q ≡ at b 0) × (u ≡ w)
    pub moved :
        oldsize < newsize
        → s ≡ op_success
        → NewBlock w newsize q u
          × (u.blocks b ≡ none)
          × ((j : ℕ) → j < oldsize → window u q j ≡ window w (at b 0) j)
          × ((j : ℕ) → oldsize ≤ j → j < newsize → window u q j ≡ 0)
    pub only_growing : s ≡ op_err → oldsize < newsize
    pub out_of_memory :
        s ≡ op_err
        → (newsize ≢ 0) × (q ≡ at b 0) × (u.last_error ≡ oom) × ((c : ℕ) → u.blocks c ≡ w.blocks c)

  module _ (w : World) (b oldsize newsize : ℕ) (own : Owned w b oldsize) where
    moved_lem :
        oldsize < newsize
        → (p : Ptr) (v : World)
        → (NewBlock w newsize p v × SameBut w.fresh w v) ⊎ OutOfMemory oom w p v
        → Returns
            (λ (s, q) u. Realloced w b oldsize newsize s q u)
            (move_to oom mul p (at b 0) oldsize newsize v)
    unfolding move_to
    moved_lem l p v (inl (n, o)) = ground (arith, own.old, own.holds, n.result, n.size, o b)
    moved_lem l p v (inr f) = ground (arith, own.old, own.holds, f.result)

    -- `aws_mem_realloc` of a live block: size 0 frees it, a smaller size changes nothing, a larger
    -- one moves the old bytes, clears the rest and frees the old block; if memory runs out it
    -- returns AWS_OP_ERR with AWS_ERROR_OOM raised, and the old block is as it was.
    pub mem_realloc_lem :
        Returns
          (λ (s, q) u. Realloced w b oldsize newsize s q u)
          (mem_realloc oom mul (at b 0) oldsize newsize w)
    unfolding mem_realloc
    mem_realloc_lem = elim (dec_lt oldsize newsize) [
      | yes l ↦
          let some_size : (newsize == 0) ≡ false = ground arith in
          let grows : leb newsize oldsize ≡ false = ground arith in
          rw (some_size, grows)
            (Returns-bind _ _ (mem_acquire oom mul newsize w) _
              ((mem_acquire_lem w newsize).1 (omega arith)) (moved_lem l))
      | no n ↦ ground (arith, own.old, own.holds)
    ]
