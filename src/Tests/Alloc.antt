-- ===== src/Tests/Alloc.antt =====
-- Allocations of seahorn/lib on a heap with two blocks of four bytes.
use verify_c_common.Base.{
  ℕ, ◌*◌, ◌^◌, ◌≡◌, ◌≢◌, ◌⊎◌, refl, Option, none, some, ltb, if◌then◌else◌, arith,
}
use verify_c_common.World.{at, World, failed, Returns}
use verify_c_common.Alloc.Laws.{Owned, SameBut}
use verify_c_common.Alloc.Override.{mem_acquire, mem_realloc}
use verify_c_common.Alloc.Override.Laws.{
  OutOfMemory, NewBlock, Realloced, mem_acquire_lem, mem_realloc_lem,
}
use verify_c_common.Tests.{world_of}

abbrev world : World
world = world_of 0

abbrev failing_world : World
failing_world = world_of 1

-- The product, where it fits `size_t`.
abbrev mul_size_checked : ℕ → ℕ → Option ℕ
mul_size_checked a b = if ltb (a * b) (2 ^ 64) then some (a * b) else none

abbrev size : ℕ
size = 3

abbrev choice : ℕ
choice = 0

world-Owned : Owned world 1 4
world-Owned = record { holds = refl; old = omega arith }

failing_world-Owned : Owned failing_world 1 4
failing_world-Owned = record { holds = refl; old = omega arith }

mem_acquire_lem_example :
    (size ≡ 0 → mem_acquire 5 mul_size_checked 3 world ≡ failed)
    × (size ≢ 0
        → Returns
            (λ p u. (NewBlock world 3 p u × SameBut 10 world u) ⊎ OutOfMemory 5 world p u)
            (mem_acquire 5 mul_size_checked 3 world))
mem_acquire_lem_example = mem_acquire_lem 5 mul_size_checked world 3

mem_realloc_lem_example :
    Returns
      (λ (s, q) u. Realloced 5 mul_size_checked world 1 4 6 s q u)
      (mem_realloc 5 mul_size_checked (at 1 0) 4 6 world)
mem_realloc_lem_example = mem_realloc_lem 5 mul_size_checked world 1 4 6 world-Owned
