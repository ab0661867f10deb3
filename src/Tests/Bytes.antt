-- ===== src/Tests/Bytes.antt =====
-- Comparisons, copies and assertions of seahorn/lib on two blocks of four bytes.
use verify_c_common.Base.{ℕ, ◌<◌, ◌≡◌, ◌≢◌, ◌↔◌, ◌⊎◌, refl, some, arith}
use verify_c_common.World.{at, World, ok, Returns}
use verify_c_common.Alloc.{block, window}
use verify_c_common.Bytes.{Sign, minus, naught, plus, bcmp, memcmp, symbiotic_memcpy}
use verify_c_common.Bytes.Compare.{bcmp_lem, memcmp_lem}
use verify_c_common.Bytes.Copy.{Copied, symbiotic_memcpy_lem}
use verify_c_common.Structs.{ByteBuf}
use verify_c_common.Utils.{max_malloc, assert_bytes_match, assert_byte_buf_equivalence}
use verify_c_common.Utils.Laws.{
  Passes, SameBytes, save_then, assert_bytes_match-Passes, assert_byte_buf_equivalence-Passes,
}
use verify_c_common.Tests.{world_of, two_blocks}

abbrev world : World
world = world_of 0

bcmp_lem_example :
    ((bcmp 3 (at 1 0) (at 2 0) 4 world ≡ ok naught world)
      × ((j : ℕ) → j < 4 → window world (at 1 0) j ≡ window world (at 2 0) j))
    ⊎ ((bcmp 3 (at 1 0) (at 2 0) 4 world ≡ ok plus world)
        × ((j : ℕ) × (j < 4) × (window world (at 1 0) j ≢ window world (at 2 0) j)))
bcmp_lem_example = bcmp_lem 3 1 0 2 0 4 world refl refl

memcmp_lem_example :
    ((memcmp 3 (at 1 0) (at 2 0) 4 world ≡ ok naught world)
      × ((j : ℕ) → j < 4 → window world (at 1 0) j ≡ window world (at 2 0) j))
    ⊎ ((j : ℕ) × (r : Sign) × (memcmp 3 (at 1 0) (at 2 0) 4 world ≡ ok r world)
        × (j < 4)
        × (((r ≡ minus) × (window world (at 1 0) j < window world (at 2 0) j))
            ⊎ ((r ≡ plus) × (window world (at 2 0) j < window world (at 1 0) j)))
        × ((m : ℕ) → m < j → window world (at 1 0) m ≡ window world (at 2 0) m))
memcmp_lem_example = memcmp_lem 3 1 0 2 0 4 world refl refl

symbiotic_memcpy_lem_example :
    Returns
      (λ q u. (q ≡ at 1 0) × Copied (window world (at 2 0)) world 1 0 4 u)
      (symbiotic_memcpy (at 1 0) (at 2 0) 4 world)
symbiotic_memcpy_lem_example = symbiotic_memcpy_lem 1 0 4 world refl 2 0 (omega arith) refl

assert_bytes_match-Passes_example :
    Passes (assert_bytes_match (at 1 0) (at 2 0) 4) world
    ↔ ((j : ℕ) → j < 4 → window world (at 1 0) j ≡ window world (at 2 0) j)
assert_bytes_match-Passes_example =
    assert_bytes_match-Passes world 1 0 4 (omega arith) refl 2 0 (omega arith) refl

abbrev buf : ByteBuf
buf = record { len = 4; buffer = at 1 0; capacity = 4; allocator = 1 }

assert_byte_buf_equivalence-Passes_example :
    Passes
      (save_then
        (at 1 0)
        4
        two_blocks
        (assert_byte_buf_equivalence (some (100, buf)) (some (200, buf))))
      world
    ↔ ((buf.len ≡ buf.len)
        × (buf.capacity ≡ buf.capacity)
        × (buf.allocator ≡ buf.allocator)
        × SameBytes world two_blocks 1 0 4 (omega arith) (omega arith) refl refl)
assert_byte_buf_equivalence-Passes_example =
    assert_byte_buf_equivalence-Passes world two_blocks 1 0 4 (omega arith) (omega arith) refl refl
      100 200 buf buf (omega arith) refl refl

-- A block that is as large as `assert_bytes_match` does not look at.
abbrev large_world : World
large_world = record world { blocks = λ b. some (block max_malloc (λ j. 0)) }
