-- ===== src/Buffers/Every.antt =====
-- The initialisers of byte buffers leave no buffer out, save the one for fuzzing.
use verify_c_common.Base.{ℕ, ◌+◌, ◌-◌, ◌^◌, ◌<◌, ◌≡◌, ◌⊎◌, false, ◌==◌, if◌then◌else◌, arith}
use verify_c_common.World.{Ptr, at, World, Ensures}
use verify_c_common.Alloc.{window}
use verify_c_common.Structs.{sea_allocator, ByteBuf}
use verify_c_common.Buffers.{fuzz_initialize_byte_buf}

-- The buffer in block `b`, and what its bytes are.
abbrev pub IsBuf : (b len cap : ℕ) → (ℕ → ℕ) → ByteBuf → World → Type 0
IsBuf b len cap f buf u =
    (buf ≡ record { len = len; buffer = at b 0; capacity = cap; allocator = sea_allocator })
    × ((j : ℕ) → j < cap → window u (at b 0) j ≡ f j)

-- The choices that lead to a buffer: SeaHorn asks for the length and the capacity first, KLEE for the
-- capacity first and the length last.
abbrev pub sea_choices : (len cap : ℕ) → (ℕ → ℕ) → ℕ → ℕ
sea_choices len cap f i =
    if i == 0 then len else if i == 1 then cap else if i == 2 then 0 else f (i - 3)

abbrev pub klee_choices : (len cap : ℕ) → (ℕ → ℕ) → ℕ → ℕ
klee_choices len cap f i =
    if i == 0 then cap else if i == 1 then 0 else if i == cap + 2 then len else f (i - 2)

abbrev pub choosing : (ℕ → ℕ) → World → World
choosing tape w = record w { tape = tape; pos = 0 }

module _ (len cap : ℕ) (f : ℕ → ℕ) (bytes : (j : ℕ) → f j < 2 ^ 8) where
  module _ (w : World) (room : w.oom w.fresh ≡ false) (pos : 0 < cap) where
    abbrev Filled : Ptr → World → Type 0
    Filled p u = (p ≡ at w.fresh 0) × ((j : ℕ) → j < cap → window u p j ≡ f j)

-- The variant for fuzzing never gives a full buffer, nor one whose capacity is the bound.
pub fuzz_initialize_byte_buf-not_full :
    (max : ℕ) (w : World)
    → 0 < max
    → Ensures
        (λ buf _. (buf.capacity < max) × ((buf.capacity ≡ 0) ⊎ (buf.len < buf.capacity)))
        (fuzz_initialize_byte_buf max w)
unfolding fuzz_initialize_byte_buf
fuzz_initialize_byte_buf-not_full max w pos = ground arith
