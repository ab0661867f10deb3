-- ===== src/Tests/Buffers.antt =====
-- Cursors, lists, rings and fuzzer input.
use verify_c_common.Base.{ℕ, zero, suc, ◌<◌, ◌≡◌, refl, ltb, if◌then◌else◌, size_max, arith}
use verify_c_common.World.{null, at, World}
use verify_c_common.Structs.{ByteBuf, ByteCursor}
use verify_c_common.Fuzz.{Input}
use verify_c_common.Fuzz.Laws.{byte_of}
use verify_c_common.Tests.{world_of}

abbrev world : World
world = world_of 3

abbrev nospec_mask : ℕ → ℕ → ℕ
nospec_mask index bound = if ltb index bound then size_max else 0

abbrev cursor : ByteCursor
cursor = record { len = 4; ptr = at 1 0 }

abbrev buf : ByteBuf
buf = record { len = 0; buffer = null; capacity = 2; allocator = 1 }

abbrev input : Input
input = record { bytes = λ j. 7; size = 10; pos = 0 }

sevens : (k : ℕ) → k < 2 → 7 ≡ byte_of 1799 k
sevens zero lt = refl
sevens (suc zero) lt = refl
sevens (suc (suc k)) lt = absurd (omega arith)
