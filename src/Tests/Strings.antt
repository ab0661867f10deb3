-- ===== src/Tests/Strings.antt =====
-- A string that is allocated, three bytes with the zero.
use verify_c_common.Base.{zero, suc, arith}
use verify_c_common.World.{World, Ensures}
use verify_c_common.Strings.{
  ensure_c_str_is_nd_allocated, ensure_c_str_is_nd_allocated_safe,
  ensure_c_str_is_nd_allocated_aligned,
}
use verify_c_common.Strings.Fresh.{NullOrString, ensure_c_str-NullOrString}
use verify_c_common.Tests.{world_of}

-- The size is 3, and the allocation succeeds.
abbrev world : World
world = record (world_of 3) { tape = λ i. elim i [ zero ↦ 3 | suc zero ↦ 0 | suc (suc j) ↦ 65 ] }

ensure_c_str-NullOrString_example :
    Ensures (NullOrString 8 5 9 world) (ensure_c_str_is_nd_allocated 8 5 9 world)
    × Ensures (NullOrString 8 5 9 world) (ensure_c_str_is_nd_allocated_safe 8 5 9 world)
    × Ensures (NullOrString 8 5 9 world) (ensure_c_str_is_nd_allocated_aligned 8 5 9 world)
ensure_c_str-NullOrString_example = ensure_c_str-NullOrString 8 5 9 world (omega arith)
