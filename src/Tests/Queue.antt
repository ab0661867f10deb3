-- ===== src/Tests/Queue.antt =====
-- A queue of three items with backpointers, and a simple stand-in for the functions of aws-c-common.
use verify_c_common.Base.{ℕ, ◌^◌, Bool, ltb, ◌==◌, ◌&&◌, ◌||◌, if◌then◌else◌}
use verify_c_common.World.{Ptr, at, is_null, World, ok, Cmd}
use verify_c_common.Alloc.Override.{Status, op_success, op_err}
use verify_c_common.Structs.{ArrayList}
use verify_c_common.Buffers.{PriorityQueue}
use verify_c_common.Tests.{world_of}

abbrev world : World
world = world_of 0

abbrev list_at : ℕ → ArrayList
list_at b = record { alloc = 1; current_size = 4; length = 3; item_size = 1; data_ptr = at b 0 }

abbrev queue : PriorityQueue
queue = record { container = list_at 1; backpointers = list_at 2 }

abbrev queue_is_valid : PriorityQueue → Bool
queue_is_valid q =
    ltb q.container.length (2 ^ 64)
    && (is_null q.backpointers.data_ptr || (q.backpointers.length == q.container.length))

abbrev get_at : ArrayList → Ptr → ℕ → Cmd Status
get_at list p i w = ok (if ltb i list.length then op_success else op_err) w
