-- ===== src/Queue.antt =====
-- The priority queue stubs of aws-c-common-stubs: s_remove_node_override.c, s_sift_either_override.c and
-- s_sift_up_override.c. They leave the items where they are.
pub mod Laws
use verify_c_common.Base.{ℕ, Bool, true, false, not, ltb, if◌then◌else◌, sub_size}
use verify_c_common.World.{
  Ptr, null, at, is_null, World, Cmd, ok, nd_bool, sassert, pure, and_then, ◌>>=◌, ◌>>◌,
}
use verify_c_common.Alloc.{readable}
use verify_c_common.Alloc.Override.{Status, op_success, op_err}
use verify_c_common.Structs.{ArrayList}
use verify_c_common.Buffers.{PriorityQueue}

abbrev pub drop_last : ArrayList → ArrayList
drop_last list = record list { length = sub_size list.length 1 }

-- The queue with its lists one shorter; the backpointers only if there are any.
abbrev pub drop_item : PriorityQueue → PriorityQueue
drop_item queue =
    if is_null queue.backpointers.data_ptr
    then record queue { container = drop_last queue.container }
    else record {
      container = drop_last queue.container;
      backpointers = drop_last queue.backpointers;
    }

-- `aws_priority_queue_is_valid` and `aws_array_list_get_at` belong to aws-c-common.
module _ (queue_is_valid : PriorityQueue → Bool) (get_at : ArrayList → Ptr → ℕ → Cmd Status) where
  abbrev pub sassert_item : Ptr → ℕ → Cmd (Unit {0})
  sassert_item null size w = sassert false w
  sassert_item (at b i) size w = sassert (readable w (at b i) size) w

  abbrev pub finish_remove : PriorityQueue → Status → Cmd (Status × PriorityQueue)
  finish_remove queue op_err = do sassert (queue_is_valid queue); pure (op_err, queue)
  finish_remove queue op_success = do
    sassert (queue_is_valid (drop_item queue))
    pure (op_success, drop_item queue)

  unfoldable pub remove_node :
      PriorityQueue → (item : Ptr) → (item_index : ℕ) → Cmd (Status × PriorityQueue)
  remove_node queue item item_index = do
    sassert (queue_is_valid queue)
    sassert_item item queue.container.item_size
    status ← get_at queue.container item item_index
    finish_remove queue status

  unfoldable pub sift_either : PriorityQueue → (index : ℕ) → Cmd (Unit {0})
  sift_either queue index = do
    sassert (queue_is_valid queue)
    sassert (ltb index queue.container.length)

-- The pre- and postconditions of `s_sift_up` are macros of aws-c-common.
unfoldable pub sift_up : PriorityQueue → (index : ℕ) → Cmd Bool
sift_up queue index = nd_bool
