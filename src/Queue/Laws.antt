-- ===== src/Queue/Laws.antt =====
-- What aws-c-common-stubs/s_remove_node_override.c does to the lengths of the queue.
use verify_c_common.Base.{ℕ, suc, ◌^◌, ◌≤◌, ◌<◌, ◌≡◌, true, false, Bool}
use verify_c_common.World.{Ptr, is_null, World, Cmd, Returns}
use verify_c_common.Alloc.Override.{Status, op_success, op_err}
use verify_c_common.Structs.{ArrayList}
use verify_c_common.Buffers.{PriorityQueue}
use verify_c_common.Queue.{drop_item}

-- What is used of a valid queue: backpointers that exist are as many as the items, lengths are
-- `size_t`, and a queue that is not empty stays valid without its last item.
pub record ValidQueues (queue_is_valid : PriorityQueue → Bool) : Type 0 where
  pub same_length :
      (q : PriorityQueue)
      → queue_is_valid q ≡ true
      → is_null q.backpointers.data_ptr ≡ false
      → q.backpointers.length ≡ q.container.length
  pub bounded : (q : PriorityQueue) → queue_is_valid q ≡ true → q.container.length < 2 ^ 64
  pub shorter :
      (q : PriorityQueue)
      → queue_is_valid q ≡ true
      → 0 < q.container.length
      → queue_is_valid (drop_item q) ≡ true

-- `aws_array_list_get_at` succeeds exactly for an index in the list.
abbrev pub GetsInRange : (ArrayList → Ptr → ℕ → Cmd Status) → Type 0
GetsInRange get_at =
    (list : ArrayList) (p : Ptr) (i : ℕ) (w : World)
    → Returns (λ s _. (i < list.length → s ≡ op_success) × (list.length ≤ i → s ≡ op_err))
        (get_at list p i w)

-- Both lists are one item shorter, and nothing else of the queue has changed.
pub record Removed (q q' : PriorityQueue) : Type 0 where
  pub items : suc q'.container.length ≡ q.container.length
  pub item_size : q'.container.item_size ≡ q.container.item_size
  pub items_at : q'.container.data_ptr ≡ q.container.data_ptr
  pub pointers :
      is_null q.backpointers.data_ptr ≡ false → suc q'.backpointers.length ≡ q.backpointers.length
  pub no_pointers : is_null q.backpointers.data_ptr ≡ true → q'.backpointers ≡ q.backpointers

module _ (queue_is_valid : PriorityQueue → Bool) (get_at : ArrayList → Ptr → ℕ → Cmd Status)
    (valid : ValidQueues queue_is_valid) (q : PriorityQueue) (is_valid : queue_is_valid q ≡ true)
    (i : ℕ) where
  abbrev pub Outcomes : Status × PriorityQueue → World → Type 0
  Outcomes (s, q') u =
      (queue_is_valid q' ≡ true)
      × (i < q.container.length → (s ≡ op_success) × Removed q q')
      × (q.container.length ≤ i → (s ≡ op_err) × (q' ≡ q))
