-- ===== src/LinkedList/Save.antt =====
-- include/linked_list_helper.h and lib/linked_list_helper.c under seahorn: snapshots of nodes and
-- lists, and the functions that take them. The snapshot is an argument, and the result is what the
-- function leaves in it.
pub mod Snapshot
use verify_c_common.Base.{ℕ, ◌+◌, ◌==◌, ltb, if◌then◌else◌}
use verify_c_common.World.{Cmd, pure, crash, ◌>>=◌, update}
use verify_c_common.LinkedList.{LinkedList, get_next, get_prev}

pub record SavedNode : Type 0 where
  pub node : ℕ
  pub node_prev : ℕ
  pub node_next : ℕ

-- `nodes` is an array of four.
pub record SavedList : Type 0 where
  pub saved_size : ℕ
  pub save_point : ℕ
  pub save_point_end : ℕ
  pub head : SavedNode
  pub tail : SavedNode
  pub nodes : ℕ → SavedNode

unfoldable pub save_node : ℕ → Cmd SavedNode
unfolding get_next get_prev
save_node s = do
  p ← get_prev s
  n ← get_next s
  pure (record { node = s; node_prev = p; node_next = n })

-- Saves the node `s` to `to_save->nodes[i]`; the array ends at index 3.
unfoldable pub save_at : ℕ → ℕ → SavedList → Cmd SavedList
unfolding save_node
save_at i s to_save =
    if ltb i 4
    then (do v ← save_node s; pure (record to_save { nodes = update to_save.nodes i v }))
    else crash

abbrev pub with_size : ℕ → SavedList → SavedList
with_size n s = record s { saved_size = n }

unfoldable pub save_one_node : ℕ → SavedList → Cmd SavedList
unfolding save_at
save_one_node start to_save = do s ← save_at 0 start to_save; pure (with_size 1 s)

unfoldable pub save_two_nodes : ℕ → SavedList → (next : ℕ → Cmd ℕ) → Cmd SavedList
unfolding save_at
save_two_nodes start to_save next = do
  s ← save_at 0 start to_save
  p ← next start
  s ← save_at 1 p s
  pure (with_size 2 s)

unfoldable pub save_three_nodes : ℕ → SavedList → (next : ℕ → Cmd ℕ) → Cmd SavedList
unfolding save_at
save_three_nodes start to_save next = do
  s ← save_at 0 start to_save
  p ← next start
  s ← save_at 1 p s
  q ← next start
  q ← next q
  s ← save_at 2 q s
  pure (with_size 3 s)

-- What the three functions below do first: both ends, and where to start.
unfoldable pub save_ends : LinkedList → ℕ → SavedList → Cmd SavedList
unfolding save_node
save_ends list start to_save = do
  h ← save_node list.head
  t ← save_node list.tail
  pure (record to_save { head = h; tail = t; save_point = start })

unfoldable pub save_to_tail : LinkedList → (size start : ℕ) → SavedList → Cmd SavedList
unfolding save_ends save_one_node save_two_nodes save_three_nodes get_next
save_to_tail list size start to_save = do
  s ← save_ends list start to_save
  if size == 0
      then (if list.head == start then save_one_node start s else pure (with_size 0 s))
      else if size == 1
      then (if list.head == start then save_two_nodes start s get_next else (do
        n ← get_next list.head
        if n == start then save_one_node start s else pure (with_size 0 s)))
      else (if list.head == start then save_three_nodes start s get_next else (do
        n ← get_next list.head
        if n == start then save_two_nodes start s get_next else (do
          n ← get_next list.head
          m ← get_next n
          if m == start then save_one_node start s else pure (with_size 0 s))))

unfoldable pub save_to_head : LinkedList → (size start : ℕ) → SavedList → Cmd SavedList
unfolding save_ends save_one_node save_two_nodes save_three_nodes get_prev
save_to_head list size start to_save = do
  s ← save_ends list start to_save
  if size == 0
      then (if list.tail == start then save_one_node start s else pure (with_size 0 s))
      else if size == 1
      then (if list.tail == start then save_two_nodes start s get_prev else (do
        p ← get_prev list.tail
        if p == start then save_one_node start s else pure (with_size 0 s)))
      else (if list.tail == start then save_three_nodes start s get_prev else (do
        p ← get_prev list.tail
        if p == start then save_two_nodes start s get_prev else (do
          p ← get_prev list.tail
          q ← get_prev p
          if q == start then save_one_node start s else pure (with_size 0 s))))

-- The front part of `save_full` on a list that is not empty: the snapshot and `back_nodes_start`.
unfoldable pub save_front : LinkedList → ℕ → SavedList → Cmd (SavedList × ℕ)
unfolding save_at get_next
save_front list start s =
    if start == list.head
    then (do
      s ← save_at 0 list.head s
      n ← get_next list.head
      s ← save_at 1 n s
      pure (with_size 2 s, 2))
    else (do
      n ← get_next list.head
      if start == n then (do s ← save_at 0 n s; pure (with_size 1 s, 1)) else pure (s, 0))

-- The back part, for a list of one node and for a longer one.
unfoldable pub save_back_one : LinkedList → (end : ℕ) → SavedList × ℕ → Cmd SavedList
unfolding save_at
save_back_one list end (s, back_nodes_start) =
    if end == list.tail
    then (do s ← save_at back_nodes_start end s; pure (with_size (s.saved_size + 1) s))
    else pure s

unfoldable pub save_back_more : LinkedList → (end : ℕ) → SavedList × ℕ → Cmd SavedList
unfolding save_at get_prev
save_back_more list end (s, back_nodes_start) =
    if end == list.tail
    then (do
      p ← get_prev list.tail
      s ← save_at back_nodes_start p s
      s ← save_at (back_nodes_start + 1) list.tail s
      pure (with_size (s.saved_size + 2) s))
    else (do
      p ← get_prev list.tail
      if end == p
          then (do s ← save_at back_nodes_start p s; pure (with_size (s.saved_size + 1) s))
          else pure s)

unfoldable pub save_full : LinkedList → (size start end : ℕ) → SavedList → Cmd SavedList
unfolding save_ends save_one_node save_two_nodes save_front save_back_one save_back_more
save_full list size start end to_save = do
  s ← save_ends list start to_save
  let s' = record s { save_point_end = end }
  if start == end
      then save_one_node start s'
      else if size == 0
      then (if start == list.head then save_two_nodes start s' get_next else pure (with_size 0 s'))
      else if size == 1
      then (save_front list start s' >>= save_back_one list end)
      else (save_front list start s' >>= save_back_more list end)
