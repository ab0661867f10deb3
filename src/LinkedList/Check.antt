-- ===== src/LinkedList/Check.antt =====
-- seahorn/lib/linked_list_helper.c: the tests that compare a list with a snapshot.
pub mod Full
pub mod Sound
use verify_c_common.Base.{ℕ, Bool, true, false, ◌==◌, ◌&&◌, if◌then◌else◌}
use verify_c_common.World.{Cmd, pure, ◌>>=◌}
use verify_c_common.LinkedList.{LinkedList, get_next, get_prev, and_also}
use verify_c_common.LinkedList.Save.{SavedNode, SavedList}

unfoldable pub nodes_prev_equal : ℕ → SavedNode → Cmd Bool
unfolding get_prev
nodes_prev_equal node saved =
    and_also (pure (node == saved.node)) (do p ← get_prev node; pure (p == saved.node_prev))

unfoldable pub nodes_next_equal : ℕ → SavedNode → Cmd Bool
unfolding get_next
nodes_next_equal node saved =
    and_also (pure (node == saved.node)) (do n ← get_next node; pure (n == saved.node_next))

unfoldable pub nodes_equal : ℕ → SavedNode → Cmd Bool
unfolding nodes_prev_equal nodes_next_equal
nodes_equal node saved = and_also (nodes_prev_equal node saved) (nodes_next_equal node saved)

unfoldable pub check_tail_unchanged : LinkedList → SavedList → Cmd Bool
unfolding nodes_equal
check_tail_unchanged list saved = nodes_equal list.tail saved.tail

-- The test of the node behind (before) another: `nodes_equal(p->next, s)`.
unfoldable pub next_equal_node : ℕ → SavedNode → Cmd Bool
unfolding get_next nodes_equal
next_equal_node p s = do n ← get_next p; nodes_equal n s

unfoldable pub prev_equal_node : ℕ → SavedNode → Cmd Bool
unfolding get_prev nodes_equal
prev_equal_node p s = do n ← get_prev p; nodes_equal n s

-- The branches of the tests below, by the number of saved nodes.
unfoldable pub to_tail_one : LinkedList → SavedList → Cmd Bool
unfolding nodes_next_equal nodes_equal
to_tail_one list saved =
    and_also (nodes_next_equal saved.save_point (saved.nodes 0)) (nodes_equal list.tail saved.tail)

unfoldable pub to_tail_two : LinkedList → SavedList → Cmd Bool
unfolding nodes_next_equal nodes_equal next_equal_node
to_tail_two list saved =
    and_also (nodes_next_equal saved.save_point (saved.nodes 0)) (
      and_also (next_equal_node saved.save_point (saved.nodes 1))
        (nodes_equal list.tail saved.tail))

unfoldable pub to_tail_three : LinkedList → SavedList → Cmd Bool
unfolding nodes_next_equal nodes_equal next_equal_node get_next
to_tail_three list saved = and_also (nodes_next_equal saved.save_point (saved.nodes 0)) (
    and_also (next_equal_node saved.save_point (saved.nodes 1)) (
      and_also (do n ← get_next saved.save_point; next_equal_node n (saved.nodes 2))
        (nodes_equal list.tail saved.tail)))

unfoldable pub unchanged_to_tail : LinkedList → SavedList → Cmd Bool
unfolding nodes_next_equal to_tail_one to_tail_two to_tail_three
unchanged_to_tail list saved =
    if saved.saved_size == 0
    then nodes_next_equal list.tail saved.tail
    else if saved.saved_size == 1
    then to_tail_one list saved
    else if saved.saved_size == 2
    then to_tail_two list saved
    else if saved.saved_size == 3
    then to_tail_three list saved
    else pure false

unfoldable pub to_head_one : LinkedList → SavedList → Cmd Bool
unfolding nodes_prev_equal nodes_equal
to_head_one list saved =
    and_also (nodes_prev_equal saved.save_point (saved.nodes 0)) (nodes_equal list.head saved.head)

unfoldable pub to_head_two : LinkedList → SavedList → Cmd Bool
unfolding nodes_prev_equal nodes_equal prev_equal_node
to_head_two list saved =
    and_also (nodes_prev_equal saved.save_point (saved.nodes 0)) (
      and_also (prev_equal_node saved.save_point (saved.nodes 1))
        (nodes_equal list.head saved.head))

unfoldable pub to_head_three : LinkedList → SavedList → Cmd Bool
unfolding nodes_prev_equal nodes_equal prev_equal_node get_prev
to_head_three list saved = and_also (nodes_prev_equal saved.save_point (saved.nodes 0)) (
    and_also (prev_equal_node saved.save_point (saved.nodes 1)) (
      and_also (do p ← get_prev saved.save_point; prev_equal_node p (saved.nodes 2))
        (nodes_equal list.head saved.head)))

unfoldable pub unchanged_to_head : LinkedList → SavedList → Cmd Bool
unfolding nodes_prev_equal to_head_one to_head_two to_head_three
unchanged_to_head list saved =
    if saved.saved_size == 0
    then nodes_prev_equal list.head saved.head
    else if saved.saved_size == 1
    then to_head_one list saved
    else if saved.saved_size == 2
    then to_head_two list saved
    else if saved.saved_size == 3
    then to_head_three list saved
    else pure false

-- The middle node of three is found from the front, or else from the back.
unfoldable pub middle_equal : SavedList → Cmd Bool
unfolding get_next get_prev next_equal_node prev_equal_node
middle_equal saved = do
  n ← get_next saved.save_point
  if (saved.nodes 1).node == n then next_equal_node saved.save_point (saved.nodes 1) else (do
    p ← get_prev saved.save_point_end
    if (saved.nodes 1).node == p
        then prev_equal_node saved.save_point_end (saved.nodes 1)
        else pure false)

unfoldable pub unchanged_full : LinkedList → SavedList → Cmd Bool
unfolding nodes_prev_equal nodes_next_equal next_equal_node prev_equal_node middle_equal
unchanged_full list saved =
    if saved.saved_size == 0
    then pure (saved.head.node_next == saved.tail.node && saved.tail.node_prev == saved.head.node)
    else if saved.saved_size == 1
    then pure (saved.save_point == saved.save_point_end && saved.save_point == (saved.nodes 0).node)
    else if saved.saved_size == 2
    then and_also (nodes_next_equal saved.save_point (saved.nodes 0))
        (nodes_prev_equal saved.save_point_end (saved.nodes 1))
    else if saved.saved_size == 3
    then and_also
        (and_also (nodes_next_equal saved.save_point (saved.nodes 0))
          (nodes_prev_equal saved.save_point_end (saved.nodes 2)))
        (middle_equal saved)
    else if saved.saved_size == 4
    then and_also (nodes_next_equal saved.save_point (saved.nodes 0)) (
        and_also (next_equal_node saved.save_point (saved.nodes 1)) (
          and_also (prev_equal_node saved.save_point_end (saved.nodes 2))
            (nodes_prev_equal saved.save_point_end (saved.nodes 3))))
    else pure false
