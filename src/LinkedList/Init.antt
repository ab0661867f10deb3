-- ===== src/LinkedList/Init.antt =====
-- seahorn/lib/linked_list_helper.c: the functions that build a list of any length, with at most two
-- nodes laid out.
pub mod Shape
use verify_c_common.Base.{ℕ, Bool, true, false, ◌==◌, leb, not, if◌then◌else◌}
use verify_c_common.World.{Cmd, pure, ◌>>=◌, ◌>>◌, assume, nd_size_t}
use verify_c_common.LinkedList.{LinkedList, set_next, set_prev, malloc_node, attach_after}

-- What each function does first: `list->head.prev = NULL` and `list->tail.next = NULL`.
unfoldable pub init_ends : LinkedList → Cmd (Unit {0})
unfolding set_next set_prev
init_ends list = do set_prev list.head 0; set_next list.tail 0

unfoldable pub init_short : LinkedList → (length : ℕ) → Cmd (Unit {0})
unfolding init_ends malloc_node attach_after
init_short list length = do
  init_ends list
  if length == 0
      then attach_after list.head list.tail true
      else if length == 1
      then (do
        front ← malloc_node
        attach_after list.head front true
        attach_after front list.tail true)
      else if length == 2
      then (do
        front ← malloc_node
        back ← malloc_node
        attach_after list.head front true
        attach_after front back true
        attach_after back list.tail true)
      else pure tt

unfoldable pub init_node : ℕ → Cmd (Unit {0})
unfolding set_next set_prev
init_node node = do assume (not (node == 0)); set_next node 0; set_prev node 0

-- Two new nodes, as every function takes them where the list is longer than two.
unfoldable pub two_nodes : Cmd (ℕ × ℕ)
unfolding malloc_node init_node
two_nodes = do a ← malloc_node; init_node a; b ← malloc_node; init_node b; pure (a, b)

-- The long lists: HEAD <--> front <--> front_next --> nd ... nd <-- TAIL,
-- HEAD --> nd ... nd <-- back_prev <--> back <--> TAIL and
-- HEAD <--> front --> nd ... nd <-- back <--> TAIL.
unfoldable pub link_from_head : LinkedList → (front front_next : ℕ) → Cmd (Unit {0})
unfolding attach_after
link_from_head list front front_next = do
  attach_after list.head front true
  attach_after front front_next true
  attach_after front_next list.tail false

unfoldable pub link_from_tail : LinkedList → (back back_prev : ℕ) → Cmd (Unit {0})
unfolding attach_after
link_from_tail list back back_prev = do
  attach_after list.head back_prev false
  attach_after back_prev back true
  attach_after back list.tail true

unfoldable pub link_both : LinkedList → (front back : ℕ) → Cmd (Unit {0})
unfolding attach_after
link_both list front back = do
  attach_after list.head front true
  attach_after front back false
  attach_after back list.tail true

-- The body that the three functions share, and which returns the chosen length (`*length`).
unfoldable pub init_with : (link : LinkedList → ℕ → ℕ → Cmd (Unit {0})) → LinkedList → Cmd ℕ
unfolding init_ends init_short two_nodes
init_with link list = do
  init_ends list
  nd_len ← nd_size_t
  if leb nd_len 2 then init_short list nd_len else (do (a, b) ← two_nodes; link list a b)
  pure nd_len

unfoldable pub init_from_head : LinkedList → Cmd ℕ
unfolding init_with link_from_head
init_from_head = init_with link_from_head

unfoldable pub init_from_tail : LinkedList → Cmd ℕ
unfolding init_with link_from_tail
init_from_tail = init_with link_from_tail

unfoldable pub init : LinkedList → Cmd ℕ
unfolding init_with link_both
init = init_with link_both
