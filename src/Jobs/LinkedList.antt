-- ===== src/Jobs/LinkedList.antt =====
-- The unit proofs seahorn/jobs/linked_list_*. The structures on the stack are given by their addresses.
pub mod Rules
pub mod Ends
pub mod Reads
pub mod Nodes
use verify_c_common.Base.{ℕ, Bool, ◌==◌, not}
use verify_c_common.World.{World, Outcome, Cmd, ok, pure, assume, sassert, and_then, ◌>>=◌, ◌>>◌}
use verify_c_common.LinkedList.{
  LinkedList, get_next, get_prev, set_next, set_prev, attach_after, is_attached_after,
  nd_linked_list_node,
}
use verify_c_common.LinkedList.Init.{init_from_head, init_from_tail}
use verify_c_common.LinkedList.Save.{SavedList, SavedNode, save_to_tail, save_to_head}
use verify_c_common.LinkedList.Check.{unchanged_to_tail, unchanged_to_head}
use verify_c_common.Jobs.{expect, harness}

abbrev no_node : SavedNode
no_node = record { node = 0; node_prev = 0; node_next = 0 }

-- `struct saved_aws_linked_list to_save = {0}`.
abbrev pub nothing_saved : SavedList
nothing_saved = record {
  saved_size = 0;
  save_point = 0;
  save_point_end = 0;
  head = no_node;
  tail = no_node;
  nodes = λ i. no_node;
}

-- `sassert(p->next == q)` and `sassert(p->prev == q)`.
unfoldable pub next_is : (p q : ℕ) → Cmd (Unit {0})
unfolding get_next
next_is p q = do n ← get_next p; sassert (n == q)

unfoldable pub prev_is : (p q : ℕ) → Cmd (Unit {0})
unfolding get_prev
prev_is p q = do n ← get_prev p; sassert (n == q)

-- A test that belongs to aws-c-common, and only reads.
abbrev pub sassert_of : (World → Bool) → Cmd (Unit {0})
sassert_of test w = sassert (test w) w

abbrev pub assume_of : (World → Bool) → Cmd (Unit {0})
assume_of test w = assume (test w) w

unfoldable pub attached : (p q : ℕ) → Cmd (Unit {0})
unfolding is_attached_after
attached p q = expect (is_attached_after p q)

unfoldable pub same_to_head : LinkedList → SavedList → Cmd (Unit {0})
unfolding unchanged_to_head
same_to_head list s = expect (unchanged_to_head list s)

unfoldable pub same_to_tail : LinkedList → SavedList → Cmd (Unit {0})
unfolding unchanged_to_tail
same_to_tail list s = expect (unchanged_to_tail list s)

-- A list of any length, saved from `start` on. The length is kept.
unfoldable pub saved_to_head : (start : Cmd ℕ) → LinkedList → Cmd (ℕ × SavedList)
saved_to_head start list = do
  size ← init_from_tail list
  p ← start
  s ← save_to_head list size p nothing_saved
  pure (size, s)

unfoldable pub saved_to_tail : (start : Cmd ℕ) → LinkedList → Cmd (ℕ × SavedList)
saved_to_tail start list = do
  size ← init_from_head list
  p ← start
  s ← save_to_tail list size p nothing_saved
  pure (size, s)

-- `aws_linked_list_node_next_is_valid`, `aws_linked_list_node_prev_is_valid` and `aws_linked_list_empty`.
module _ (next_is_valid prev_is_valid : ℕ → World → Bool) (is_empty : LinkedList → World → Bool)
    (list : LinkedList) where
  module _ (to_add : ℕ) where
    unfoldable pub push_back_assertions : ℕ × SavedList → Unit {0} → Cmd (Unit {0})
    push_back_assertions (size, s) done = do
      prev_is list.head 0
      next_is list.tail 0
      sassert_of (prev_is_valid to_add)
      sassert_of (next_is_valid to_add)
      attached to_add list.tail
      attached s.save_point to_add
      same_to_head list s

    unfoldable pub push_back_harness :
        (LinkedList → ℕ → Cmd (Unit {0})) → World → Outcome (Unit {0})
    push_back_harness push_back w =
        harness (saved_to_head (get_prev list.tail) list w) (push_back list to_add)
          push_back_assertions

    unfoldable pub push_front_assertions : ℕ × SavedList → Unit {0} → Cmd (Unit {0})
    push_front_assertions (size, s) done = do
      next_is list.tail 0
      prev_is list.head 0
      sassert_of (prev_is_valid to_add)
      sassert_of (next_is_valid to_add)
      attached list.head to_add
      attached to_add s.save_point
      same_to_tail list s

    unfoldable pub push_front_harness :
        (LinkedList → ℕ → Cmd (Unit {0})) → World → Outcome (Unit {0})
    push_front_harness push_front w =
        harness (saved_to_tail (get_next list.head) list w) (push_front list to_add)
          push_front_assertions

  -- The set-up of `pop_back`: the list is not empty, and is saved from the node before the last on.
  unfoldable pub before_last : Cmd ℕ
  unfolding get_prev
  before_last = do
    assume_of (λ w. not (is_empty list w))
    to_pop ← get_prev list.tail
    get_prev to_pop

  unfoldable pub after_first : Cmd ℕ
  unfolding get_next
  after_first = do
    assume_of (λ w. not (is_empty list w))
    to_pop ← get_next list.head
    get_next to_pop

  -- `ret` is the node that was popped.
  unfoldable pub pop_back_assertions : ℕ × SavedList → (ret : ℕ) → Cmd (Unit {0})
  pop_back_assertions (size, s) ret = do
    next_is ret 0
    prev_is ret 0
    attached s.save_point list.tail
    prev_is list.head 0
    next_is list.tail 0
    same_to_head list s

  unfoldable pub pop_back_harness : (LinkedList → Cmd ℕ) → World → Outcome (Unit {0})
  pop_back_harness pop_back w =
      harness (saved_to_head before_last list w) (pop_back list) pop_back_assertions

  unfoldable pub pop_front_assertions : ℕ × SavedList → (ret : ℕ) → Cmd (Unit {0})
  pop_front_assertions (size, s) ret = do
    next_is ret 0
    prev_is ret 0
    attached list.head s.save_point
    prev_is list.head 0
    next_is list.tail 0
    same_to_tail list s

  unfoldable pub pop_front_harness : (LinkedList → Cmd ℕ) → World → Outcome (Unit {0})
  pop_front_harness pop_front w =
      harness (saved_to_tail after_first list w) (pop_front list) pop_front_assertions
