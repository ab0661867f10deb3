-- ===== src/LinkedList/Check/Sound.antt =====
-- The tests of seahorn/lib/linked_list_helper.c hold exactly when the saved links are still there.
use verify_c_common.Base.{ℕ, ◌<◌, ◌≡◌, ◌↔◌, true, arith}
use verify_c_common.World.{World, ok}
use verify_c_common.LinkedList.{LinkedList}
use verify_c_common.LinkedList.Save.{SavedList, save_to_tail, save_to_head}
use verify_c_common.LinkedList.Save.Snapshot.{
  next_of, prev_of, Snapshot, save_to_tail-Snapshot, save_to_head-Snapshot,
}
use verify_c_common.LinkedList.Check.{unchanged_to_tail, unchanged_to_head}

abbrev pub SameLinks : World → World → ℕ → Type 0
SameLinks w w' p = (next_of w' p ≡ next_of w p) × (prev_of w' p ≡ prev_of w p)

-- Between `w` and `w'` nothing has changed from the first saved node to the tail, as far as the
-- snapshot `s` reaches: the links of the tail, the link forward of the first node, both links of the
-- others. Of an empty snapshot only `tail.next` counts.
pub record SameToTail (w w' : World) (list : LinkedList) (s : SavedList) : Type 0 where
  pub tail_next : next_of w' list.tail ≡ next_of w list.tail
  pub tail_prev : 0 < s.saved_size → prev_of w' list.tail ≡ prev_of w list.tail
  pub first : 0 < s.saved_size → next_of w' (s.nodes 0).node ≡ next_of w (s.nodes 0).node
  pub second : 1 < s.saved_size → SameLinks w w' (s.nodes 1).node
  pub third : 2 < s.saved_size → SameLinks w w' (s.nodes 2).node

pub record SameToHead (w w' : World) (list : LinkedList) (s : SavedList) : Type 0 where
  pub head_prev : prev_of w' list.head ≡ prev_of w list.head
  pub head_next : 0 < s.saved_size → next_of w' list.head ≡ next_of w list.head
  pub first : 0 < s.saved_size → prev_of w' (s.nodes 0).node ≡ prev_of w (s.nodes 0).node
  pub second : 1 < s.saved_size → SameLinks w w' (s.nodes 1).node
  pub third : 2 < s.saved_size → SameLinks w w' (s.nodes 2).node

module _ {w w' : World} {list : LinkedList} {start : ℕ} {s : SavedList} where
  to_tail_sound :
      Snapshot next_of w list start s
      → unchanged_to_tail list s w' ≡ ok true w'
      → SameToTail w w' list s
  unfolding unchanged_to_tail
  to_tail_sound v h = ground arith

  to_tail_complete :
      Snapshot next_of w list start s
      → SameToTail w w' list s
      → unchanged_to_tail list s w' ≡ ok true w'
  unfolding unchanged_to_tail
  to_tail_complete v h = ground arith

  to_head_sound :
      Snapshot prev_of w list start s
      → unchanged_to_head list s w' ≡ ok true w'
      → SameToHead w w' list s
  unfolding unchanged_to_head
  to_head_sound v h = ground arith

  to_head_complete :
      Snapshot prev_of w list start s
      → SameToHead w w' list s
      → unchanged_to_head list s w' ≡ ok true w'
  unfolding unchanged_to_head
  to_head_complete v h = ground arith

module _ (list : LinkedList) (size start : ℕ) (s0 s : SavedList) (w u w' : World) where
  -- For a snapshot that `aws_linked_list_save_to_tail` has taken in `w`, whatever the size and the
  -- start: `is_aws_list_unchanged_to_tail` answers true in a world exactly when the links that the
  -- snapshot covers are those of `w`.
  pub unchanged_to_tail-save_to_tail :
      save_to_tail list size start s0 w ≡ ok s u
      → (unchanged_to_tail list s w' ≡ ok true w') ↔ SameToTail w w' list s
  unchanged_to_tail-save_to_tail h =
      let v = (save_to_tail-Snapshot list size start s0 w h).1 in
      (to_tail_sound v, to_tail_complete v)

  -- For a snapshot that `aws_linked_list_save_to_head` has taken in `w`, whatever the size and the
  -- start: `is_aws_list_unchanged_to_head` answers true in a world exactly when the links that the
  -- snapshot covers are those of `w`.
  pub unchanged_to_head-save_to_head :
      save_to_head list size start s0 w ≡ ok s u
      → (unchanged_to_head list s w' ≡ ok true w') ↔ SameToHead w w' list s
  unchanged_to_head-save_to_head h =
      let v = (save_to_head-Snapshot list size start s0 w h).1 in
      (to_head_sound v, to_head_complete v)
