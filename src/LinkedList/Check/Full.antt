-- ===== src/LinkedList/Check/Full.antt =====
-- `aws_linked_list_save_full` and `is_aws_list_unchanged_full` of
-- seahorn/lib/linked_list_helper.c.
use verify_c_common.Base.{ℕ, zero, suc, ◌<◌, ◌≤◌, ◌≡◌, Bool, true, ◌==◌, ◌&&◌, if◌then◌else◌, arith}
use verify_c_common.World.{World, ok}
use verify_c_common.LinkedList.{LinkedList}
use verify_c_common.LinkedList.Save.{SavedList, save_full}
use verify_c_common.LinkedList.Save.Snapshot.{next_of, prev_of, IsSaved}
use verify_c_common.LinkedList.Check.{unchanged_full}
use verify_c_common.LinkedList.Check.Sound.{SameLinks}

-- A snapshot from both sides: both ends, and up to four nodes with the links they have in `w`.
pub record FullSnapshot (w : World) (list : LinkedList) (start end : ℕ) (s : SavedList)
    : Type 0 where
  pub head_node : s.head.node ≡ list.head
  pub tail_node : s.tail.node ≡ list.tail
  pub head_saved : IsSaved w s.head
  pub tail_saved : IsSaved w s.tail
  pub point : s.save_point ≡ start
  pub point_end : s.save_point_end ≡ end
  pub size : s.saved_size ≤ 4
  pub saved_0 : 0 < s.saved_size → IsSaved w (s.nodes 0)
  pub saved_1 : 1 < s.saved_size → IsSaved w (s.nodes 1)
  pub saved_2 : 2 < s.saved_size → IsSaved w (s.nodes 2)
  pub saved_3 : 3 < s.saved_size → IsSaved w (s.nodes 3)

module _ (list : LinkedList) (start end : ℕ) (s : SavedList) (w : World)
    (zero_size : s.saved_size ≡ 0) {v : SavedList} {u : World} where
  save_full_empty :
      save_full list 0 start end s w ≡ ok v u → (u ≡ w) × FullSnapshot w list start end v
  unfolding save_full
  save_full_empty h = ground arith

  save_full_one :
      save_full list 1 start end s w ≡ ok v u → (u ≡ w) × FullSnapshot w list start end v
  unfolding save_full
  save_full_one h = ground arith

  save_full_more :
      (size : ℕ)
      → 1 < size
      → save_full list size start end s w ≡ ok v u
      → (u ≡ w) × FullSnapshot w list start end v
  unfolding save_full
  save_full_more size q h = ground arith

pub save_full-FullSnapshot :
    (list : LinkedList) (size start end : ℕ) (s : SavedList) (w : World) {v : SavedList} {u : World}
    → s.saved_size ≡ 0
    → save_full list size start end s w ≡ ok v u
    → (u ≡ w) × FullSnapshot w list start end v
save_full-FullSnapshot list zero start end s w z = save_full_empty list start end s w z
save_full-FullSnapshot list (suc zero) start end s w z = save_full_one list start end s w z
save_full-FullSnapshot list (suc (suc n)) start end s w z =
    save_full_more list start end s w z (suc (suc n)) (omega arith)

-- What a snapshot of at least two nodes protects: the link forward of the start, the link back of
-- the end, and both links of the nodes between that were saved.
pub record SameBetween (w w' : World) (start end : ℕ) (s : SavedList) : Type 0 where
  pub start_next : 1 < s.saved_size → next_of w' start ≡ next_of w start
  pub end_prev : 1 < s.saved_size → prev_of w' end ≡ prev_of w end
  pub second : 2 < s.saved_size → SameLinks w w' (s.nodes 1).node
  pub third : 3 < s.saved_size → SameLinks w w' (s.nodes 2).node

unchanged_full_sound :
    {list : LinkedList} {start end : ℕ} {s : SavedList} {w : World} (w' : World)
    → FullSnapshot w list start end s
    → unchanged_full list s w' ≡ ok true w'
    → SameBetween w w' start end s
unfolding unchanged_full
unchanged_full_sound w' f h = ground arith

-- If `is_aws_list_unchanged_full` answers true for a snapshot that `aws_linked_list_save_full` has
-- taken from an empty one in `w`, then what a snapshot of two nodes or more protects is as in `w`.
pub unchanged_full-save_full :
    (list : LinkedList) (size start end : ℕ) (s0 s : SavedList) (w u w' : World)
    → s0.saved_size ≡ 0
    → save_full list size start end s0 w ≡ ok s u
    → unchanged_full list s w' ≡ ok true w'
    → SameBetween w w' start end s
unchanged_full-save_full list size start end s0 s w u w' z h c =
    unchanged_full_sound w' (save_full-FullSnapshot list size start end s0 w z h).1 c

-- With fewer than two saved nodes `is_aws_list_unchanged_full` reads no link of the list: it gives
-- the same answer in every two worlds.
pub unchanged_full_blind :
    (list : LinkedList) (s : SavedList)
    → s.saved_size < 2
    → (b : Bool) × ((w : World) → unchanged_full list s w ≡ ok b w)
unfolding unchanged_full
unchanged_full_blind list s h = (answer, λ w. ground arith)
  where
    answer : Bool
    answer =
        if s.saved_size == 0
        then s.head.node_next == s.tail.node && s.tail.node_prev == s.head.node
        else s.save_point == s.save_point_end && s.save_point == (s.nodes 0).node
