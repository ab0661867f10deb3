-- ===== src/LinkedList/Save/Snapshot.antt =====
-- What the snapshots of seahorn/lib/linked_list_helper.c hold once they are taken.
use mathlib.Core.Option
use verify_c_common.Base.{ℕ, ◌<◌, ◌≡◌, Option, some, arith}
use verify_c_common.World.{Node, World, ok}
use verify_c_common.LinkedList.{LinkedList, live}
use verify_c_common.LinkedList.Save.{SavedNode, SavedList, save_to_tail, save_to_head}

-- Where the links of a node lead in a world.
abbrev pub next_of : World → ℕ → Option ℕ
next_of w p = Option.map (λ (n : Node). n.next) (live w p)

abbrev pub prev_of : World → ℕ → Option ℕ
prev_of w p = Option.map (λ (n : Node). n.prev) (live w p)

-- The saved links are those that the node has in `w`.
abbrev pub IsSaved : World → SavedNode → Type 0
IsSaved w v = (next_of w v.node ≡ some v.node_next) × (prev_of w v.node ≡ some v.node_prev)

pub record HasEnds (w : World) (list : LinkedList) (start : ℕ) (s : SavedList) : Type 0 where
  pub head_node : s.head.node ≡ list.head
  pub tail_node : s.tail.node ≡ list.tail
  pub point : s.save_point ≡ start
  pub head_saved : IsSaved w s.head
  pub tail_saved : IsSaved w s.tail
  pub first : 0 < s.saved_size → (s.nodes 0).node ≡ start

-- A snapshot from `start` along the links that `link_of` reads: both ends and up to three nodes.
pub record Snapshot (link_of : World → ℕ → Option ℕ) (w : World) (list : LinkedList) (start : ℕ)
    (s : SavedList) : Type 0 where
  pub ends : HasEnds w list start s
  pub size : s.saved_size < 4
  pub saved_0 : 0 < s.saved_size → IsSaved w (s.nodes 0)
  pub saved_1 : 1 < s.saved_size → IsSaved w (s.nodes 1)
  pub saved_2 : 2 < s.saved_size → IsSaved w (s.nodes 2)
  pub link_1 : 1 < s.saved_size → link_of w start ≡ some (s.nodes 1).node
  pub link_2 : 2 < s.saved_size → link_of w (s.nodes 1).node ≡ some (s.nodes 2).node

module _ (list : LinkedList) (size start : ℕ) (s : SavedList) (w : World) {v : SavedList}
    {u : World} where
  pub save_to_tail-Snapshot :
      save_to_tail list size start s w ≡ ok v u → (u ≡ w) × Snapshot next_of w list start v
  unfolding save_to_tail
  save_to_tail-Snapshot h = ground arith

  pub save_to_head-Snapshot :
      save_to_head list size start s w ≡ ok v u → (u ≡ w) × Snapshot prev_of w list start v
  unfolding save_to_head
  save_to_head-Snapshot h = ground arith
