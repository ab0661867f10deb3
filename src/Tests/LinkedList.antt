-- ===== src/Tests/LinkedList.antt =====
-- Lists of seahorn/lib/linked_list_helper.c: two nodes to build on, and a list of one node to save.
use verify_c_common.Base.{◌≡◌, ◌↔◌, refl, true, arith}
use verify_c_common.World.{World, ok, update, ◌>>=◌, Ensures}
use verify_c_common.LinkedList.{LinkedList}
use verify_c_common.LinkedList.Init.{init}
use verify_c_common.LinkedList.Init.Shape.{CanInit, Built, LongBoth, init-Built}
use verify_c_common.LinkedList.Save.{SavedNode, SavedList, save_full, save_to_tail}
use verify_c_common.LinkedList.Check.{unchanged_full, unchanged_to_tail}
use verify_c_common.LinkedList.Check.Sound.{SameToTail, unchanged_to_tail-save_to_tail}
use verify_c_common.LinkedList.Check.Full.{SameBetween, unchanged_full-save_full}
use verify_c_common.LinkedList.Fresh.{save_and_check_full, unchanged_full-init}
use verify_c_common.Tests.{world_of}

abbrev list : LinkedList
list = record { head = 1; tail = 2 }

abbrev world : World
world = world_of 5

can_init : CanInit world list
can_init = record {
  head_live = ground arith;
  tail_live = ground arith;
  apart = ground arith;
  head_old = omega arith;
  tail_old = omega arith;
  first = refl;
  second = refl;
}

abbrev no_node : SavedNode
no_node = record { node = 0; node_prev = 0; node_next = 0 }

abbrev no_list : SavedList
no_list = record {
  saved_size = 0;
  save_point = 0;
  save_point_end = 0;
  head = no_node;
  tail = no_node;
  nodes = λ i. no_node;
}

init-Built_example : Ensures (Built LongBoth world list) (init list world)
init-Built_example = init-Built list world can_init

unchanged_full-init_example :
    Ensures (λ b _. b ≡ true) ((init list >>= save_and_check_full list no_list) world)
unchanged_full-init_example = unchanged_full-init world list no_list can_init

-- What the three functions save of the list of one node.
abbrev one_saved : SavedList
one_saved = record {
  saved_size = 1;
  save_point = 3;
  save_point_end = 0;
  head = record { node = 1; node_prev = 0; node_next = 3 };
  tail = record { node = 2; node_prev = 3; node_next = 0 };
  nodes = update no_list.nodes 0 (record { node = 3; node_prev = 1; node_next = 2 });
}

to_tail_saved : save_to_tail list 1 3 no_list world ≡ ok one_saved world
unfolding save_to_tail
to_tail_saved = refl

unchanged_to_tail-save_to_tail_example :
    (unchanged_to_tail list one_saved world ≡ ok true world) ↔ SameToTail world world list one_saved
unchanged_to_tail-save_to_tail_example =
    unchanged_to_tail-save_to_tail list 1 3 no_list one_saved world world world to_tail_saved

-- From the head on two nodes are saved.
abbrev both_saved : SavedList
both_saved = record {
  saved_size = 2;
  save_point = 1;
  save_point_end = 3;
  head = record { node = 1; node_prev = 0; node_next = 3 };
  tail = record { node = 2; node_prev = 3; node_next = 0 };
  nodes =
      update (update no_list.nodes 0 (record { node = 1; node_prev = 0; node_next = 3 })) 1
        (record { node = 3; node_prev = 1; node_next = 2 });
}

full_saved : save_full list 0 1 3 no_list world ≡ ok both_saved world
unfolding save_full
full_saved = refl

full_unchanged : unchanged_full list both_saved world ≡ ok true world
unfolding unchanged_full
full_unchanged = refl

unchanged_full-save_full_example : SameBetween world world 1 3 both_saved
unchanged_full-save_full_example =
    unchanged_full-save_full list 0 1 3 no_list both_saved world world world refl full_saved
      full_unchanged
