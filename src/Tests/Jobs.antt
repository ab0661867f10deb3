-- ===== src/Tests/Jobs.antt =====
-- The unit proofs of lists with functions that do what aws-c-common documents.
use verify_c_common.Base.{ℕ, ◌↔◌, ◌==◌, Bool, true, false, none, some, if◌then◌else◌}
use verify_c_common.World.{World, Cmd, Ensures, Returns, ◌>>=◌, ◌>>◌}
use verify_c_common.LinkedList.{
  LinkedList, get_next, get_prev, set_next, set_prev, live, attach_after,
}
use verify_c_common.LinkedList.Init.{init_from_tail}
use verify_c_common.LinkedList.Save.{save_to_head}
use verify_c_common.Jobs.{Good}
use verify_c_common.Jobs.LinkedList.{
  saved_to_head, push_back_harness, push_back_assertions, next_is, prev_is, attached, same_to_head,
}
use verify_c_common.Jobs.LinkedList.Ends.{PushedBack, push_back_harness-PushedBack}
use verify_c_common.Jobs.LinkedList.Nodes.{remove_set_up, remove_harness, remove_assertions}
use verify_c_common.Tests.{world_of, three_nodes}

abbrev list : LinkedList
list = record { head = 1; tail = 2 }

-- A list of one node, and a node 4 to add.
abbrev world : World
world = record (world_of 1) {
  nodes = λ p. if p == 4 then some (record { next = 0; prev = 0 }) else three_nodes p;
}

push_back : LinkedList → ℕ → Cmd (Unit {0})
push_back l to_add = do
  last ← get_prev l.tail
  set_next last to_add
  set_prev to_add last
  set_next to_add l.tail
  set_prev l.tail to_add

remove : ℕ → Cmd (Unit {0})
remove node = do
  p ← get_prev node
  n ← get_next node
  set_next p n
  set_prev n p
  set_next node 0
  set_prev node 0

abbrev linked : ℕ → World → Bool
linked p w = elim (live w p) [ none ↦ false | some n ↦ true ]

abbrev is_empty : LinkedList → World → Bool
is_empty l w = elim (live w l.head) [ none ↦ true | some n ↦ n.next == l.tail ]

push_back_harness-PushedBack_example :
    Good (push_back_harness linked linked is_empty list 4 push_back world)
    ↔ Ensures
        (λ saved u.
          Ensures
            (λ _ v. PushedBack linked linked is_empty list 4 saved.1 u v)
            (push_back list 4 u))
        (saved_to_head (get_prev 2) list world)
push_back_harness-PushedBack_example =
    push_back_harness-PushedBack linked linked is_empty list 4 push_back world

-- The runs pass, and are not cut short.
push_back_passes :
    Returns (λ _ _. Unit {0}) (push_back_harness linked linked is_empty list 4 push_back world)
unfolding push_back push_back_harness push_back_assertions saved_to_head next_is prev_is attached
    same_to_head init_from_tail save_to_head get_prev set_next set_prev
push_back_passes = tt

remove_passes : Returns (λ _ _. Unit {0}) (remove_harness 1 3 2 remove world)
unfolding remove remove_harness remove_assertions remove_set_up next_is prev_is attached get_next
    get_prev set_next set_prev attach_after
remove_passes = tt
