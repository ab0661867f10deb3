-- ===== src/LinkedList.antt =====
-- seahorn/lib/linked_list_helper.c: the accessors of nodes, and `aws_linked_list_attach_after` with
-- its test. A `struct aws_linked_list` is given by the addresses of the two nodes inside it.
pub mod Fresh
pub mod Init
pub mod Save
pub mod Check
use verify_c_common.Base.{
  ℕ, suc, ◌+◌, ◌%◌, ◌^◌, Bool, true, false, Option, none, some, ◌==◌, not, if◌then◌else◌,
}
use verify_c_common.World.{
  Node, World, Outcome, ok, pruned, failed, fault, Cmd, pure, ◌>>=◌, ◌>>◌, assume, crash, advance,
  update,
}

pub record LinkedList : Type 0 where
  pub head : ℕ
  pub tail : ℕ

abbrev pub node : ℕ → ℕ → Node
node n p = record { next = n; prev = p }

-- The effect of `f` on a live node; no node lives at NULL.
abbrev pub with_node : {A : Type 0} → Option Node → (Node → Cmd A) → Cmd A
with_node none f = crash
with_node (some n) f = f n

abbrev pub live : World → ℕ → Option Node
live w p = if p == 0 then none else w.nodes p

abbrev pub put_node : ℕ → Node → Cmd (Unit {0})
put_node p n w = ok tt (record w { nodes = update w.nodes p (some n) })

unfoldable pub get_next : ℕ → Cmd ℕ
get_next p w = with_node (live w p) (λ n. pure n.next) w

unfoldable pub get_prev : ℕ → Cmd ℕ
get_prev p w = with_node (live w p) (λ n. pure n.prev) w

unfoldable pub set_next : ℕ → ℕ → Cmd (Unit {0})
set_next p v w = with_node (live w p) (λ n. put_node p (record n { next = v })) w

unfoldable pub set_prev : ℕ → ℕ → Cmd (Unit {0})
set_prev p v w = with_node (live w p) (λ n. put_node p (record n { prev = v })) w

-- `malloc(sizeof(struct aws_linked_list_node))`: NULL, or the address of a new node.
pub malloc_node : Cmd ℕ
malloc_node w =
    if w.oom w.fresh
    then ok 0 (record w { fresh = suc w.fresh })
    else ok (suc w.fresh) (record w {
      fresh = suc w.fresh;
      nodes =
          update w.nodes (suc w.fresh)
            (some (node (w.junk (suc w.fresh) 0) (w.junk (suc w.fresh) 1)));
    })

-- Any address.
pub nd_linked_list_node : Cmd ℕ
nd_linked_list_node w = ok (w.tape w.pos % 2 ^ 64) (advance 1 w)

unfoldable pub attach_after : (after to_attach : ℕ) → (directly_attached : Bool) → Cmd (Unit {0})
unfolding get_next get_prev set_next set_prev nd_linked_list_node
attach_after after to_attach true = do set_next after to_attach; set_prev to_attach after
attach_after after to_attach false = do
  n ← nd_linked_list_node
  set_next after n
  n' ← get_next after
  assume (not (n' == 0))
  p ← nd_linked_list_node
  set_prev to_attach p
  p' ← get_prev to_attach
  assume (not (p' == 0))

-- `a && b` where the tests read the heap: `b` is run only if `a` holds.
abbrev pub and_true : Outcome Bool → Cmd Bool → Outcome Bool
and_true (ok true w) b = b w
and_true (ok false w) b = ok false w
and_true pruned b = pruned
and_true failed b = failed
and_true fault b = fault

abbrev pub and_also : Cmd Bool → Cmd Bool → Cmd Bool
and_also a b w = and_true (a w) b

unfoldable pub is_attached_after : (after to_attach : ℕ) → Cmd Bool
unfolding get_next get_prev
is_attached_after after to_attach =
    and_also (do n ← get_next after; pure (n == to_attach))
      (do p ← get_prev to_attach; pure (p == after))
