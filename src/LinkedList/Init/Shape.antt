-- ===== src/LinkedList/Init/Shape.antt =====
-- What the lists of seahorn/lib/linked_list_helper.c look like when they are built.
use mathlib.Core.Bool.{false≢true}
use verify_c_common.Base.{
  ℕ, zero, suc, ◌%◌, ◌^◌, ◌≤◌, ◌<◌, ◌≡◌, ◌≢◌, false, inl, inr, leb, leb→le, le→leb, Bool-cases,
  if◌then◌else◌, none, some, arith,
}
use verify_c_common.World.{World, Cmd, ◌>>=◌, and_then, advance, Ensures}
use verify_c_common.World.Rules.{Ensures-bind, Ensures-mono}
use verify_c_common.LinkedList.{LinkedList, live}
use verify_c_common.LinkedList.Init.{
  init_ends, init_short, two_nodes, link_from_head, link_from_tail, link_both, init_with,
  init_from_head, init_from_tail, init,
}
use verify_c_common.LinkedList.Save.Snapshot.{next_of, prev_of}

-- The two nodes of the list are allocated, and the next two allocations succeed.
pub record CanInit (w : World) (list : LinkedList) : Type 0 where
  pub head_live : live w list.head ≢ none
  pub tail_live : live w list.tail ≢ none
  pub apart : list.head ≢ list.tail
  pub head_old : list.head ≤ w.fresh
  pub tail_old : list.tail ≤ w.fresh
  pub first : w.oom w.fresh ≡ false
  pub second : w.oom (suc w.fresh) ≡ false

abbrev pub Attached : World → ℕ → ℕ → Type 0
Attached w a b = (next_of w a ≡ some b) × (prev_of w b ≡ some a)

-- A list of at most two nodes `f` and `g`, in this order.
pub record Short (w : World) (list : LinkedList) (f g n : ℕ) : Type 0 where
  pub head_prev : prev_of w list.head ≡ some 0
  pub tail_next : next_of w list.tail ≡ some 0
  pub zero_nodes : n ≡ 0 → Attached w list.head list.tail
  pub one_node : n ≡ 1 → Attached w list.head f × Attached w f list.tail
  pub two_nodes : n ≡ 2 → Attached w list.head f × Attached w f g × Attached w g list.tail

abbrev pub first_node : World → ℕ
first_node w = suc w.fresh

abbrev pub second_node : World → ℕ
second_node w = suc (suc w.fresh)

-- The lists of more than two nodes: what is laid out, and that the open ends are not NULL.
pub record LongFromHead (w : World) (list : LinkedList) (f g : ℕ) : Type 0 where
  pub head_front : Attached w list.head f
  pub front_next : Attached w f g
  pub open_next : (next_of w g ≢ none) × (next_of w g ≢ some 0)
  pub open_prev : (prev_of w list.tail ≢ none) × (prev_of w list.tail ≢ some 0)

pub record LongFromTail (w : World) (list : LinkedList) (b p : ℕ) : Type 0 where
  pub back_tail : Attached w b list.tail
  pub prev_back : Attached w p b
  pub open_next : (next_of w list.head ≢ none) × (next_of w list.head ≢ some 0)
  pub open_prev : (prev_of w p ≢ none) × (prev_of w p ≢ some 0)

pub record LongBoth (w : World) (list : LinkedList) (f b : ℕ) : Type 0 where
  pub head_front : Attached w list.head f
  pub back_tail : Attached w b list.tail
  pub open_next : (next_of w f ≢ none) × (next_of w f ≢ some 0)
  pub open_prev : (prev_of w b ≢ none) × (prev_of w b ≢ some 0)

-- HEAD.prev and TAIL.next are NULL.
abbrev pub Ends : World → LinkedList → Type 0
Ends w list = (prev_of w list.head ≡ some 0) × (next_of w list.tail ≡ some 0)

-- The four nodes of a long list are allocated and apart.
record Four (w : World) (list : LinkedList) (a b : ℕ) : Type 0 where
  live_head : live w list.head ≢ none
  live_tail : live w list.tail ≢ none
  live_a : live w a ≢ none
  live_b : live w b ≢ none
  head_tail : list.head ≢ list.tail
  head_a : list.head ≢ a
  head_b : list.head ≢ b
  tail_a : list.tail ≢ a
  tail_b : list.tail ≢ b
  a_b : a ≢ b

module _ {w : World} {list : LinkedList} (can : CanInit w list) where
  init_short-zero :
      Ensures (λ _ u. Short u list (first_node w) (second_node w) 0) (init_short list 0 w)
  unfolding init_short
  init_short-zero = ground arith

  init_short-one :
      Ensures (λ _ u. Short u list (first_node w) (second_node w) 1) (init_short list 1 w)
  unfolding init_short
  init_short-one = ground arith

  init_short-two :
      Ensures (λ _ u. Short u list (first_node w) (second_node w) 2) (init_short list 2 w)
  unfolding init_short
  init_short-two = ground arith

  init_ends-CanInit :
      Ensures
        (λ _ u.
          CanInit u list × (u.fresh ≡ w.fresh) × (u.tape ≡ w.tape) × (u.pos ≡ w.pos) × Ends u list)
        (init_ends list w)
  unfolding init_ends
  init_ends-CanInit = ground arith

  two_nodes-Four :
      Ends w list
      → Ensures
          (λ (a, b) u. (a ≡ first_node w) × (b ≡ second_node w) × Four u list a b × Ends u list)
          (two_nodes w)
  unfolding two_nodes
  two_nodes-Four e = ground arith

module _ {w : World} {list : LinkedList} {a b : ℕ} (four : Four w list a b)
    (ends : Ends w list) where
  link_from_head-ok :
      Ensures (λ _ u. LongFromHead u list a b × Ends u list) (link_from_head list a b w)
  unfolding link_from_head
  link_from_head-ok = ground arith

  link_from_tail-ok :
      Ensures (λ _ u. LongFromTail u list a b × Ends u list) (link_from_tail list a b w)
  unfolding link_from_tail
  link_from_tail-ok = ground arith

  link_both-ok : Ensures (λ _ u. LongBoth u list a b × Ends u list) (link_both list a b w)
  unfolding link_both
  link_both-ok = ground arith

can_advance : {w : World} {list : LinkedList} → CanInit w list → CanInit (advance 1 w) list
can_advance c = ground arith

init_short-Short :
    {w : World} {list : LinkedList} (n : ℕ)
    → CanInit w list
    → n ≤ 2
    → Ensures (λ _ u. Short u list (first_node w) (second_node w) n) (init_short list n w)
init_short-Short zero can h = init_short-zero can
init_short-Short (suc zero) can h = init_short-one can
init_short-Short (suc (suc zero)) can h = init_short-two can
init_short-Short (suc (suc (suc n))) can h = absurd (omega arith)

-- The list that a run from `w` has built, with the length that it chose: `Long` says how a list of
-- more than two nodes looks.
pub record Built (Long : World → LinkedList → ℕ → ℕ → Type 0) (w : World) (list : LinkedList)
    (n : ℕ) (u : World) : Type 0 where
  pub chosen : n ≡ w.tape w.pos % 2 ^ 64
  pub short : n ≤ 2 → Short u list (first_node w) (second_node w) n
  pub long : 2 < n → Long u list (first_node w) (second_node w) × Ends u list

module _ (Long : World → LinkedList → ℕ → ℕ → Type 0) (link : LinkedList → ℕ → ℕ → Cmd (Unit {0}))
    (list : LinkedList)
    (link-ok : (v : World) (a b : ℕ)
      → Four v list a b
      → Ends v list
      → Ensures (λ _ u. Long u list a b × Ends u list) (link list a b v)) where
  long_run :
      (w : World)
      → CanInit w list
      → Ends w list
      → Ensures
          (λ _ u. Long u list (first_node w) (second_node w) × Ends u list)
          (and_then (two_nodes w) (λ (a, b). link list a b))
  long_run w can e =
      Ensures-bind _ _ (two_nodes w) _ (two_nodes-Four can e)
        λ (a, b) u h. rw (← h.1, ← h.0) (link-ok u a b h.2 h.3)

  -- The choice by length, from the world `v` in which the ends are set.
  body_run :
      (v : World) (n : ℕ)
      → CanInit v list
      → Ends v list
      → Ensures
          (λ _ u.
            (n ≤ 2 → Short u list (first_node v) (second_node v) n)
            × (2 < n → Long u list (first_node v) (second_node v) × Ends u list))
          ((if leb n 2 then init_short list n else (two_nodes >>= λ (a, b). link list a b)) v)
  body_run v n can e = elim (Bool-cases (leb n 2)) [
    | inl le ↦ rw le (
        Ensures-mono _ _ (init_short list n v) (init_short-Short n can (leb→le n 2 le))
          λ _ u s. ((λ _. s), (λ gt. absurd (omega (arith, leb→le n 2 le)))))
    | inr more ↦ rw more (
        Ensures-mono _ _ (and_then (two_nodes v) (λ (a, b). link list a b)) (long_run v can e)
          λ _ u l. ((λ le. absurd (false≢true (rw (← more) (le→leb n 2 le)))), (λ _. l)))
  ]

  init_with-Built :
      (w : World) → CanInit w list → Ensures (Built Long w list) (init_with link list w)
  unfolding init_with
  init_with-Built w can =
      Ensures-bind _ _ (init_ends list w) _ (init_ends-CanInit can)
        λ _ u (can', fresh, tape, pos, e).
          let n = u.tape u.pos % 2 ^ 64 in
          Ensures-bind _ _
            ((if leb n 2 then init_short list n else (two_nodes >>= λ (a, b). link list a b))
              (advance 1 u))
            _ (body_run (advance 1 u) n (can_advance can') e)
            λ _ v (s, l). record {
              chosen = rw (tape, pos);
              short = rw (← fresh) s;
              long = rw (← fresh) l;
            }

module _ (list : LinkedList) (w : World) (can : CanInit w list) where
  -- `sea_nd_init_aws_linked_list_from_head` faults in no run, if its allocations succeed: it chooses
  -- any `size_t` as the length, links head, tail and up to two nodes both ways for a length of at
  -- most two, and for a longer list head, front and the node behind it, with the two open ends not
  -- NULL.
  pub init_from_head-Built : Ensures (Built LongFromHead w list) (init_from_head list w)
  unfolding init_from_head
  init_from_head-Built =
      init_with-Built LongFromHead link_from_head list (λ v a b f e. link_from_head-ok f e) w can

  -- `sea_nd_init_aws_linked_list_from_tail` faults in no run, if its allocations succeed: it chooses
  -- any `size_t` as the length, links head, tail and up to two nodes both ways for a length of at
  -- most two, and for a longer list tail, back and the node before it, with the two open ends not
  -- NULL.
  pub init_from_tail-Built : Ensures (Built LongFromTail w list) (init_from_tail list w)
  unfolding init_from_tail
  init_from_tail-Built =
      init_with-Built LongFromTail link_from_tail list (λ v a b f e. link_from_tail-ok f e) w can

  -- `sea_nd_init_aws_linked_list` faults in no run, if its allocations succeed: it chooses any
  -- `size_t` as the length, links head, tail and up to two nodes both ways for a length of at most
  -- two, and for a longer list links head with the front and the back with tail, with the two open
  -- ends not NULL.
  pub init-Built : Ensures (Built LongBoth w list) (init list w)
  unfolding init
  init-Built = init_with-Built LongBoth link_both list (λ v a b f e. link_both-ok f e) w can
