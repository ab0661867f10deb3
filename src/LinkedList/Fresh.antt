-- ===== src/LinkedList/Fresh.antt =====
-- A list just built, saved and compared at once: the set-up of the unit proofs of
-- seahorn/jobs/linked_list_*, with nothing done in between.
use verify_c_common.Base.{ℕ, zero, suc, ◌≡◌, Bool, true, refl, arith}
use verify_c_common.World.{World, ok, Cmd, ◌>>=◌, Ensures}
use verify_c_common.World.Rules.{Ensures-bind}
use verify_c_common.LinkedList.{LinkedList, get_next, get_prev}
use verify_c_common.LinkedList.Init.{init, init_from_head, init_from_tail}
use verify_c_common.LinkedList.Init.Shape.{
  CanInit, Built, LongFromHead, LongFromTail, LongBoth, init-Built, init_from_head-Built,
  init_from_tail-Built,
}
use verify_c_common.LinkedList.Save.{SavedList, save_full, save_to_tail, save_to_head}
use verify_c_common.LinkedList.Check.{unchanged_full, unchanged_to_tail, unchanged_to_head}

pub save_and_check_full : LinkedList → SavedList → ℕ → Cmd Bool
save_and_check_full list s0 n = do
  start ← get_next list.head
  end ← get_prev list.tail
  s ← save_full list n start end s0
  unchanged_full list s

pub save_and_check_tail : LinkedList → SavedList → ℕ → Cmd Bool
save_and_check_tail list s0 n = do
  start ← get_next list.head
  s ← save_to_tail list n start s0
  unchanged_to_tail list s

pub save_and_check_head : LinkedList → SavedList → ℕ → Cmd Bool
save_and_check_head list s0 n = do
  start ← get_prev list.tail
  s ← save_to_head list n start s0
  unchanged_to_head list s

module _ {w u : World} (list : LinkedList) (s0 : SavedList) where
  full_true : (n : ℕ) → Built LongBoth w list n u → save_and_check_full list s0 n u ≡ ok true u
  unfolding save_and_check_full get_next get_prev save_full unchanged_full
  full_true zero b = ground (arith, b.short (omega arith))
  full_true (suc zero) b = ground (arith, b.short (omega arith))
  full_true (suc (suc zero)) b = ground (arith, b.short (omega arith))
  full_true (suc (suc (suc n))) b = ground (arith, b.long (omega arith))

  tail_true : (n : ℕ) → Built LongFromHead w list n u → save_and_check_tail list s0 n u ≡ ok true u
  unfolding save_and_check_tail get_next get_prev save_to_tail unchanged_to_tail
  tail_true zero b = ground (arith, b.short (omega arith))
  tail_true (suc zero) b = ground (arith, b.short (omega arith))
  tail_true (suc (suc zero)) b = ground (arith, b.short (omega arith))
  tail_true (suc (suc (suc n))) b = ground (arith, b.long (omega arith))

  head_true : (n : ℕ) → Built LongFromTail w list n u → save_and_check_head list s0 n u ≡ ok true u
  unfolding save_and_check_head get_next get_prev save_to_head unchanged_to_head
  head_true zero b = ground (arith, b.short (omega arith))
  head_true (suc zero) b = ground (arith, b.short (omega arith))
  head_true (suc (suc zero)) b = ground (arith, b.short (omega arith))
  head_true (suc (suc (suc n))) b = ground (arith, b.long (omega arith))

module _ (w : World) (list : LinkedList) (s0 : SavedList) (can : CanInit w list) where
  -- A list from `sea_nd_init_aws_linked_list`, saved by `aws_linked_list_save_full` from its first
  -- to its last node and compared at once, is found unchanged by `is_aws_list_unchanged_full`; no
  -- run faults, if the allocations succeed.
  pub unchanged_full-init :
      Ensures (λ b _. b ≡ true) ((init list >>= save_and_check_full list s0) w)
  unchanged_full-init =
      Ensures-bind _ _ (init list w) _ (init-Built list w can)
        λ n u b. rw (full_true list s0 n b) refl

  -- A list from `sea_nd_init_aws_linked_list_from_head`, saved by `aws_linked_list_save_to_tail` from
  -- its first node and compared at once, is found unchanged by `is_aws_list_unchanged_to_tail`; no
  -- run faults, if the allocations succeed.
  pub unchanged_to_tail-init :
      Ensures (λ b _. b ≡ true) ((init_from_head list >>= save_and_check_tail list s0) w)
  unchanged_to_tail-init =
      Ensures-bind _ _ (init_from_head list w) _ (init_from_head-Built list w can)
        λ n u b. rw (tail_true list s0 n b) refl

  -- A list from `sea_nd_init_aws_linked_list_from_tail`, saved by `aws_linked_list_save_to_head` from
  -- its last node and compared at once, is found unchanged by `is_aws_list_unchanged_to_head`; no
  -- run faults, if the allocations succeed.
  pub unchanged_to_head-init :
      Ensures (λ b _. b ≡ true) ((init_from_tail list >>= save_and_check_head list s0) w)
  unchanged_to_head-init =
      Ensures-bind _ _ (init_from_tail list w) _ (init_from_tail-Built list w can)
        λ n u b. rw (head_true list s0 n b) refl
