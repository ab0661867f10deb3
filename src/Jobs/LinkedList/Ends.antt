-- ===== src/Jobs/LinkedList/Ends.antt =====
-- seahorn/jobs/linked_list_push_back, push_front, pop_back and pop_front: a unit proof passes exactly if the
-- function does what it should in every state that the proof sets up.
use verify_c_common.Base.{ℕ, ◌≡◌, ◌↔◌, Bool, true, some, arith}
use verify_c_common.World.{World, ok, Cmd, Ensures}
use verify_c_common.LinkedList.{LinkedList, get_next, get_prev}
use verify_c_common.LinkedList.Save.{SavedList}
use verify_c_common.LinkedList.Save.Snapshot.{next_of, prev_of}
use verify_c_common.LinkedList.Init.Shape.{Attached, Ends}
use verify_c_common.LinkedList.Check.Sound.{SameToHead, SameToTail}
use verify_c_common.Jobs.{Good, Checks, Checks-seq, Checks-map, harness-Meets}
use verify_c_common.Jobs.LinkedList.{
  saved_to_head, saved_to_tail, push_back_assertions, push_front_assertions, pop_back_assertions,
  pop_front_assertions, before_last, after_first, push_back_harness, push_front_harness,
  pop_back_harness, pop_front_harness,
}
use verify_c_common.Jobs.LinkedList.Rules.{
  next_is-Checks, prev_is-Checks, sassert_of-Checks, attached-Checks, same_to_head-Checks,
  same_to_tail-Checks,
}

module _ (next_is_valid prev_is_valid : ℕ → World → Bool) (is_empty : LinkedList → World → Bool)
    (list : LinkedList) where
  -- From `u` to `v` the node `to_add` came between the saved node and the tail, and towards the head nothing
  -- has changed.
  pub record PushedBack (to_add : ℕ) (s : SavedList) (u v : World) : Type 0 where
    pub ends : Ends v list
    pub valid : (prev_is_valid to_add v ≡ true) × (next_is_valid to_add v ≡ true)
    pub behind : Attached v to_add list.tail
    pub before : Attached v s.save_point to_add
    pub same : SameToHead u v list s

  push_back-Checks :
      (to_add n : ℕ) (s : SavedList) (w u : World)
      → saved_to_head (get_prev list.tail) list w ≡ ok (n, s) u
      → Checks
          (push_back_assertions next_is_valid prev_is_valid is_empty list to_add (n, s) tt)
          (PushedBack to_add s u)
  unfolding push_back_assertions
  push_back-Checks to_add n s w u e =
      Checks-map _ _ (PushedBack to_add s u) (λ v. (λ h. ground arith, λ h. ground arith))
        (Checks-seq _ _ _ _ (prev_is-Checks list.head 0) (
          Checks-seq _ _ _ _ (next_is-Checks list.tail 0) (
            Checks-seq _ _ _ _ (sassert_of-Checks (prev_is_valid to_add)) (
              Checks-seq _ _ _ _ (sassert_of-Checks (next_is_valid to_add)) (
                Checks-seq _ _ _ _ (attached-Checks to_add list.tail) (
                  Checks-seq _ _ _ _ (attached-Checks s.save_point to_add)
                    (same_to_head-Checks list (get_prev list.tail) w e)))))))

  -- What the unit proof of `aws_linked_list_push_back` shows: nothing goes wrong in a run of it exactly if
  -- the function, in the state that the run has set up, puts the node between the last one and the tail,
  -- so that both are attached and aws-c-common finds its links valid, and changes nothing else from there
  -- to the head, as far as it is saved.
  pub push_back_harness-PushedBack :
      (to_add : ℕ) (push_back : LinkedList → ℕ → Cmd (Unit {0})) (w : World)
      → Good (push_back_harness next_is_valid prev_is_valid is_empty list to_add push_back w)
        ↔ Ensures
            (λ saved u. Ensures (λ _ v. PushedBack to_add saved.1 u v) (push_back list to_add u))
            (saved_to_head (get_prev list.tail) list w)
  unfolding push_back_harness
  push_back_harness-PushedBack to_add push_back w =
      harness-Meets (saved_to_head (get_prev list.tail) list w) (push_back list to_add)
        (λ saved u _ v. PushedBack to_add saved.1 u v)
        (push_back_assertions next_is_valid prev_is_valid is_empty list to_add)
        (λ saved u e _. push_back-Checks to_add saved.0 saved.1 w u e)

  -- From `u` to `v` the node `to_add` came between the head and the saved node.
  pub record PushedFront (to_add : ℕ) (s : SavedList) (u v : World) : Type 0 where
    pub ends : Ends v list
    pub valid : (prev_is_valid to_add v ≡ true) × (next_is_valid to_add v ≡ true)
    pub behind : Attached v list.head to_add
    pub before : Attached v to_add s.save_point
    pub same : SameToTail u v list s

  push_front-Checks :
      (to_add n : ℕ) (s : SavedList) (w u : World)
      → saved_to_tail (get_next list.head) list w ≡ ok (n, s) u
      → Checks
          (push_front_assertions next_is_valid prev_is_valid is_empty list to_add (n, s) tt)
          (PushedFront to_add s u)
  unfolding push_front_assertions
  push_front-Checks to_add n s w u e =
      Checks-map _ _ (PushedFront to_add s u) (λ v. (λ h. ground arith, λ h. ground arith))
        (Checks-seq _ _ _ _ (next_is-Checks list.tail 0) (
          Checks-seq _ _ _ _ (prev_is-Checks list.head 0) (
            Checks-seq _ _ _ _ (sassert_of-Checks (prev_is_valid to_add)) (
              Checks-seq _ _ _ _ (sassert_of-Checks (next_is_valid to_add)) (
                Checks-seq _ _ _ _ (attached-Checks list.head to_add) (
                  Checks-seq _ _ _ _ (attached-Checks to_add s.save_point)
                    (same_to_tail-Checks list (get_next list.head) w e)))))))

  -- What the unit proof of `aws_linked_list_push_front` shows: nothing goes wrong in a run of it exactly
  -- if the function, in the state that the run has set up, puts the node between the head and the first
  -- one, and changes nothing else from there to the tail, as far as it is saved.
  pub push_front_harness-PushedFront :
      (to_add : ℕ) (push_front : LinkedList → ℕ → Cmd (Unit {0})) (w : World)
      → Good (push_front_harness next_is_valid prev_is_valid is_empty list to_add push_front w)
        ↔ Ensures
            (λ saved u. Ensures (λ _ v. PushedFront to_add saved.1 u v) (push_front list to_add u))
            (saved_to_tail (get_next list.head) list w)
  unfolding push_front_harness
  push_front_harness-PushedFront to_add push_front w =
      harness-Meets (saved_to_tail (get_next list.head) list w) (push_front list to_add)
        (λ saved u _ v. PushedFront to_add saved.1 u v)
        (push_front_assertions next_is_valid prev_is_valid is_empty list to_add)
        (λ saved u e _. push_front-Checks to_add saved.0 saved.1 w u e)

  -- From `u` to `v` the node `ret` was taken out at the tail.
  pub record PoppedBack (s : SavedList) (u : World) (ret : ℕ) (v : World) : Type 0 where
    pub detached : (next_of v ret ≡ some 0) × (prev_of v ret ≡ some 0)
    pub before : Attached v s.save_point list.tail
    pub ends : Ends v list
    pub same : SameToHead u v list s

  pop_back-Checks :
      (n : ℕ) (s : SavedList) (w u : World) (ret : ℕ)
      → saved_to_head (before_last next_is_valid prev_is_valid is_empty list) list w ≡ ok (n, s) u
      → Checks
          (pop_back_assertions next_is_valid prev_is_valid is_empty list (n, s) ret)
          (PoppedBack s u ret)
  unfolding pop_back_assertions
  pop_back-Checks n s w u ret e =
      let start = before_last next_is_valid prev_is_valid is_empty list in
      Checks-map _ _ (PoppedBack s u ret) (λ v. (λ h. ground arith, λ h. ground arith))
        (Checks-seq _ _ _ _ (next_is-Checks ret 0) (
          Checks-seq _ _ _ _ (prev_is-Checks ret 0) (
            Checks-seq _ _ _ _ (attached-Checks s.save_point list.tail) (
              Checks-seq _ _ _ _ (prev_is-Checks list.head 0) (
                Checks-seq _ _ _ _ (next_is-Checks list.tail 0)
                  (same_to_head-Checks list start w e))))))

  -- What the unit proof of `aws_linked_list_pop_back` shows: nothing goes wrong in a run of it exactly if
  -- the function, on the list that the run has set up and that is not empty, returns a node whose links are
  -- NULL, attaches the node before it to the tail, and changes nothing else from there to the head, as
  -- far as it is saved.
  pub pop_back_harness-PoppedBack :
      (pop_back : LinkedList → Cmd ℕ) (w : World)
      → Good (pop_back_harness next_is_valid prev_is_valid is_empty list pop_back w)
        ↔ Ensures
            (λ saved u. Ensures (PoppedBack saved.1 u) (pop_back list u))
            (saved_to_head (before_last next_is_valid prev_is_valid is_empty list) list w)
  unfolding pop_back_harness
  pop_back_harness-PoppedBack pop_back w =
      harness-Meets (saved_to_head (before_last next_is_valid prev_is_valid is_empty list) list w)
        (pop_back list) (λ saved u. PoppedBack saved.1 u)
        (pop_back_assertions next_is_valid prev_is_valid is_empty list)
        (λ saved u e ret. pop_back-Checks saved.0 saved.1 w u ret e)

  -- From `u` to `v` the node `ret` was taken out at the head.
  pub record PoppedFront (s : SavedList) (u : World) (ret : ℕ) (v : World) : Type 0 where
    pub detached : (next_of v ret ≡ some 0) × (prev_of v ret ≡ some 0)
    pub before : Attached v list.head s.save_point
    pub ends : Ends v list
    pub same : SameToTail u v list s

  pop_front-Checks :
      (n : ℕ) (s : SavedList) (w u : World) (ret : ℕ)
      → saved_to_tail (after_first next_is_valid prev_is_valid is_empty list) list w ≡ ok (n, s) u
      → Checks
          (pop_front_assertions next_is_valid prev_is_valid is_empty list (n, s) ret)
          (PoppedFront s u ret)
  unfolding pop_front_assertions
  pop_front-Checks n s w u ret e =
      let start = after_first next_is_valid prev_is_valid is_empty list in
      Checks-map _ _ (PoppedFront s u ret) (λ v. (λ h. ground arith, λ h. ground arith))
        (Checks-seq _ _ _ _ (next_is-Checks ret 0) (
          Checks-seq _ _ _ _ (prev_is-Checks ret 0) (
            Checks-seq _ _ _ _ (attached-Checks list.head s.save_point) (
              Checks-seq _ _ _ _ (prev_is-Checks list.head 0) (
                Checks-seq _ _ _ _ (next_is-Checks list.tail 0)
                  (same_to_tail-Checks list start w e))))))

  -- What the unit proof of `aws_linked_list_pop_front` shows: nothing goes wrong in a run of it exactly if
  -- the function, on the list that the run has set up and that is not empty, returns a node whose links are
  -- NULL, attaches the head to the node behind it, and changes nothing else from there to the tail, as
  -- far as it is saved.
  pub pop_front_harness-PoppedFront :
      (pop_front : LinkedList → Cmd ℕ) (w : World)
      → Good (pop_front_harness next_is_valid prev_is_valid is_empty list pop_front w)
        ↔ Ensures
            (λ saved u. Ensures (PoppedFront saved.1 u) (pop_front list u))
            (saved_to_tail (after_first next_is_valid prev_is_valid is_empty list) list w)
  unfolding pop_front_harness
  pop_front_harness-PoppedFront pop_front w =
      harness-Meets (saved_to_tail (after_first next_is_valid prev_is_valid is_empty list) list w)
        (pop_front list) (λ saved u. PoppedFront saved.1 u)
        (pop_front_assertions next_is_valid prev_is_valid is_empty list)
        (λ saved u e ret. pop_front-Checks saved.0 saved.1 w u ret e)
