-- ===== src/Jobs/LinkedList/Reads.antt =====
-- seahorn/jobs/linked_list_front, back, begin, end, rbegin and rend: the functions that return a node of the
-- list and change nothing.
use verify_c_common.Base.{ℕ, ◌≡◌, ◌↔◌, ◌⊎◌, Bool, true, not, ◌||◌, ◌==◌, ltb, some, arith}
use verify_c_common.World.{
  World, Outcome, ok, pruned, failed, fault, Cmd, and_then, pure, ◌>>◌, Ensures,
}
use verify_c_common.LinkedList.{LinkedList}
use verify_c_common.LinkedList.Save.{SavedList}
use verify_c_common.LinkedList.Save.Snapshot.{next_of, prev_of}
use verify_c_common.LinkedList.Check.Sound.{SameToHead, SameToTail}
use verify_c_common.Jobs.{Good, Checks, Checks-seq, Checks-map, harness, harness-Meets}
use verify_c_common.Jobs.LinkedList.{
  saved_to_head, saved_to_tail, next_is, prev_is, sassert_of, assume_of, same_to_head, same_to_tail,
}
use verify_c_common.Jobs.LinkedList.Rules.{
  next_is-Checks, prev_is-Checks, sassert_of-Checks, same_to_head-Checks, same_to_tail-Checks,
}

abbrev then_assume : {S : Type 0} → (World → Bool) → S → Cmd S
then_assume test x = do assume_of test; pure x

settled :
    {S : Type 0} (test : World → Bool) (r : Outcome S) {x : S} {u : World}
    → and_then r (then_assume test) ≡ ok x u
    → r ≡ ok x u
settled test (ok x' u') e = ground arith
settled test pruned e = cc
settled test failed e = cc
settled test fault e = cc

module _ (next_is_valid prev_is_valid : ℕ → World → Bool) (is_empty : LinkedList → World → Bool)
    (list : LinkedList) where
  unfoldable pub front_assertions : ℕ × SavedList → (front : ℕ) → Cmd (Unit {0})
  front_assertions (size, s) front = do
    next_is list.head front
    sassert_of (prev_is_valid front)
    sassert_of (next_is_valid front)
    same_to_tail list s

  unfoldable pub front_harness : (LinkedList → Cmd ℕ) → World → Outcome (Unit {0})
  front_harness front w =
      harness
        (and_then (saved_to_tail (pure list.head) list w)
          (then_assume (λ u. not (is_empty list u))))
        (front list) front_assertions

  unfoldable pub back_assertions : ℕ × SavedList → (back : ℕ) → Cmd (Unit {0})
  back_assertions (size, s) back = do prev_is list.tail back; same_to_head list s

  unfoldable pub back_harness : (LinkedList → Cmd ℕ) → World → Outcome (Unit {0})
  back_harness back w =
      harness
        (and_then (saved_to_head (pure list.tail) list w)
          (then_assume (λ u. not (is_empty list u))))
        (back list) back_assertions

  unfoldable pub begin_assertions : ℕ × SavedList → (begin : ℕ) → Cmd (Unit {0})
  begin_assertions (size, s) begin = do next_is list.head begin; same_to_tail list s

  unfoldable pub begin_harness : (LinkedList → Cmd ℕ) → World → Outcome (Unit {0})
  begin_harness begin w =
      harness (saved_to_tail (pure list.head) list w) (begin list) begin_assertions

  unfoldable pub end_assertions : ℕ × SavedList → (end : ℕ) → Cmd (Unit {0})
  end_assertions (size, s) end = do sassert_of (λ v. end == list.tail); same_to_head list s

  unfoldable pub end_harness : (LinkedList → Cmd ℕ) → World → Outcome (Unit {0})
  end_harness end w = harness (saved_to_head (pure list.tail) list w) (end list) end_assertions

  unfoldable pub rbegin_assertions : ℕ × SavedList → (rbegin : ℕ) → Cmd (Unit {0})
  rbegin_assertions (size, s) rbegin = do
    prev_is list.tail rbegin
    sassert_of (next_is_valid rbegin)
    sassert_of (λ v. ltb 0 size || (rbegin == list.head))
    sassert_of (λ v. (rbegin == list.head) || prev_is_valid rbegin v)
    same_to_head list s

  unfoldable pub rbegin_harness : (LinkedList → Cmd ℕ) → World → Outcome (Unit {0})
  rbegin_harness rbegin w =
      harness (saved_to_head (pure list.tail) list w) (rbegin list) rbegin_assertions

  unfoldable pub rend_assertions : ℕ × SavedList → (rend : ℕ) → Cmd (Unit {0})
  rend_assertions (size, s) rend = do
    sassert_of (λ v. rend == list.head)
    sassert_of (next_is_valid rend)
    same_to_tail list s

  unfoldable pub rend_harness : (LinkedList → Cmd ℕ) → World → Outcome (Unit {0})
  rend_harness rend w = harness (saved_to_tail (pure list.head) list w) (rend list) rend_assertions

  pub record FirstNode (s : SavedList) (u : World) (front : ℕ) (v : World) : Type 0 where
    pub link : next_of v list.head ≡ some front
    pub valid : (prev_is_valid front v ≡ true) × (next_is_valid front v ≡ true)
    pub same : SameToTail u v list s

  front-Checks :
      (n : ℕ) (s : SavedList) (w u : World) (front : ℕ)
      → saved_to_tail (pure list.head) list w ≡ ok (n, s) u
      → Checks (front_assertions (n, s) front) (FirstNode s u front)
  unfolding front_assertions
  front-Checks n s w u front e =
      Checks-map _ _ (FirstNode s u front) (λ v. (λ h. ground arith, λ h. ground arith))
        (Checks-seq _ _ _ _ (next_is-Checks list.head front) (
          Checks-seq _ _ _ _ (sassert_of-Checks (prev_is_valid front)) (
            Checks-seq _ _ _ _ (sassert_of-Checks (next_is_valid front))
              (same_to_tail-Checks list (pure list.head) w e))))

  pub record LastNode (s : SavedList) (u : World) (back : ℕ) (v : World) : Type 0 where
    pub link : prev_of v list.tail ≡ some back
    pub same : SameToHead u v list s

  back-Checks :
      (n : ℕ) (s : SavedList) (w u : World) (back : ℕ)
      → saved_to_head (pure list.tail) list w ≡ ok (n, s) u
      → Checks (back_assertions (n, s) back) (LastNode s u back)
  unfolding back_assertions
  back-Checks n s w u back e =
      Checks-map _ _ (LastNode s u back) (λ v. (λ h. ground arith, λ h. ground arith))
        (Checks-seq _ _ _ _ (prev_is-Checks list.tail back)
          (same_to_head-Checks list (pure list.tail) w e))

  pub record LastOrHead (n : ℕ) (s : SavedList) (u : World) (rbegin : ℕ) (v : World) : Type 0 where
    pub last : LastNode s u rbegin v
    pub next_valid : next_is_valid rbegin v ≡ true
    pub empty : n ≡ 0 → rbegin ≡ list.head
    pub prev_valid : (rbegin ≡ list.head) ⊎ (prev_is_valid rbegin v ≡ true)

  rbegin-Checks :
      (n : ℕ) (s : SavedList) (w u : World) (rbegin : ℕ)
      → saved_to_head (pure list.tail) list w ≡ ok (n, s) u
      → Checks (rbegin_assertions (n, s) rbegin) (LastOrHead n s u rbegin)
  unfolding rbegin_assertions
  rbegin-Checks n s w u rbegin e =
      Checks-map _ _ (LastOrHead n s u rbegin) (λ v. (λ h. ground arith, λ h. ground arith))
        (Checks-seq _ _ _ _ (prev_is-Checks list.tail rbegin) (
          Checks-seq _ _ _ _ (sassert_of-Checks (next_is_valid rbegin)) (
            Checks-seq _ _ _ _ (sassert_of-Checks (λ v. ltb 0 n || (rbegin == list.head))) (
              Checks-seq _ _ _ _
                (sassert_of-Checks (λ v. (rbegin == list.head) || prev_is_valid rbegin v))
                (same_to_head-Checks list (pure list.tail) w e)))))

  begin-Checks :
      (n : ℕ) (s : SavedList) (w u : World) (begin : ℕ)
      → saved_to_tail (pure list.head) list w ≡ ok (n, s) u
      → Checks
          (begin_assertions (n, s) begin)
          (λ v. (next_of v list.head ≡ some begin) × SameToTail u v list s)
  unfolding begin_assertions
  begin-Checks n s w u begin e =
      Checks-seq _ _ _ _ (next_is-Checks list.head begin)
        (same_to_tail-Checks list (pure list.head) w e)

  end-Checks :
      (n : ℕ) (s : SavedList) (w u : World) (end : ℕ)
      → saved_to_head (pure list.tail) list w ≡ ok (n, s) u
      → Checks (end_assertions (n, s) end) (λ v. (end ≡ list.tail) × SameToHead u v list s)
  unfolding end_assertions
  end-Checks n s w u end e =
      Checks-map _ _ (λ v. (end ≡ list.tail) × SameToHead u v list s)
        (λ v. (λ h. ground arith, λ h. ground arith))
        (Checks-seq _ _ _ _ (sassert_of-Checks (λ v. end == list.tail))
          (same_to_head-Checks list (pure list.tail) w e))

  rend-Checks :
      (n : ℕ) (s : SavedList) (w u : World) (rend : ℕ)
      → saved_to_tail (pure list.head) list w ≡ ok (n, s) u
      → Checks
          (rend_assertions (n, s) rend)
          (λ v. (rend ≡ list.head) × (next_is_valid rend v ≡ true) × SameToTail u v list s)
  unfolding rend_assertions
  rend-Checks n s w u rend e =
      Checks-map _ _
        (λ v. (rend ≡ list.head) × (next_is_valid rend v ≡ true) × SameToTail u v list s)
        (λ v. (λ h. ground arith, λ h. ground arith))
        (Checks-seq _ _ _ _ (sassert_of-Checks (λ v. rend == list.head)) (
          Checks-seq _ _ _ _ (sassert_of-Checks (next_is_valid rend))
            (same_to_tail-Checks list (pure list.head) w e)))

  module _ (operation : LinkedList → Cmd ℕ) (w : World) where
    -- What the unit proofs of `aws_linked_list_front` and `aws_linked_list_back` show: nothing goes wrong in a
    -- run of them exactly if the function, on the list that the run has set up and that is not empty,
    -- returns the first, with links that aws-c-common finds valid, or the last node, and changes none of the links that are saved.
    pub front_harness-FirstNode :
        (Good (front_harness operation w)
          ↔ Ensures
              (λ saved u. Ensures (FirstNode saved.1 u) (operation list u))
              (and_then
                (saved_to_tail (pure list.head) list w)
                (then_assume (λ u. not (is_empty list u)))))
        × (Good (back_harness operation w)
            ↔ Ensures
                (λ saved u. Ensures (LastNode saved.1 u) (operation list u))
                (and_then
                  (saved_to_head (pure list.tail) list w)
                  (then_assume (λ u. not (is_empty list u)))))
    unfolding front_harness back_harness
    front_harness-FirstNode = (
      harness-Meets
          (and_then (saved_to_tail (pure list.head) list w)
            (then_assume (λ u. not (is_empty list u))))
          (operation list) (λ saved u. FirstNode saved.1 u) front_assertions
          (λ saved u e front.
            front-Checks saved.0 saved.1 w u front
              (settled (λ u. not (is_empty list u)) (saved_to_tail (pure list.head) list w) e)),
      harness-Meets
          (and_then (saved_to_head (pure list.tail) list w)
            (then_assume (λ u. not (is_empty list u))))
          (operation list) (λ saved u. LastNode saved.1 u) back_assertions
          (λ saved u e back.
            back-Checks saved.0 saved.1 w u back
              (settled (λ u. not (is_empty list u)) (saved_to_head (pure list.tail) list w) e)),
    )

    -- What the unit proof of `aws_linked_list_rbegin` shows: nothing goes wrong in a run of it exactly if the
    -- function returns the node before the tail, which is the head if the list is empty, whose links
    -- aws-c-common finds valid where they must be, and changes none of the links that are saved.
    pub rbegin_harness-LastOrHead :
        Good (rbegin_harness operation w)
        ↔ Ensures
            (λ saved u. Ensures (LastOrHead saved.0 saved.1 u) (operation list u))
            (saved_to_head (pure list.tail) list w)
    unfolding rbegin_harness
    rbegin_harness-LastOrHead =
        harness-Meets (saved_to_head (pure list.tail) list w) (operation list)
          (λ saved u. LastOrHead saved.0 saved.1 u) rbegin_assertions
          (λ saved u e rbegin. rbegin-Checks saved.0 saved.1 w u rbegin e)

    -- The same for `aws_linked_list_begin`, `aws_linked_list_end` and `aws_linked_list_rend`: the function returns the node behind
    -- the head, the tail, or the head, and changes none of the links that are saved.
    pub begin_harness-Ensures :
        (Good (begin_harness operation w)
          ↔ Ensures
              (λ saved u.
                Ensures
                  (λ begin v. (next_of v list.head ≡ some begin) × SameToTail u v list saved.1)
                  (operation list u))
              (saved_to_tail (pure list.head) list w))
        × (Good (end_harness operation w)
            ↔ Ensures
                (λ saved u.
                  Ensures
                    (λ end v. (end ≡ list.tail) × SameToHead u v list saved.1)
                    (operation list u))
                (saved_to_head (pure list.tail) list w))
        × (Good (rend_harness operation w)
            ↔ Ensures
                (λ saved u.
                  Ensures
                    (λ rend v.
                      (rend ≡ list.head)
                      × (next_is_valid rend v ≡ true)
                      × SameToTail u v list saved.1)
                    (operation list u))
                (saved_to_tail (pure list.head) list w))
    unfolding begin_harness end_harness rend_harness
    begin_harness-Ensures = (
      harness-Meets (saved_to_tail (pure list.head) list w) (operation list)
          (λ saved u begin v. (next_of v list.head ≡ some begin) × SameToTail u v list saved.1)
          begin_assertions (λ saved u e begin. begin-Checks saved.0 saved.1 w u begin e),
      harness-Meets (saved_to_head (pure list.tail) list w) (operation list)
          (λ saved u end v. (end ≡ list.tail) × SameToHead u v list saved.1) end_assertions
          (λ saved u e end. end-Checks saved.0 saved.1 w u end e),
      harness-Meets (saved_to_tail (pure list.head) list w) (operation list)
          (λ saved u rend v.
            (rend ≡ list.head) × (next_is_valid rend v ≡ true) × SameToTail u v list saved.1)
          rend_assertions (λ saved u e rend. rend-Checks saved.0 saved.1 w u rend e),
    )
