-- ===== src/Jobs/LinkedList/Nodes.antt =====
-- seahorn/jobs/linked_list_insert_before, insert_after, remove, next and prev: nodes without a list.
use verify_c_common.Base.{ℕ, ◌≡◌, ◌↔◌, Bool, true, ◌==◌, some, arith}
use verify_c_common.World.{World, Outcome, Cmd, pure, ◌>>=◌, ◌>>◌, Ensures}
use verify_c_common.LinkedList.{set_next, set_prev, attach_after, nd_linked_list_node}
use verify_c_common.LinkedList.Save.Snapshot.{next_of, prev_of}
use verify_c_common.LinkedList.Init.Shape.{Attached}
use verify_c_common.Jobs.{Good, Checks, Checks-seq, Checks-map, harness, harness-Meets}
use verify_c_common.Jobs.LinkedList.{next_is, prev_is, attached, sassert_of}
use verify_c_common.Jobs.LinkedList.Rules.{
  next_is-Checks, prev_is-Checks, attached-Checks, sassert_of-Checks,
}

-- `p` and `q` are attached; what is in front of `p` and behind `q` is any pointer.
unfoldable pub two_attached : (p q : ℕ) → Cmd (ℕ × ℕ)
two_attached p q = do
  attach_after p q true
  outer_1 ← nd_linked_list_node
  outer_2 ← nd_linked_list_node
  pure (outer_1, outer_2)

-- Before: before_prev_prev, before_prev, before, before_next.
unfoldable pub insert_before_set_up : (before before_prev : ℕ) → Cmd (ℕ × ℕ)
unfolding two_attached
insert_before_set_up before before_prev = do
  (before_next, before_prev_prev) ← two_attached before_prev before
  set_next before before_next
  set_prev before_prev before_prev_prev
  pure (before_next, before_prev_prev)

-- Before: after_prev, after, after_next, after_next_next.
unfoldable pub insert_after_set_up : (after after_next : ℕ) → Cmd (ℕ × ℕ)
unfolding two_attached
insert_after_set_up after after_next = do
  (after_prev, after_next_next) ← two_attached after after_next
  set_prev after after_prev
  set_next after_next after_next_next
  pure (after_prev, after_next_next)

unfoldable pub remove_set_up : (prev node next : ℕ) → Cmd (ℕ × ℕ)
remove_set_up prev node next = do
  prev_saved_prev ← nd_linked_list_node
  set_prev prev prev_saved_prev
  attach_after prev node true
  attach_after node next true
  next_saved_next ← nd_linked_list_node
  set_next next next_saved_next
  pure (prev_saved_prev, next_saved_next)

module _ (before before_prev to_add : ℕ) where
  unfoldable pub insert_before_assertions : ℕ × ℕ → Unit {0} → Cmd (Unit {0})
  insert_before_assertions (before_next, before_prev_prev) done = do
    attached before_prev to_add
    attached to_add before
    next_is before before_next
    prev_is before_prev before_prev_prev

  unfoldable pub insert_before_harness :
      ((before to_add : ℕ) → Cmd (Unit {0})) → World → Outcome (Unit {0})
  insert_before_harness insert_before w =
      harness (insert_before_set_up before before_prev w) (insert_before before to_add)
        insert_before_assertions

module _ (after after_next to_add : ℕ) where
  unfoldable pub insert_after_assertions : ℕ × ℕ → Unit {0} → Cmd (Unit {0})
  insert_after_assertions (after_prev, after_next_next) done = do
    attached after to_add
    attached to_add after_next
    prev_is after after_prev
    next_is after_next after_next_next

  unfoldable pub insert_after_harness :
      ((after to_add : ℕ) → Cmd (Unit {0})) → World → Outcome (Unit {0})
  insert_after_harness insert_after w =
      harness (insert_after_set_up after after_next w) (insert_after after to_add)
        insert_after_assertions

module _ (prev node next : ℕ) where
  unfoldable pub remove_assertions : ℕ × ℕ → Unit {0} → Cmd (Unit {0})
  remove_assertions (prev_saved_prev, next_saved_next) done = do
    attached prev next
    prev_is prev prev_saved_prev
    next_is next next_saved_next
    next_is node 0
    prev_is node 0

  unfoldable pub remove_harness : (ℕ → Cmd (Unit {0})) → World → Outcome (Unit {0})
  remove_harness remove w = harness (remove_set_up prev node next w) (remove node) remove_assertions

module _ (next_is_valid prev_is_valid : ℕ → World → Bool) (node other : ℕ) where
  unfoldable pub next_assertions : Unit {0} → (rval : ℕ) → Cmd (Unit {0})
  next_assertions done rval = do
    sassert_of (next_is_valid node)
    sassert_of (prev_is_valid rval)
    sassert_of (λ v. rval == other)

  unfoldable pub next_harness : (ℕ → Cmd ℕ) → World → Outcome (Unit {0})
  next_harness next w = harness (attach_after node other true w) (next node) next_assertions

  unfoldable pub prev_assertions : Unit {0} → (rval : ℕ) → Cmd (Unit {0})
  prev_assertions done rval = do
    sassert_of (prev_is_valid node)
    sassert_of (next_is_valid rval)
    sassert_of (λ v. rval == other)

  unfoldable pub prev_harness : (ℕ → Cmd ℕ) → World → Outcome (Unit {0})
  prev_harness prev w = harness (attach_after other node true w) (prev node) prev_assertions

-- `to_add` stands between `p` and `q`, and the outer links are `in_front` and `behind`.
pub record Between (p to_add q in_front behind : ℕ) (v : World) : Type 0 where
  pub first : Attached v p to_add
  pub second : Attached v to_add q
  pub outer : (prev_of v p ≡ some in_front) × (next_of v q ≡ some behind)

module _ (p to_add q : ℕ) where
  insert_before-Checks :
      (behind in_front : ℕ)
      → Checks
          (insert_before_assertions q p to_add (behind, in_front) tt)
          (Between p to_add q in_front behind)
  unfolding insert_before_assertions
  insert_before-Checks behind in_front =
      Checks-map _ _ (Between p to_add q in_front behind)
        (λ v. (λ h. ground arith, λ h. ground arith))
        (Checks-seq _ _ _ _ (attached-Checks p to_add) (
          Checks-seq _ _ _ _ (attached-Checks to_add q)
            (Checks-seq _ _ _ _ (next_is-Checks q behind) (prev_is-Checks p in_front))))

  insert_after-Checks :
      (in_front behind : ℕ)
      → Checks
          (insert_after_assertions p q to_add (in_front, behind) tt)
          (Between p to_add q in_front behind)
  unfolding insert_after_assertions
  insert_after-Checks in_front behind =
      Checks-map _ _ (Between p to_add q in_front behind)
        (λ v. (λ h. ground arith, λ h. ground arith))
        (Checks-seq _ _ _ _ (attached-Checks p to_add) (
          Checks-seq _ _ _ _ (attached-Checks to_add q)
            (Checks-seq _ _ _ _ (prev_is-Checks p in_front) (next_is-Checks q behind))))

  -- What the unit proofs of `aws_linked_list_insert_before` and `aws_linked_list_insert_after` show: nothing
  -- goes wrong in a run of them exactly if the function puts the new node between the two that the run has
  -- attached, and leaves the outer links of the two as they are.
  pub insert_before_harness-Between :
      (insert : (place to_add : ℕ) → Cmd (Unit {0})) (w : World)
      → (Good (insert_before_harness q p to_add insert w)
          ↔ Ensures
              (λ outer u. Ensures (λ _ v. Between p to_add q outer.1 outer.0 v) (insert q to_add u))
              (insert_before_set_up q p w))
        × (Good (insert_after_harness p q to_add insert w)
            ↔ Ensures
                (λ outer u.
                  Ensures (λ _ v. Between p to_add q outer.0 outer.1 v) (insert p to_add u))
                (insert_after_set_up p q w))
  unfolding insert_before_harness insert_after_harness
  insert_before_harness-Between insert w = (
    harness-Meets (insert_before_set_up q p w) (insert q to_add)
        (λ outer u _ v. Between p to_add q outer.1 outer.0 v) (insert_before_assertions q p to_add)
        (λ outer u e _. insert_before-Checks outer.0 outer.1),
    harness-Meets (insert_after_set_up p q w) (insert p to_add)
        (λ outer u _ v. Between p to_add q outer.0 outer.1 v) (insert_after_assertions p q to_add)
        (λ outer u e _. insert_after-Checks outer.0 outer.1),
  )

-- `node` is out, its neighbours are attached, and the outer links are `in_front` and `behind`.
pub record Removed (prev node next in_front behind : ℕ) (v : World) : Type 0 where
  pub closed : Attached v prev next
  pub outer : (prev_of v prev ≡ some in_front) × (next_of v next ≡ some behind)
  pub reset : (next_of v node ≡ some 0) × (prev_of v node ≡ some 0)

module _ (next_is_valid prev_is_valid : ℕ → World → Bool) (node other : ℕ) where
  next-Checks :
      (rval : ℕ)
      → Checks
          (next_assertions next_is_valid prev_is_valid node other tt rval)
          (λ v. (rval ≡ other) × (next_is_valid node v ≡ true) × (prev_is_valid rval v ≡ true))
  unfolding next_assertions
  next-Checks rval =
      Checks-map _ _
        (λ v. (rval ≡ other) × (next_is_valid node v ≡ true) × (prev_is_valid rval v ≡ true))
        (λ v. (λ h. ground arith, λ h. ground arith))
        (Checks-seq _ _ _ _ (sassert_of-Checks (next_is_valid node)) (
          Checks-seq _ _ _ _ (sassert_of-Checks (prev_is_valid rval))
            (sassert_of-Checks (λ v. rval == other))))

  prev-Checks :
      (rval : ℕ)
      → Checks
          (prev_assertions next_is_valid prev_is_valid node other tt rval)
          (λ v. (rval ≡ other) × (prev_is_valid node v ≡ true) × (next_is_valid rval v ≡ true))
  unfolding prev_assertions
  prev-Checks rval =
      Checks-map _ _
        (λ v. (rval ≡ other) × (prev_is_valid node v ≡ true) × (next_is_valid rval v ≡ true))
        (λ v. (λ h. ground arith, λ h. ground arith))
        (Checks-seq _ _ _ _ (sassert_of-Checks (prev_is_valid node)) (
          Checks-seq _ _ _ _ (sassert_of-Checks (next_is_valid rval))
            (sassert_of-Checks (λ v. rval == other))))

  -- What the unit proofs of `aws_linked_list_next` and `aws_linked_list_prev` show: nothing goes wrong in a
  -- run of them exactly if the function returns the node that the run has attached, and the links
  -- between the two are valid. That nothing else changes is not asserted.
  pub next_harness-Ensures :
      (step : ℕ → Cmd ℕ) (w : World)
      → (Good (next_harness next_is_valid prev_is_valid node other step w)
          ↔ Ensures
              (λ _ u.
                Ensures
                  (λ rval v.
                    (rval ≡ other) × (next_is_valid node v ≡ true) × (prev_is_valid rval v ≡ true))
                  (step node u))
              (attach_after node other true w))
        × (Good (prev_harness next_is_valid prev_is_valid node other step w)
            ↔ Ensures
                (λ _ u.
                  Ensures
                    (λ rval v.
                      (rval ≡ other)
                      × (prev_is_valid node v ≡ true)
                      × (next_is_valid rval v ≡ true))
                    (step node u))
                (attach_after other node true w))
  unfolding next_harness prev_harness
  next_harness-Ensures step w = (
    harness-Meets (attach_after node other true w) (step node)
        (λ _ u rval v.
          (rval ≡ other) × (next_is_valid node v ≡ true) × (prev_is_valid rval v ≡ true))
        (next_assertions next_is_valid prev_is_valid node other) (λ _ u e rval. next-Checks rval),
    harness-Meets (attach_after other node true w) (step node)
        (λ _ u rval v.
          (rval ≡ other) × (prev_is_valid node v ≡ true) × (next_is_valid rval v ≡ true))
        (prev_assertions next_is_valid prev_is_valid node other) (λ _ u e rval. prev-Checks rval),
  )
