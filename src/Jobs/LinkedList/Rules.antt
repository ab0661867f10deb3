-- ===== src/Jobs/LinkedList/Rules.antt =====
-- What the assertions of the unit proofs about lists check.
use verify_c_common.Base.{ℕ, ◌≡◌, refl, Bool, true, some, arith}
use verify_c_common.World.{World, Outcome, ok, Cmd, and_then, sassert}
use verify_c_common.World.Rules.{>>=-ok}
use verify_c_common.LinkedList.Init.{init_from_head, init_from_tail}
use verify_c_common.LinkedList.{LinkedList}
use verify_c_common.LinkedList.Save.{SavedList, save_to_head, save_to_tail}
use verify_c_common.LinkedList.Save.Snapshot.{
  next_of, prev_of, save_to_head-Snapshot, save_to_tail-Snapshot,
}
use verify_c_common.LinkedList.Init.Shape.{Attached}
use verify_c_common.LinkedList.Check.{unchanged_to_tail, unchanged_to_head}
use verify_c_common.LinkedList.Check.Sound.{
  SameToHead, SameToTail, unchanged_to_head-save_to_head, unchanged_to_tail-save_to_tail,
}
use verify_c_common.Jobs.{Good, Checks}
use verify_c_common.Jobs.LinkedList.{
  next_is, prev_is, attached, sassert_of, same_to_head, same_to_tail, saved_to_head, saved_to_tail,
  nothing_saved,
}

pub next_is-Checks : (p q : ℕ) → Checks (next_is p q) (λ v. next_of v p ≡ some q)
unfolding next_is
next_is-Checks p q = record { passes = λ v h. ground arith; means = λ v h. ground arith }

pub prev_is-Checks : (p q : ℕ) → Checks (prev_is p q) (λ v. prev_of v p ≡ some q)
unfolding prev_is
prev_is-Checks p q = record { passes = λ v h. ground arith; means = λ v h. ground arith }

pub sassert_of-Checks : (test : World → Bool) → Checks (sassert_of test) (λ v. test v ≡ true)
sassert_of-Checks test = record { passes = λ v h. ground arith; means = λ v h. ground arith }

pub attached-Checks : (p q : ℕ) → Checks (attached p q) (λ v. Attached v p q)
unfolding attached
attached-Checks p q = record { passes = λ v h. ground arith; means = λ v h. ground arith }

unchanged_to_head-Good :
    (list : LinkedList) (s : SavedList) (v : World)
    → Good (and_then (unchanged_to_head list s v) sassert)
    → unchanged_to_head list s v ≡ ok true v
unfolding unchanged_to_head
unchanged_to_head-Good list s v good = ground arith

unchanged_to_tail-Good :
    (list : LinkedList) (s : SavedList) (v : World)
    → Good (and_then (unchanged_to_tail list s v) sassert)
    → unchanged_to_tail list s v ≡ ok true v
unfolding unchanged_to_tail
unchanged_to_tail-Good list s v good = ground arith

settle :
    (save : ℕ → Cmd SavedList) (size : ℕ) (s' : SavedList) (w2 w3 : World) {n : ℕ} {s : SavedList}
    {u : World}
    → save size w2 ≡ ok s' w3
    → w3 ≡ w2
    → ◌≡◌ {A = Outcome (ℕ × SavedList)} (ok (size, s') w3) (ok (n, s) u)
    → save n u ≡ ok s u
settle save size s' w2 w3 saved same e = cc

module _ (list : LinkedList) (start : Cmd ℕ) (w : World) {n : ℕ} {s : SavedList} {u : World} where
  -- The snapshot that the set-up took is one of the state that it reached.
  saved_at_head :
      saved_to_head start list w ≡ ok (n, s) u
      → (p : ℕ) × (save_to_head list n p nothing_saved u ≡ ok s u)
  unfolding saved_to_head
  saved_at_head e =
      let (size, w1, built, e1) = >>=-ok (init_from_tail list w) _ e in
      let (p, w2, chosen, e2) = >>=-ok (start w1) _ e1 in
      let (s', w3, saved, e3) = >>=-ok (save_to_head list size p nothing_saved w2) _ e2 in
      let same = (save_to_head-Snapshot list size p nothing_saved w2 saved).0 in
      (p, settle (λ k. save_to_head list k p nothing_saved) size s' w2 w3 saved same e3)

  pub same_to_head-Checks :
      saved_to_head start list w ≡ ok (n, s) u
      → Checks (same_to_head list s) (λ v. SameToHead u v list s)
  unfolding same_to_head
  same_to_head-Checks e =
      let (p, saved) = saved_at_head e in
      record {
        passes = λ v same.
            let t = (unchanged_to_head-save_to_head list n p nothing_saved s u u v saved).1 same in
            rw (t) refl;
        means = λ v good.
            (unchanged_to_head-save_to_head list n p nothing_saved s u u v saved).0
              (unchanged_to_head-Good list s v good);
      }

module _ (list : LinkedList) (start : Cmd ℕ) (w : World) {n : ℕ} {s : SavedList} {u : World} where
  saved_at_tail :
      saved_to_tail start list w ≡ ok (n, s) u
      → (p : ℕ) × (save_to_tail list n p nothing_saved u ≡ ok s u)
  unfolding saved_to_tail
  saved_at_tail e =
      let (size, w1, built, e1) = >>=-ok (init_from_head list w) _ e in
      let (p, w2, chosen, e2) = >>=-ok (start w1) _ e1 in
      let (s', w3, saved, e3) = >>=-ok (save_to_tail list size p nothing_saved w2) _ e2 in
      let same = (save_to_tail-Snapshot list size p nothing_saved w2 saved).0 in
      (p, settle (λ k. save_to_tail list k p nothing_saved) size s' w2 w3 saved same e3)

  pub same_to_tail-Checks :
      saved_to_tail start list w ≡ ok (n, s) u
      → Checks (same_to_tail list s) (λ v. SameToTail u v list s)
  unfolding same_to_tail
  same_to_tail-Checks e =
      let (p, saved) = saved_at_tail e in
      record {
        passes = λ v same.
            let t = (unchanged_to_tail-save_to_tail list n p nothing_saved s u u v saved).1 same in
            rw (t) refl;
        means = λ v good.
            (unchanged_to_tail-save_to_tail list n p nothing_saved s u u v saved).0
              (unchanged_to_tail-Good list s v good);
      }
