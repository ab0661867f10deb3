-- ===== src/HashTable/Iter/Laws.antt =====
-- The iterator of aws-c-common-stubs/aws_hash_iter_overrides.c is one that loops can run on.
use verify_c_common.Base.{
  ℕ, zero, suc, ◌+◌, ◌-◌, ◌^◌, ◌<◌, ◌≤◌, ◌≡◌, ◌≢◌, refl, Bool, true, Option, none, some, ◌==◌,
  arith, some-inj, Bool-cases, inl, inr,
}
use verify_c_common.World.{World, and_then, Ensures}
use verify_c_common.World.Rules.{Ensures-bind, Ensures-mono}
use verify_c_common.HashTable.{HashTableState}
use verify_c_common.HashTable.Iter.{
  HashIter, one_more, ready_for_use, status_at, hash_iter_begin, hash_iter_done, hash_iter_next,
  hash_iter_delete, hash_iter_is_valid, iterate, iterate_all,
}

-- The slot is in range, and the status is `done` exactly at the limit.
abbrev pub Sound : ℕ → HashIter → Type 0
Sound n iter =
    (iter.limit ≡ n) × (iter.slot ≤ iter.limit) × (iter.status ≡ status_at iter.slot iter.limit)

-- `aws_hash_iter_begin` gives a sound iterator.
pub hash_iter_begin-Sound :
    (map : HashTableState) (w : World)
    → Ensures (λ iter _. Sound map.size iter) (hash_iter_begin map w)
unfolding hash_iter_begin
hash_iter_begin-Sound map w = ground arith

-- The assertion of `aws_hash_iter_done` holds of a sound iterator.
hash_iter_done-Sound :
    (n : ℕ) (iter : HashIter) (w : World)
    → Sound n iter
    → Ensures (λ b _. b ≡ (iter.slot == n)) (hash_iter_done iter w)
unfolding hash_iter_done
hash_iter_done-Sound n iter w (l, le, st) = ground arith

-- `aws_hash_iter_next` keeps an iterator sound, and moves it on unless it is at the limit.
pub hash_iter_next-Sound :
    (n : ℕ) (iter : HashIter) (w : World)
    → n < 2 ^ 64
    → Sound n iter
    → Ensures
        (λ iter' _.
          Sound n iter'
          × (iter.slot ≢ n → iter.slot < iter'.slot)
          × (iter.slot ≡ n → iter'.slot ≡ n))
        (hash_iter_next iter w)
unfolding hash_iter_next
hash_iter_next-Sound n iter w small (l, le, st) = ground arith

-- The loop ends within the fuel, after at most as many rounds as there are slots to go.
abbrev Within : ℕ → Option ℕ → World → Type 0
Within n out w = (rounds : ℕ) × (out ≡ some rounds) × (rounds ≤ n)

one_more-Within :
    (n m : ℕ) (out : Option ℕ) (w : World)
    → n < m
    → Within n out w
    → Ensures (Within m) (one_more out w)
one_more-Within n m none w lt (rounds, e, le) = cc
one_more-Within n m (some k) w lt (rounds, e, le) = (suc k, refl, omega (arith, some-inj e))

iterate-Within :
    (n fuel : ℕ) (iter : HashIter) (w : World)
    → n < 2 ^ 64
    → Sound n iter
    → n < iter.slot + fuel
    → Ensures (Within (n - iter.slot)) (iterate fuel iter w)
unfolding iterate
iterate-Within n zero iter w small (l, le, st) room = absurd (omega arith)
iterate-Within n (suc fuel) iter w small sound room =
    Ensures-bind (λ b _. b ≡ (iter.slot == n)) (Within (n - iter.slot)) (hash_iter_done iter w) _
      (hash_iter_done-Sound n iter w sound)
      λ finished w' at_end. elim (Bool-cases finished) [
        | inl t ↦ rw (t) (0, refl, omega arith)
        | inr f ↦ rw (f) (
            Ensures-bind (λ iter' _. Sound n iter' × (iter.slot < iter'.slot))
              (Within (n - iter.slot)) (hash_iter_next iter w')
              (λ iter' v. and_then (iterate fuel iter' v) one_more)
              (Ensures-mono _ _ (hash_iter_next iter w')
                (hash_iter_next-Sound n iter w' small sound)
                λ iter' v (sound', onward, stay). (sound', onward (ground arith)))
              λ iter' v (sound', further).
                Ensures-bind (Within (n - iter'.slot)) (Within (n - iter.slot))
                  (iterate fuel iter' v) one_more
                  (iterate-Within n fuel iter' v small sound' (omega arith))
                  λ out u within.
                    one_more-Within (n - iter'.slot) (n - iter.slot) out u (omega arith) within)
      ]

-- In every run that is not cut short the loop over the iterators of a table ends, after at most as many rounds as the
-- table has slots, and no assertion of `aws_hash_iter_done` fails.
pub iterate_all-Within :
    (map : HashTableState) (w : World)
    → map.size < 2 ^ 64
    → Ensures
        (λ out _. (rounds : ℕ) × (out ≡ some rounds) × (rounds ≤ map.size))
        (iterate_all (suc map.size) map w)
unfolding iterate_all
iterate_all-Within map w small =
    Ensures-bind (λ iter _. Sound map.size iter) (Within map.size) (hash_iter_begin map w)
      (iterate (suc map.size)) (hash_iter_begin-Sound map w)
      λ iter v sound.
        Ensures-mono (Within (map.size - iter.slot)) (Within map.size)
          (iterate (suc map.size) iter v)
          (iterate-Within map.size (suc map.size) iter v small sound (omega arith))
          λ out u (rounds, e, le). (rounds, e, omega arith)

-- An iterator at an entry stays valid when `aws_hash_iter_delete` takes the entry out, if the table
-- stays valid.
pub hash_iter_delete-IsValid :
    (hash_table_is_valid : HashTableState → Bool) (map : HashTableState) (iter : HashIter)
    → iter.limit < 2 ^ 64
    → iter.limit ≢ 0
    → iter.status ≡ ready_for_use
    → hash_iter_is_valid hash_table_is_valid (some map) (some iter) ≡ true
    → hash_table_is_valid (hash_iter_delete map iter).0 ≡ true
    → hash_iter_is_valid hash_table_is_valid
        (some (hash_iter_delete map iter).0)
        (some (hash_iter_delete map iter).1)
      ≡ true
unfolding hash_iter_delete hash_iter_is_valid
hash_iter_delete-IsValid valid map iter small pos ready before after = ground arith
