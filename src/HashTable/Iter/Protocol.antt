-- ===== src/HashTable/Iter/Protocol.antt =====
-- The iterators that a loop over a table meets: begin, then `aws_hash_iter_next` and
-- `aws_hash_iter_delete` in any order that aws-c-common allows.
use verify_c_common.Base.{ℕ, suc, ◌+◌, ◌^◌, ◌≤◌, ◌<◌, ◌≡◌, arith}
use verify_c_common.World.{World, ok, failed}
use verify_c_common.HashTable.{HashTableState}
use verify_c_common.HashTable.Iter.{
  HashIter, done, ready_for_use, hash_iter_begin, hash_iter_done, hash_iter_next, hash_iter_delete,
}

-- An entry is deleted only where the iterator is ready for use.
pub data Reached (map : HashTableState) : HashTableState → HashIter → ℕ → Type 0 where
  begin :
      (w : World) {iter : HashIter} {u : World}
      → hash_iter_begin map w ≡ ok iter u
      → Reached map map iter 0
  next :
      {m : HashTableState} {iter : HashIter} {k : ℕ} (w : World) {iter' : HashIter} {u : World}
      → Reached map m iter k
      → hash_iter_next iter w ≡ ok iter' u
      → Reached map m iter' k
  delete :
      {m : HashTableState} {iter : HashIter} {k : ℕ} {m' : HashTableState} {iter' : HashIter}
      → Reached map m iter k
      → iter.status ≡ ready_for_use
      → hash_iter_delete m iter ≡ (m', iter')
      → Reached map m' iter' (suc k)

-- After `k` deletions: the limit is `k` below the size, the slot is not above it, and the status says where
-- the slot stands.
pub record InBounds (map : HashTableState) (m : HashTableState) (iter : HashIter) (k : ℕ)
    : Type 0 where
  pub limit : iter.limit + k ≡ map.size
  pub slot : iter.slot ≤ iter.limit
  pub at_end : iter.status ≡ done → iter.slot ≡ iter.limit
  pub ready : iter.status ≡ ready_for_use → iter.slot < iter.limit
  pub same_size : m.size ≡ map.size
  pub same_slots : m.slots ≡ map.slots

module _ {map m : HashTableState} {iter : HashIter} {k : ℕ} (small : map.size < 2 ^ 64) where
  next-InBounds :
      (w : World) {iter' : HashIter} {u : World}
      → InBounds map m iter k
      → hash_iter_next iter w ≡ ok iter' u
      → InBounds map m iter' k
  unfolding hash_iter_next
  next-InBounds w h e = ground arith

  delete-InBounds :
      {m' : HashTableState} {iter' : HashIter}
      → InBounds map m iter k
      → iter.status ≡ ready_for_use
      → hash_iter_delete m iter ≡ (m', iter')
      → InBounds map m' iter' (suc k)
  unfolding hash_iter_delete
  delete-InBounds h e e' = ground arith

begin-InBounds :
    {map : HashTableState} (w : World) {iter : HashIter} {u : World}
    → hash_iter_begin map w ≡ ok iter u
    → InBounds map map iter 0
unfolding hash_iter_begin
begin-InBounds w e = ground arith

-- Whatever a loop does between begin and end, the slot of its iterator never passes the limit, each deletion
-- lowers the limit by one, a done iterator stands at the limit and one that is ready for use below it,
-- and the slots of the table stay as they are.
pub Reached-InBounds :
    {map m : HashTableState} {iter : HashIter} {k : ℕ}
    → map.size < 2 ^ 64
    → Reached map m iter k
    → InBounds map m iter k
Reached-InBounds small (begin w e) = begin-InBounds w e
Reached-InBounds small (next w r e) = next-InBounds small w (Reached-InBounds small r) e
Reached-InBounds small (delete r e e') = delete-InBounds small (Reached-InBounds small r) e e'

-- Right after a deletion the assertion fails where the entry was the last one: the slot is at the new limit,
-- and the status says that an entry was deleted.
pub hash_iter_done-delete :
    {map m m' : HashTableState} {iter iter' : HashIter} {k : ℕ} (v : World)
    → map.size < 2 ^ 64
    → Reached map m iter k
    → iter.status ≡ ready_for_use
    → hash_iter_delete m iter ≡ (m', iter')
    → iter.slot + 1 ≡ iter.limit
    → hash_iter_done iter' v ≡ failed
unfolding hash_iter_done hash_iter_delete
hash_iter_done-delete v small r ready e last = let h = Reached-InBounds small r in ground arith
