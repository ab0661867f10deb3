-- ===== src/HashTable/Iter.antt =====
-- The iterator over a hash table, as aws-c-common-stubs/aws_hash_iter_overrides.c replaces it, and
-- its validity (lib/klee_hash_table_helper.c, which copies it from aws-c-common).
pub mod Laws
pub mod Protocol
use verify_c_common.Base.{
  ℕ, zero, suc, ◌+◌, Bool, true, false, Option, none, some, ltb, leb, ◌==◌, not, ◌&&◌, ◌||◌,
  bool_eq, if◌then◌else◌, get_elem?, add_size, sub_size, size_max,
}
use verify_c_common.World.{
  Cmd, World, Outcome, ok, nd_size_t, assume, sassert, pure, and_then, ◌>>=◌, ◌>>◌,
}
use verify_c_common.HashTable.{Entry, HashTableState}

pub data IterStatus : Type 0 where
  done : IterStatus
  delete_called : IterStatus
  ready_for_use : IterStatus

abbrev pub is_done : IterStatus → Bool
is_done done = true
is_done delete_called = false
is_done ready_for_use = false

-- The table that the iterator points to is an argument of the functions that read it.
pub record HashIter : Type 0 where
  pub slot : ℕ
  pub limit : ℕ
  pub status : IterStatus

abbrev pub status_at : (slot limit : ℕ) → IterStatus
status_at slot limit = if slot == limit then done else ready_for_use

unfoldable pub hash_iter_begin : HashTableState → Cmd HashIter
hash_iter_begin map = do
  slot ← nd_size_t
  assume (leb slot map.size)
  pure (record { slot = slot; limit = map.size; status = status_at slot map.size })

unfoldable pub hash_iter_done : HashIter → Cmd Bool
hash_iter_done iter = do
  sassert (bool_eq (iter.slot == iter.limit) (is_done iter.status))
  pure (iter.slot == iter.limit)

abbrev move_on : HashIter → Cmd HashIter
move_on iter = do
  next_step ← nd_size_t
  assume (ltb 0 next_step && leb next_step (sub_size iter.limit iter.slot))
  pure (record {
    slot = add_size iter.slot next_step;
    limit = iter.limit;
    status = status_at (add_size iter.slot next_step) iter.limit;
  })

unfoldable pub hash_iter_next : HashIter → Cmd HashIter
hash_iter_next iter w =
    (if iter.slot == iter.limit then pure (record iter { status = done }) else move_on iter) w

-- The new iterator, and the table with one entry less.
unfoldable pub hash_iter_delete : HashTableState → HashIter → HashTableState × HashIter
hash_iter_delete map iter = (
  record map { entry_count = sub_size map.entry_count 1 },
  record { slot = iter.slot; limit = sub_size iter.limit 1; status = delete_called },
)

abbrev in_use_at : HashTableState → ℕ → Bool
in_use_at map slot = elim (get_elem? map.slots slot) [
  | none ↦ false
  | some entry ↦ not (entry.hash_code == 0)
]

abbrev status_fits : HashTableState → IterStatus → (slot limit : ℕ) → Bool
status_fits map done slot limit = slot == limit
status_fits map delete_called slot limit = leb slot limit || (slot == size_max)
status_fits map ready_for_use slot limit = ltb slot limit && in_use_at map slot

-- `aws_hash_table_is_valid` belongs to aws-c-common.
module _ (hash_table_is_valid : HashTableState → Bool) where
  unfoldable pub hash_iter_is_valid : Option HashTableState → Option HashIter → Bool
  hash_iter_is_valid map none = false
  hash_iter_is_valid none (some iter) = false
  hash_iter_is_valid (some map) (some iter) =
      hash_table_is_valid map
      && (leb iter.limit map.size && status_fits map iter.status iter.slot iter.limit)

abbrev pub one_more : Option ℕ → Cmd (Option ℕ)
one_more none w = ok none w
one_more (some n) w = ok (some (suc n)) w

-- `for (; !done(&iter); next(&iter))` for at most `fuel` rounds: how many the loop has run, `none` when
-- the fuel is used up.
unfoldable pub iterate : (fuel : ℕ) → HashIter → Cmd (Option ℕ)
iterate zero iter w = ok none w
iterate (suc fuel) iter w = and_then (hash_iter_done iter w) λ finished w'. elim finished [
  | true ↦ ok (some 0) w'
  | false ↦
      and_then (hash_iter_next iter w') λ iter' w''. and_then (iterate fuel iter' w'') one_more
]

-- The loop from `aws_hash_iter_begin` on.
unfoldable pub iterate_all : (fuel : ℕ) → HashTableState → Cmd (Option ℕ)
iterate_all fuel map w = and_then (hash_iter_begin map w) (iterate fuel)
