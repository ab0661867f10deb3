-- ===== src/HashTable/Fresh/Laws.antt =====
-- What the initialisers of tables and iterators of seahorn/lib give.
use verify_c_common.Base.{
  ℕ, ◌^◌, ◌≤◌, ◌<◌, ◌≡◌, Bool, true, Option, some, List, ltb, leb, ◌==◌, if◌then◌else◌, arith,
}
use verify_c_common.World.{World, Cmd, Ensures, Returns, assume, pure, ◌>>◌}
use verify_c_common.Buffers.Every.{choosing}
use verify_c_common.HashTable.{Entry, HashTableState, hash_table_state_is_valid}
use verify_c_common.HashTable.Iter.{
  IterStatus, done, delete_called, ready_for_use, HashIter, hash_iter_is_valid,
}
use verify_c_common.HashTable.Fresh.{
  state_with, hash_proof_destroy_noop, initialize_hash_iter, klee_initialize_hash_iter,
  fuzz_initialize_hash_iter, mk_valid_hash_iter, klee_mk_valid_hash_iter, fuzz_mk_valid_hash_iter,
}

module _ (hash_table_is_valid : HashTableState → Bool) (map : HashTableState) where
  -- When fuzzing `mk_valid_aws_hash_iter` leaves the table alone, and the iterator is always one that a
  -- deletion has left: it is never done and never ready for use.
  pub fuzz_mk_valid_hash_iter-delete_called :
      (w : World)
      → 0 < map.size
      → Ensures
          (λ out _. (out.0 ≡ map) × (out.1.status ≡ delete_called))
          (fuzz_mk_valid_hash_iter hash_table_is_valid map w)
  unfolding fuzz_mk_valid_hash_iter fuzz_initialize_hash_iter hash_iter_is_valid
  fuzz_mk_valid_hash_iter-delete_called w pos = ground arith

abbrev pub code_of : IterStatus → ℕ
code_of done = 0
code_of delete_called = 1
code_of ready_for_use = 2

-- The choices that lead to an iterator: two for the element, then slot, limit and status.
abbrev pub iter_choices : HashIter → ℕ → ℕ
iter_choices iter i =
    if i == 2 then iter.slot else if i == 3 then iter.limit else code_of iter.status

abbrev pub iter_at : (slot limit : ℕ) → IterStatus → HashIter
iter_at slot limit status = record { slot = slot; limit = limit; status = status }

module _ (hash_table_is_valid : HashTableState → Bool) (map : HashTableState) where
  -- Every valid iterator over a table comes out of some run of `mk_valid_aws_hash_iter`, both under
  -- SeaHorn and under KLEE.
  pub mk_valid_hash_iter-every :
      (slot limit : ℕ) (status : IterStatus) (w : World)
      → slot < 2 ^ 64
      → limit < 2 ^ 64
      → hash_iter_is_valid hash_table_is_valid (some map) (some (iter_at slot limit status)) ≡ true
      → Returns
          (λ out _. out ≡ iter_at slot limit status)
          (mk_valid_hash_iter hash_table_is_valid map
            (choosing (iter_choices (iter_at slot limit status)) w))
        × Returns
            (λ out _. out ≡ iter_at slot limit status)
            (klee_mk_valid_hash_iter hash_table_is_valid map
              (choosing (iter_choices (iter_at slot limit status)) w))
  unfolding mk_valid_hash_iter klee_mk_valid_hash_iter initialize_hash_iter
      klee_initialize_hash_iter hash_iter_is_valid
  mk_valid_hash_iter-every slot limit done w small small' v = (ground arith, ground arith)
  mk_valid_hash_iter-every slot limit delete_called w small small' v = (ground arith, ground arith)
  mk_valid_hash_iter-every slot limit ready_for_use w small small' v = (ground arith, ground arith)

-- A table that KLEE starts from: within the bounds, and of the right shape.
abbrev pub Fits : (is_power_of_two : ℕ → Bool) → (max_table_entries : ℕ) → HashTableState → Type 0
Fits is_power_of_two max_table_entries map =
    (hash_table_state_is_valid is_power_of_two (some map) ≡ true)
    × (map.size ≤ max_table_entries)
    × (map.destroy_key_fn ≡ hash_proof_destroy_noop)
    × (map.destroy_value_fn ≡ hash_proof_destroy_noop)

module _ (is_power_of_two : ℕ → Bool) (round_up_to_power_of_two required_bytes : ℕ → Option ℕ)
    (max : ℕ) where
  abbrev checked : (n entry_count max_load : ℕ) → List Entry → Cmd HashTableState
  checked n entry_count max_load slots = do
    assume (leb entry_count max_load)
    assume (ltb max_load n)
    pure (state_with n hash_proof_destroy_noop hash_proof_destroy_noop entry_count max_load slots)
