-- ===== src/HashTable/Fresh.antt =====
-- How the unit proofs make hash tables and iterators: lib/hash_table_helper.c and its variants
-- klee_hash_table_helper.c and fuzz_hash_table_helper.c.
pub mod Laws
pub mod Slots
use verify_c_common.Base.{
  ℕ, zero, suc, ◌+◌, ◌-◌, ◌%◌, ◌^◌, Bool, true, false, Option, none, some, List, [], ◌∷◌, ltb, leb,
  ◌==◌, not, ◌&&◌, if◌then◌else◌, get_elem?, set, sub_size,
}
use verify_c_common.World.{
  Ptr, null, at, World, Cmd, ok, pruned, fault, advance, nd_size_t, nd_uint64_t, nd_bool, assume,
  pure, ◌>>=◌, ◌>>◌,
}
use verify_c_common.Alloc.{bounded_malloc_havoc}
use verify_c_common.Alloc.Klee.{klee_bounded_malloc_havoc}
use verify_c_common.Structs.{sea_allocator}
use verify_c_common.Buffers.{remainder, fuzz_can_fail_malloc_havoc}
use verify_c_common.Buffers.Klee.{nd_int}
use verify_c_common.HashTable.{Entry, HashTableState}
use verify_c_common.HashTable.Iter.{
  IterStatus, done, delete_called, ready_for_use, HashIter, hash_iter_is_valid,
}

-- The addresses of the functions of these files.
abbrev pub nd_hash_fn : ℕ
nd_hash_fn = 11

abbrev pub nd_hash_equals_fn : ℕ
nd_hash_equals_fn = 12

abbrev pub hash_proof_destroy_noop : ℕ
hash_proof_destroy_noop = 13

-- The memory of a table is havocked, so what is not set reads as any value.
unfoldable pub any_slots : (k : ℕ) → Cmd (List Entry)
any_slots zero w = ok [] w
any_slots (suc k) w =
    (do
      key ← nd_uint64_t
      value ← nd_uint64_t
      hash_code ← nd_uint64_t
      slots ← any_slots k
      pure (record { key = key; value = value; hash_code = hash_code } ∷ slots))
      w

-- The fields that every variant sets.
abbrev pub state_with :
    (num_entries destroy_key_fn destroy_value_fn entry_count max_load : ℕ)
    → List Entry
    → HashTableState
state_with num_entries destroy_key_fn destroy_value_fn entry_count max_load slots = record {
  hash_fn = nd_hash_fn;
  equals_fn = nd_hash_equals_fn;
  destroy_key_fn = destroy_key_fn;
  destroy_value_fn = destroy_value_fn;
  alloc = sea_allocator;
  size = num_entries;
  entry_count = entry_count;
  max_load = max_load;
  mask = sub_size num_entries 1;
  slots = slots;
}

-- Without EXPLICIT_HASH_INIT. Fields are written through the pointer, so NULL is a fault.
unfoldable pub havocked_state : (num_entries : ℕ) → Ptr → Cmd HashTableState
havocked_state num_entries null w = fault
havocked_state num_entries (at b i) w =
    (do
      destroy_key_fn ← nd_uint64_t
      destroy_value_fn ← nd_uint64_t
      entry_count ← nd_size_t
      max_load ← nd_size_t
      slots ← any_slots num_entries
      pure (state_with num_entries destroy_key_fn destroy_value_fn entry_count max_load slots))
      w

unfoldable pub klee_state : (num_entries : ℕ) → Ptr → Cmd HashTableState
klee_state num_entries null w = fault
klee_state num_entries (at b i) w =
    (do
      entry_count ← nd_size_t
      max_load ← nd_size_t
      slots ← any_slots num_entries
      assume (leb entry_count max_load)
      assume (ltb max_load num_entries)
      pure (
          state_with num_entries hash_proof_destroy_noop hash_proof_destroy_noop entry_count
            max_load slots))
      w

abbrev assume_some : Option ℕ → Cmd ℕ
assume_some none w = pruned
assume_some (some n) w = ok n w

-- `aws_is_power_of_two`, `aws_round_up_to_power_of_two` and `hash_table_state_required_bytes` belong to
-- aws-c-common; the latter two give `none` where the result is no `size_t`.
module _ (is_power_of_two : ℕ → Bool) (round_up_to_power_of_two required_bytes : ℕ → Option ℕ) where
  unfoldable pub initialize_bounded_hash_table : (max_table_entries : ℕ) → Cmd HashTableState
  unfolding havocked_state
  initialize_bounded_hash_table max_table_entries = do
    num_entries ← nd_size_t
    assume (leb num_entries max_table_entries)
    assume (is_power_of_two num_entries)
    bytes ← assume_some (required_bytes num_entries)
    impl ← bounded_malloc_havoc bytes
    havocked_state num_entries impl

  unfoldable pub klee_initialize_bounded_hash_table : (max_table_entries : ℕ) → Cmd HashTableState
  unfolding klee_state
  klee_initialize_bounded_hash_table max_table_entries = do
    num_entries ← nd_size_t
    assume (leb 2 num_entries)
    assume (leb num_entries max_table_entries)
    assume (is_power_of_two num_entries)
    bytes ← assume_some (required_bytes num_entries)
    impl ← klee_bounded_malloc_havoc bytes
    klee_state num_entries impl

  unfoldable pub fuzz_initialize_bounded_hash_table : (max_table_entries : ℕ) → Cmd HashTableState
  unfolding havocked_state
  fuzz_initialize_bounded_hash_table max_table_entries = do
    any_entries ← nd_size_t
    cur_num_entries ← remainder any_entries max_table_entries
    num_entries ← assume_some (round_up_to_power_of_two cur_num_entries)
    bytes ← assume_some (required_bytes num_entries)
    impl ← fuzz_can_fail_malloc_havoc bytes
    havocked_state num_entries impl

abbrev null_or_noop : Bool → ℕ
null_or_noop b = if b then 0 else hash_proof_destroy_noop

unfoldable pub ensure_hash_table_has_valid_destroy_functions : HashTableState → Cmd HashTableState
ensure_hash_table_has_valid_destroy_functions map = do
  no_key ← nd_bool
  no_value ← nd_bool
  pure (record map {
    destroy_key_fn = null_or_noop no_key;
    destroy_value_fn = null_or_noop no_value;
  })

-- `enum aws_hash_iter_status` of aws-c-common counts from 0: done, delete called, ready for use.
abbrev pub status_of : ℕ → IterStatus
status_of zero = done
status_of (suc zero) = delete_called
status_of (suc (suc n)) = ready_for_use

abbrev pub klee_nd_hash_iter_status : Cmd IterStatus
klee_nd_hash_iter_status = do status ← nd_int; assume (leb status 2); pure (status_of status)

abbrev pub fuzz_nd_hash_iter_status : Cmd IterStatus
fuzz_nd_hash_iter_status = do status ← nd_int; pure (status_of (status % 2))

-- Under SeaHorn the status is any of the three; that function is not defined here.
-- The element is not part of the model of an iterator: two words of the tape stand for its parts.
unfoldable pub initialize_hash_iter : Cmd HashIter
initialize_hash_iter = do
  key ← nd_uint64_t
  value ← nd_uint64_t
  slot ← nd_size_t
  limit ← nd_size_t
  status ← klee_nd_hash_iter_status
  pure (record { slot = slot; limit = limit; status = status })

abbrev code_at : Option Entry → Cmd ℕ
code_at none w = fault
code_at (some entry) w = ok entry.hash_code w

abbrev assume_ready : HashTableState → HashIter → IterStatus → Cmd HashIter
assume_ready map iter done w = ok iter w
assume_ready map iter delete_called w = ok iter w
assume_ready map iter ready_for_use w =
    (do
      assume (ltb iter.slot iter.limit)
      hash_code ← code_at (get_elem? map.slots iter.slot)
      assume (ltb 0 hash_code)
      pure iter)
      w

unfoldable pub klee_initialize_hash_iter : HashTableState → Cmd HashIter
klee_initialize_hash_iter map = do
  key ← nd_uint64_t
  value ← nd_uint64_t
  slot ← nd_size_t
  limit ← nd_size_t
  assume (leb limit map.size)
  status ← klee_nd_hash_iter_status
  assume_ready map (record { slot = slot; limit = limit; status = status }) status

-- For fuzzing a slot that is ready is filled instead: the table may change.
abbrev fill_code : Entry → Entry
fill_code entry = record entry { hash_code = if entry.hash_code == 0 then 1 else entry.hash_code }

abbrev fill_slot : HashTableState → ℕ → Option Entry → Cmd HashTableState
fill_slot map slot none w = fault
fill_slot map slot (some entry) w =
    ok (record map { slots = set map.slots slot (fill_code entry) }) w

abbrev make_ready : HashTableState → HashIter → IterStatus → Cmd (HashTableState × HashIter)
make_ready map iter done w = ok (map, iter) w
make_ready map iter delete_called w = ok (map, iter) w
make_ready map iter ready_for_use w =
    (do map' ← fill_slot map iter.slot (get_elem? map.slots iter.slot); pure (map', iter)) w

unfoldable pub fuzz_initialize_hash_iter : HashTableState → Cmd (HashTableState × HashIter)
fuzz_initialize_hash_iter map = do
  key ← nd_uint64_t
  value ← nd_uint64_t
  any_slot ← nd_size_t
  any_limit ← nd_size_t
  below ← remainder any_limit map.size
  slot ← remainder any_slot (if below == 0 then map.size else below)
  status ← fuzz_nd_hash_iter_status
  make_ready map
      (record { slot = slot; limit = (if below == 0 then map.size else below); status = status })
      status

-- `aws_hash_table_is_valid` belongs to aws-c-common.
module _ (hash_table_is_valid : HashTableState → Bool) where
  abbrev valid : HashTableState → HashIter → Bool
  valid map iter = hash_iter_is_valid hash_table_is_valid (some map) (some iter)

  unfoldable pub mk_valid_hash_iter : HashTableState → Cmd HashIter
  mk_valid_hash_iter map = do iter ← initialize_hash_iter; assume (valid map iter); pure iter

  unfoldable pub klee_mk_valid_hash_iter : HashTableState → Cmd HashIter
  klee_mk_valid_hash_iter map = do
    iter ← klee_initialize_hash_iter map
    assume (valid map iter)
    pure iter

  abbrev keep_valid : HashTableState × HashIter → Cmd (HashTableState × HashIter)
  keep_valid (map, iter) w = (do assume (valid map iter); pure (map, iter)) w

  unfoldable pub fuzz_mk_valid_hash_iter : HashTableState → Cmd (HashTableState × HashIter)
  fuzz_mk_valid_hash_iter map = fuzz_initialize_hash_iter map >>= keep_valid
