-- ===== src/HashTable.antt =====
-- The state of a hash table and its validity: aws-c-common-stubs/hash_table_state_is_valid_override.c,
-- hash_table_state_is_valid_ignore_entry_count_override.c and lib/hash_table_helper.c.
pub mod Count
pub mod Emplace
pub mod Iter
pub mod Expand
pub mod Fresh
use verify_c_common.Base.{
  ℕ, zero, suc, ◌-◌, Bool, true, false, Option, none, some, List, ltb, leb, ◌==◌, not, ◌&&◌,
  if◌then◌else◌, length, get_elem?,
}
use verify_c_common.World.{Cmd, ok, fault, nd_size_t, assume, pure, crash, ◌>>=◌, ◌>>◌}

-- An empty slot has the hash code 0.
pub record Entry : Type 0 where
  pub key : ℕ
  pub value : ℕ
  pub hash_code : ℕ

-- Functions and objects are given by their addresses, 0 is NULL; `slots` is what is allocated
-- behind the state. The load factor is the constant 0.95.
pub record HashTableState : Type 0 where
  pub hash_fn : ℕ
  pub equals_fn : ℕ
  pub destroy_key_fn : ℕ
  pub destroy_value_fn : ℕ
  pub alloc : ℕ
  pub size : ℕ
  pub entry_count : ℕ
  pub max_load : ℕ
  pub mask : ℕ
  pub slots : List Entry

-- `aws_is_power_of_two` belongs to aws-c-common.
module _ (is_power_of_two : ℕ → Bool) where
  unfoldable pub hash_table_state_is_valid : Option HashTableState → Bool
  hash_table_state_is_valid none = false
  hash_table_state_is_valid (some map) =
      let hash_fn_nonnull = not (map.hash_fn == 0) in
      let equals_fn_nonnull = not (map.equals_fn == 0) in
      let alloc_nonnull = not (map.alloc == 0) in
      let size_at_least_two = leb 2 map.size in
      let size_is_power_of_two = is_power_of_two map.size in
      let entry_count = leb map.entry_count map.max_load in
      let max_load = ltb map.max_load map.size in
      let mask_is_correct = map.mask == (map.size - 1) in
      let slots_allocated = leb map.size (length map.slots) in
      hash_fn_nonnull
      && (equals_fn_nonnull
          && (alloc_nonnull
              && (size_at_least_two
                  && (size_is_power_of_two
                      && (entry_count && (max_load && (mask_is_correct && slots_allocated)))))))

  -- Under SeaHorn the variant that does not look at `entry_count`.
  unfoldable pub hash_table_state_is_valid_ignore_entry_count : Option HashTableState → Bool
  hash_table_state_is_valid_ignore_entry_count none = false
  hash_table_state_is_valid_ignore_entry_count (some map) =
      let hash_fn_nonnull = not (map.hash_fn == 0) in
      let equals_fn_nonnull = not (map.equals_fn == 0) in
      let alloc_nonnull = not (map.alloc == 0) in
      let size_at_least_two = leb 2 map.size in
      let size_is_power_of_two = is_power_of_two map.size in
      let max_load = ltb map.max_load map.size in
      let mask_is_correct = map.mask == (map.size - 1) in
      let slots_allocated = leb map.size (length map.slots) in
      hash_fn_nonnull
      && (equals_fn_nonnull
          && (alloc_nonnull
              && (size_at_least_two
                  && (size_is_power_of_two && (max_load && (mask_is_correct && slots_allocated))))))

-- The loop of `aws_hash_table_deep_entry_count`: `k` rounds are left, a slot that is not allocated
-- gives `none`.
unfoldable pub deep_entry_count_from : List Entry → (k i rval : ℕ) → Option ℕ
deep_entry_count_from slots zero i rval = some rval
deep_entry_count_from slots (suc k) i rval = elim (get_elem? slots i) [
  | none ↦ none
  | some entry ↦
      deep_entry_count_from slots k (suc i) (if entry.hash_code == 0 then rval else suc rval)
]

unfoldable pub deep_entry_count : HashTableState → Option ℕ
deep_entry_count state = deep_entry_count_from state.slots state.size 0 0

unfoldable pub entry_count_is_valid : HashTableState → Option Bool
entry_count_is_valid state = elim (deep_entry_count state) [
  | none ↦ none
  | some count ↦ some (state.entry_count == count)
]

-- The loop of `aws_hash_table_deep_is_empty`.
unfoldable pub deep_is_empty_from : List Entry → (k i : ℕ) → Bool → Option Bool
deep_is_empty_from slots zero i rval = some rval
deep_is_empty_from slots (suc k) i rval = elim (get_elem? slots i) [
  | none ↦ none
  | some entry ↦ deep_is_empty_from slots k (suc i) (rval && (entry.hash_code == 0))
]

unfoldable pub deep_is_empty : HashTableState → Option Bool
deep_is_empty state = deep_is_empty_from state.slots state.size 0 true

-- `hash_table_state_has_an_empty_slot`: the result and the index it stores.
abbrev slot_is_empty : Option Entry → ℕ → Cmd (Bool × ℕ)
slot_is_empty none i w = fault
slot_is_empty (some entry) i w = ok (entry.hash_code == 0, i) w

unfoldable pub has_an_empty_slot : HashTableState → Cmd (Bool × ℕ)
has_an_empty_slot state = do
  assume (ltb 0 state.entry_count)
  empty_slot_idx ← nd_size_t
  assume (ltb empty_slot_idx state.size)
  slot_is_empty (get_elem? state.slots empty_slot_idx) empty_slot_idx
