-- ===== src/HashTable/Expand.antt =====
-- Hashing, comparing and growing: aws-c-common-stubs/s_hash_for_override.c, s_safe_eq_check_override.c,
-- s_update_template_size_override.c and s_expand_table_override.c.
pub mod Rehash
pub mod Laws
use verify_c_common.Base.{
  ℕ, ◌-◌, Bool, true, false, Option, none, some, List, [], ◌∷◌, ltb, leb, ◌==◌, not, if◌then◌else◌,
}
use verify_c_common.World.{Cmd, ok, nd_uint64_t, nd_size_t, nd_bool, assume, pure, ◌>>=◌, ◌>>◌}
use verify_c_common.Alloc.Override.{Status, op_success, op_err}
use verify_c_common.HashTable.{Entry, HashTableState}
use verify_c_common.HashTable.Emplace.{emplace_item}

-- The hash code 0 is kept for empty slots.
abbrev not_zero : ℕ → Cmd ℕ
not_zero hash_code w = ok (if hash_code == 0 then 1 else hash_code) w

-- Under SeaHorn any hash code; else the one that the table's function gives.
unfoldable pub hash_for : (key : ℕ) → Cmd ℕ
hash_for key w = elim (key == 0) [ true ↦ ok 42 w | false ↦ (nd_uint64_t >>= not_zero) w ]

unfoldable pub hash_for_native : (hash_fn : ℕ → ℕ) → (key : ℕ) → Cmd ℕ
hash_for_native hash_fn key w = elim (key == 0) [
  | true ↦ ok 42 w
  | false ↦ not_zero (hash_fn key) w
]

unfoldable pub safe_eq_check : (a b : ℕ) → Cmd Bool
safe_eq_check a b w = elim (a == b) [
  | true ↦ ok true w
  | false ↦ elim (a == 0) [
    | true ↦ ok false w
    | false ↦ elim (b == 0) [ true ↦ ok false w | false ↦ nd_bool w ]
  ]
]

-- `aws_round_up_to_power_of_two` belongs to aws-c-common.
module _ (round_up_to_power_of_two : ℕ → Option ℕ) where
  abbrev pub min_size : ℕ → ℕ
  min_size expected_elements = if ltb expected_elements 2 then 2 else expected_elements

  abbrev pub resize : HashTableState → Option ℕ → Cmd (Status × HashTableState)
  resize template none w = ok (op_err, template) w
  resize template (some size) w =
      (do
        max_load ← nd_size_t
        assume (ltb max_load size)
        assume (ltb template.entry_count max_load)
        pure (op_success, record template { size = size; max_load = max_load; mask = size - 1 }))
        w

  -- Under SeaHorn.
  unfoldable pub update_template_size :
      HashTableState → (expected_elements : ℕ) → Cmd (Status × HashTableState)
  update_template_size template expected_elements =
      resize template (round_up_to_power_of_two (min_size expected_elements))

  -- Without SeaHorn; `load` is the product with the load factor, on doubles.
  module _ (load : ℕ → ℕ) where
    abbrev resize_native : HashTableState → Option ℕ → Status × HashTableState
    resize_native template none = (op_err, template)
    resize_native template (some size) = (
      op_success,
      record template {
        max_load = if leb size (load template.size) then size - 1 else load template.size;
        mask = size - 1;
      },
    )

    unfoldable pub update_template_size_native :
        HashTableState → (expected_elements : ℕ) → Status × HashTableState
    update_template_size_native template expected_elements =
        resize_native template (round_up_to_power_of_two (min_size expected_elements))

-- The loop that puts the entries of the old table into the new one; `none` when `s_emplace_item` does
-- not return.
unfoldable pub rehash : List Entry → HashTableState → Option HashTableState
rehash [] new_state = some new_state
rehash (entry ∷ entries) new_state = elim (entry.hash_code == 0) [
  | true ↦ rehash entries new_state
  | false ↦ elim (emplace_item new_state entry 0) [
    | none ↦ none
    | some (slots, at_entry) ↦ rehash entries (record new_state { slots = slots })
  ]
]

-- `s_expand_table` without SeaHorn: the result and the table's new state. `none`: the loop goes wrong.
module _ (mul_size_checked : ℕ → ℕ → Option ℕ) (round_up_to_power_of_two : ℕ → Option ℕ)
    (load : ℕ → ℕ) (alloc_state : HashTableState → Option HashTableState) where
  abbrev fill_new : HashTableState → Option HashTableState → Option (Status × HashTableState)
  fill_new old_state none = some (op_err, old_state)
  fill_new old_state (some new_state) = elim (rehash old_state.slots new_state) [
    | none ↦ none
    | some filled ↦ some (op_success, filled)
  ]

  abbrev expand_to : HashTableState → Status × HashTableState → Option (Status × HashTableState)
  expand_to old_state (op_err, template) = some (op_err, old_state)
  expand_to old_state (op_success, template) = fill_new old_state (alloc_state template)

  abbrev expand_from : HashTableState → Option ℕ → Option (Status × HashTableState)
  expand_from old_state none = some (op_err, old_state)
  expand_from old_state (some new_size) =
      expand_to old_state
        (update_template_size_native round_up_to_power_of_two load old_state new_size)

  unfoldable pub expand_table_native : HashTableState → Option (Status × HashTableState)
  expand_table_native old_state = expand_from old_state (mul_size_checked old_state.size 2)
