-- ===== src/HashTable/Expand/Laws.antt =====
-- What aws-c-common-stubs/s_hash_for_override.c and s_update_template_size_override.c return.
use verify_c_common.Base.{
  ℕ, ◌<◌, ◌≤◌, ◌≡◌, ◌≢◌, refl, Bool, true, false, Option, none, some, List, length, arith,
}
use verify_c_common.World.{World, Ensures, Returns}
use verify_c_common.Alloc.Override.{Status, op_success, op_err}
use verify_c_common.HashTable.{Entry, HashTableState, hash_table_state_is_valid}
use verify_c_common.HashTable.Expand.{
  resize, min_size, hash_for, hash_for_native, update_template_size, update_template_size_native,
}

-- Neither variant of `s_hash_for` returns the hash code of an empty slot.
pub hash_for-nonzero :
    (hash_fn : ℕ → ℕ) (key : ℕ) (w : World)
    → Returns (λ hash_code _. hash_code ≢ 0) (hash_for key w)
      × Returns (λ hash_code _. hash_code ≢ 0) (hash_for_native hash_fn key w)
unfolding hash_for hash_for_native
hash_for-nonzero hash_fn key w = (ground arith, ground arith)

module _ (is_power_of_two : ℕ → Bool) (round_up_to_power_of_two : ℕ → Option ℕ) where
  -- What is used of `aws_round_up_to_power_of_two`: a result is a power of two that is large enough.
  abbrev pub RoundsUp : Type 0
  RoundsUp = (n s : ℕ) → round_up_to_power_of_two n ≡ some s → (is_power_of_two s ≡ true) × (n ≤ s)

  -- The template is as it was, or resized for `n` entries: valid as soon as it has the slots.
  abbrev pub Resized : HashTableState → ℕ → Status × HashTableState → Type 0
  Resized template n (op_err, out) = out ≡ template
  Resized template n (op_success, out) =
      (n ≤ out.size)
      × (out.entry_count < out.max_load)
      × ((sl : List Entry)
          → out.size ≤ length sl
          → hash_table_state_is_valid is_power_of_two (some (record out { slots = sl })) ≡ true)

  resize-Resized :
      (template : HashTableState) (n : ℕ) (o : Option ℕ) (w : World)
      → ((s : ℕ) → o ≡ some s → (is_power_of_two s ≡ true) × (n ≤ s) × (2 ≤ s))
      → hash_table_state_is_valid is_power_of_two (some template) ≡ true
      → Ensures (λ out _. Resized template n out) (resize round_up_to_power_of_two template o w)
  unfolding hash_table_state_is_valid
  resize-Resized template n none w fits valid = ground arith
  resize-Resized template n (some s) w fits valid = ground (arith, fits s refl)

  -- In every run that is not cut short `s_update_template_size` under SeaHorn, of a valid state, fails and changes nothing, or gives a
  -- state for at least the expected number of entries and with its count below the load limit,
  -- which is valid as soon as it has the slots.
  pub update_template_size-Resized :
      (template : HashTableState) (expected_elements : ℕ) (w : World)
      → RoundsUp
      → hash_table_state_is_valid is_power_of_two (some template) ≡ true
      → Ensures
          (λ out _. Resized template expected_elements out)
          (update_template_size round_up_to_power_of_two template expected_elements w)
  unfolding update_template_size
  update_template_size-Resized template e w rounds valid =
      resize-Resized template e (round_up_to_power_of_two (min_size round_up_to_power_of_two e)) w
        (λ s h. ground (arith, rounds (min_size round_up_to_power_of_two e) s h)) valid

  -- Without SeaHorn `s_update_template_size` sets the mask but not the size: when the size should
  -- change, the result is not a valid state, whatever slots it is given.
  pub update_template_size_native-not_IsValid :
      (load : ℕ → ℕ) (template : HashTableState) (expected_elements size : ℕ) (sl : List Entry)
      → 2 ≤ expected_elements
      → round_up_to_power_of_two expected_elements ≡ some size
      → expected_elements ≤ size
      → size ≢ template.size
      → 2 ≤ template.size
      → hash_table_state_is_valid is_power_of_two (
          some
            (record (update_template_size_native round_up_to_power_of_two load template
              expected_elements).1 { slots = sl }))
        ≡ false
  unfolding update_template_size_native hash_table_state_is_valid
  update_template_size_native-not_IsValid load template e size sl two rounds le ne two' =
      ground arith
