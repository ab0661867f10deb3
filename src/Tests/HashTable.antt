-- ===== src/Tests/HashTable.antt =====
-- A hash table of four slots with two entries.
use verify_c_common.Base.{
  ℕ, zero, suc, ◌+◌, ◌-◌, ◌^◌, ◌≤◌, ◌<◌, ◌≡◌, refl, Bool, true, false, Option, none, some, List, [],
  ◌∷◌, leb, ◌==◌, ◌||◌, if◌then◌else◌, length, get_elem?, arith,
}
use verify_c_common.World.{World, Ensures}
use verify_c_common.HashTable.{
  Entry, HashTableState, hash_table_state_is_valid, deep_entry_count, deep_entry_count_from,
}
use verify_c_common.HashTable.Count.{count}
use verify_c_common.HashTable.Emplace.{emplace_item}
use verify_c_common.HashTable.Emplace.Steps.{HashesFit, Keeps}
use verify_c_common.HashTable.Emplace.Laws.{HasRoom, emplace_item_lem}
use verify_c_common.HashTable.Iter.{iterate_all}
use verify_c_common.HashTable.Iter.Laws.{iterate_all-Within}
use verify_c_common.HashTable.Expand.{rehash, update_template_size, update_template_size_native}
use verify_c_common.HashTable.Expand.Rehash.{rehash_lem}
use verify_c_common.HashTable.Expand.Laws.{
  RoundsUp, Resized, update_template_size-Resized, update_template_size_native-not_IsValid,
}
use verify_c_common.Tests.{world_of}

abbrev world : World
world = world_of 3

abbrev empty : Entry
empty = record { key = 0; value = 0; hash_code = 0 }

abbrev first_entry : Entry
first_entry = record { key = 100; value = 1; hash_code = 5 }

abbrev second_entry : Entry
second_entry = record { key = 200; value = 2; hash_code = 9 }

abbrev new_entry : Entry
new_entry = record { key = 300; value = 3; hash_code = 13 }

abbrev entries : List Entry
entries = empty ∷ first_entry ∷ second_entry ∷ empty ∷ []

abbrev state_of : ℕ → List Entry → HashTableState
state_of n es = record {
  hash_fn = 1;
  equals_fn = 1;
  destroy_key_fn = 0;
  destroy_value_fn = 0;
  alloc = 1;
  size = n;
  entry_count = 2;
  max_load = 3;
  mask = n - 1;
  slots = es;
}

abbrev state : HashTableState
state = state_of 4 entries

fit_cons : (e : Entry) (es : List Entry) → e.hash_code < 2 ^ 64 → HashesFit es → HashesFit (e ∷ es)
fit_cons e es small fit zero x h = ground arith
fit_cons e es small fit (suc i) x h = fit i x h

fit_nil : HashesFit []
fit_nil i e h = ground arith

fit_two : HashesFit (second_entry ∷ empty ∷ [])
fit_two = fit_cons second_entry (empty ∷ []) (omega arith) (fit_cons empty [] (omega arith) fit_nil)

fit : HashesFit entries
fit =
    fit_cons empty (first_entry ∷ second_entry ∷ empty ∷ []) (omega arith)
      (fit_cons first_entry (second_entry ∷ empty ∷ []) (omega arith) fit_two)

has_room : HasRoom 2 state
has_room = (omega arith, refl, refl, refl, fit, (0, empty, refl, refl))

emplace_item_lem_example :
    (es : List Entry) × (r : ℕ) × (emplace_item state new_entry 0 ≡ some (es, some r))
    × (length es ≡ length entries)
    × (get_elem? es r ≡ some new_entry)
    × Keeps entries new_entry es
emplace_item_lem_example = emplace_item_lem 2 state new_entry 0 has_room (omega arith) (omega arith)

two_entries : deep_entry_count state ≡ some 2
unfolding deep_entry_count deep_entry_count_from
two_entries = refl

iterate_all-Within_example :
    Ensures (λ out _. (rounds : ℕ) × (out ≡ some rounds) × (rounds ≤ 4)) (iterate_all 5 state world)
iterate_all-Within_example = iterate_all-Within state world (omega arith)

abbrev empties : ℕ → List Entry
empties zero = []
empties (suc n) = empty ∷ empties n

abbrev no_entries : List Entry
no_entries = empties 8

abbrev new_state : HashTableState
new_state = state_of 8 no_entries

fit_none : (n : ℕ) → HashesFit (empties n)
fit_none zero = fit_nil
fit_none (suc n) = fit_cons empty (empties n) (omega arith) (fit_none n)

rehash_lem_example :
    (new' : HashTableState) × (rehash entries new_state ≡ some new')
    × ((p : Entry → Bool)
        → ((e : Entry) → e.hash_code ≡ 0 → p e ≡ false)
        → count p new'.slots ≡ count p no_entries + count p entries)
rehash_lem_example =
    rehash_lem 3 (omega arith) entries new_state refl refl refl (fit_none 8) fit (omega arith)

abbrev is_power_of_two : ℕ → Bool
is_power_of_two n = (n == 2) || ((n == 4) || (n == 8))

-- Up to 8.
abbrev round_up : ℕ → Option ℕ
round_up n =
    if leb n 2 then some 2 else if leb n 4 then some 4 else if leb n 8 then some 8 else none

rounds_up : RoundsUp is_power_of_two round_up
rounds_up n s h = ground arith

valid : hash_table_state_is_valid is_power_of_two (some state) ≡ true
unfolding hash_table_state_is_valid
valid = refl

update_template_size-Resized_example :
    Ensures
      (λ out _. Resized is_power_of_two round_up state 8 out)
      (update_template_size round_up state 8 world)
update_template_size-Resized_example =
    update_template_size-Resized is_power_of_two round_up state 8 world rounds_up valid

update_template_size_native-not_IsValid_example :
    hash_table_state_is_valid is_power_of_two (
      some
        (record (update_template_size_native round_up (λ n. n) state 8).1 { slots = no_entries }))
    ≡ false
update_template_size_native-not_IsValid_example =
    update_template_size_native-not_IsValid is_power_of_two round_up (λ n. n) state 8 8 no_entries
      (omega arith) refl (omega arith) (omega arith) (omega arith)
