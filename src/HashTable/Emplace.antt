-- ===== src/HashTable/Emplace.antt =====
-- The insertion loop of aws-c-common-stubs/s_emplace_item_override.c (the original code, which runs
-- without SeaHorn), and the stub that SeaHorn runs instead.
pub mod Round
pub mod Steps
pub mod Outcomes
pub mod Laws
use Prim.Native.Nat.{bit_and}
use verify_c_common.Base.{
  ℕ, zero, suc, ◌+◌, Bool, true, false, Option, none, some, List, ltb, ◌==◌, not, ◌||◌,
  if◌then◌else◌, add_size, sub_size, get_elem?, set,
}
use verify_c_common.World.{Cmd, ok, fault, nd_size_t, assume, pure, ◌>>=◌, ◌>>◌}
use verify_c_common.HashTable.{Entry, HashTableState}

-- The local variables of the loop.
pub record Emplacing : Type 0 where
  pub slots : List Entry
  pub entry : Entry
  pub probe_idx : ℕ
  pub rval : Option ℕ

abbrev pub probe : ℕ → Entry → ℕ → ℕ
probe mask entry probe_idx = bit_and (add_size entry.hash_code probe_idx) mask

abbrev pub victim_probe : ℕ → Entry → ℕ → ℕ
victim_probe mask victim index = bit_and (sub_size index victim.hash_code) mask

abbrev pub keep_first : Option ℕ → ℕ → Option ℕ
keep_first none index = some index
keep_first (some r) index = some r

-- What the loop does with the victim it finds at `index`.
abbrev pub emplace_at : (mask index : ℕ) (victim : Entry) → Emplacing → Emplacing
emplace_at mask index victim s =
    let victim_probe_idx = victim_probe mask victim index in
    if (victim.hash_code == 0) || ltb victim_probe_idx s.probe_idx
    then record {
      slots = set s.slots index s.entry;
      entry = victim;
      probe_idx = add_size victim_probe_idx 1;
      rval = keep_first s.rval index;
    }
    else record s { probe_idx = add_size s.probe_idx 1 }

-- The loop, for at most `fuel` rounds; `none` when they are used up or the index is not in the slots.
unfoldable pub emplace_loop : (fuel mask : ℕ) → Emplacing → Option (List Entry × Option ℕ)
emplace_loop zero mask s = if s.entry.hash_code == 0 then some (s.slots, s.rval) else none
emplace_loop (suc fuel) mask s =
    let index = probe mask s.entry s.probe_idx in
    elim (s.entry.hash_code == 0) [
      | true ↦ some (s.slots, s.rval)
      | false ↦ elim (get_elem? s.slots index) [
        | none ↦ none
        | some victim ↦ emplace_loop fuel mask (emplace_at mask index victim s)
      ]
    ]

-- The function, with as many rounds as there are slots: the new slots, and where the entry is.
unfoldable pub emplace_item : HashTableState → Entry → ℕ → Option (List Entry × Option ℕ)
emplace_item state entry probe_idx =
    emplace_loop state.size state.mask
      (record { slots = state.slots; entry = entry; probe_idx = probe_idx; rval = none })

abbrev put_if_empty : HashTableState → Entry → ℕ → Option Entry → Cmd (HashTableState × Option ℕ)
put_if_empty state entry index none w = fault
put_if_empty state entry index (some victim) w =
    (assume (victim.hash_code == 0)
        >> pure (record state { slots = set state.slots index entry }, some index))
      w

-- Under SeaHorn: any empty slot.
unfoldable pub emplace_item_stub : HashTableState → Entry → Cmd (HashTableState × Option ℕ)
emplace_item_stub state entry = elim (entry.hash_code == 0) [
  | true ↦ pure (state, none)
  | false ↦ do
    index ← nd_size_t
    assume (ltb index state.size)
    put_if_empty state entry index (get_elem? state.slots index)
]
