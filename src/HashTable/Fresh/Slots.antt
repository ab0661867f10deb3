-- ===== src/HashTable/Fresh/Slots.antt =====
-- Looking for an empty slot: the loop of seahorn/lib/fuzz_hash_table_helper.c, and the choice of
-- hash_table_helper.c.
use verify_c_common.Base.{
  ℕ, zero, suc, ◌+◌, ◌<◌, ◌≡◌, refl, ap, ◌∙◌, Bool, true, false, Option, none, some, List, [], ◌∷◌,
  ◌==◌, ltb, not, ◌&&◌, if◌then◌else◌, length, get_elem?, Bool-cases, inl, inr, some-inj, sym,
  arith,
}
use verify_c_common.HashTable.{Entry, HashTableState, deep_entry_count}
use verify_c_common.HashTable.Count.{StandsAt, count, occupied, deep_entry_count_lem}

-- `k` rounds from `i` on; a slot that is not allocated gives `none`.
unfoldable pub empty_slot_from : List Entry → (k i : ℕ) → Option Bool
empty_slot_from slots zero i = some false
empty_slot_from slots (suc k) i = elim (get_elem? slots i) [
  | none ↦ none
  | some entry ↦ elim (entry.hash_code == 0) [
    | true ↦ some true
    | false ↦ empty_slot_from slots k (suc i)
  ]
]

-- `*rval` is not set.
unfoldable pub fuzz_has_an_empty_slot : HashTableState → Option Bool
fuzz_has_an_empty_slot state =
    if state.entry_count == 0 then some false else empty_slot_from state.slots state.size 0

count_bound : (p : Entry → Bool) (es : List Entry) → count p es < length es + 1
count_bound p [] = omega arith
count_bound p (e ∷ es) = ground (arith, count_bound p es)

empty_slot_from_lem :
    (rest slots : List Entry) (i : ℕ)
    → StandsAt slots i rest
    → empty_slot_from slots (length rest) i ≡ some (ltb (count occupied rest) (length rest))
unfolding empty_slot_from
empty_slot_from_lem [] slots i h = refl
empty_slot_from_lem (e ∷ rest) slots i h =
    let here : get_elem? slots i ≡ some e = ap (get_elem? slots) (omega arith) ∙ h 0 in
    let there : StandsAt slots (suc i) rest = λ j. ap (get_elem? slots) (omega arith) ∙ h (suc j) in
    let further = empty_slot_from_lem rest slots (suc i) there in
    let bound = count_bound occupied rest in
    elim (Bool-cases (e.hash_code == 0)) [
      | inl empty ↦ rw (empty_slot_from, here, empty) (ground arith)
      | inr in_use ↦ rw (empty_slot_from, here, in_use) (further ∙ ap some (ground arith))
    ]

-- If the slots are allocated, the loop of the fuzzers answers yes exactly if `entry_count` is not 0 and
-- `aws_hash_table_deep_entry_count` is less than the number of slots.
pub fuzz_has_an_empty_slot-deep_entry_count :
    (state : HashTableState) (n : ℕ)
    → state.size ≡ length state.slots
    → deep_entry_count state ≡ some n
    → fuzz_has_an_empty_slot state ≡ some (not (state.entry_count == 0) && ltb n state.size)
unfolding fuzz_has_an_empty_slot
fuzz_has_an_empty_slot-deep_entry_count state n all counted =
    let same : n ≡ count occupied state.slots =
      some-inj (sym counted ∙ deep_entry_count_lem state all) in
    let found : empty_slot_from state.slots state.size 0
        ≡ some (ltb (count occupied state.slots) (length state.slots)) =
      rw (all) (
        empty_slot_from_lem state.slots state.slots 0
          (λ j. ap (get_elem? state.slots) (omega arith))) in
    rw (found, same, all) (ground arith)
