-- ===== src/HashTable/Emplace/Laws.antt =====
-- The insertion loop of aws-c-common-stubs/s_emplace_item_override.c ends, loses nothing and returns
-- where it put the entry.
use native.Mathlib.Nat.{mod-lt, one-le-pow, mod-eq_of_lt, add-mod_right}
use native.Mathlib.Decide.{dec_lt}
use mathlib.Core.Path.{subst}
use verify_c_common.Base.{
  ℕ, get_elem?-some, get_elem?-bound, some-inj, refl, zero, suc, ◌+◌, ◌-◌, ◌^◌, ◌%◌, ◌<◌, ◌≤◌, ◌≡◌,
  ◌≢◌, sym, ap, ◌∙◌, none, some, List, length, get_elem?, set, length-set, get_elem?-set_self,
  get_elem?-set_ne, arith, ◌==◌, Bool-cases, inl, inr,
}
use verify_c_common.HashTable.{Entry, HashTableState, deep_entry_count}
use verify_c_common.HashTable.Count.{count, occupied, deep_entry_count_lem}
use verify_c_common.HashTable.Emplace.{Emplacing, probe, emplace_loop, emplace_item}
use verify_c_common.HashTable.Emplace.Round.{probe_lem, path_next, path_apart}
use verify_c_common.HashTable.Emplace.Steps.{HashesFit, Keeps, Ends, here}
use verify_c_common.HashTable.Emplace.Outcomes.{
  swaps, swap_next, skip_next, swap_index, skip_index, hole-Ends, swap-Ends, skip-Ends,
}

HashesFit-set :
    (es : List Entry) (i : ℕ) (v : Entry)
    → HashesFit es
    → v.hash_code < 2 ^ 64
    → HashesFit (set es i v)
HashesFit-set es i v fit fits j e h = elim (Bool-cases (i == j)) [
  | inl same ↦
      let e_j : i ≡ j = ground arith in
      let bound : i < length es =
        omega (arith, get_elem?-bound (set es i v) j e h, length-set es i v) in
      let at_i : get_elem? (set es i v) i ≡ some e = ap (get_elem? (set es i v)) e_j ∙ h in
      let e_v : v ≡ e = some-inj (sym (get_elem?-set_self es i v bound) ∙ at_i) in
      omega (arith, ap (λ x. x.hash_code) e_v)
  | inr other ↦ fit j e (sym (get_elem?-set_ne es v (λ p. ground arith)) ∙ h)
]

-- The slot `d` places on is empty.
abbrev HoleAt : (n i d : ℕ) → List Entry → Type 0
HoleAt n i d es = (hole : Entry) × (hole.hash_code ≡ 0) × (get_elem? es ((i + d) % n) ≡ some hole)

-- The hole is one place nearer in the next round.
hole_next : (n i d : ℕ) (es : List Entry) → HoleAt n i (suc d) es → HoleAt n ((i + 1) % n) d es
hole_next n i d es (hole, empty, h) = (hole, empty, ap (get_elem? es) (path_next n i d) ∙ h)

hole_stays :
    (n i d : ℕ) (es : List Entry) (e : Entry)
    → i < n
    → suc d < n
    → HoleAt n i (suc d) es
    → HoleAt n i (suc d) (set es i e)
hole_stays n i d es e lt small (hole, empty, h) = (
  hole,
  empty,
  get_elem?-set_ne es e (λ p. path_apart n i (suc d) lt (omega arith) small (sym p)) ∙ h,
)

small_index : (m : ℕ) → m ≤ 64 → (s : Emplacing) → probe (2 ^ m - 1) s.entry s.probe_idx < 2 ^ m
small_index m m64 s = omega (
  arith,
  probe_lem m s.entry s.probe_idx m64,
  mod-lt (s.entry.hash_code + s.probe_idx) (one-le-pow m 2 (omega arith)),
)

loop-Ends :
    (m : ℕ)
    → m ≤ 64
    → (fuel d : ℕ) (s : Emplacing) → d < fuel
    → d < 2 ^ m
    → length s.slots ≡ 2 ^ m
    → HashesFit s.slots
    → s.entry.hash_code ≢ 0
    → HoleAt (2 ^ m) (probe (2 ^ m - 1) s.entry s.probe_idx) d s.slots
    → s.entry.hash_code < 2 ^ 64
    → Ends (2 ^ m) (probe (2 ^ m - 1) s.entry s.probe_idx) d s (emplace_loop fuel (2 ^ m - 1) s)
loop-Ends m m64 zero d s lt small len fit used hole fits = absurd (omega arith)
loop-Ends m m64 (suc fuel) zero s lt small len fit used (hole, empty, at_hole) fits =
    let i = probe (2 ^ m - 1) s.entry s.probe_idx in
    let found : get_elem? s.slots i ≡ some hole =
      ap (get_elem? s.slots) (sym (here (2 ^ m) i (small_index m m64 s))) ∙ at_hole in
    hole-Ends m m64 s hole found used fuel 0 empty
loop-Ends m m64 (suc fuel) (suc d) s lt small len fit used hole fits =
    let i = probe (2 ^ m - 1) s.entry s.probe_idx in
    let i_small = small_index m m64 s in
    let (victim, found) = get_elem?-some s.slots i (omega (arith, i_small)) in
    elim (Bool-cases (victim.hash_code == 0)) [
      | inl empty ↦ hole-Ends m m64 s victim found used fuel (suc d) (ground arith)
      | inr full ↦ elim (Bool-cases (swaps (2 ^ m - 1) i victim s)) [
        | inl test ↦
            let s' = swap_next m m64 s victim found used in
            let moved : HoleAt (2 ^ m) (probe (2 ^ m - 1) s'.entry s'.probe_idx) d s'.slots =
              subst (λ k. HoleAt (2 ^ m) k d s'.slots)
                (sym (swap_index m m64 s victim found used (fit i victim found)))
                (hole_next (2 ^ m) i d s'.slots
                  (hole_stays (2 ^ m) i d s.slots s.entry i_small small hole)) in
            swap-Ends m m64 s victim found used fuel d small (fit i victim found) test (
              loop-Ends m m64 fuel d s' (omega arith) (omega arith)
                (length-set s.slots i s.entry ∙ len) (HashesFit-set s.slots i s.entry fit fits)
                (ground arith) moved (fit i victim found))
        | inr test ↦
            let s' = skip_next m m64 s victim found used in
            let moved : HoleAt (2 ^ m) (probe (2 ^ m - 1) s'.entry s'.probe_idx) d s'.slots =
              subst (λ k. HoleAt (2 ^ m) k d s.slots) (sym (skip_index m m64 s victim found used))
                (hole_next (2 ^ m) i d s.slots hole) in
            skip-Ends m m64 s victim found used fuel d test
              (loop-Ends m m64 fuel d s' (omega arith) (omega arith) len fit used moved fits)
      ]
    ]

-- How far it is from one slot to another.
distance : (n i h : ℕ) → i < n → h < n → (d : ℕ) × (d < n) × ((i + d) % n ≡ h)
distance n i h lt lt' = elim (dec_lt h i) [
  | yes below ↦
      (h + n - i, omega arith, ap (λ k. k % n) (omega arith) ∙ add-mod_right h n ∙ mod-eq_of_lt lt')
  | no above ↦ (h - i, omega arith, ap (λ k. k % n) (omega arith) ∙ mod-eq_of_lt lt')
]

-- A table of `2 ^ m` slots with mask `2 ^ m - 1` and an empty slot.
abbrev pub HasRoom : ℕ → HashTableState → Type 0
HasRoom m state =
    (m ≤ 64)
    × (state.size ≡ 2 ^ m)
    × (state.mask ≡ 2 ^ m - 1)
    × (length state.slots ≡ state.size)
    × HashesFit state.slots
    × ((h : ℕ) × (hole : Entry) × (hole.hash_code ≡ 0) × (get_elem? state.slots h ≡ some hole))

-- If the table has an empty slot, the loop of `s_emplace_item` ends after at most as many rounds as
-- there are slots: the slots hold what they held and the entry, in place of an empty one, and the
-- entry stands where the returned pointer points.
pub emplace_item_lem :
    (m : ℕ) (state : HashTableState) (entry : Entry) (probe_idx : ℕ)
    → HasRoom m state
    → entry.hash_code ≢ 0
    → entry.hash_code < 2 ^ 64
    → (es : List Entry) × (r : ℕ) × (emplace_item state entry probe_idx ≡ some (es, some r))
      × (length es ≡ length state.slots)
      × (get_elem? es r ≡ some entry)
      × Keeps state.slots entry es
unfolding emplace_item
emplace_item_lem m state entry probe_idx (m64, size, mask, len, fit, (h, hole, empty, at_h)) used
      fits =
    let s : Emplacing = record {
      slots = state.slots;
      entry = entry;
      probe_idx = probe_idx;
      rval = none;
    } in
    let bound = get_elem?-bound state.slots h hole at_h in
    let (d, small, path) =
      distance (2 ^ m) (probe (2 ^ m - 1) entry probe_idx) h (small_index m m64 s) (omega arith) in
    let (es, r, ends, len', keeps, untouched, first, later) =
      loop-Ends m m64 (2 ^ m) d s small small (len ∙ size) fit used
        (hole, empty, ap (get_elem? state.slots) path ∙ at_h) fits in
    (
      es,
      r,
      ap (λ (n, k). emplace_loop n k s) (ap (λ n. (n, state.mask)) size ∙ ap (λ k. (2 ^ m, k)) mask)
          ∙ ends,
      len',
      first refl,
      keeps,
    )

-- If the table has an empty slot, `s_emplace_item` makes the number of slots in use that
-- `aws_hash_table_deep_entry_count` returns go up by one.
pub emplace_item-deep_entry_count :
    (m : ℕ) (state : HashTableState) (entry : Entry) (probe_idx count : ℕ)
    → HasRoom m state
    → entry.hash_code ≢ 0
    → entry.hash_code < 2 ^ 64
    → deep_entry_count state ≡ some count
    → (es : List Entry) × (r : ℕ) × (emplace_item state entry probe_idx ≡ some (es, some r))
      × (deep_entry_count (record state { slots = es }) ≡ some (suc count))
emplace_item-deep_entry_count m state entry probe_idx n room used fits counted =
    let (es, r, ends, len, at_r, (last, empty, keeps)) =
      emplace_item_lem m state entry probe_idx room used fits in
    let before : n ≡ count occupied state.slots =
      some-inj (sym counted ∙ deep_entry_count_lem state (sym room.3)) in
    let after : count occupied es ≡ suc n = ground (arith, keeps occupied) in
    (
      es,
      r,
      ends,
      deep_entry_count_lem (record state { slots = es }) (sym room.3 ∙ sym len) ∙ ap some after,
    )
