-- ===== src/HashTable/Expand/Rehash.antt =====
-- The loop of `s_expand_table` that moves the entries to the new table keeps all of them.
use verify_c_common.Base.{
  ℕ, zero, suc, ◌+◌, ◌-◌, ◌^◌, ◌<◌, ◌≤◌, ◌≡◌, refl, ◌∙◌, Bool, true, false, not, Option, some, List,
  [], ◌∷◌, ◌==◌, ltb, length, get_elem?, arith, Bool-cases, inl, inr,
}
use verify_c_common.HashTable.{Entry, HashTableState}
use verify_c_common.HashTable.Count.{count, occupied}
use verify_c_common.HashTable.Emplace.{emplace_item}
use verify_c_common.HashTable.Emplace.Steps.{HashesFit}
use verify_c_common.HashTable.Emplace.Laws.{emplace_item_lem}
use verify_c_common.HashTable.Expand.{rehash}

-- Fewer entries than slots leave an empty slot.
hole_of_count :
    (es : List Entry)
    → count occupied es < length es
    → (h : ℕ) × (hole : Entry) × (hole.hash_code ≡ 0) × (get_elem? es h ≡ some hole)
hole_of_count [] lt = absurd (omega arith)
hole_of_count (e ∷ es) lt = elim (Bool-cases (e.hash_code == 0)) [
  | inl empty ↦ (0, e, ground arith, refl)
  | inr full ↦
      let (h, hole, empty, at_h) = hole_of_count es (ground arith) in (suc h, hole, empty, at_h)
]

-- The test for a hash code that is out of range.
abbrev too_large : Entry → Bool
too_large e = not (ltb e.hash_code (2 ^ 64))

count_of_fit : (es : List Entry) → HashesFit es → count too_large es ≡ 0
count_of_fit [] fit = refl
count_of_fit (e ∷ es) fit = ground (arith, fit 0 e refl, count_of_fit es (λ i x h. fit (suc i) x h))

fit_of_count : (es : List Entry) → count too_large es ≡ 0 → HashesFit es
fit_of_count [] none_large i e h = ground arith
fit_of_count (x ∷ es) none_large zero e h = ground arith
fit_of_count (x ∷ es) none_large (suc i) e h = fit_of_count es (ground arith) i e h

rehash_empty :
    (e : Entry) (es : List Entry) (new : HashTableState)
    → (e.hash_code == 0) ≡ true
    → rehash (e ∷ es) new ≡ rehash es new
unfolding rehash
rehash_empty e es new h = rw (rehash, h) refl

rehash_full :
    (e : Entry) (es : List Entry) (new : HashTableState) (sl : List Entry) (r : Option ℕ)
    → (e.hash_code == 0) ≡ false
    → emplace_item new e 0 ≡ some (sl, r)
    → rehash (e ∷ es) new ≡ rehash es (record new { slots = sl })
unfolding rehash
rehash_full e es new sl r h ends = rw (rehash, h, ends) refl

-- If the new table has `2 ^ m` slots and room for all entries, each entry ends up in it: for every
-- test that empty slots do not pass, the new table has as many entries that pass as before and in the
-- old table together.
pub rehash_lem :
    (m : ℕ)
    → m ≤ 64
    → (es : List Entry) (new : HashTableState) → new.size ≡ 2 ^ m
    → new.mask ≡ 2 ^ m - 1
    → length new.slots ≡ new.size
    → HashesFit new.slots
    → HashesFit es
    → count occupied new.slots + count occupied es < 2 ^ m
    → (new' : HashTableState) × (rehash es new ≡ some new')
      × ((p : Entry → Bool)
          → ((e : Entry) → e.hash_code ≡ 0 → p e ≡ false)
          → count p new'.slots ≡ count p new.slots + count p es)
unfolding rehash
rehash_lem m m64 [] new size mask len fit fit' room = (new, refl, (λ p rejects. omega arith))
rehash_lem m m64 (e ∷ es) new size mask len fit fit' room = elim (Bool-cases (e.hash_code == 0)) [
  | inl empty ↦
      let (new', ends, keeps) =
        rehash_lem m m64 es new size mask len fit (λ i x h. fit' (suc i) x h) (ground arith) in
      (
        new',
        rehash_empty e es new empty ∙ ends,
        (λ p rejects. ground (arith, keeps p rejects, rejects e (ground arith))),
      )
  | inr full ↦
      let (sl, r, ends, len', at_r, (last, hole, keeps)) =
        emplace_item_lem m new e 0
          (m64, size, mask, len, fit, hole_of_count new.slots (ground arith)) (ground arith)
          (fit' 0 e refl) in
      let (new', ends', keeps') =
        rehash_lem m m64 es (record new { slots = sl }) size mask (len' ∙ len)
          (fit_of_count sl
            (ground (arith, keeps too_large, count_of_fit new.slots fit, fit' 0 e refl)))
          (λ i x h. fit' (suc i) x h) (ground (arith, keeps occupied)) in
      (
        new',
        rehash_full e es new sl (some r) full ends ∙ ends',
        (λ p rejects. ground (arith, keeps' p rejects, keeps p, rejects last hole)),
      )
]
