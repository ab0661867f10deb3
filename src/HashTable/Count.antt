-- ===== src/HashTable/Count.antt =====
-- What the loops of lib/hash_table_helper.c over the slots count.
use verify_c_common.Base.{
  ℕ, zero, suc, ◌+◌, ◌≡◌, ◌↔◌, refl, ap, ◌∙◌, Bool, true, false, not, ◌&&◌, some, List, [], ◌∷◌,
  ◌==◌, if◌then◌else◌, length, get_elem?, set, arith,
}
use verify_c_common.HashTable.{
  Entry, HashTableState, deep_entry_count_from, deep_entry_count, deep_is_empty_from, deep_is_empty,
}

-- How many entries pass a test.
abbrev pub count : (Entry → Bool) → List Entry → ℕ
count p [] = 0
count p (e ∷ es) = (if p e then 1 else 0) + count p es

abbrev pub occupied : Entry → Bool
occupied e = not (e.hash_code == 0)

-- The list `rest` is what stands in `slots` from index `i` on.
abbrev pub StandsAt : List Entry → ℕ → List Entry → Type 0
StandsAt slots i rest = (j : ℕ) → get_elem? slots (i + j) ≡ get_elem? rest j

stands_next :
    (slots : List Entry) (i : ℕ) (e : Entry) (rest : List Entry)
    → StandsAt slots i (e ∷ rest)
    → StandsAt slots (suc i) rest
stands_next slots i e rest h j = ap (get_elem? slots) (omega arith) ∙ h (suc j)

stands_here :
    (slots : List Entry) (i : ℕ) (e : Entry) (rest : List Entry)
    → StandsAt slots i (e ∷ rest)
    → get_elem? slots i ≡ some e
stands_here slots i e rest h = ap (get_elem? slots) (omega arith) ∙ h 0

deep_entry_count_from_lem :
    (rest slots : List Entry) (i r : ℕ)
    → StandsAt slots i rest
    → deep_entry_count_from slots (length rest) i r ≡ some (r + count occupied rest)
unfolding deep_entry_count_from
deep_entry_count_from_lem [] slots i r h = ap some (omega arith)
deep_entry_count_from_lem (e ∷ rest) slots i r h =
    rw (deep_entry_count_from, stands_here slots i e rest h)
      (deep_entry_count_from_lem rest slots (suc i) (if e.hash_code == 0 then r else suc r)
          (stands_next slots i e rest h)
        ∙ ap some (ground arith))

-- If the slots are allocated, `aws_hash_table_deep_entry_count` returns how many of them are in use.
pub deep_entry_count_lem :
    (state : HashTableState)
    → state.size ≡ length state.slots
    → deep_entry_count state ≡ some (count occupied state.slots)
unfolding deep_entry_count
deep_entry_count_lem state h = rw (h) (
    deep_entry_count_from_lem state.slots state.slots 0 0
      (λ j. ap (get_elem? state.slots) (omega arith))
    ∙ ap some (omega arith))

deep_is_empty_from_lem :
    (rest slots : List Entry) (i : ℕ) (r : Bool)
    → StandsAt slots i rest
    → deep_is_empty_from slots (length rest) i r ≡ some (r && (count occupied rest == 0))
unfolding deep_is_empty_from
deep_is_empty_from_lem [] slots i true h = refl
deep_is_empty_from_lem [] slots i false h = refl
deep_is_empty_from_lem (e ∷ rest) slots i r h =
    rw (deep_is_empty_from, stands_here slots i e rest h)
      (deep_is_empty_from_lem rest slots (suc i) (r && (e.hash_code == 0))
          (stands_next slots i e rest h)
        ∙ ap some (ground arith))

-- If the slots are allocated, `aws_hash_table_deep_is_empty` returns true exactly if
-- `aws_hash_table_deep_entry_count` returns 0.
pub deep_is_empty-deep_entry_count :
    (state : HashTableState)
    → state.size ≡ length state.slots
    → (deep_is_empty state ≡ some true) ↔ (deep_entry_count state ≡ some 0)
unfolding deep_is_empty
deep_is_empty-deep_entry_count state h =
    let found : deep_is_empty_from state.slots state.size 0 true
        ≡ some (true && (count occupied state.slots == 0)) =
      rw (h) (
        deep_is_empty_from_lem state.slots state.slots 0 true
          (λ j. ap (get_elem? state.slots) (omega arith))) in
    let counted = deep_entry_count_lem state h in ground arith

-- A write changes the count by what it puts and what it takes.
pub count-set :
    (p : Entry → Bool) (es : List Entry) (i : ℕ) (old new : Entry)
    → get_elem? es i ≡ some old
    → count p (set es i new) + (if p old then 1 else 0) ≡ count p es + (if p new then 1 else 0)
count-set p [] i old new h = ground arith
count-set p (e ∷ es) zero old new h = ground arith
count-set p (e ∷ es) (suc i) old new h = omega (arith, count-set p es i old new h)
