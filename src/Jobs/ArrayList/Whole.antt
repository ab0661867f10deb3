-- ===== src/Jobs/ArrayList/Whole.antt =====
-- What the unit proofs of array lists check of functions on whole lists.
use verify_c_common.Base.{ℕ, ◌/◌, ◌≡◌, ◌↔◌, Bool, true, false, mul_size}
use verify_c_common.World.{World, Cmd, ◌>>◌, Ensures}
use verify_c_common.Structs.{ArrayList, sea_allocator}
use verify_c_common.Utils.{StoredByte}
use verify_c_common.Jobs.{Good, Checks, ◌&◌, Checks-map, harness_on-Meets}
use verify_c_common.Jobs.Tests.{
  sassert-Checks, sassert_on, sassert_on-Checks, same_number-Checks, same_ptr-Checks,
}
use verify_c_common.Jobs.ArrayList.{
  same_list, is_zeroed, any_list, saved_list, clear_assertions, clear_harness, clean_up_assertions,
  clean_up_harness, length_assertions, length_harness, capacity_set_up, capacity_assertions,
  capacity_harness, swap_set_up, swap_assertions, swap_harness, init_set_up, init_assertions,
  init_harness,
}
use verify_c_common.Jobs.ArrayList.Kept.{SameList, same_list-Checks, zeroed_list, is_zeroed-eq}

module _ (list_is_valid : ArrayList → World → Bool) (max_len max_item_size : ℕ) where
  -- The list is valid, and what it was without its items.
  abbrev pub Cleared : (old list : ArrayList) → World → Type 0
  Cleared old list v = (list_is_valid list v ≡ true) × (list ≡ record old { length = 0 })

  clear-Checks :
      (old list : ArrayList)
      → Checks (clear_assertions list_is_valid max_len max_item_size old list) (Cleared old list)
  unfolding clear_assertions
  clear-Checks old list =
      Checks-map _ _ (Cleared old list)
        (λ v. (
          λ (valid, (h1, (h2, (h3, (h4, h5))))). (valid, cc),
          λ (valid, e). (valid, (cc, (cc, (cc, (cc, cc))))),
        ))
        (sassert_on-Checks (list_is_valid list)
          & same_number-Checks list.length 0
          & same_number-Checks list.alloc old.alloc
          & same_number-Checks list.current_size old.current_size
          & same_number-Checks list.item_size old.item_size
          & same_ptr-Checks list.data_ptr old.data_ptr)

  -- What the unit proofs of `aws_array_list_clear` and `aws_array_list_clean_up` show: nothing goes wrong
  -- in a run of the first exactly if the function, on the valid list that the run has set up, sets the
  -- length to 0, keeps the other fields and leaves the list valid, and in a run of the second exactly if
  -- it sets all fields to 0.
  pub clear_harness-Cleared :
      (clear clean_up : ArrayList → Cmd ArrayList) (w : World)
      → (Good (clear_harness list_is_valid max_len max_item_size clear w)
          ↔ Ensures
              (λ old u. Ensures (Cleared old) (clear old u))
              (any_list list_is_valid max_len max_item_size w))
        × (Good (clean_up_harness list_is_valid max_len max_item_size clean_up w)
            ↔ Ensures
                (λ old u. Ensures (λ list _. list ≡ zeroed_list) (clean_up old u))
                (any_list list_is_valid max_len max_item_size w))
  unfolding clear_harness clean_up_harness clean_up_assertions
  clear_harness-Cleared clear clean_up w =
      let set_up = any_list list_is_valid max_len max_item_size w in
      (
        harness_on-Meets set_up (λ old _. Cleared old) clear _
            λ old u _ list. clear-Checks old list,
        harness_on-Meets set_up (λ _ _ list _. list ≡ zeroed_list) clean_up _
            λ old u _ list.
              Checks-map _ _ _ (λ v. is_zeroed-eq list) (sassert-Checks (is_zeroed list)),
      )

  -- The list is valid and the same.
  abbrev pub Unchanged : (old list : ArrayList) → StoredByte → World → Type 0
  Unchanged old list b v = (list_is_valid list v ≡ true) × SameList list old b v

  -- Moreover `n` items have room.
  abbrev pub HasCapacity : (old list : ArrayList) → StoredByte → (n : ℕ) → World → Type 0
  HasCapacity old list b n v =
      (list_is_valid list v ≡ true)
      × (SameList list old b v × (n ≡ list.current_size / list.item_size))

  pub Unchanged-Checks :
      (old list : ArrayList) (b : StoredByte)
      → Checks (sassert_on (list_is_valid list) >> same_list list old b) (Unchanged old list b)
  Unchanged-Checks old list b = sassert_on-Checks (list_is_valid list) & same_list-Checks list old b

  -- What the unit proofs of `aws_array_list_length` and `aws_array_list_capacity` show: nothing goes wrong
  -- in a run exactly if the function leaves the list, with the byte that was saved, as it was, and valid,
  -- and the second one returns how many items have room. What the first one returns does not matter.
  pub length_harness-Unchanged :
      (length capacity : ArrayList → Cmd (ℕ × ArrayList)) (w : World)
      → (Good (length_harness list_is_valid max_len max_item_size length w)
          ↔ Ensures
              (λ s u. Ensures (λ r v. Unchanged s.0 r.1 s.1 v) (length s.0 u))
              (saved_list list_is_valid max_len max_item_size w))
        × (Good (capacity_harness list_is_valid max_len max_item_size capacity w)
            ↔ Ensures
                (λ s u. Ensures (λ r v. HasCapacity s.0 r.1 s.1 r.0 v) (capacity s.0 u))
                (capacity_set_up list_is_valid max_len max_item_size w))
  unfolding length_harness length_assertions capacity_harness capacity_assertions
  length_harness-Unchanged length capacity w = (
    harness_on-Meets (saved_list list_is_valid max_len max_item_size w)
        (λ s _ r v. Unchanged s.0 r.1 s.1 v) (λ s. length s.0) _
        λ (old, b) u _ (n, list). Unchanged-Checks old list b,
    harness_on-Meets (capacity_set_up list_is_valid max_len max_item_size w)
        (λ s _ r v. HasCapacity s.0 r.1 s.1 r.0 v) (λ s. capacity s.0) _
        λ (old, b) u _ (n, list).
          sassert_on-Checks (list_is_valid list)
          & same_list-Checks list old b
          & same_number-Checks n (list.current_size / list.item_size),
  )

  -- Both lists are valid, and each is what the other was.
  abbrev pub Swapped :
      ArrayList × ArrayList × StoredByte × StoredByte → ArrayList × ArrayList → World → Type 0
  Swapped (old_from, old_to, b_from, b_to) (from, to) v =
      (list_is_valid from v ≡ true)
      × ((list_is_valid to v ≡ true)
          × (SameList from old_to b_to v × SameList to old_from b_from v))

  -- What the unit proof of `aws_array_list_swap_contents` shows: nothing goes wrong in a run of it exactly
  -- if the function, on two valid lists of items of the same size, leaves each of them valid and with
  -- the fields and the saved byte of the other.
  pub swap_harness-Swapped :
      (swap_contents : ArrayList → ArrayList → Cmd (ArrayList × ArrayList)) (w : World)
      → Good (swap_harness list_is_valid max_len max_item_size swap_contents w)
        ↔ Ensures
            (λ s u. Ensures (Swapped s) (swap_contents s.0 s.1 u))
            (swap_set_up list_is_valid max_len max_item_size w)
  unfolding swap_harness swap_assertions
  swap_harness-Swapped swap_contents w =
      harness_on-Meets (swap_set_up list_is_valid max_len max_item_size w) (λ s _. Swapped s)
        (λ (from, to, _, _). swap_contents from to) _
        λ (old_from, old_to, b_from, b_to) u _ (from, to).
          sassert_on-Checks (list_is_valid from)
          & sassert_on-Checks (list_is_valid to)
          & same_list-Checks from old_to b_to
          & same_list-Checks to old_from b_from

  abbrev pub Initialised : (item_size n : ℕ) → Bool × ArrayList → World → Type 0
  Initialised item_size n (true, list) v =
      (list_is_valid list v ≡ true)
      × ((list.alloc ≡ sea_allocator)
          × ((list.item_size ≡ item_size)
              × ((list.length ≡ 0) × (list.current_size ≡ mul_size item_size n))))
  Initialised item_size n (false, list) v = list ≡ zeroed_list

  init-Checks :
      (old : ArrayList) (item_size n : ℕ) (success : Bool) (list : ArrayList)
      → Checks
          (init_assertions list_is_valid max_len max_item_size (old, item_size, n) (success, list))
          (Initialised item_size n (success, list))
  unfolding init_assertions
  init-Checks old item_size n true list =
      sassert_on-Checks (list_is_valid list)
      & same_number-Checks list.alloc sea_allocator
      & same_number-Checks list.item_size item_size
      & same_number-Checks list.length 0
      & same_number-Checks list.current_size (mul_size item_size n)
  init-Checks old item_size n false list =
      Checks-map _ _ _ (λ v. is_zeroed-eq list) (sassert-Checks (is_zeroed list))

  -- What the unit proof of `aws_array_list_init_dynamic` shows: nothing goes wrong in a run of it exactly if
  -- the function gives a valid empty list with room, in bytes, for just the product of the sizes, or
  -- fails and sets all fields to 0.
  pub init_harness-Initialised :
      (init_dynamic : ArrayList → (initial_item_allocation item_size : ℕ) → Cmd (Bool × ArrayList))
      (w : World)
      → Good (init_harness list_is_valid max_len max_item_size init_dynamic w)
        ↔ Ensures
            (λ s u. Ensures (Initialised s.1 s.2) (init_dynamic s.0 s.2 s.1 u))
            (init_set_up list_is_valid max_len max_item_size w)
  unfolding init_harness
  init_harness-Initialised init_dynamic w =
      harness_on-Meets (init_set_up list_is_valid max_len max_item_size w)
        (λ s _. Initialised s.1 s.2) (λ (list, item_size, n). init_dynamic list n item_size) _
        λ (old, item_size, n) u _ (success, list). init-Checks old item_size n success list
