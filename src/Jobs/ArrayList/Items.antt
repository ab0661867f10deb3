-- ===== src/Jobs/ArrayList/Items.antt =====
-- What the unit proofs of array lists check of functions that take or read an item.
use verify_c_common.Base.{ℕ, ◌<◌, ◌≡◌, ◌≢◌, ◌↔◌, refl, Bool, true, false, ltb, sub_size, arith}
use verify_c_common.World.{Ptr, null, World, Cmd, Ensures}
use verify_c_common.Structs.{ArrayList}
use verify_c_common.Utils.{StoredByte}
use verify_c_common.Jobs.{Good, Checks, ◌&◌, Checks-map, harness_on-Meets}
use verify_c_common.Jobs.Tests.{sassert-Checks}
use verify_c_common.Jobs.ArrayList.{get_at_set_up, item_there, get_at_assertions, get_at_harness}
use verify_c_common.Jobs.ArrayList.Kept.{SameList, there-Checks}
use verify_c_common.Jobs.ArrayList.Whole.{Unchanged, Unchanged-Checks}

module _ (list_is_valid : ArrayList → World → Bool) (max_len max_item_size : ℕ) where
  -- On success the list is one item shorter, and has memory; else it is unchanged.
  abbrev pub Popped : (old list : ArrayList) → StoredByte → (success : Bool) → World → Type 0
  Popped old list b true v =
      (list.length ≡ sub_size old.length 1)
      × ((list.data_ptr ≢ null)
          × ((list.alloc ≡ old.alloc)
              × ((list.current_size ≡ old.current_size) × (list.item_size ≡ old.item_size))))
  Popped old list b false v = SameList list old b v

  -- Where the index has an item.
  abbrev pub ItemThere : (index : ℕ) → ArrayList → (success : Bool) → Type 0
  ItemThere index list true = (list.data_ptr ≢ null) × (index < list.length)
  ItemThere index list false = Unit

  item_there-Checks :
      (index : ℕ) (list : ArrayList) (success : Bool)
      → Checks
          (item_there list_is_valid max_len max_item_size index list success)
          (λ _. ItemThere index list success)
  item_there-Checks index list true =
      there-Checks list.data_ptr
      & Checks-map _ _ (λ _. index < list.length) (λ v. (λ h. ground arith, λ h. ground arith))
          (sassert-Checks (ltb index list.length))
  item_there-Checks index list false = record { passes = λ v h. refl; means = λ v h. tt }

  -- What the unit proof of `aws_array_list_get_at` shows: nothing goes wrong in a run of it exactly if the
  -- function leaves the list valid and as it was, and succeeds only where the list has memory and an
  -- item at the index. What it has put at `val` is not looked at.
  pub get_at_harness-ItemThere :
      (get_at : ArrayList → Ptr → ℕ → Cmd (Bool × ArrayList)) (w : World)
      → Good (get_at_harness list_is_valid max_len max_item_size get_at w)
        ↔ Ensures
            (λ s u.
              Ensures
                (λ r v.
                  ItemThere s.0 r.1 r.0
                  × Unchanged list_is_valid max_len max_item_size s.2 r.1 s.3 v)
                (get_at s.2 s.1 s.0 u))
            (get_at_set_up list_is_valid max_len max_item_size w)
  unfolding get_at_harness get_at_assertions
  get_at_harness-ItemThere get_at w =
      harness_on-Meets (get_at_set_up list_is_valid max_len max_item_size w)
        (λ s _ r v.
          ItemThere s.0 r.1 r.0 × Unchanged list_is_valid max_len max_item_size s.2 r.1 s.3 v)
        (λ (index, val, list, _). get_at list val index) _
        λ (index, val, old, b) u _ (success, list).
          item_there-Checks index list success
          & Unchanged-Checks list_is_valid max_len max_item_size old list b
