-- ===== src/Jobs/ArrayList.antt =====
-- The unit proofs seahorn/jobs/array_list_*: those of one list, with the function of aws-c-common as a
-- parameter.
pub mod Kept
pub mod Whole
pub mod Items
use verify_c_common.Base.{
  ℕ, ◌*◌, ◌/◌, Bool, true, false, Option, none, some, not, ◌&&◌, ◌==◌, leb, ltb, sub_size, mul_size,
}
use verify_c_common.World.{
  Ptr, null, ptr_eq, is_null, deref, World, Outcome, Cmd, nd_size_t, assume, sassert, pure,
  and_then, ◌>>=◌, ◌>>◌,
}
use verify_c_common.Structs.{ArrayList, sea_allocator}
use verify_c_common.Alloc.{bounded_malloc_havoc}
use verify_c_common.Buffers.{initialize_bounded_array_list}
use verify_c_common.Utils.{StoredByte, save_byte_from_array, assert_array_list_equivalence}
use verify_c_common.Jobs.{harness_on}
use verify_c_common.Jobs.Tests.{sassert_on, assume_on}

-- `&list` and `&old` are two addresses.
unfoldable pub same_list : (list old : ArrayList) → StoredByte → Cmd (Unit {0})
unfolding assert_array_list_equivalence
same_list list old old_byte =
    assert_array_list_equivalence (some (1, list)) (some (2, old)) (some old_byte)

unfoldable pub kept_fields : (list old : ArrayList) → Cmd (Unit {0})
kept_fields list old = do
  sassert (list.alloc == old.alloc)
  sassert (list.current_size == old.current_size)
  sassert (list.item_size == old.item_size)

-- `AWS_IS_ZEROED(list)`.
unfoldable pub is_zeroed : ArrayList → Bool
is_zeroed list =
    (list.alloc == 0)
    && ((list.current_size == 0)
        && ((list.length == 0) && ((list.item_size == 0) && is_null list.data_ptr)))

-- `aws_array_list_is_valid`, and the bounds that are set when the proofs are built.
module _ (list_is_valid : ArrayList → World → Bool) (max_len max_item_size : ℕ) where
  unfoldable pub any_list : Cmd ArrayList
  unfolding initialize_bounded_array_list
  any_list = do
    list ← initialize_bounded_array_list max_len max_item_size
    assume_on (list_is_valid list)
    pure list

  unfoldable pub saved_list : Cmd (ArrayList × StoredByte)
  unfolding save_byte_from_array
  saved_list = do
    list ← any_list
    old_byte ← save_byte_from_array list.data_ptr list.current_size
    pure (list, old_byte)

  unfoldable pub clear_assertions : (old list : ArrayList) → Cmd (Unit {0})
  clear_assertions old list = do
    sassert_on (list_is_valid list)
    sassert (list.length == 0)
    sassert (list.alloc == old.alloc)
    sassert (list.current_size == old.current_size)
    sassert (list.item_size == old.item_size)
    sassert (ptr_eq list.data_ptr old.data_ptr)

  unfoldable pub clear_harness : (ArrayList → Cmd ArrayList) → World → Outcome (Unit {0})
  clear_harness clear w = harness_on (any_list w) clear clear_assertions

  unfoldable pub clean_up_assertions : (old list : ArrayList) → Cmd (Unit {0})
  clean_up_assertions old list = sassert (is_zeroed list)

  unfoldable pub clean_up_harness : (ArrayList → Cmd ArrayList) → World → Outcome (Unit {0})
  clean_up_harness clean_up w = harness_on (any_list w) clean_up clean_up_assertions

  -- The number that the function returns is not looked at.
  unfoldable pub length_assertions : ArrayList × StoredByte → ℕ × ArrayList → Cmd (Unit {0})
  length_assertions (old, old_byte) (len, list) = do
    sassert_on (list_is_valid list)
    same_list list old old_byte

  unfoldable pub length_harness : (ArrayList → Cmd (ℕ × ArrayList)) → World → Outcome (Unit {0})
  length_harness length w = harness_on (saved_list w) (λ s. length s.0) length_assertions

  unfoldable pub capacity_set_up : Cmd (ArrayList × StoredByte)
  unfolding save_byte_from_array
  capacity_set_up = do
    list ← any_list
    assume (ltb 0 list.item_size)
    old_byte ← save_byte_from_array list.data_ptr list.current_size
    pure (list, old_byte)

  unfoldable pub capacity_assertions : ArrayList × StoredByte → ℕ × ArrayList → Cmd (Unit {0})
  capacity_assertions (old, old_byte) (capacity, list) = do
    sassert_on (list_is_valid list)
    same_list list old old_byte
    sassert (capacity == list.current_size / list.item_size)

  unfoldable pub capacity_harness : (ArrayList → Cmd (ℕ × ArrayList)) → World → Outcome (Unit {0})
  capacity_harness capacity w =
      harness_on (capacity_set_up w) (λ s. capacity s.0) capacity_assertions

  abbrev pub popped : (old : ArrayList) → StoredByte → ArrayList → (success : Bool) → Cmd (Unit {0})
  popped old old_byte list true = do
    sassert (list.length == sub_size old.length 1)
    sassert (not (is_null list.data_ptr))
    kept_fields list old
  popped old old_byte list false = same_list list old old_byte

  -- The same for both ends of the list.
  unfoldable pub pop_assertions : ArrayList × StoredByte → Bool × ArrayList → Cmd (Unit {0})
  pop_assertions (old, old_byte) (success, list) = do
    popped old old_byte list success
    sassert_on (list_is_valid list)

  unfoldable pub pop_harness : (ArrayList → Cmd (Bool × ArrayList)) → World → Outcome (Unit {0})
  pop_harness pop w = harness_on (saved_list w) (λ s. pop s.0) pop_assertions

  abbrev pub writable : Ptr → ℕ → World → Bool
  writable val n w = not (is_null val) && deref w val n

  -- The index, where to put the item, the list and the byte.
  unfoldable pub get_at_set_up : Cmd (ℕ × Ptr × ArrayList × StoredByte)
  unfolding save_byte_from_array bounded_malloc_havoc
  get_at_set_up = do
    list ← any_list
    val ← bounded_malloc_havoc list.item_size
    index ← nd_size_t
    old_byte ← save_byte_from_array list.data_ptr list.current_size
    assume_on (list_is_valid list)
    assume_on (writable val list.item_size)
    pure (index, val, list, old_byte)

  abbrev pub item_there : (index : ℕ) → ArrayList → (success : Bool) → Cmd (Unit {0})
  item_there index list true = do
    sassert (not (is_null list.data_ptr))
    sassert (ltb index list.length)
  item_there index list false = pure tt

  unfoldable pub get_at_assertions :
      ℕ × Ptr × ArrayList × StoredByte → Bool × ArrayList → Cmd (Unit {0})
  get_at_assertions (index, val, old, old_byte) (success, list) = do
    item_there index list success
    sassert_on (list_is_valid list)
    same_list list old old_byte

  unfoldable pub get_at_harness :
      (ArrayList → Ptr → ℕ → Cmd (Bool × ArrayList)) → World → Outcome (Unit {0})
  get_at_harness get_at w =
      harness_on (get_at_set_up w) (λ (index, val, list, _). get_at list val index)
        get_at_assertions

  -- With two lists.
  unfoldable pub swap_set_up : Cmd (ArrayList × ArrayList × StoredByte × StoredByte)
  unfolding save_byte_from_array initialize_bounded_array_list
  swap_set_up = do
    from ← initialize_bounded_array_list max_len max_item_size
    to ← initialize_bounded_array_list max_len max_item_size
    assume_on (list_is_valid from)
    assume_on (list_is_valid to)
    assume (not (from.alloc == 0))
    assume (not (to.alloc == 0))
    assume (ltb 0 from.item_size)
    assume (ltb 0 to.item_size)
    assume (from.item_size == to.item_size)
    old_byte_from ← save_byte_from_array from.data_ptr from.current_size
    old_byte_to ← save_byte_from_array to.data_ptr to.current_size
    pure (from, to, old_byte_from, old_byte_to)

  unfoldable pub swap_assertions :
      ArrayList × ArrayList × StoredByte × StoredByte → ArrayList × ArrayList → Cmd (Unit {0})
  swap_assertions (old_from, old_to, old_byte_from, old_byte_to) (from, to) = do
    sassert_on (list_is_valid from)
    sassert_on (list_is_valid to)
    same_list from old_to old_byte_to
    same_list to old_from old_byte_from

  unfoldable pub swap_harness :
      (ArrayList → ArrayList → Cmd (ArrayList × ArrayList)) → World → Outcome (Unit {0})
  swap_harness swap_contents w =
      harness_on (swap_set_up w) (λ (from, to, _, _). swap_contents from to) swap_assertions

  -- The sizes that the list is to have.
  unfoldable pub init_set_up : Cmd (ArrayList × ℕ × ℕ)
  unfolding initialize_bounded_array_list
  init_set_up = do
    list ← initialize_bounded_array_list max_len max_item_size
    item_size ← nd_size_t
    initial_item_allocation ← nd_size_t
    assume (ltb 0 item_size && leb item_size max_item_size)
    assume (leb initial_item_allocation max_len)
    pure (list, item_size, initial_item_allocation)

  unfoldable pub init_assertions : ArrayList × ℕ × ℕ → Bool × ArrayList → Cmd (Unit {0})
  init_assertions (_, item_size, initial_item_allocation) (true, list) = do
    sassert_on (list_is_valid list)
    sassert (list.alloc == sea_allocator)
    sassert (list.item_size == item_size)
    sassert (list.length == 0)
    sassert (list.current_size == mul_size item_size initial_item_allocation)
  init_assertions (_, item_size, initial_item_allocation) (false, list) = sassert (is_zeroed list)

  unfoldable pub init_harness :
      (ArrayList → (initial_item_allocation item_size : ℕ) → Cmd (Bool × ArrayList))
      → World
      → Outcome (Unit {0})
  init_harness init_dynamic w =
      harness_on (init_set_up w) (λ (list, item_size, n). init_dynamic list n item_size)
        init_assertions
