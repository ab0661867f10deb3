-- ===== src/Jobs/ArrayList/Kept.antt =====
-- The byte that the unit proofs save, and what they check of it and of the fields of a list.
use verify_c_common.Base.{◌<◌, ◌≡◌, ◌≢◌, ◌↔◌, refl, true, not, ltb, arith}
use verify_c_common.World.{Ptr, null, at, is_null, World, sassert}
use verify_c_common.Structs.{ArrayList}
use verify_c_common.Utils.{StoredByte, assert_array_list_equivalence, array_list_fields}
use verify_c_common.Jobs.{Checks, ◌&◌, Checks-map}
use verify_c_common.Jobs.Tests.{same_number-Checks}
use verify_c_common.Jobs.ArrayList.{same_list, is_zeroed}
use verify_c_common.Jobs.Saved.{Kept, Kept-Checks, if-Checks}

-- The two structures say the same, and the saved byte is unchanged.
pub record SameList (list old : ArrayList) (b : StoredByte) (v : World) : Type 0 where
  pub alloc : list.alloc ≡ old.alloc
  pub size : list.current_size ≡ old.current_size
  pub length : list.length ≡ old.length
  pub item_size : list.item_size ≡ old.item_size
  pub byte : 0 < list.current_size → Kept v list.data_ptr b

pub same_list-Checks :
    (list old : ArrayList) (b : StoredByte) → Checks (same_list list old b) (SameList list old b)
unfolding same_list assert_array_list_equivalence array_list_fields
same_list-Checks list old b =
    Checks-map _ _ (SameList list old b)
      (λ v. (
        λ (alloc, (size, (length, (item_size, byte)))). record {
          alloc = alloc;
          size = size;
          length = length;
          item_size = item_size;
          byte = λ some_size. byte (ground arith);
        },
        λ h. (h.alloc, (h.size, (h.length, (h.item_size, λ e. h.byte (ground arith))))),
      ))
      (same_number-Checks list.alloc old.alloc
        & same_number-Checks list.current_size old.current_size
        & same_number-Checks list.length old.length
        & same_number-Checks list.item_size old.item_size
        & if-Checks (ltb 0 list.current_size) _ _ (Kept-Checks list.data_ptr b))

abbrev pub zeroed_list : ArrayList
zeroed_list = record { alloc = 0; current_size = 0; length = 0; item_size = 0; data_ptr = null }

is_null-eq : (p : Ptr) → (is_null p ≡ true) ↔ (p ≡ null)
is_null-eq null = (λ e. refl, λ e. refl)
is_null-eq (at c i) = (λ e. cc, λ e. cc)

pub is_zeroed-eq : (list : ArrayList) → (is_zeroed list ≡ true) ↔ (list ≡ zeroed_list)
unfolding is_zeroed
is_zeroed-eq list =
    let pointer = is_null-eq list.data_ptr in
    (
      λ e.
          let h1 : list.alloc ≡ 0 = ground arith in
          let h2 : list.current_size ≡ 0 = ground arith in
          let h3 : list.length ≡ 0 = ground arith in
          let h4 : list.item_size ≡ 0 = ground arith in
          let h5 : list.data_ptr ≡ null = pointer.0 (ground arith) in cc,
      λ e. rw (e) refl,
    )

pub there-Checks : (p : Ptr) → Checks (sassert (not (is_null p))) (λ _. p ≢ null)
there-Checks null = record { passes = λ v h. absurd (h refl); means = λ v h. absurd h }
there-Checks (at c i) = record { passes = λ v h. refl; means = λ v h. λ e. cc }
