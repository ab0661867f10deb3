-- ===== src/Tests/Fresh.antt =====
-- Buffers, strings, tables and iterators that the unit proofs start from.
use verify_c_common.Base.{
  ℕ, ◌+◌, ◌*◌, ◌≤◌, ◌≡◌, refl, Bool, true, Option, some, [], ◌∷◌, ◌==◌, leb, arith,
}
use verify_c_common.World.{null, World, Ensures, Returns, advance}
use verify_c_common.Structs.{ByteBuf}
use verify_c_common.Buffers.Klee.{klee_initialize_byte_buf}
use verify_c_common.Buffers.Every.{choosing}
use verify_c_common.Ring.{member_in_range, fuzz_member_in_range, member_in_ring_buf}
use verify_c_common.Ring.Laws.{HandedOut, ring_at}
use verify_c_common.Ring.Klee.{klee_member_in_range, every_member_in_ring_buf-HandedOut}
use verify_c_common.Buffers.Klee.Laws.{HasMemory, klee_initialize_byte_buf-HasMemory}
use verify_c_common.Buffers.Klee.{klee_initialize_byte_cursor}
use verify_c_common.Alloc.{readable}
use verify_c_common.HashTable.{HashTableState}
use verify_c_common.HashTable.Iter.{
  HashIter, ready_for_use, done, hash_iter_is_valid, delete_called,
}
use verify_c_common.HashTable.Fresh.{
  mk_valid_hash_iter, klee_mk_valid_hash_iter, fuzz_mk_valid_hash_iter,
}
use verify_c_common.HashTable.Fresh.Laws.{
  fuzz_mk_valid_hash_iter-delete_called, mk_valid_hash_iter-every, iter_choices,
}
use verify_c_common.Tests.{world_of}

abbrev world : World
world = world_of 3

abbrev sevens : ℕ → ℕ
sevens j = 7

klee_initialize_byte_buf-HasMemory_example :
    Ensures (HasMemory 8) (klee_initialize_byte_buf 8 world)
    × Ensures
        (λ cursor u. (cursor.len ≤ 8) × (readable u cursor.ptr cursor.len ≡ true))
        (klee_initialize_byte_cursor 8 world)
klee_initialize_byte_buf-HasMemory_example = klee_initialize_byte_buf-HasMemory 8 world

abbrev buf : ByteBuf
buf = record { len = 0; buffer = null; capacity = 2; allocator = 1 }

every_member_in_ring_buf-HandedOut_example :
    Ensures
      (λ out _. HandedOut 1 4 0 3 out)
      (member_in_ring_buf member_in_range buf (ring_at 1 4 0 3) world)
    × Ensures
        (λ out _. HandedOut 1 4 0 3 out)
        (member_in_ring_buf fuzz_member_in_range buf (ring_at 1 4 0 3) world)
    × Ensures
        (λ out _. HandedOut 1 4 0 3 out)
        (member_in_ring_buf klee_member_in_range buf (ring_at 1 4 0 3) world)
every_member_in_ring_buf-HandedOut_example =
    every_member_in_ring_buf-HandedOut buf 1 4 0 3 world (omega arith) (omega arith)

abbrev two_slots : HashTableState
two_slots = record {
  hash_fn = 11;
  equals_fn = 12;
  destroy_key_fn = 13;
  destroy_value_fn = 13;
  alloc = 1;
  size = 2;
  entry_count = 1;
  max_load = 1;
  mask = 1;
  slots =
      record { key = 5; value = 6; hash_code = 0 }
      ∷ record { key = 5; value = 6; hash_code = 9 }
      ∷ [];
}

abbrev any_table : HashTableState → Bool
any_table map = leb map.entry_count map.max_load

fuzz_mk_valid_hash_iter-delete_called_example :
    Ensures
      (λ out _. (out.0 ≡ two_slots) × (out.1.status ≡ delete_called))
      (fuzz_mk_valid_hash_iter any_table two_slots world)
fuzz_mk_valid_hash_iter-delete_called_example =
    fuzz_mk_valid_hash_iter-delete_called any_table two_slots world (omega arith)

abbrev at_one : HashIter
at_one = record { slot = 1; limit = 2; status = ready_for_use }

at_one_valid : hash_iter_is_valid any_table (some two_slots) (some at_one) ≡ true
unfolding hash_iter_is_valid
at_one_valid = refl

mk_valid_hash_iter-every_example :
    Returns
      (λ out _. out ≡ at_one)
      (mk_valid_hash_iter any_table two_slots (choosing (iter_choices at_one) world))
    × Returns
        (λ out _. out ≡ at_one)
        (klee_mk_valid_hash_iter any_table two_slots (choosing (iter_choices at_one) world))
mk_valid_hash_iter-every_example =
    mk_valid_hash_iter-every any_table two_slots 1 2 ready_for_use world (omega arith) (omega arith)
      at_one_valid

abbrev is_two : ℕ → Bool
is_two n = n == 2

abbrev bytes_of : ℕ → Option ℕ
bytes_of n = some (n * 24 + 64)

abbrev world_two : World
world_two = world_of 2

-- From slot 1 one step leads to the end.
abbrev world_one : World
world_one = world_of 1

abbrev after_begin : World
after_begin = advance 1 world_one

abbrev after_next : World
after_next = advance 1 after_begin

abbrev at_end : HashIter
at_end = record { slot = 2; limit = 2; status = done }
