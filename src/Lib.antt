-- ===== src/Lib.antt =====
-- The helpers and stubs of verify-c-common, a collection of unit proofs of aws-c-common for SeaHorn,
-- KLEE, SMACK and fuzzers. A unit proof (seahorn/jobs) sets up any input with the helpers of
-- seahorn/lib, calls one function of aws-c-common, some of whose callees are replaced by the stubs of
-- seahorn/aws-c-common-stubs, and asserts what has and has not changed. What the proofs show rests on
-- these helpers and stubs; this library is about them and about many of the unit proofs. aws-c-common itself is not in the repository:
-- where a helper calls it, the function is a parameter.
--
-- How a run is modelled. A helper is a function from a world to an outcome (World): `ok` with a value
-- and a new world, `pruned` where an `assume` does not hold, `failed` where an `sassert` does not hold,
-- `fault` for an access through a bad pointer. The world holds a tape of the values that the
-- non-deterministic functions return, the heap of byte blocks, the heap of list nodes, and the error of
-- the thread. A statement about every tape is one about every run. `Ensures` allows pruned runs,
-- `Returns` does not.
--
-- The files, and the code they are about (paths from the root of the repository):
--   Base            shared names, Boolean tests on numbers, lists, `&` as arithmetic
--   World           the model of runs: seahorn/lib/nd_klee.c, seahorn/include/nondet.h
--   Alloc           seahorn/lib/sea_allocators.c, proof_allocators.c: one function for each, named alike;
--                   Alloc/Override for allocator_override.c and error_override.c (`aws_` left out);
--                   Alloc/Klee for klee_allocators.c, klee_switch.c and smack_allocators.c
--   Bytes           seahorn/lib/bcmp.c; Bytes/Compare and Bytes/Copy hold the proofs
--   LinkedList      seahorn/lib/linked_list_helper.c: Init builds lists, Save takes snapshots, Check
--                   compares; LinkedList/Fresh composes the three the way the unit proofs do
--   Structs         the structures of aws-c-common that the helpers fill and compare
--   Utils           seahorn/lib/utils.c: the assertions at the end of the unit proofs
--   HashTable       seahorn/lib/hash_table_helper.c and the stubs: Emplace for s_emplace_item, Iter for
--                   the iterator, Expand for hashing and growing; Count relates the loops over the slots;
--                   Fresh for the tables and iterators that the unit proofs start from, in the variants
--                   for SeaHorn, KLEE (klee_hash_table_helper.c) and fuzzing (fuzz_hash_table_helper.c)
--   Buffers         byte buffers, cursors, array lists and priority queues, with the fuzzing variants,
--                   and the stub of aws_byte_cursor_advance_nospec; Buffers/Klee for the KLEE variants,
--                   Buffers/Every for which buffers are reached
--   Ring            seahorn/lib/ring_buffer_helper.c and fuzz_ring_buffer_helper.c; Ring/Klee for
--                   klee_ring_buffer_helper.c
--   Jobs            what a unit proof shows, with the function of aws-c-common as a parameter;
--                   Jobs/LinkedList for seahorn/jobs/linked_list_*, Jobs/Ring for ring_buffer_*,
--                   Jobs/ArrayList for array_list_*, Jobs/ByteBuf for byte_buf_*, Jobs/Cursor for
--                   byte_cursor_advance and byte_cursor_advance_nospec, Jobs/Cat for the function that byte_buf_cat defines,
--                   Jobs/Numbers for nospec_mask and the functions add_size_* and mul_size_checked;
--                   Jobs/Tests and Jobs/Saved for single assertions
--   Queue           the stubs s_remove_node, s_sift_either and s_sift_up
--   Strings         seahorn/lib/sea_string.cc and the C strings of string_helper.c; Strings/Klee and
--                   Strings/Fuzz for the C strings of klee_string_helper.c and fuzz_string_helper.c,
--                   Strings/Object for struct aws_string in all three variants
--   Fuzz            seahorn/lib/nd_fuzz.c
--   Tests           examples: each result with hypotheses applied to concrete data
--
-- Bounds and fuel. `size_t` has 64 bits, and additions that can wrap are written with the remainder.
-- The loops of bcmp.c count down the rounds that are left, so they need no fuel. The loop of
-- s_emplace_item runs on fuel, as many rounds as there are slots, which is enough as soon as one slot is
-- empty. The loop over an iterator gets one round more than there are slots.
--
-- What is not modelled: the unit proofs that no file under Jobs names; the variants that __KLEE__ and
-- EXPLICIT_HASH_INIT select inside a function; memmove for Symbiotic; the branch of s_expand_table that
-- reads slots out of a havocked block; save_byte_from_hash_table, which reads a structure as bytes. A
-- pointer is NULL or an offset into a block, so pointers into different blocks have no order, and list
-- nodes live apart from bytes. AWS_PRECONDITION and AWS_POSTCONDITION are macros of aws-c-common and
-- are left out. Build files, containers and scripts are glue.
pub mod Base
pub mod World
pub mod Alloc
pub mod Bytes
pub mod LinkedList
pub mod Structs
pub mod Utils
pub mod HashTable
pub mod Buffers
pub mod Ring
pub mod Jobs
pub mod Fuzz
pub mod Queue
pub mod Strings
pub mod Tests
