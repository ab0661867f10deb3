-- ===== src/Tests.antt =====
-- The worlds that the examples run in. The examples themselves stand in the children.
mod LinkedList
mod Alloc
mod Bytes
mod HashTable
mod Buffers
mod Strings
mod Queue
mod Jobs
mod JobsRing
mod JobsData
mod Fresh
use verify_c_common.Base.{ℕ, ◌==◌, Bool, false, Option, none, some, if◌then◌else◌}
use verify_c_common.World.{Block, Node, World}
use verify_c_common.Alloc.{block}

-- Two blocks of four bytes at 1 and 2, with the bytes 10, 11, … and 20, 11, ….
abbrev pub two_blocks : ℕ → Option Block
two_blocks b =
    if b == 1
    then some (block 4 (λ j. if j == 0 then 10 else 11))
    else if b == 2
    then some (block 4 (λ j. if j == 0 then 20 else 11))
    else none

-- A list of one node: head 1, node 3, tail 2.
abbrev pub three_nodes : ℕ → Option Node
three_nodes p =
    if p == 1
    then some (record { next = 3; prev = 0 })
    else if p == 2
    then some (record { next = 0; prev = 3 })
    else if p == 3
    then some (record { next = 2; prev = 1 })
    else none

-- Every choice is `t`, and no allocation fails.
abbrev pub world_of : ℕ → World
world_of t = record {
  tape = λ i. t;
  pos = 0;
  oom = λ b. false;
  junk = λ b i. 7;
  fresh = 10;
  blocks = two_blocks;
  nodes = three_nodes;
  last_error = 0;
}
