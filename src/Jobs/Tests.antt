-- ===== src/Jobs/Tests.antt =====
-- The single tests that the assertions of the unit proofs are made of.
use verify_c_common.Base.{ℕ, ◌≡◌, ◌↔◌, refl, Bool, true, not, ◌||◌, ◌==◌, some, arith}
use verify_c_common.World.{Ptr, null, at, ptr_eq, World, Cmd, sassert, assume}
use verify_c_common.Structs.{ByteBuf, RingBuffer}
use verify_c_common.Buffers.{byte_bufs_are_equal}
use verify_c_common.Ring.{ring_buffers_are_equal}
use verify_c_common.Jobs.{Checks}

-- A test that belongs to aws-c-common, and only reads.
abbrev pub sassert_on : (World → Bool) → Cmd (Unit {0})
sassert_on test w = sassert (test w) w

abbrev pub assume_on : (World → Bool) → Cmd (Unit {0})
assume_on test w = assume (test w) w

pub sassert_on-Checks : (test : World → Bool) → Checks (sassert_on test) (λ v. test v ≡ true)
sassert_on-Checks test = record { passes = λ v h. ground arith; means = λ v h. ground arith }

pub sassert-Checks : (c : Bool) → Checks (sassert c) (λ _. c ≡ true)
sassert-Checks c = record { passes = λ v h. ground arith; means = λ v h. ground arith }

pub same_number-Checks : (m n : ℕ) → Checks (sassert (m == n)) (λ _. m ≡ n)
same_number-Checks m n = record { passes = λ v h. ground arith; means = λ v h. ground arith }

pub ptr_eq-same : (p q : Ptr) → (ptr_eq p q ≡ true) ↔ (p ≡ q)
ptr_eq-same null null = (λ e. refl, λ e. refl)
ptr_eq-same null (at c j) = (λ e. ground arith, λ e. ground arith)
ptr_eq-same (at b i) null = (λ e. ground arith, λ e. ground arith)
ptr_eq-same (at b i) (at c j) = (λ e. ground arith, λ e. ground arith)

pub same_ptr-Checks : (p q : Ptr) → Checks (sassert (ptr_eq p q)) (λ _. p ≡ q)
same_ptr-Checks p q =
    let same = ptr_eq-same p q in
    record { passes = λ v h. ground arith; means = λ v h. ground arith }

-- `AWS_IMPLIES(a, b)`.
pub implies-Checks : (a b : Bool) → Checks (sassert (not a || b)) (λ _. a ≡ true → b ≡ true)
implies-Checks a b = record { passes = λ v h. ground arith; means = λ v h. ground arith }

pub ring_buffers_are_equal-same :
    (x y : ℕ) (r s : RingBuffer)
    → (ring_buffers_are_equal (some (x, r)) (some (y, s)) ≡ true) ↔ (r ≡ s)
unfolding ring_buffers_are_equal
ring_buffers_are_equal-same x y r s =
    let allocation = ptr_eq-same r.allocation s.allocation in
    let end = ptr_eq-same r.allocation_end s.allocation_end in
    let head = ptr_eq-same r.head s.head in
    let tail = ptr_eq-same r.tail s.tail in
    (
      λ e.
          let h1 : r.allocator ≡ s.allocator = ground arith in
          let h2 : r.allocation ≡ s.allocation = allocation.0 (ground arith) in
          let h3 : r.allocation_end ≡ s.allocation_end = end.0 (ground arith) in
          let h4 : r.head ≡ s.head = head.0 (ground arith) in
          let h5 : r.tail ≡ s.tail = tail.0 (ground arith) in cc,
      λ e.
          let h1 : r.allocator ≡ s.allocator = cc in
          let h2 = allocation.1 cc in
          let h3 = end.1 cc in let h4 = head.1 cc in let h5 = tail.1 cc in ground arith,
    )

pub byte_bufs_are_equal-same :
    (x y : ℕ) (r s : ByteBuf) → (byte_bufs_are_equal (some (x, r)) (some (y, s)) ≡ true) ↔ (r ≡ s)
unfolding byte_bufs_are_equal
byte_bufs_are_equal-same x y r s =
    let buffer = ptr_eq-same r.buffer s.buffer in
    (
      λ e.
          let h1 : r.len ≡ s.len = ground arith in
          let h2 : r.buffer ≡ s.buffer = buffer.0 (ground arith) in
          let h3 : r.capacity ≡ s.capacity = ground arith in
          let h4 : r.allocator ≡ s.allocator = ground arith in cc,
      λ e.
          let h1 : r.len ≡ s.len = cc in
          let h2 = buffer.1 cc in
          let h3 : r.capacity ≡ s.capacity = cc in
          let h4 : r.allocator ≡ s.allocator = cc in ground arith,
    )
