-- ===== src/Jobs/Ring/Acquire/Post.antt =====
-- What the unit proofs of acquiring check: seahorn/jobs/ring_buffer_acquire and ring_buffer_acquire_up_to.
use verify_c_common.Base.{
  ℕ, ◌≤◌, ◌≡◌, ◌↔◌, ◌⊎◌, Bool, Bool-cases, inl, inr, true, false, not, ◌&&◌, arith,
}
use verify_c_common.World.{shift, deref, World, Cmd, sassert, Ensures}
use verify_c_common.Structs.{ByteBuf, RingBuffer}
use verify_c_common.Jobs.{Good, Checks, ◌&◌, Checks-map, harness_on-Meets}
use verify_c_common.Jobs.Tests.{
  sassert-Checks, sassert_on-Checks, same_number-Checks, same_ptr-Checks, implies-Checks,
  ring_buffers_are_equal-same,
}
use verify_c_common.Jobs.Ring.{RingTests, unchanged_ring}
use verify_c_common.Jobs.Ring.Acquire.{
  states_fit, same_memory, acquired_up_to, acquire_up_to_set_up, acquire_up_to_assertions,
  acquire_up_to_harness,
}

same_ring-Checks : (r s : RingBuffer) → Checks (sassert (unchanged_ring r s)) (λ _. r ≡ s)
same_ring-Checks r s =
    Checks-map _ _ _ (λ v. ring_buffers_are_equal-same 1 2 r s)
      (sassert-Checks (unchanged_ring r s))

module _ (tests : RingTests) (max_buffer_size : ℕ) where
  -- How acquiring may change the state of the ring `r` into that of `s`.
  pub record StatesFit (r s : RingBuffer) : Type 0 where
    pub from_empty : tests.is_empty_state r ≡ true → tests.is_front_valid_state s ≡ true
    pub from_front :
        tests.is_front_valid_state r ≡ true
        → (tests.is_front_valid_state s ≡ true) × (tests.is_middle_valid_state s ≡ false)
    pub from_middle :
        tests.is_middle_valid_state r ≡ true
        → (tests.is_middle_valid_state s ≡ true) ⊎ (tests.is_ends_valid_state s ≡ true)
    pub from_ends : tests.is_ends_valid_state r ≡ true → tests.is_ends_valid_state s ≡ true

  apart-of :
      (r s : RingBuffer)
      → StatesFit r s
      → not (tests.is_front_valid_state r && tests.is_middle_valid_state s) ≡ true
  apart-of r s fit = elim (Bool-cases (tests.is_front_valid_state r)) [
    | inl front ↦ let e = (fit.from_front front).1 in ground arith
    | inr other ↦ ground arith
  ]

  states_fit-Checks :
      (r s : RingBuffer) → Checks (states_fit tests max_buffer_size r s) (λ _. StatesFit r s)
  states_fit-Checks r s =
      Checks-map _ _ (λ _. StatesFit r s)
        (λ v. (
          λ (empty, (front, (middle, (ends, apart)))). record {
            from_empty = empty;
            from_front = λ h. (front h, ground arith);
            from_middle = λ h. let e = middle h in ground arith;
            from_ends = ends;
          },
          λ fit. (
            fit.from_empty,
            (
              λ h. (fit.from_front h).0,
              (λ h. let e = fit.from_middle h in ground arith, (fit.from_ends, apart-of r s fit)),
            ),
          ),
        ))
        (implies-Checks (tests.is_empty_state r) _
          & implies-Checks (tests.is_front_valid_state r) _
          & implies-Checks (tests.is_middle_valid_state r) _
          & implies-Checks (tests.is_ends_valid_state r) _
          & sassert-Checks _)

  -- The memory of a ring.
  abbrev pub SameMemory : (r s : RingBuffer) → Type 0
  SameMemory r s =
      (s.allocator ≡ r.allocator)
      × ((s.allocation ≡ r.allocation) × (s.allocation_end ≡ r.allocation_end))

  same_memory-Checks :
      (r s : RingBuffer) → Checks (same_memory tests max_buffer_size r s) (λ _. SameMemory r s)
  same_memory-Checks r s =
      same_number-Checks s.allocator r.allocator
      & same_ptr-Checks s.allocation r.allocation
      & same_ptr-Checks s.allocation_end r.allocation_end

  -- Where the ends of a ring are after `n` bytes were taken.
  abbrev pub EndsMoved : (n : ℕ) (r s : RingBuffer) → Bool → Type 0
  EndsMoved n r s true = (s.head ≡ shift r.allocation n) × (s.tail ≡ r.allocation)
  EndsMoved n r s false =
      ((s.head ≡ shift r.allocation n) ⊎ (s.head ≡ shift r.head n)) × (s.tail ≡ r.tail)

  -- What acquiring `n` bytes has done: on success `buf` is new, and on failure the ring is as before.
  abbrev pub Acquired : (n : ℕ) (r s : RingBuffer) → ByteBuf → Bool → World → Type 0
  Acquired n r s buf true v =
      (tests.buf_is_valid buf v ≡ true)
      × ((buf.capacity ≡ n)
          × ((deref v buf.buffer buf.capacity ≡ true)
              × ((buf.len ≡ 0)
                  × ((tests.belongs_to_pool s buf ≡ true)
                      × (EndsMoved n r s (tests.is_empty r) × StatesFit r s)))))
  Acquired n r s buf false v = s ≡ r

  -- The postcondition of `aws_ring_buffer_acquire`.
  abbrev pub AcquirePost : ℕ × RingBuffer × ByteBuf → Bool × RingBuffer × ByteBuf → World → Type 0
  AcquirePost (n, r, _) (success, s, buf) v =
      Acquired n r s buf success v × ((tests.ring_is_valid s v ≡ true) × SameMemory r s)

  abbrev pub AcquiredUpTo : (lo hi : ℕ) (r s : RingBuffer) → ByteBuf → Bool → World → Type 0
  AcquiredUpTo lo hi r s buf true v =
      (tests.buf_is_valid buf v ≡ true)
      × (((lo ≤ buf.capacity) × (buf.capacity ≤ hi))
          × ((buf.len ≡ 0) × ((tests.belongs_to_pool s buf ≡ true) × StatesFit r s)))
  AcquiredUpTo lo hi r s buf false v = s ≡ r

  acquired_up_to-Checks :
      (lo hi : ℕ) (r s : RingBuffer) (buf : ByteBuf) (success : Bool)
      → Checks
          (acquired_up_to tests max_buffer_size lo hi r s buf success)
          (AcquiredUpTo lo hi r s buf success)
  acquired_up_to-Checks lo hi r s buf true =
      sassert_on-Checks (tests.buf_is_valid buf)
      & Checks-map _ _ (λ _. (lo ≤ buf.capacity) × (buf.capacity ≤ hi))
          (λ v. (λ h. (ground arith, ground arith), λ h. ground arith)) (sassert-Checks _)
      & same_number-Checks buf.len 0
      & sassert-Checks (tests.belongs_to_pool s buf)
      & states_fit-Checks r s
  acquired_up_to-Checks lo hi r s buf false = same_ring-Checks s r

  abbrev pub AcquireUpToPost :
      ℕ × ℕ × RingBuffer × ByteBuf → Bool × RingBuffer × ByteBuf → World → Type 0
  AcquireUpToPost (lo, hi, r, _) (success, s, buf) v =
      (tests.ring_is_valid s v ≡ true) × (AcquiredUpTo lo hi r s buf success v × SameMemory r s)

  -- What the unit proof of `aws_ring_buffer_acquire_up_to` shows: the same, for a buffer whose size lies
  -- between the two that are asked for; where the ends of the ring go is not checked.
  pub acquire_up_to_harness-AcquireUpToPost :
      (acquire_up_to : ℕ × ℕ × RingBuffer × ByteBuf → Cmd (Bool × RingBuffer × ByteBuf)) (w : World)
      → Good (acquire_up_to_harness tests max_buffer_size acquire_up_to w)
        ↔ Ensures
            (λ set u. Ensures (AcquireUpToPost set) (acquire_up_to set u))
            (acquire_up_to_set_up tests max_buffer_size w)
  unfolding acquire_up_to_harness acquire_up_to_assertions
  acquire_up_to_harness-AcquireUpToPost acquire_up_to w =
      harness_on-Meets (acquire_up_to_set_up tests max_buffer_size w) (λ set _. AcquireUpToPost set)
        acquire_up_to (acquire_up_to_assertions tests max_buffer_size)
        λ (lo, hi, r, _) u _ (success, s, buf).
          sassert_on-Checks (tests.ring_is_valid s)
          & acquired_up_to-Checks lo hi r s buf success
          & same_memory-Checks r s
