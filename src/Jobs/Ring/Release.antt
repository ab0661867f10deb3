-- ===== src/Jobs/Ring/Release.antt =====
-- seahorn/jobs/ring_buffer_release.
use verify_c_common.Base.{ℕ, ◌≡◌, true, ◌||◌}
use verify_c_common.World.{null, shift, World}
use verify_c_common.Structs.{ByteBuf, RingBuffer}
use verify_c_common.Ring.Laws.{IsRing, HandedOut}
use verify_c_common.Jobs.{Checks, ◌&◌, Checks-map}
use verify_c_common.Jobs.Tests.{
  sassert_on-Checks, same_number-Checks, same_ptr-Checks, implies-Checks,
}
use verify_c_common.Jobs.Ring.{RingTests, release_assertions}

-- The ring, and a buffer all of whose bytes are in use there.
abbrev SetUp : (b size h t : ℕ) → RingBuffer × ByteBuf → World → Type 0
SetUp b size h t s u = IsRing b size h t s.0 × HandedOut b size h t s.1

abbrev SomeRing : RingBuffer × ByteBuf → World → Type 0
SomeRing s u = (b : ℕ) × (size : ℕ) × (h : ℕ) × (t : ℕ) × IsRing b size h t s.0

module _ (tests : RingTests) (max_buffer_size : ℕ) where
  -- The ring has its tail behind what was the buffer, which is zeroed.
  pub record Released (s : RingBuffer × ByteBuf) (r : RingBuffer × ByteBuf) (v : World)
      : Type 0 where
    pub valid : tests.ring_is_valid r.0 v ≡ true
    pub ring : r.0 ≡ record s.0 { tail = shift s.1.buffer s.1.capacity }
    pub buf : r.1 ≡ record { len = 0; buffer = null; capacity = 0; allocator = 0 }
    pub from_front :
        tests.is_front_valid_state s.0 ≡ true
        → (tests.is_empty_state r.0 || tests.is_middle_valid_state r.0) ≡ true
    pub from_middle :
        tests.is_middle_valid_state s.0 ≡ true
        → (tests.is_empty_state r.0
            || (tests.is_middle_valid_state r.0 || tests.is_ends_valid_state r.0))
          ≡ true
    pub from_ends :
        tests.is_ends_valid_state s.0 ≡ true
        → (tests.is_empty_state r.0
            || (tests.is_middle_valid_state r.0 || tests.is_ends_valid_state r.0))
          ≡ true

  pub release-Checks :
      (s r : RingBuffer × ByteBuf)
      → Checks (release_assertions tests max_buffer_size s r) (Released s r)
  unfolding release_assertions
  release-Checks (old, buf_old) (ring_buf, buf) =
      Checks-map _ _ (Released (old, buf_old) (ring_buf, buf))
        (λ v. (
          λ (valid, (h1, (h2, (h3, (h4, (h5, (b1, (b2, (b3, (b4, (front, (middle, ends)))))))))))).
              record {
                valid = valid;
                ring = cc;
                buf = cc;
                from_front = front;
                from_middle = middle;
                from_ends = ends;
              },
          λ r.
              let ring = r.ring in
              let same = r.buf in
              (
                r.valid,
                (
                  cc,
                  (
                    cc,
                    (
                      cc,
                      (
                        cc,
                        (cc, (cc, (cc, (cc, (cc, (r.from_front, (r.from_middle, r.from_ends))))))),
                      ),
                    ),
                  ),
                ),
              ),
        ))
        (sassert_on-Checks (tests.ring_is_valid ring_buf)
          & same_number-Checks ring_buf.allocator old.allocator
          & same_ptr-Checks ring_buf.allocation old.allocation
          & same_ptr-Checks ring_buf.head old.head
          & same_ptr-Checks ring_buf.tail (shift buf_old.buffer buf_old.capacity)
          & same_ptr-Checks ring_buf.allocation_end old.allocation_end
          & same_number-Checks buf.allocator 0
          & same_ptr-Checks buf.buffer null
          & same_number-Checks buf.len 0
          & same_number-Checks buf.capacity 0
          & implies-Checks (tests.is_front_valid_state old) _
          & implies-Checks (tests.is_middle_valid_state old) _
          & implies-Checks (tests.is_ends_valid_state old) _)
