-- ===== src/Jobs/Ring/Pool/Post.antt =====
-- What these unit proofs check: seahorn/jobs/ring_buffer_buf_belongs_to_pool, ring_buffer_init and ring_buffer_clean_up.
use verify_c_common.Base.{
  ℕ, ◌+◌, ◌-◌, ◌%◌, ◌^◌, ◌≡◌, ◌↔◌, ◌==◌, Bool, true, Option, none, some, refl, arith,
}
use verify_c_common.World.{Ptr, null, at, World, Cmd, sassert, ◌>>=◌, Ensures}
use verify_c_common.Structs.{ByteBuf, RingBuffer, sea_allocator}
use verify_c_common.Jobs.{Good, Checks, ◌&◌, Checks-map, harness_on-Meets}
use verify_c_common.Jobs.Tests.{sassert_on-Checks, same_number-Checks, same_ptr-Checks}
use verify_c_common.Jobs.Ring.{RingTests}
use verify_c_common.Jobs.Ring.Pool.{
  span, init_set_up, init_assertions, init_harness, clean_up_set_up, clean_up_assertions,
  clean_up_harness,
}

abbrev pub zeroed_ring : RingBuffer
zeroed_ring = record {
  allocator = 0;
  allocation = null;
  head = null;
  tail = null;
  allocation_end = null;
}

module _ (tests : RingTests) (max_buffer_size : ℕ) where
  -- The function answers right, leaves both structures valid, and changes neither.
  pub record Answered (s r : Bool × RingBuffer × ByteBuf) (v : World) : Type 0 where
    pub answer : r ≡ s
    pub ring_valid : tests.ring_is_valid r.1 v ≡ true
    pub buf_valid : tests.buf_is_valid r.2 v ≡ true

  -- `lo` and `hi` lie in one block, `size` bytes apart.
  abbrev pub Spans : (hi lo : Ptr) (size : ℕ) → Type 0
  Spans hi lo size =
      (b : ℕ) × (i : ℕ) × (j : ℕ) × (hi ≡ at b i)
      × (lo ≡ at b j)
      × ((i + 2 ^ 64 - j) % 2 ^ 64 ≡ size)

  span-Checks :
      (hi lo : Ptr) (size : ℕ)
      → Checks
          (span tests max_buffer_size hi lo >>= λ n. sassert (n == size))
          (λ _. Spans hi lo size)
  span-Checks null lo size = record {
    passes = λ v (b, i, j, e, e', d). cc;
    means = λ v h. absurd h;
  }
  span-Checks (at b i) null size = record {
    passes = λ v (b', i', j, e, e', d). cc;
    means = λ v h. absurd h;
  }
  span-Checks (at b i) (at c j) size = record {
    passes = λ v (b', i', j', e, e', d). ground arith;
    means = λ v h. let same : b ≡ c = ground arith in (b, i, j, refl, cc, ground arith);
  }

  abbrev pub Initialised : ℕ → Option RingBuffer → World → Type 0
  Initialised size none v = Unit
  Initialised size (some ring) v =
      (tests.ring_is_valid ring v ≡ true)
      × ((ring.allocator ≡ sea_allocator) × Spans ring.allocation_end ring.allocation size)

  init-Checks :
      (size : ℕ) (r : Option RingBuffer)
      → Checks (init_assertions tests max_buffer_size size r) (Initialised size r)
  unfolding init_assertions
  init-Checks size none = record { passes = λ v h. refl; means = λ v h. tt }
  init-Checks size (some ring) =
      sassert_on-Checks (tests.ring_is_valid ring)
      & same_number-Checks ring.allocator sea_allocator
      & span-Checks ring.allocation_end ring.allocation size

  -- What the unit proof of `aws_ring_buffer_init` shows: nothing goes wrong in a run of it exactly if the
  -- function, for the size that the run has chosen, which is not 0, fails, or gives a valid ring with
  -- memory of just that size from the allocator it was given.
  pub init_harness-Initialised :
      (init : ℕ → Cmd (Option RingBuffer)) (w : World)
      → Good (init_harness tests max_buffer_size init w)
        ↔ Ensures
            (λ size u. Ensures (Initialised size) (init size u))
            (init_set_up tests max_buffer_size w)
  unfolding init_harness
  init_harness-Initialised init w =
      harness_on-Meets (init_set_up tests max_buffer_size w) (λ size _. Initialised size) init
        (init_assertions tests max_buffer_size) λ size u _ r. init-Checks size r

  clean_up-Checks :
      (old ring : RingBuffer)
      → Checks (clean_up_assertions tests max_buffer_size old ring) (λ _. ring ≡ zeroed_ring)
  unfolding clean_up_assertions
  clean_up-Checks old ring =
      Checks-map _ _ _ (λ v. (λ (h1, (h2, (h3, (h4, h5)))). cc, λ h. (cc, (cc, (cc, (cc, cc))))))
        (same_number-Checks ring.allocator 0
          & same_ptr-Checks ring.allocation null
          & same_ptr-Checks ring.head null
          & same_ptr-Checks ring.tail null
          & same_ptr-Checks ring.allocation_end null)

  -- What the unit proof of `aws_ring_buffer_clean_up` shows: nothing goes wrong in a run of it exactly if
  -- the function sets all fields of a valid ring to 0.
  pub clean_up_harness-zeroed_ring :
      (clean_up : RingBuffer → Cmd RingBuffer) (w : World)
      → Good (clean_up_harness tests max_buffer_size clean_up w)
        ↔ Ensures
            (λ ring u. Ensures (λ r _. r ≡ zeroed_ring) (clean_up ring u))
            (clean_up_set_up tests max_buffer_size w)
  unfolding clean_up_harness
  clean_up_harness-zeroed_ring clean_up w =
      harness_on-Meets (clean_up_set_up tests max_buffer_size w) (λ _ _ r _. r ≡ zeroed_ring)
        clean_up (clean_up_assertions tests max_buffer_size)
        λ old u _ ring. clean_up-Checks old ring
