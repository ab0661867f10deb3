-- ===== src/Jobs/ByteBuf/Post.antt =====
-- What the unit proofs of byte buffers check.
use verify_c_common.Base.{
  ℕ, ◌<◌, ◌≡◌, ◌↔◌, refl, Bool, true, false, ltb, add_size, if◌then◌else◌, arith,
}
use verify_c_common.World.{Ptr, null, World, Cmd, pure, Ensures}
use verify_c_common.Structs.{ByteBuf, sea_allocator}
use verify_c_common.Utils.{StoredByte, assert_byte_buf_equivalence, byte_buf_fields}
use verify_c_common.Jobs.{Good, Checks, ◌&◌, Checks-map, harness_on-Meets}
use verify_c_common.Jobs.Tests.{sassert_on-Checks, same_number-Checks, same_ptr-Checks}
use verify_c_common.Jobs.Saved.{Kept, Kept-Checks, if-Checks}
use verify_c_common.Jobs.ByteBuf.{
  same_buf, any_buf, clean_up_assertions, clean_up_harness, init_set_up, init_assertions,
  init_harness, write_set_up, written, write_assertions, write_harness,
}

-- Where there are bytes, the one that was saved is unchanged.
abbrev pub KeptIf : (n : ℕ) → Ptr → StoredByte → World → Type 0
KeptIf n p b v = 0 < n → Kept v p b

KeptIf-Checks :
    (n : ℕ) (m : Cmd (Unit {0})) (p : Ptr) (b : StoredByte)
    → Checks m (λ v. Kept v p b)
    → Checks (if ltb 0 n then m else pure tt) (KeptIf n p b)
KeptIf-Checks n m p b checks =
    Checks-map _ _ (KeptIf n p b) (λ v. (λ h some_bytes. h (ground arith), λ h e. h (ground arith)))
      (if-Checks (ltb 0 n) m (λ v. Kept v p b) checks)

-- Length, capacity, allocator and the saved byte are the same; where the bytes lie may differ.
abbrev pub SameBuf : (buf old : ByteBuf) → StoredByte → World → Type 0
SameBuf buf old b v =
    (buf.len ≡ old.len)
    × ((buf.capacity ≡ old.capacity)
        × ((buf.allocator ≡ old.allocator) × KeptIf buf.len buf.buffer b v))

same_buf-Checks :
    (buf old : ByteBuf) (b : StoredByte) → Checks (same_buf buf old b) (SameBuf buf old b)
unfolding same_buf assert_byte_buf_equivalence byte_buf_fields
same_buf-Checks buf old b =
    same_number-Checks buf.len old.len
    & same_number-Checks buf.capacity old.capacity
    & same_number-Checks buf.allocator old.allocator
    & KeptIf-Checks buf.len _ buf.buffer b (Kept-Checks buf.buffer b)

abbrev pub zeroed_buf : ByteBuf
zeroed_buf = record { len = 0; buffer = null; capacity = 0; allocator = 0 }

module _ (buf_is_valid : ByteBuf → World → Bool) (max_buffer_size : ℕ) where
  clean_up-Checks :
      (old buf : ByteBuf)
      → Checks (clean_up_assertions buf_is_valid max_buffer_size old buf) (λ _. buf ≡ zeroed_buf)
  unfolding clean_up_assertions
  clean_up-Checks old buf =
      Checks-map _ _ _ (λ v. (λ (h1, (h2, (h3, h4))). cc, λ e. (cc, (cc, (cc, cc)))))
        (same_number-Checks buf.allocator 0
          & same_ptr-Checks buf.buffer null
          & same_number-Checks buf.len 0
          & same_number-Checks buf.capacity 0)

  -- What the unit proofs of `aws_byte_buf_clean_up` and `aws_byte_buf_clean_up_secure` show: nothing goes
  -- wrong in a run exactly if the function sets all fields of a valid buffer to 0.
  pub clean_up_harness-zeroed_buf :
      (clean_up : ByteBuf → Cmd ByteBuf) (w : World)
      → Good (clean_up_harness buf_is_valid max_buffer_size clean_up w)
        ↔ Ensures
            (λ old u. Ensures (λ buf _. buf ≡ zeroed_buf) (clean_up old u))
            (any_buf buf_is_valid max_buffer_size w)
  unfolding clean_up_harness
  clean_up_harness-zeroed_buf clean_up w =
      harness_on-Meets (any_buf buf_is_valid max_buffer_size w) (λ _ _ buf _. buf ≡ zeroed_buf)
        clean_up _ λ old u _ buf. clean_up-Checks old buf

  abbrev pub Initialised : ℕ → Bool × ByteBuf → World → Type 0
  Initialised capacity (true, buf) v =
      (buf_is_valid buf v ≡ true)
      × ((buf.allocator ≡ sea_allocator) × ((buf.len ≡ 0) × (buf.capacity ≡ capacity)))
  Initialised capacity (false, buf) v = Unit

  init-Checks :
      (old : ByteBuf) (capacity : ℕ) (success : Bool) (buf : ByteBuf)
      → Checks
          (init_assertions buf_is_valid max_buffer_size (old, capacity) (success, buf))
          (Initialised capacity (success, buf))
  unfolding init_assertions
  init-Checks old capacity true buf =
      sassert_on-Checks (buf_is_valid buf)
      & same_number-Checks buf.allocator sea_allocator
      & same_number-Checks buf.len 0
      & same_number-Checks buf.capacity capacity
  init-Checks old capacity false buf = record { passes = λ v h. refl; means = λ v h. tt }

  -- What the unit proof of `aws_byte_buf_init` shows: nothing goes wrong in a run of it exactly if the
  -- function fails or gives a valid empty buffer of just the capacity asked for.
  pub init_harness-Initialised :
      (init : ByteBuf → ℕ → Cmd (Bool × ByteBuf)) (w : World)
      → Good (init_harness buf_is_valid max_buffer_size init w)
        ↔ Ensures
            (λ s u. Ensures (Initialised s.1) (init s.0 s.1 u))
            (init_set_up buf_is_valid max_buffer_size w)
  unfolding init_harness
  init_harness-Initialised init w =
      harness_on-Meets (init_set_up buf_is_valid max_buffer_size w) (λ s _. Initialised s.1)
        (λ (buf, capacity). init buf capacity) _
        λ (old, capacity) u _ (success, buf). init-Checks old capacity success buf

  abbrev pub Written : (old buf : ByteBuf) → StoredByte → (success : Bool) → World → Type 0
  Written old buf b true v =
      (buf.len ≡ add_size old.len 1)
      × ((old.capacity ≡ buf.capacity) × (old.allocator ≡ buf.allocator))
  Written old buf b false v = SameBuf buf old b v

  written-Checks :
      (old buf : ByteBuf) (b : StoredByte) (success : Bool)
      → Checks (written buf_is_valid max_buffer_size old b buf success) (Written old buf b success)
  written-Checks old buf b true =
      same_number-Checks buf.len (add_size old.len 1)
      & same_number-Checks old.capacity buf.capacity
      & same_number-Checks old.allocator buf.allocator
  written-Checks old buf b false = same_buf-Checks buf old b

  -- What the unit proof of `aws_byte_buf_write_u8` shows: nothing goes wrong in a run of it exactly if the
  -- function succeeds and makes the buffer one byte longer, or fails and leaves it as it was, and it
  -- is valid after either. The byte that was written is not looked at.
  pub write_harness-Written :
      (write_u8 : ByteBuf → ℕ → Cmd (Bool × ByteBuf)) (w : World)
      → Good (write_harness buf_is_valid max_buffer_size write_u8 w)
        ↔ Ensures
            (λ s u.
              Ensures
                (λ r v. Written s.0 r.1 s.2 r.0 v × (buf_is_valid r.1 v ≡ true))
                (write_u8 s.0 s.1 u))
            (write_set_up buf_is_valid max_buffer_size w)
  unfolding write_harness write_assertions
  write_harness-Written write_u8 w =
      harness_on-Meets (write_set_up buf_is_valid max_buffer_size w)
        (λ s _ r v. Written s.0 r.1 s.2 r.0 v × (buf_is_valid r.1 v ≡ true))
        (λ (buf, x, _). write_u8 buf x) _
        λ (old, x, b) u _ (success, buf).
          written-Checks old buf b success & sassert_on-Checks (buf_is_valid buf)

  abbrev pub Moved :
      (old : ByteBuf) (len : ℕ)
      → StoredByte
      → (buf output : ByteBuf) → (success : Bool) → World
      → Type 0
  Moved old len b buf output true v =
      (buf.len ≡ add_size old.len len)
      × ((buf.capacity ≡ old.capacity)
          × ((buf.allocator ≡ old.allocator)
              × (KeptIf old.len buf.buffer b v
                  × ((output.len ≡ 0) × ((output.capacity ≡ len) × (output.allocator ≡ 0))))))
  Moved old len b buf output false v =
      SameBuf buf old b v
      × ((output.len ≡ 0)
          × ((output.capacity ≡ 0) × ((output.allocator ≡ 0) × (output.buffer ≡ null))))
