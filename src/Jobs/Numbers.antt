-- ===== src/Jobs/Numbers.antt =====
-- The unit proofs of functions on numbers: seahorn/jobs/nospec_mask, add_size_checked, add_size_saturating
-- and mul_size_checked, with the function of aws-c-common as a parameter, which gives the same for the same arguments.
pub mod Every
use Prim.Native.Nat.{min}
use verify_c_common.Base.{
  ℕ, ◌+◌, ◌-◌, ◌*◌, ◌/◌, ◌%◌, ◌^◌, ◌≤◌, ◌<◌, ◌≡◌, ◌↔◌, refl, Bool, Bool-cases, inl, inr, true,
  false, Option, none, some, not, ◌&&◌, ◌||◌, ◌==◌, leb, ltb, size_max, if◌then◌else◌, arith,
}
use verify_c_common.World.{
  World, Outcome, ok, Cmd, advance, nd_size_t, nd_uint64_t, nd_bool, sassert, pure, and_then, ◌>>=◌,
  ◌>>◌,
}
use verify_c_common.Buffers.Cursor.{MasksBounds}
use verify_c_common.Jobs.{Good}

-- `(index >= bound) || (bound > (SIZE_MAX / 2)) || (index > (SIZE_MAX / 2))`.
abbrev pub out_of_bounds : (index bound : ℕ) → Bool
out_of_bounds index bound =
    leb bound index || (ltb (size_max / 2) bound || ltb (size_max / 2) index)

unfoldable pub nospec_mask_harness : (nospec_mask : ℕ → ℕ → ℕ) → Cmd (Unit {0})
nospec_mask_harness nospec_mask = do
  index ← nd_size_t
  bound ← nd_size_t
  if nospec_mask index bound == 0 then sassert (out_of_bounds index bound) else (do
    sassert (nospec_mask index bound == size_max)
    sassert (not (out_of_bounds index bound)))

-- `nd_uint32_t`, with the other choices in World.
unfoldable pub nd_uint32_t : Cmd ℕ
nd_uint32_t w = ok (w.tape w.pos % 2 ^ 32) (advance 1 w)

-- A proof for numbers of 64 bits and one for numbers of 32 bits.
abbrev pub two_widths : (wide narrow : (a b : ℕ) → Cmd (Unit {0})) → Cmd (Unit {0})
two_widths wide narrow = do
  is_wide ← nd_bool
  if is_wide
      then (do a ← nd_uint64_t; b ← nd_uint64_t; wide a b)
      else (do a ← nd_uint32_t; b ← nd_uint32_t; narrow a b)

-- What `aws_add_u64_checked` and its like give: `none` for an error.
abbrev pub checked_sum : (m a b : ℕ) → Option ℕ → Cmd (Unit {0})
checked_sum m a b none = sassert (ltb 0 b && ltb (m - 1 - b) a)
checked_sum m a b (some r) = sassert (r == (a + b) % m)

unfoldable pub add_checked_harness : (add_u64 add_u32 : ℕ → ℕ → Option ℕ) → Cmd (Unit {0})
unfolding nd_uint32_t
add_checked_harness add_u64 add_u32 =
    two_widths (λ a b. do r ← nd_uint64_t; checked_sum (2 ^ 64) a b (add_u64 a b))
      (λ a b. do r ← nd_uint32_t; checked_sum (2 ^ 32) a b (add_u32 a b))

abbrev pub checked_product : (m a b : ℕ) → Option ℕ → Cmd (Unit {0})
checked_product m a b none = sassert (ltb 0 b)
checked_product m a b (some r) = sassert (r == (a * b) % m)

unfoldable pub mul_checked_harness : (mul_u64 mul_u32 : ℕ → ℕ → Option ℕ) → Cmd (Unit {0})
unfolding nd_uint32_t
mul_checked_harness mul_u64 mul_u32 =
    two_widths (λ a b. do r ← nd_uint64_t; checked_product (2 ^ 64) a b (mul_u64 a b))
      (λ a b. do r ← nd_uint32_t; checked_product (2 ^ 32) a b (mul_u32 a b))

abbrev pub saturated_sum : (m a b r : ℕ) → Cmd (Unit {0})
saturated_sum m a b r =
    if ltb 0 b && ltb (m - 1 - b) a then sassert (r == m - 1) else sassert (r == (a + b) % m)

unfoldable pub add_saturating_harness : (add_u64 add_u32 : ℕ → ℕ → ℕ) → Cmd (Unit {0})
unfolding nd_uint32_t
add_saturating_harness add_u64 add_u32 =
    two_widths (λ a b. saturated_sum (2 ^ 64) a b (add_u64 a b))
      (λ a b. saturated_sum (2 ^ 32) a b (add_u32 a b))
