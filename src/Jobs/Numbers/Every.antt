-- ===== src/Jobs/Numbers/Every.antt =====
-- What the unit proofs of functions on numbers show, over all runs.
use mathlib.Core.Path.{subst}
use Prim.Native.Nat.{min}
use verify_c_common.Base.{
  ℕ, ◌+◌, ◌-◌, ◌*◌, ◌/◌, ◌%◌, ◌^◌, ◌≤◌, ◌<◌, ◌≡◌, ◌↔◌, Bool-cases, inl, inr, false, Option, none,
  some, not, ◌&&◌, ◌==◌, leb, ltb, size_max, if◌then◌else◌, arith,
}
use verify_c_common.World.{World, Cmd, advance}
use verify_c_common.Buffers.Cursor.{MasksBounds}
use verify_c_common.Jobs.{Good}
use verify_c_common.Jobs.Numbers.{
  nospec_mask_harness, nd_uint32_t, two_widths, checked_sum, add_checked_harness, checked_product,
  mul_checked_harness, saturated_sum, add_saturating_harness,
}

-- A world whose first choices are `a`, `b` and `c`.
abbrev choosing : (a b c : ℕ) → World → World
choosing a b c w = record w {
  tape = λ i. if i == w.pos then a else if i == w.pos + 1 then b else c;
}

abbrev blank : World
blank = record {
  tape = λ i. 0;
  pos = 0;
  oom = λ b. false;
  junk = λ b i. 0;
  fresh = 0;
  blocks = λ b. none;
  nodes = λ p. none;
  last_error = 0;
}

mask_at :
    (nospec_mask : ℕ → ℕ → ℕ) (index bound : ℕ) (w : World)
    → index < 2 ^ 64
    → bound < 2 ^ 64
    → Good (nospec_mask_harness nospec_mask (choosing index bound 0 w))
    → nospec_mask index bound ≡ (
        if ltb index bound && (leb bound (size_max / 2) && leb index (size_max / 2))
        then size_max
        else 0)
unfolding nospec_mask_harness
mask_at nospec_mask index bound w small small' good = ground arith

mask-Good :
    (nospec_mask : ℕ → ℕ → ℕ) (w : World)
    → MasksBounds nospec_mask
    → Good (nospec_mask_harness nospec_mask w)
unfolding nospec_mask_harness
mask-Good nospec_mask w masks =
    let index = w.tape w.pos % 2 ^ 64 in
    let bound = w.tape (w.pos + 1) % 2 ^ 64 in
    let e = masks index bound (ground arith) (ground arith) in ground arith

-- The unit proof of `aws_nospec_mask` goes wrong in no run exactly if the function gives all ones for an
-- index in bounds, and 0 for one that is not or if one of its arguments is more than half of SIZE_MAX.
pub nospec_mask_harness-MasksBounds :
    (nospec_mask : ℕ → ℕ → ℕ)
    → ((w : World) → Good (nospec_mask_harness nospec_mask w)) ↔ MasksBounds nospec_mask
nospec_mask_harness-MasksBounds nospec_mask = (
  λ good index bound small small'.
      mask_at nospec_mask index bound blank small small' (good (choosing index bound 0 blank)),
  λ masks w. mask-Good nospec_mask w masks,
)

at_both : (P : (a b : ℕ) → Type 0) {a a' b b' : ℕ} → a' ≡ a → b' ≡ b → P a' b' → P a b
at_both P {a} {a'} {b} {b'} e e' p = subst (λ x. P x b) e (subst (λ y. P a' y) e' p)

module _ (wide narrow : (a b : ℕ) → Cmd (Unit {0})) (P Q : (a b : ℕ) → Type 0)
    (wide_lem : (a b : ℕ) (w : World) → a < 2 ^ 64 → b < 2 ^ 64 → Good (wide a b w) ↔ P a b)
    (narrow_lem : (a b : ℕ) (w : World)
      → a < 2 ^ 32
      → b < 2 ^ 32
      → Good (narrow a b w) ↔ Q a b) where
  two_widths-every :
      ((w : World) → Good (two_widths wide narrow w))
      ↔ ((a b : ℕ) → a < 2 ^ 64 → b < 2 ^ 64 → P a b)
        × ((a b : ℕ) → a < 2 ^ 32 → b < 2 ^ 32 → Q a b)
  unfolding nd_uint32_t
  two_widths-every = (
    λ good. (
      λ a b small small'.
          let a' = a % 2 ^ 64 in
          let b' = b % 2 ^ 64 in
          let p : P a' b' =
            (wide_lem a' b' (advance 3 (choosing 1 a b blank)) (omega arith) (omega arith)).0
              (good (choosing 1 a b blank)) in
          at_both P (omega arith) (omega arith) p,
      λ a b small small'.
          let a' = a % 2 ^ 32 in
          let b' = b % 2 ^ 32 in
          let q : Q a' b' =
            (narrow_lem a' b' (advance 3 (choosing 0 a b blank)) (omega arith) (omega arith)).0
              (good (choosing 0 a b blank)) in
          at_both Q (omega arith) (omega arith) q,
    ),
    λ (p, q) w. elim (Bool-cases (not (w.tape w.pos == 0))) [
      | inl is_wide ↦ rw (is_wide) (
          (wide_lem _ _ (advance 1 (advance 1 (advance 1 w))) (omega arith) (omega arith)).1 (
            p (w.tape (w.pos + 1) % 2 ^ 64) (w.tape (w.pos + 1 + 1) % 2 ^ 64) (omega arith)
              (omega arith)))
      | inr is_narrow ↦ rw (is_narrow) (
          (narrow_lem _ _ (advance 1 (advance 1 (advance 1 w))) (omega arith) (omega arith)).1 (
            q (w.tape (w.pos + 1) % 2 ^ 32) (w.tape (w.pos + 1 + 1) % 2 ^ 32) (omega arith)
              (omega arith)))
    ],
  )

-- A sum that fits its width, or an error, and only if it does not fit.
abbrev pub SumChecked : (m a b : ℕ) → Option ℕ → Type 0
SumChecked m a b none = m ≤ a + b
SumChecked m a b (some r) = r ≡ (a + b) % m

checked_sum-SumChecked :
    (m a b : ℕ) (r : Option ℕ) (w : World)
    → a < m
    → b < m
    → Good (checked_sum m a b r w) ↔ SumChecked m a b r
checked_sum-SumChecked m a b none w small small' = (λ h. ground arith, λ h. ground arith)
checked_sum-SumChecked m a b (some r) w small small' = (λ h. ground arith, λ h. ground arith)

-- The unit proof of `aws_add_u64_checked` and `aws_add_u32_checked` goes wrong in no run exactly if they
-- report an error only where the sum does not fit, and give the sum modulo the width otherwise. That
-- they do report an error where it does not fit is not asked for.
pub add_checked_harness-SumChecked :
    (add_u64 add_u32 : ℕ → ℕ → Option ℕ)
    → ((w : World) → Good (add_checked_harness add_u64 add_u32 w))
      ↔ ((a b : ℕ) → a < 2 ^ 64 → b < 2 ^ 64 → SumChecked (2 ^ 64) a b (add_u64 a b))
        × ((a b : ℕ) → a < 2 ^ 32 → b < 2 ^ 32 → SumChecked (2 ^ 32) a b (add_u32 a b))
unfolding add_checked_harness
add_checked_harness-SumChecked add_u64 add_u32 =
    two_widths-every _ _ (λ a b. SumChecked (2 ^ 64) a b (add_u64 a b))
      (λ a b. SumChecked (2 ^ 32) a b (add_u32 a b))
      (λ a b w small small'.
        checked_sum-SumChecked (2 ^ 64) a b (add_u64 a b) (advance 1 w) small small')
      (λ a b w small small'.
        checked_sum-SumChecked (2 ^ 32) a b (add_u32 a b) (advance 1 w) small small')

abbrev pub ProductChecked : (m a b : ℕ) → Option ℕ → Type 0
ProductChecked m a b none = 0 < b
ProductChecked m a b (some r) = r ≡ (a * b) % m

checked_product-ProductChecked :
    (m a b : ℕ) (r : Option ℕ) (w : World)
    → Good (checked_product m a b r w) ↔ ProductChecked m a b r
checked_product-ProductChecked m a b none w = (λ h. ground arith, λ h. ground arith)
checked_product-ProductChecked m a b (some r) w = (λ h. ground arith, λ h. ground arith)

-- The unit proof of `aws_mul_u64_checked` and `aws_mul_u32_checked` goes wrong in no run exactly if they
-- give the product modulo the width, or an error; all that is asked of an error is that `b` is not 0.
pub mul_checked_harness-ProductChecked :
    (mul_u64 mul_u32 : ℕ → ℕ → Option ℕ)
    → ((w : World) → Good (mul_checked_harness mul_u64 mul_u32 w))
      ↔ ((a b : ℕ) → a < 2 ^ 64 → b < 2 ^ 64 → ProductChecked (2 ^ 64) a b (mul_u64 a b))
        × ((a b : ℕ) → a < 2 ^ 32 → b < 2 ^ 32 → ProductChecked (2 ^ 32) a b (mul_u32 a b))
unfolding mul_checked_harness
mul_checked_harness-ProductChecked mul_u64 mul_u32 =
    two_widths-every _ _ (λ a b. ProductChecked (2 ^ 64) a b (mul_u64 a b))
      (λ a b. ProductChecked (2 ^ 32) a b (mul_u32 a b))
      (λ a b w _ _. checked_product-ProductChecked (2 ^ 64) a b (mul_u64 a b) (advance 1 w))
      (λ a b w _ _. checked_product-ProductChecked (2 ^ 32) a b (mul_u32 a b) (advance 1 w))

saturated_sum-min :
    (m a b r : ℕ) (w : World)
    → a < m
    → b < m
    → (a + b < m → (a + b) % m ≡ a + b)
    → Good (saturated_sum m a b r w) ↔ (r ≡ min (a + b) (m - 1))
saturated_sum-min m a b r w small small' fits = elim (Bool-cases (ltb 0 b && ltb (m - 1 - b) a)) [
  | inl over ↦ rw (over) (λ h. ground arith, λ h. ground arith)
  | inr within ↦
      let same : (a + b) % m ≡ a + b = fits (ground arith) in
      rw (within, same) (λ h. ground arith, λ h. ground arith)
]

-- The unit proof of `aws_add_u64_saturating` and `aws_add_u32_saturating` goes wrong in no run exactly if
-- they give the smaller of the sum and the largest number of the width.
pub add_saturating_harness-min :
    (add_u64 add_u32 : ℕ → ℕ → ℕ)
    → ((w : World) → Good (add_saturating_harness add_u64 add_u32 w))
      ↔ ((a b : ℕ) → a < 2 ^ 64 → b < 2 ^ 64 → add_u64 a b ≡ min (a + b) (2 ^ 64 - 1))
        × ((a b : ℕ) → a < 2 ^ 32 → b < 2 ^ 32 → add_u32 a b ≡ min (a + b) (2 ^ 32 - 1))
unfolding add_saturating_harness
add_saturating_harness-min add_u64 add_u32 =
    two_widths-every _ _ (λ a b. add_u64 a b ≡ min (a + b) (2 ^ 64 - 1))
      (λ a b. add_u32 a b ≡ min (a + b) (2 ^ 32 - 1))
      (λ a b w small small'.
        saturated_sum-min (2 ^ 64) a b (add_u64 a b) w small small' (λ lt. omega arith))
      (λ a b w small small'.
        saturated_sum-min (2 ^ 32) a b (add_u32 a b) w small small' (λ lt. omega arith))
