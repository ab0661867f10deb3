-- ===== src/Bytes/Compare.antt =====
-- The comparisons of seahorn/lib/bcmp.c against a plain scan of the two byte sequences.
use Prim.Native.Nat.{min}
use native.Mathlib.Nat.{zero-min}
use native.Mathlib.Decide.{dec_lt, ℕ_discrete}
use verify_c_common.Base.{
  ℕ, zero, suc, ◌+◌, ◌-◌, ◌≤◌, ◌<◌, ◌≡◌, ◌≢◌, refl, true, false, Option, none, some, ◌==◌, ltb, ◌⊎◌,
  inl, inr, Bool-cases, if◌then◌else◌, arith,
}
use verify_c_common.World.{Ptr, null, at, ptr_eq, World, ok}
use verify_c_common.Alloc.{readable, window}
use verify_c_common.Bytes.{
  Sign, minus, naught, plus, compare_at, head_loop, tail_loop, result, compare_loops, bcmp, sign_of,
  memcmp,
}

module _ (differ : ℕ → ℕ → Sign) (f g : ℕ → ℕ) where
  -- The first difference among the `k` bytes from `i` on.
  pub first_difference : (k i : ℕ) → Option Sign
  first_difference zero i = none
  first_difference (suc k) i =
      let rest = first_difference k (i + 1) in
      if f i == g i then rest else some (differ (f i) (g i))

abbrev pub and_next : Option Sign → Option Sign → Option Sign
and_next none b = b
and_next (some a) b = some a

first_difference-append :
    (differ : ℕ → ℕ → Sign) (f g : ℕ → ℕ) (k m i : ℕ)
    → first_difference differ f g (k + m) i
      ≡ and_next (first_difference differ f g k i) (first_difference differ f g m (i + k))
unfolding first_difference
first_difference-append differ f g zero m i =
    let left : 0 + m ≡ m = omega arith in
    let right : i + 0 ≡ i = omega arith in rw (left, right) refl
first_difference-append differ f g (suc k) m i =
    let e : suc k + m ≡ suc (k + m) = omega arith in
    let shifted : i + 1 + k ≡ i + suc k = omega arith in
    rw (e, first_difference-append differ f g k m (i + 1), shifted) (ground arith)

module _ (differ : ℕ → ℕ → Sign) (p1 p2 : Ptr) (n : ℕ) (w : World) (r1 : readable w p1 n ≡ true)
    (r2 : readable w p2 n ≡ true) where
  compare_at_lem :
      (i : ℕ)
      → i < n
      → compare_at differ p1 p2 i w
        ≡ ok
            (if window w p1 i == window w p2 i
              then none
              else some (differ (window w p1 i) (window w p2 i)))
            w
  unfolding compare_at
  compare_at_lem i h = ground arith

  tail_loop_lem :
      (k i : ℕ)
      → i + k ≤ n
      → tail_loop differ p1 p2 k i w
        ≡ ok (first_difference differ (window w p1) (window w p2) k i) w
  unfolding tail_loop first_difference
  tail_loop_lem zero i h = refl
  tail_loop_lem (suc k) i h =
      rw (compare_at_lem i (omega arith)) (ground (arith, tail_loop_lem k (i + 1) (omega arith)))

  -- Past `n` the rounds of the first loop do nothing.
  head_loop_past : (k i : ℕ) → n ≤ i → head_loop differ p1 p2 n k i w ≡ ok none w
  unfolding head_loop
  head_loop_past zero i h = refl
  head_loop_past (suc k) i h = ground (arith, head_loop_past k (i + 1) (omega arith))

  head_loop_lem :
      (k i : ℕ)
      → head_loop differ p1 p2 n k i w
        ≡ ok (first_difference differ (window w p1) (window w p2) (min k (n - i)) i) w
  unfolding head_loop first_difference
  head_loop_lem zero i = rw zero-min refl
  head_loop_lem (suc k) i = elim (dec_lt i n) [
    | yes l ↦
        let e : min (suc k) (n - i) ≡ suc (min k (n - (i + 1))) = omega arith in
        let below : ltb i n ≡ true = ground arith in
        rw (e, below, compare_at_lem i l) (ground (arith, head_loop_lem k (i + 1)))
    | no m ↦
        let e : min (suc k) (n - i) ≡ 0 = omega arith in
        rw e (head_loop_past (suc k) i (omega arith))
  ]

  compare_loops_lem :
      (max_buffer_size : ℕ)
      → compare_loops differ p1 p2 max_buffer_size n w
        ≡ ok (result (first_difference differ (window w p1) (window w p2) n 0)) w
  unfolding compare_loops
  compare_loops_lem m = elim (dec_lt n m) [
    | yes l ↦
        let short : min m (n - 0) ≡ n = omega arith in
        let none_left : n - m ≡ 0 = omega arith in
        rw (head_loop_lem m 0, short, none_left) (ground (arith, tail_loop_lem 0 m))
    | no h ↦
        let all : min m (n - 0) ≡ m = omega arith in
        let e : m + (n - m) ≡ n = omega arith in
        let z : 0 + m ≡ m = omega arith in
        let parts =
          rw (e, z) at (first_difference-append differ (window w p1) (window w p2) m (n - m) 0) in
        rw (head_loop_lem m 0, all, parts) (ground (arith, tail_loop_lem (n - m) m (omega arith)))
  ]

-- What a scan from `i` on finds: no difference among `k` bytes, or the first one.
abbrev Found : (ℕ → ℕ → Sign) → (ℕ → ℕ) → (ℕ → ℕ) → ℕ → ℕ → Option Sign → Type 0
Found differ f g k i r =
    ((r ≡ none) × ((j : ℕ) → i ≤ j → j < i + k → f j ≡ g j))
    ⊎ ((j : ℕ) × (r ≡ some (differ (f j) (g j)))
        × (i ≤ j)
        × (j < i + k)
        × (f j ≢ g j)
        × ((m : ℕ) → i ≤ m → m < j → f m ≡ g m))

module _ (differ : ℕ → ℕ → Sign) (f g : ℕ → ℕ) where
  Found-step :
      (k i : ℕ) (r : Option Sign)
      → f i ≡ g i
      → Found differ f g k (i + 1) r
      → Found differ f g (suc k) i r
  Found-step k i r e (inl (none_found, same)) = inl (
    none_found,
    λ j lo hi. elim (dec_lt i j) [
      | yes l ↦ same j (omega arith) (omega arith)
      | no n ↦ let here : j ≡ i = omega arith in rw here e
    ],
  )
  Found-step k i r e (inr (j, is, lo, hi, ne, before)) = inr (
    j,
    is,
    omega arith,
    omega arith,
    ne,
    λ m lo' hi'. elim (dec_lt i m) [
      | yes l ↦ before m (omega arith) hi'
      | no n ↦ let here : m ≡ i = omega arith in rw here e
    ],
  )

  first_difference-Found : (k i : ℕ) → Found differ f g k i (first_difference differ f g k i)
  unfolding first_difference
  first_difference-Found zero i = inl (refl, λ j lo hi. absurd (omega arith))
  first_difference-Found (suc k) i = elim (ℕ_discrete (f i) (g i)) [
    | yes e ↦
        let same : (f i == g i) ≡ true = ground arith in
        rw same (Found-step k i _ e (first_difference-Found k (i + 1)))
    | no ne ↦
        let apart : (f i == g i) ≡ false = ground arith in
        rw apart (inr (i, refl, omega arith, omega arith, ne, λ m lo hi. absurd (omega arith)))
  ]

ptr_eq-window :
    (b1 i1 b2 i2 : ℕ) (w : World)
    → ptr_eq (at b1 i1) (at b2 i2) ≡ true
    → (j n : ℕ) → j < n
    → window w (at b1 i1) j ≡ window w (at b2 i2) j
ptr_eq-window b1 i1 b2 i2 w e j n l = ground arith

module _ (max_buffer_size b1 i1 b2 i2 n : ℕ) (w : World) (r1 : readable w (at b1 i1) n ≡ true)
    (r2 : readable w (at b2 i2) n ≡ true) where
  -- `bcmp` of two readable ranges returns 0 and all bytes are equal, or it returns 1 and some bytes
  -- differ, whatever the bound of its first loop; memory is only read.
  pub bcmp_lem :
      ((bcmp max_buffer_size (at b1 i1) (at b2 i2) n w ≡ ok naught w)
        × ((j : ℕ) → j < n → window w (at b1 i1) j ≡ window w (at b2 i2) j))
      ⊎ ((bcmp max_buffer_size (at b1 i1) (at b2 i2) n w ≡ ok plus w)
          × ((j : ℕ) × (j < n) × (window w (at b1 i1) j ≢ window w (at b2 i2) j)))
  unfolding bcmp
  bcmp_lem = elim (Bool-cases (ptr_eq (at b1 i1) (at b2 i2))) [
    | inl e ↦ inl (rw e refl, λ j l. ptr_eq-window b1 i1 b2 i2 w e j n l)
    | inr ne ↦
        rw (ne, compare_loops_lem (λ _ _. plus) (at b1 i1) (at b2 i2) n w r1 r2 max_buffer_size)
          (elim (first_difference-Found (λ _ _. plus) (window w (at b1 i1)) (window w (at b2 i2)) n
            0) [
              | inl (r, same) ↦ inl (rw r refl, λ j l. same j (omega arith) (omega arith))
              | inr (j, r, lo, hi, ne', before) ↦ inr (rw r refl, (j, omega arith, ne'))
            ])
  ]

  memcmp_first :
      ((memcmp max_buffer_size (at b1 i1) (at b2 i2) n w ≡ ok naught w)
        × ((j : ℕ) → j < n → window w (at b1 i1) j ≡ window w (at b2 i2) j))
      ⊎ ((j : ℕ) × (memcmp max_buffer_size (at b1 i1) (at b2 i2) n w
            ≡ ok (sign_of (window w (at b1 i1) j) (window w (at b2 i2) j)) w)
          × (j < n)
          × (window w (at b1 i1) j ≢ window w (at b2 i2) j)
          × ((m : ℕ) → m < j → window w (at b1 i1) m ≡ window w (at b2 i2) m))
  unfolding memcmp
  memcmp_first = elim (Bool-cases (ptr_eq (at b1 i1) (at b2 i2))) [
    | inl e ↦ inl (rw e refl, λ j l. ptr_eq-window b1 i1 b2 i2 w e j n l)
    | inr ne ↦
        rw (ne, compare_loops_lem sign_of (at b1 i1) (at b2 i2) n w r1 r2 max_buffer_size)
          (elim (first_difference-Found sign_of (window w (at b1 i1)) (window w (at b2 i2)) n 0) [
            | inl (r, same) ↦ inl (rw r refl, λ j l. same j (omega arith) (omega arith))
            | inr (j, r, lo, hi, ne', before) ↦
                inr (j, rw r refl, omega arith, ne', λ m l. before m (omega arith) l)
          ])
  ]

  signed :
      (j : ℕ) (r : Sign)
      → window w (at b1 i1) j ≢ window w (at b2 i2) j
      → r ≡ sign_of (window w (at b1 i1) j) (window w (at b2 i2) j)
      → ((r ≡ minus) × (window w (at b1 i1) j < window w (at b2 i2) j))
        ⊎ ((r ≡ plus) × (window w (at b2 i2) j < window w (at b1 i1) j))
  signed j r ne e = ground arith

  -- `memcmp` of two readable ranges returns 0 and all bytes are equal, or at the first two bytes that
  -- differ it returns -1 and the first is smaller, or 1 and the second is smaller; memory is only read.
  pub memcmp_lem :
      ((memcmp max_buffer_size (at b1 i1) (at b2 i2) n w ≡ ok naught w)
        × ((j : ℕ) → j < n → window w (at b1 i1) j ≡ window w (at b2 i2) j))
      ⊎ ((j : ℕ) × (r : Sign) × (memcmp max_buffer_size (at b1 i1) (at b2 i2) n w ≡ ok r w)
          × (j < n)
          × (((r ≡ minus) × (window w (at b1 i1) j < window w (at b2 i2) j))
              ⊎ ((r ≡ plus) × (window w (at b2 i2) j < window w (at b1 i1) j)))
          × ((m : ℕ) → m < j → window w (at b1 i1) m ≡ window w (at b2 i2) m))
  memcmp_lem = elim memcmp_first [
    | inl same ↦ inl same
    | inr (j, runs, lt, ne, before) ↦
        let r = sign_of (window w (at b1 i1) j) (window w (at b2 i2) j) in
        inr (j, r, runs, lt, signed j r ne refl, before)
  ]

-- The comment on `bcmp` has it return 0 for `n` zero; of one NULL pointer it returns 1.
pub bcmp_null :
    (max_buffer_size b i n : ℕ) (w : World)
    → (bcmp max_buffer_size null (at b i) n w ≡ ok plus w)
      × (bcmp max_buffer_size (at b i) null n w ≡ ok plus w)
unfolding bcmp
bcmp_null m b i n w = (refl, refl)
