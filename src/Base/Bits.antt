-- ===== src/Base/Bits.antt =====
-- `&` with a mask, as arithmetic.
use Prim.Native.Nat.{min, digits, bit_and, bit_and-bitwise}
use Prim.Native.Nat.{ℕ, zero, suc, ◌+◌, ◌-◌, ◌*◌, ◌/◌, ◌%◌, ◌^◌, ◌≤◌, ◌<◌}
use mathlib.Core.Path.{◌≡◌, refl, ◌∙◌, ap}
use native.Mathlib.Nat.{pow-suc, one-le-pow, mod-lt, div-add-mod}
use native.Mathlib.Omega.{arith}

-- Beyond the size of the first number more fuel changes nothing.
digits_enough :
    (n k a b : ℕ) → a ≤ n → digits (λ _. zero) min (k + n) a b ≡ digits (λ _. zero) min n a b
digits_enough n k zero b h = none_left (k + n) ∙ sym' (none_left n)
  where
    none_left : (m : ℕ) → digits (λ _. zero) min m zero b ≡ zero
    none_left zero = refl
    none_left (suc m) = refl

    sym' : {x y : ℕ} → x ≡ y → y ≡ x
    sym' p = omega arith
digits_enough zero k (suc a) b h = absurd (omega arith)
digits_enough (suc n) k (suc a) b h =
    let one_more : k + suc n ≡ suc (k + n) = omega arith in
    ap (λ m. digits (λ _. zero) min m (suc a) b) one_more
    ∙ ap (λ m. m * 2 + min (suc a % 2) (b % 2))
        (digits_enough n k (suc a / 2) (b / 2) (omega arith))

-- The lowest digit of `a & b`, and the rest.
pub bit_and_digit : (a b : ℕ) → bit_and a b ≡ bit_and (a / 2) (b / 2) * 2 + min (a % 2) (b % 2)
bit_and_digit zero b = simp bit_and-bitwise (omega arith)
bit_and_digit (suc a) b =
    let k = a - suc a / 2 in
    let e : k + suc a / 2 ≡ a = omega arith in
    simp bit_and-bitwise
      (rw (← digits_enough (suc a / 2) k (suc a / 2) (b / 2) (omega arith), e) refl)

bit_and-nil : (n a : ℕ) → a ≤ n → bit_and a 0 ≡ 0
bit_and-nil zero zero h = refl
bit_and-nil zero (suc a) h = absurd (omega arith)
bit_and-nil (suc n) a h = omega (arith, bit_and_digit a 0, bit_and-nil n (a / 2) (omega arith))

remainder : (q m r : ℕ) → r < m → (q * m + r) % m ≡ r
remainder q m r h = grind arith

double_mod : (p x : ℕ) → 0 < p → x % (p * 2) ≡ x / 2 % p * 2 + x % 2
double_mod p x h =
    let q = x / 2 / p in
    let r = x / 2 % p * 2 + x % 2 in
    let small : r < p * 2 = omega (arith, mod-lt (x / 2) h) in
    let parts : x ≡ q * (p * 2) + r = omega (arith, div-add-mod (x / 2) p) in
    ap (λ n. n % (p * 2)) parts ∙ remainder q (p * 2) r small

-- A mask of `k` ones keeps the remainder by `2 ^ k`.
pub bit_and-ones : (k x : ℕ) → bit_and x (2 ^ k - 1) ≡ x % 2 ^ k
bit_and-ones zero x = omega (arith, bit_and-nil x x (omega arith))
bit_and-ones (suc k) x =
    let two : 2 ^ suc k ≡ 2 ^ k * 2 = pow-suc 2 k in
    let pos : 0 < 2 ^ k = one-le-pow k 2 (omega arith) in
    let half : (2 ^ suc k - 1) / 2 ≡ 2 ^ k - 1 = omega arith in
    let odd : (2 ^ suc k - 1) % 2 ≡ 1 = omega arith in
    rw
      (
        bit_and_digit x (2 ^ suc k - 1),
        half,
        odd,
        bit_and-ones k (x / 2),
        two,
        double_mod (2 ^ k) x pos,
      )
      (omega arith)

-- `x & ~7` for a 64-bit `x`.
pub bit_and-not_seven : (x : ℕ) → x < 2 ^ 64 → bit_and x (2 ^ 64 - 8) ≡ x / 8 * 8
bit_and-not_seven x h =
    rw
      (
        bit_and_digit x (2 ^ 64 - 8),
        bit_and_digit (x / 2) (2 ^ 63 - 4),
        bit_and_digit (x / 2 / 2) (2 ^ 62 - 2),
        bit_and-ones 61 (x / 2 / 2 / 2),
      )
      (omega arith)
