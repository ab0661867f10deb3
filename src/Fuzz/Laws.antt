-- ===== src/Fuzz/Laws.antt =====
-- lib/nd_fuzz.c stays in its input and can give every value, except where it counts one byte too many.
use native.Mathlib.Nat.{pow-suc}
use verify_c_common.Base.{
  ℕ, zero, suc, ◌+◌, ◌/◌, ◌%◌, ◌^◌, ◌<◌, ◌≤◌, ◌≡◌, ◌⊎◌, ap, ◌∙◌, Bool, true, false, none, some,
  arith,
}
use verify_c_common.Fuzz.{Input, value_at, take_bytes, nd_bool}

value_at-bound : (n : ℕ) (bytes : ℕ → ℕ) (p : ℕ) → value_at n bytes p < 256 ^ n
value_at-bound zero bytes p = omega arith
value_at-bound (suc n) bytes p = omega (arith, pow-suc 256 n, value_at-bound n bytes (suc p))

-- Reading `n` bytes stays inside the input and gives a number of `n` bytes, or the run is given up;
-- that is the case exactly if there are at most `n` bytes left, so the last byte is never read.
pub take_bytes_lem :
    (n : ℕ) (input : Input)
    → ((input.size ≤ input.pos + n) × (take_bytes n input ≡ none))
      ⊎ ((input.pos + n < input.size)
          × (value_at n input.bytes input.pos < 256 ^ n)
          × (take_bytes n input
              ≡ some (value_at n input.bytes input.pos, record input { pos = input.pos + n })))
unfolding take_bytes
take_bytes_lem n input = ground (arith, value_at-bound n input.bytes input.pos)

abbrev pub byte_of : (v k : ℕ) → ℕ
byte_of v zero = v % 256
byte_of v (suc k) = byte_of (v / 256) k

value_at-every :
    (n v : ℕ) (bytes : ℕ → ℕ) (p : ℕ)
    → v < 256 ^ n
    → ((k : ℕ) → k < n → bytes (p + k) ≡ byte_of v k)
    → value_at n bytes p ≡ v
value_at-every zero v bytes p small same = omega arith
value_at-every (suc n) v bytes p small same =
    let here : bytes p ≡ v % 256 = ap bytes (omega arith) ∙ same 0 (omega arith) in
    let rest : value_at n bytes (suc p) ≡ v / 256 =
      value_at-every n (v / 256) bytes (suc p) (omega (arith, pow-suc 256 n))
        (λ k lt. ap bytes (omega arith) ∙ same (suc k) (omega arith)) in
    omega arith

-- Every number of `n` bytes is read from some input.
pub take_bytes-every :
    (n v : ℕ) (input : Input)
    → v < 256 ^ n
    → input.pos + n < input.size
    → ((k : ℕ) → k < n → input.bytes (input.pos + k) ≡ byte_of v k)
    → take_bytes n input ≡ some (v, record input { pos = input.pos + n })
unfolding take_bytes
take_bytes-every n v input small room bytes =
    ground (arith, value_at-every n v input.bytes input.pos small bytes)

-- What `nd_bool` returns is up to the bytes of the stack that it does not set, whatever the input.
pub nd_bool-junk :
    (input : Input) (b : Bool)
    → input.pos + 1 < input.size
    → (junk : ℕ) × (junk < 2 ^ 24)
      × (nd_bool junk input ≡ some (b, record input { pos = input.pos + 1 }))
unfolding nd_bool
nd_bool-junk input true room = (1, omega arith, ground arith)
nd_bool-junk input false room = (2 ^ 23, omega arith, ground arith)
