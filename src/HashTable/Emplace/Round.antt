-- ===== src/HashTable/Emplace/Round.antt =====
-- Each round of the loop of s_emplace_item moves one slot on, whether it swaps or not.
use native.Mathlib.Nat.{
  mod-add-mod, add-mod-mod, mod-mod_of_dvd, add-mul-mod_self_left, pow-suc, dvd-mul_right,
  add-mod_right, mod-eq_of_lt,
}
use native.Mathlib.Decide.{dec_lt}
use verify_c_common.Base.{
  ℕ, zero, suc, ◌+◌, ◌-◌, ◌*◌, ◌^◌, ◌%◌, ◌<◌, ◌≤◌, ◌≡◌, ◌≢◌, sym, ap, ◌∙◌, add_size, sub_size,
  arith,
}
use verify_c_common.Base.Bits.{bit_and-ones}
use verify_c_common.HashTable.{Entry}
use verify_c_common.HashTable.Emplace.{probe, victim_probe}

pow_split : (k m : ℕ) → 2 ^ (m + k) ≡ 2 ^ m * 2 ^ k
pow_split zero m = let e : m + zero ≡ m = omega arith in omega (arith, ap (λ n. 2 ^ n) e)
pow_split (suc k) m =
    let e : m + suc k ≡ suc (m + k) = omega arith in
    grind (arith, ap (λ n. 2 ^ n) e, pow-suc 2 (m + k), pow-suc 2 k, pow_split k m)

width : (m : ℕ) → m ≤ 64 → 2 ^ 64 ≡ 2 ^ m * 2 ^ (64 - m)
width m h =
    let e : m + (64 - m) ≡ 64 = omega arith in ap (λ n. 2 ^ n) (sym e) ∙ pow_split (64 - m) m

-- Wrapping at 64 bits does not change the remainder by a smaller power of two.
pub wrap_mod : (m x : ℕ) → m ≤ 64 → x % 2 ^ 64 % 2 ^ m ≡ x % 2 ^ m
wrap_mod m x h =
    ap (λ n. x % n % 2 ^ m) (width m h)
    ∙ mod-mod_of_dvd (2 ^ m) x (dvd-mul_right (2 ^ m) (2 ^ (64 - m)))

pub probe_lem :
    (m : ℕ) (e : Entry) (i : ℕ) → m ≤ 64 → probe (2 ^ m - 1) e i ≡ (e.hash_code + i) % 2 ^ m
probe_lem m e i h = bit_and-ones m (add_size e.hash_code i) ∙ wrap_mod m (e.hash_code + i) h

probe_suc :
    (m : ℕ) (e : Entry) (i : ℕ)
    → m ≤ 64
    → probe (2 ^ m - 1) e (add_size i 1) ≡ (e.hash_code + (i + 1)) % 2 ^ m
probe_suc m e i h =
    probe_lem m e (add_size i 1) h
    ∙ sym (add-mod-mod e.hash_code (add_size i 1) (2 ^ m))
    ∙ ap (λ n. (e.hash_code + n) % 2 ^ m) (wrap_mod m (i + 1) h)
    ∙ add-mod-mod e.hash_code (i + 1) (2 ^ m)

-- The entry that stays in hand is looked for in the next slot.
pub probe_next :
    (m : ℕ) (e : Entry) (i : ℕ)
    → m ≤ 64
    → probe (2 ^ m - 1) e (add_size i 1) ≡ (probe (2 ^ m - 1) e i + 1) % 2 ^ m
probe_next m e i h =
    probe_suc m e i h
    ∙ ap (λ n. n % 2 ^ m) (omega arith)
    ∙ sym (mod-add-mod (e.hash_code + i) (2 ^ m) 1)
    ∙ ap (λ n. (n + 1) % 2 ^ m) (sym (probe_lem m e i h))

-- So is the entry that is taken out of its slot.
pub victim_next :
    (m : ℕ) (v : Entry) (i : ℕ)
    → m ≤ 64
    → v.hash_code < 2 ^ 64
    → probe (2 ^ m - 1) v (add_size (victim_probe (2 ^ m - 1) v i) 1) ≡ (i + 1) % 2 ^ m
victim_next m v i h small =
    let d = i + 2 ^ 64 - v.hash_code in
    let whole : v.hash_code + 1 + d ≡ i + 1 + 2 ^ m * 2 ^ (64 - m) = omega (arith, width m h) in
    probe_suc m v (victim_probe (2 ^ m - 1) v i) h
    ∙ ap (λ n. (v.hash_code + (n + 1)) % 2 ^ m)
        (bit_and-ones m (sub_size i v.hash_code) ∙ wrap_mod m d h)
    ∙ ap (λ n. n % 2 ^ m) (omega arith)
    ∙ add-mod-mod (v.hash_code + 1) d (2 ^ m)
    ∙ ap (λ n. n % 2 ^ m) whole
    ∙ add-mul-mod_self_left (i + 1) (2 ^ m) (2 ^ (64 - m))

-- The slots that the following rounds look at.
pub path_next : (n i j : ℕ) → ((i + 1) % n + j) % n ≡ (i + suc j) % n
path_next n i j = mod-add-mod (i + 1) n j ∙ ap (λ k. k % n) (omega arith)

-- They do not come back to the first one before they have seen all.
pub path_apart : (n i j : ℕ) → i < n → 0 < j → j < n → (i + j) % n ≢ i
path_apart n i j lt pos small e = elim (dec_lt (i + j) n) [
  | yes below ↦ omega (arith, mod-eq_of_lt below)
  | no above ↦
      let back : i + j ≡ i + j - n + n = omega arith in
      let less : i + j - n < n = omega arith in
      omega (arith, ap (λ k. k % n) back, add-mod_right (i + j - n) n, mod-eq_of_lt less)
]
