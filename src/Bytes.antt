-- ===== src/Bytes.antt =====
-- seahorn/lib/bcmp.c: comparing and copying bytes.
pub mod Compare
pub mod Copy
use verify_c_common.Base.{
  ℕ, zero, suc, ◌+◌, ◌-◌, ◌%◌, ◌^◌, Bool, true, false, Option, none, some, not, ◌||◌, ◌==◌, ltb,
  if◌then◌else◌,
}
use verify_c_common.World.{
  Ptr, null, at, ptr_eq, is_null, shift, World, ok, Cmd, pure, ◌>>=◌, ◌>>◌, sassert, load, store,
}
use verify_c_common.Alloc.{memcpy, memset, readable}

-- The values that the two comparisons return: -1, 0 and 1.
pub data Sign : Type 0 where
  minus naught plus : Sign

abbrev pub or_else : Option Sign → Cmd (Option Sign) → Cmd (Option Sign)
or_else none k w = k w
or_else (some r) k w = ok (some r) w

abbrev pub result : Option Sign → Sign
result none = naught
result (some r) = r

module _ (differ : ℕ → ℕ → Sign) (p1 p2 : Ptr) where
  -- `if (p1[i] != p2[i]) return …`: `none` lets the loop go on.
  unfoldable pub compare_at : ℕ → Cmd (Option Sign)
  unfolding load
  compare_at i = do
    a ← load (shift p1 i)
    b ← load (shift p2 i)
    pure (if a == b then none else some (differ a b))

  -- The loop over `i < max_buffer_size`, with `k` rounds left.
  unfoldable pub head_loop : (n k i : ℕ) → Cmd (Option Sign)
  unfolding compare_at
  head_loop n zero i = pure none
  head_loop n (suc k) i =
      let rest = head_loop n k (i + 1) in
      if ltb i n then (compare_at i >>= λ r. or_else r rest) else rest

  -- The loop over `i < n`, with `k` rounds left.
  unfoldable pub tail_loop : (k i : ℕ) → Cmd (Option Sign)
  unfolding compare_at
  tail_loop zero i = pure none
  tail_loop (suc k) i = let rest = tail_loop k (i + 1) in compare_at i >>= λ r. or_else r rest

  -- Both loops, one after the other.
  unfoldable pub compare_loops : (max_buffer_size n : ℕ) → Cmd Sign
  unfolding head_loop tail_loop
  compare_loops max_buffer_size n = do
    r ← head_loop n max_buffer_size 0
    r ← or_else r (tail_loop (n - max_buffer_size) max_buffer_size)
    pure (result r)

-- `max_buffer_size` is `sea_max_buffer_size()`.
unfoldable pub bcmp : (max_buffer_size : ℕ) → (s1 s2 : Ptr) → (n : ℕ) → Cmd Sign
unfolding compare_loops
bcmp max_buffer_size s1 s2 n =
    if ptr_eq s1 s2
    then pure naught
    else if is_null s1 || is_null s2
    then pure plus
    else compare_loops (λ _ _. plus) s1 s2 max_buffer_size n

abbrev pub sign_of : ℕ → ℕ → Sign
sign_of a b = if ltb a b then minus else plus

unfoldable pub memcmp : (max_buffer_size : ℕ) → (s1 s2 : Ptr) → (n : ℕ) → Cmd Sign
unfolding compare_loops
memcmp max_buffer_size s1 s2 n =
    if ptr_eq s1 s2 then pure naught else compare_loops sign_of s1 s2 max_buffer_size n

unfoldable pub memcpy_chk : (dest src : Ptr) → (len dstlen : ℕ) → Cmd Ptr
unfolding memcpy
memcpy_chk dest src len dstlen = do sassert (not (ltb dstlen len)); memcpy dest src len; pure dest

unfoldable pub memset_chk : (dest : Ptr) → (c len dstlen : ℕ) → Cmd Ptr
unfolding memset
memset_chk dest c len dstlen = do sassert (not (ltb dstlen len)); memset dest c len; pure dest

-- `sassert(sea_is_dereferenceable(p, len))`.
unfoldable pub sassert_readable : Ptr → ℕ → Cmd (Unit {0})
sassert_readable p len w = sassert (readable w p len) w

-- `memcpy` and `memmove` where neither is a macro and the tool is not Symbiotic.
unfoldable pub checked_memcpy : (dst src : Ptr) → (len : ℕ) → Cmd Ptr
unfolding sassert_readable memcpy
checked_memcpy dst src len = do
  sassert_readable dst len
  sassert_readable src len
  memcpy dst src len
  pure dst

unfoldable pub checked_memmove : (dst src : Ptr) → (len : ℕ) → Cmd Ptr
unfolding sassert_readable memcpy
checked_memmove dst src len = do
  sassert_readable dst len
  sassert_readable src len
  memcpy dst src len
  pure dst

-- `memcpy` and `memset` for Symbiotic, byte by byte: `k` bytes are left, `i` are done.
unfoldable pub copy_loop : (dst src : Ptr) → (k i : ℕ) → Cmd (Unit {0})
unfolding load store
copy_loop dst src zero i = pure tt
copy_loop dst src (suc k) i = do
  v ← load (shift src i)
  store (shift dst i) v
  copy_loop dst src k (i + 1)

unfoldable pub symbiotic_memcpy : (dst src : Ptr) → (n : ℕ) → Cmd Ptr
unfolding copy_loop
symbiotic_memcpy dst src n = do copy_loop dst src n 0; pure dst

unfoldable pub set_loop : (dst : Ptr) → (s k i : ℕ) → Cmd (Unit {0})
unfolding store
set_loop dst s zero i = pure tt
set_loop dst s (suc k) i = do store (shift dst i) (s % 2 ^ 8); set_loop dst s k (i + 1)

unfoldable pub symbiotic_memset : (dst : Ptr) → (s count : ℕ) → Cmd Ptr
unfolding set_loop
symbiotic_memset dst s count = do set_loop dst s count 0; pure dst
