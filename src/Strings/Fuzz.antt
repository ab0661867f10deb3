-- ===== src/Strings/Fuzz.antt =====
-- The C strings of lib/fuzz_string_helper.c: zero bytes are replaced, not assumed away.
use verify_c_common.Base.{
  ℕ, zero, suc, ◌+◌, ◌^◌, ◌%◌, ◌<◌, ◌≡◌, ◌≢◌, Bool, true, false, ◌==◌, not, ◌&&◌, if◌then◌else◌,
}
use verify_c_common.World.{
  Ptr, null, at, is_null, shift, World, ok, Cmd, and_then, nd_size_t, nd_bool, sassert, load, store,
  pure, ◌>>=◌, ◌>>◌,
}
use verify_c_common.Alloc.{malloc, memhavoc, readable, window}
use verify_c_common.Buffers.{remainder}

-- One round: a zero at `i` becomes 1.
abbrev one_for_zero : Ptr → ℕ → Cmd (Unit {0})
one_for_zero p c w = if c == 0 then store p 1 w else ok tt w

unfoldable pub replace_zero : Ptr → (i : ℕ) → Cmd (Unit {0})
replace_zero str i = load (shift str i) >>= one_for_zero (shift str i)

-- `k` rounds from `i` on. The counter is an `unsigned`: it wraps at 2 ^ 32, where the loop over a longer
-- string never ends.
unfoldable pub replace_zeroes : (k i : ℕ) → Ptr → Cmd (Unit {0})
replace_zeroes zero i str w = ok tt w
replace_zeroes (suc k) i str w =
    and_then (replace_zero str i w) λ _. replace_zeroes k ((i + 1) % 2 ^ 32) str

unfoldable pub fuzz_init_str : Ptr → (len : ℕ) → Cmd (Unit {0})
fuzz_init_str str len = do store (shift str len) 0; memhavoc str len; replace_zeroes len 0 str

-- A failed `assert` ends the run.
unfoldable pub fuzz_allocate_c_str : (max_size : ℕ) → Cmd (Ptr × ℕ)
fuzz_allocate_c_str max_size = do
  any_size ← nd_size_t
  below ← remainder any_size max_size
  str ← malloc (below + 1)
  sassert (not (is_null str))
  fuzz_init_str str below
  pure (str, below)

abbrev null_if : Bool → (max_size len : ℕ) → Cmd (Ptr × ℕ)
null_if fails max_size len w = if fails then ok (null, len) w else fuzz_allocate_c_str max_size w

unfoldable pub fuzz_c_str : (safe : Bool) → (max_size len : ℕ) → Cmd (Ptr × ℕ)
fuzz_c_str safe max_size len = do
  should_fail ← nd_bool
  null_if (not safe && should_fail) max_size len

unfoldable pub fuzz_ensure_c_str_is_nd_allocated_safe : (max_size len : ℕ) → Cmd (Ptr × ℕ)
fuzz_ensure_c_str_is_nd_allocated_safe = fuzz_c_str true

unfoldable pub fuzz_ensure_c_str_is_nd_allocated : (max_size len : ℕ) → Cmd (Ptr × ℕ)
fuzz_ensure_c_str_is_nd_allocated = fuzz_c_str false

-- Before byte `i` no byte is zero, and there is a zero at `n`.
record Replaced (b n i : ℕ) (w : World) : Type 0 where
  holds : readable w (at b 0) (suc n) ≡ true
  ends : window w (at b 0) n ≡ 0
  before : (j : ℕ) → j < i → window w (at b 0) j ≢ 0
