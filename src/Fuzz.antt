-- ===== src/Fuzz.antt =====
-- The non-deterministic functions when fuzzing: lib/nd_fuzz.c reads them off the input.
pub mod Laws
use verify_c_common.Base.{
  ℕ, zero, suc, ◌+◌, ◌*◌, ◌/◌, ◌%◌, ◌^◌, Bool, true, false, Option, none, some, ltb, leb, ◌==◌, not,
  ◌&&◌, if◌then◌else◌,
}

-- `g_fuzz_data`, its size, and how far `g_fuzz_data_iterator` has come.
pub record Input : Type 0 where
  pub bytes : ℕ → ℕ
  pub size : ℕ
  pub pos : ℕ

-- `n` bytes from `p` on as a number, the lowest byte first.
abbrev pub value_at : (n : ℕ) → (ℕ → ℕ) → (p : ℕ) → ℕ
value_at zero bytes p = 0
value_at (suc n) bytes p = bytes p % 256 + 256 * value_at n bytes (suc p)

-- UPDATE_FUZZ_ITERATOR, `memcpy` and the step on; `none` stands for the `longjmp` back to the fuzzer.
unfoldable pub take_bytes : (n : ℕ) → Input → Option (ℕ × Input)
take_bytes n input =
    if leb input.size (input.pos + n)
    then none
    else some (value_at n input.bytes input.pos, record input { pos = input.pos + n })

abbrev pub nd_int : Input → Option (ℕ × Input)
nd_int input = take_bytes 4 input

abbrev pub nd_uint8_t : Input → Option (ℕ × Input)
nd_uint8_t input = take_bytes 1 input

abbrev pub nd_uint16_t : Input → Option (ℕ × Input)
nd_uint16_t input = take_bytes 2 input

abbrev pub nd_uint32_t : Input → Option (ℕ × Input)
nd_uint32_t input = take_bytes 4 input

abbrev pub nd_uint64_t : Input → Option (ℕ × Input)
nd_uint64_t input = take_bytes 8 input

abbrev pub nd_size_t : Input → Option (ℕ × Input)
nd_size_t input = take_bytes 8 input

abbrev pub nd_voidp : Input → Option (ℕ × Input)
nd_voidp input = take_bytes 8 input

-- One byte is copied into an `int` whose other three bytes are whatever the stack holds.
abbrev is_positive : ℕ → Bool
is_positive tmp = not (tmp == 0) && ltb tmp (2 ^ 31)

abbrev positive_of : ℕ → Option (ℕ × Input) → Option (Bool × Input)
positive_of junk none = none
positive_of junk (some (byte, input)) = some (is_positive (byte + 256 * junk), input)

unfoldable pub nd_bool : (junk : ℕ) → Input → Option (Bool × Input)
unfolding take_bytes
nd_bool junk input = positive_of junk (take_bytes 1 input)

-- What `memhavoc` writes to `size` bytes behind a pointer; it leaves NULL alone.
unfoldable pub memhavoc : (is_null : Bool) → (size : ℕ) → Input → Option ((ℕ → ℕ) × Input)
memhavoc true size input = some ((λ j. 0), input)
memhavoc false size input =
    if leb input.size (input.pos + size)
    then none
    else some ((λ j. input.bytes (input.pos + j)), record input { pos = input.pos + size })
