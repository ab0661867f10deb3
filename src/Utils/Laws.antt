-- ===== src/Utils/Laws.antt =====
-- The assertions of seahorn/lib/utils.c look at one byte of a run; over all runs they look at all.
use verify_c_common.Base.{ℕ, ◌%◌, ◌^◌, ◌<◌, ◌≤◌, ◌≡◌, ◌≢◌, ◌↔◌, true, Option, some, arith}
use verify_c_common.World.{Ptr, at, Block, World, Cmd, ok, pruned, ◌>>=◌, ◌>>◌, Ensures}
use verify_c_common.Alloc.{readable, window}
use verify_c_common.Structs.{ByteBuf, ByteCursor}
use verify_c_common.Utils.{
  max_malloc, StoredByte, assert_bytes_match, assert_all_bytes_are, save_byte_from_array,
  assert_byte_from_buffer_matches, assert_byte_buf_equivalence, assert_byte_cursor_equivalence,
}

-- The run passes whatever the non-deterministic functions return.
abbrev pub Passes : {A : Type 0} → Cmd A → World → Type 0
Passes m w = (t : ℕ → ℕ) → Ensures (λ _ _. Unit {0}) (m (record w { tape = t }))

module _ (w : World) (b o len : ℕ) (small : len < 2 ^ 64) (r : readable w (at b o) len ≡ true) where
  -- Of two readable arrays shorter than MAX_MALLOC `assert_bytes_match` passes in every run exactly
  -- if they have the same bytes.
  pub assert_bytes_match-Passes :
      (c p : ℕ)
      → len < max_malloc
      → readable w (at c p) len ≡ true
      → Passes (assert_bytes_match (at b o) (at c p) len) w
        ↔ ((j : ℕ) → j < len → window w (at b o) j ≡ window w (at c p) j)
  unfolding assert_bytes_match
  assert_bytes_match-Passes c p l r' =
      ((λ h j lt. ground (arith, h (λ _. j))), (λ h t. ground (arith, h (t w.pos % 2 ^ 64))))

  -- From MAX_MALLOC bytes on `assert_bytes_match` cuts every run short, and checks nothing.
  pub assert_bytes_match-pruned :
      (c p : ℕ) → max_malloc ≤ len → assert_bytes_match (at b o) (at c p) len w ≡ pruned
  unfolding assert_bytes_match
  assert_bytes_match-pruned c p l = ground arith

  -- `assert_all_bytes_are` passes in every run exactly if all bytes are `c`.
  pub assert_all_bytes_are-Passes :
      (c : ℕ)
      → Passes (assert_all_bytes_are (at b o) c len) w
        ↔ ((j : ℕ) → j < len → window w (at b o) j ≡ c)
  unfolding assert_all_bytes_are
  assert_all_bytes_are-Passes c =
      ((λ h j lt. ground (arith, h (λ _. j))), (λ h t. ground (arith, h (t w.pos % 2 ^ 64))))

-- What the memory is replaced by between saving a byte and comparing it.
abbrev pub set_blocks : (ℕ → Option Block) → Cmd (Unit {0})
set_blocks bl w = ok tt (record w { blocks = bl })

-- A byte of the `len` bytes at `array` is saved, memory becomes `bl`, and `check` runs with the byte.
abbrev pub save_then :
    (array : Ptr) (len : ℕ)
    → (ℕ → Option Block)
    → (Option StoredByte → Cmd (Unit {0}))
    → Cmd (Unit {0})
save_then array len bl check = do s ← save_byte_from_array array len; set_blocks bl; check (some s)

module _ (w : World) (bl : ℕ → Option Block) (b o n : ℕ) (pos : 0 < n) (small : n < 2 ^ 64)
    (before : readable w (at b o) n ≡ true)
    (after : readable (record w { blocks = bl }) (at b o) n ≡ true) where
  abbrev pub SameBytes : Type 0
  SameBytes = (j : ℕ) → j < n → window (record w { blocks = bl }) (at b o) j ≡ window w (at b o) j

  -- A byte saved by `save_byte_from_array` is found by `assert_byte_from_buffer_matches` in every
  -- run exactly if all bytes of the array are as they were.
  pub save_byte-matches :
      Passes (save_then (at b o) n bl (assert_byte_from_buffer_matches (at b o))) w ↔ SameBytes
  unfolding save_byte_from_array assert_byte_from_buffer_matches
  save_byte-matches =
      ((λ h j lt. ground (arith, h (λ _. j))), (λ h t. ground (arith, h (t w.pos % 2 ^ 64))))

  -- With a byte saved from the old buffer, `assert_byte_buf_equivalence` of two structures at
  -- different addresses passes in every run exactly if length, capacity and allocator agree and all
  -- bytes of the buffer are as they were.
  pub assert_byte_buf_equivalence-Passes :
      (x y : ℕ) (lhs rhs : ByteBuf)
      → x ≢ y
      → lhs.buffer ≡ at b o
      → lhs.len ≡ n
      → Passes
          (save_then (at b o) n bl (assert_byte_buf_equivalence (some (x, lhs)) (some (y, rhs))))
          w
        ↔ ((n ≡ rhs.len)
            × (lhs.capacity ≡ rhs.capacity)
            × (lhs.allocator ≡ rhs.allocator)
            × SameBytes)
  unfolding save_byte_from_array assert_byte_buf_equivalence
  assert_byte_buf_equivalence-Passes x y lhs rhs ne at_buffer len = (
    (λ h. (
      ground (arith, h (λ _. 0)),
      ground (arith, h (λ _. 0)),
      ground (arith, h (λ _. 0)),
      (λ j lt. ground (arith, h (λ _. j))),
    )),
    (λ h t. ground (arith, h.3 (t w.pos % 2 ^ 64))),
  )

  -- With a byte saved from the old memory, `assert_byte_cursor_equivalence` passes in every run
  -- exactly if the length agrees and all bytes are as they were.
  pub assert_byte_cursor_equivalence-Passes :
      (x y : ℕ) (lhs rhs : ByteCursor)
      → lhs.ptr ≡ at b o
      → lhs.len ≡ n
      → Passes
          (save_then (at b o) n bl (assert_byte_cursor_equivalence (some (x, lhs)) (some (y, rhs))))
          w
        ↔ ((n ≡ rhs.len) × SameBytes)
  unfolding save_byte_from_array assert_byte_cursor_equivalence
  assert_byte_cursor_equivalence-Passes x y lhs rhs at_buffer len = (
    (λ h. (ground (arith, h (λ _. 0)), (λ j lt. ground (arith, h (λ _. j))))),
    (λ h t. ground (arith, h.1 (t w.pos % 2 ^ 64))),
  )
