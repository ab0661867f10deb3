-- ===== src/Jobs/Cursor.antt =====
-- The unit proofs seahorn/jobs/byte_cursor_advance and byte_cursor_advance_nospec, which differ in the
-- function alone, and the second one with the function that the repository links to it.
pub mod Nospec
use verify_c_common.Base.{
  ℕ, ◌/◌, ◌<◌, ◌≡◌, ◌↔◌, refl, Bool, true, false, Option, none, some, not, ◌||◌, ◌==◌, ltb,
  sub_size, size_max, if◌then◌else◌, arith,
}
use verify_c_common.World.{
  Ptr, null, ptr_eq, shift, World, Outcome, Cmd, nd_size_t, assume, sassert, pure, and_then, ◌>>=◌,
  ◌>>◌, Ensures,
}
use verify_c_common.Structs.{ByteCursor}
use verify_c_common.Buffers.{initialize_byte_cursor}
use verify_c_common.Utils.{StoredByte, save_byte_from_array, assert_byte_from_buffer_matches}
use verify_c_common.Jobs.{Good, Checks, ◌&◌, Checks-map, harness_on, harness_on-Meets}
use verify_c_common.Jobs.Tests.{
  sassert_on, assume_on, sassert_on-Checks, same_number-Checks, same_ptr-Checks,
}
use verify_c_common.Jobs.Saved.{Kept, Kept-Checks, if-Checks}

-- `old.len > (SIZE_MAX >> 1) || len > (SIZE_MAX >> 1) || len > old.len`.
abbrev pub too_far : (old : ByteCursor) (len : ℕ) → Bool
too_far old len = ltb (size_max / 2) old.len || (ltb (size_max / 2) len || ltb old.len len)

-- `aws_byte_cursor_is_valid` belongs to aws-c-common.
module _ (cursor_is_valid : ByteCursor → World → Bool) (max_buffer_size : ℕ) where
  -- The cursor, the length and the saved byte.
  unfoldable pub advance_set_up : Cmd (ByteCursor × ℕ × StoredByte)
  unfolding initialize_byte_cursor save_byte_from_array
  advance_set_up = do
    cursor ← initialize_byte_cursor max_buffer_size
    len ← nd_size_t
    assume_on (cursor_is_valid cursor)
    old_byte ← save_byte_from_array cursor.ptr cursor.len
    pure (cursor, len, old_byte)

  abbrev advanced :
      (old : ByteCursor) (len : ℕ)
      → StoredByte
      → (rv cursor : ByteCursor) → (far : Bool) → Cmd (Unit {0})
  advanced old len old_byte rv cursor true = do
    sassert (ptr_eq rv.ptr null)
    sassert (rv.len == 0)
    if not (old.len == 0)
        then assert_byte_from_buffer_matches cursor.ptr (some old_byte)
        else pure tt
  advanced old len old_byte rv cursor false = do
    sassert (ptr_eq rv.ptr old.ptr)
    sassert (rv.len == len)
    sassert (ptr_eq cursor.ptr (shift old.ptr len))
    sassert (cursor.len == sub_size old.len len)

  unfoldable pub advance_assertions :
      ByteCursor × ℕ × StoredByte → ByteCursor × ByteCursor → Cmd (Unit {0})
  advance_assertions (old, len, old_byte) (rv, cursor) = do
    sassert_on (cursor_is_valid rv)
    advanced old len old_byte rv cursor (too_far old len)

  -- `advance` gives the cursor that is returned, and what `cursor` becomes.
  unfoldable pub advance_harness :
      (ByteCursor → ℕ → Cmd (ByteCursor × ByteCursor)) → World → Outcome (Unit {0})
  advance_harness advance w =
      harness_on (advance_set_up w) (λ (cursor, len, _). advance cursor len) advance_assertions

  -- What is cut off, and what is left.
  abbrev pub AdvancedBy :
      (old : ByteCursor) (len : ℕ)
      → StoredByte
      → (rv cursor : ByteCursor) → (far : Bool) → World
      → Type 0
  AdvancedBy old len b rv cursor true v =
      (rv ≡ record { len = 0; ptr = null }) × (0 < old.len → Kept v cursor.ptr b)
  AdvancedBy old len b rv cursor false v =
      (rv ≡ record { len = len; ptr = old.ptr })
      × (cursor ≡ record { len = sub_size old.len len; ptr = shift old.ptr len })

  advanced-Checks :
      (old : ByteCursor) (len : ℕ) (b : StoredByte) (rv cursor : ByteCursor) (far : Bool)
      → Checks (advanced old len b rv cursor far) (AdvancedBy old len b rv cursor far)
  advanced-Checks old len b rv cursor true =
      Checks-map _ _ (AdvancedBy old len b rv cursor true)
        (λ v. (
          λ (h1, (h2, kept)). (cc, λ some_bytes. kept (ground arith)),
          λ (e, kept). (cc, (cc, λ some_bytes. kept (ground arith))),
        ))
        (same_ptr-Checks rv.ptr null
          & same_number-Checks rv.len 0
          & if-Checks (not (old.len == 0)) _ _ (Kept-Checks cursor.ptr b))
  advanced-Checks old len b rv cursor false =
      Checks-map _ _ (AdvancedBy old len b rv cursor false)
        (λ v. (λ (h1, (h2, (h3, h4))). (cc, cc), λ (e, e'). (cc, (cc, (cc, cc)))))
        (same_ptr-Checks rv.ptr old.ptr
          & same_number-Checks rv.len len
          & same_ptr-Checks cursor.ptr (shift old.ptr len)
          & same_number-Checks cursor.len (sub_size old.len len))

  abbrev pub Advanced : ByteCursor × ℕ × StoredByte → ByteCursor × ByteCursor → World → Type 0
  Advanced (old, len, b) (rv, cursor) v =
      (cursor_is_valid rv v ≡ true) × AdvancedBy old len b rv cursor (too_far old len) v

  -- What the unit proofs of `aws_byte_cursor_advance` and `aws_byte_cursor_advance_nospec` show: nothing
  -- goes wrong in a run exactly if the function, on the valid cursor that the run has set up, returns a
  -- valid cursor over the first `len` bytes and moves the cursor behind them, or, where `len` is more than
  -- the cursor has or one of the two lengths is more than half of SIZE_MAX, returns an empty cursor at
  -- NULL and leaves the saved byte alone.
  pub advance_harness-Advanced :
      (advance : ByteCursor → ℕ → Cmd (ByteCursor × ByteCursor)) (w : World)
      → Good (advance_harness advance w)
        ↔ Ensures (λ s u. Ensures (Advanced s) (advance s.0 s.1 u)) (advance_set_up w)
  unfolding advance_harness advance_assertions
  advance_harness-Advanced advance w =
      harness_on-Meets (advance_set_up w) (λ s _. Advanced s)
        (λ (cursor, len, _). advance cursor len) _
        λ (old, len, b) u _ (rv, cursor).
          sassert_on-Checks (cursor_is_valid rv)
          & advanced-Checks old len b rv cursor (too_far old len)
