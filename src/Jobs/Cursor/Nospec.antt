-- ===== src/Jobs/Cursor/Nospec.antt =====
-- The unit proof seahorn/jobs/byte_cursor_advance_nospec with the stub of aws-c-common-stubs.
use verify_c_common.Base.{ℕ, ◌/◌, ◌^◌, ◌<◌, ◌≡◌, Bool, true, not, ◌||◌, ◌&&◌, ◌==◌, size_max}
use verify_c_common.World.{is_null, World}
use verify_c_common.Alloc.{readable}
use verify_c_common.Structs.{ByteCursor}
use verify_c_common.Utils.{StoredByte}
use verify_c_common.Jobs.Saved.{Kept}

module _ (cursor_is_valid : ByteCursor → World → Bool)
    (valid_lem : (c : ByteCursor) (u : World)
      → cursor_is_valid c u ≡ ((c.len == 0) || (not (is_null c.ptr) && readable u c.ptr c.len)))
    (max_buffer_size : ℕ) where
  -- The cursor that is set up is valid and not longer than a `size_t`, and the byte is one of it.
  abbrev SetUp : ByteCursor × ℕ × StoredByte → World → Type 0
  SetUp (old, len, b) u =
      (old.len < size_max / 2)
      × ((len < 2 ^ 64) × ((cursor_is_valid old u ≡ true) × (0 < old.len → Kept u old.ptr b)))
