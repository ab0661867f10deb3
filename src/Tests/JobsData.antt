-- ===== src/Tests/JobsData.antt =====
-- The unit proofs of buffers, cursors and array lists with functions that do what aws-c-common documents.
use verify_c_common.Base.{
  ℕ, ◌+◌, ◌-◌, ◌*◌, ◌/◌, ◌%◌, ◌^◌, ◌<◌, ◌↔◌, ◌||◌, ◌&&◌, ◌==◌, not, leb, ltb, refl, Bool, true,
  Option, some, if◌then◌else◌, arith, size_max, false,
}
use verify_c_common.World.{null, is_null, shift, World, Cmd, Ensures, pure}
use verify_c_common.Alloc.{readable}
use verify_c_common.Structs.{ByteBuf, ByteCursor, ArrayList}
use verify_c_common.Buffers.Cursor.{MasksBounds}
use verify_c_common.Jobs.Numbers.{nospec_mask_harness, add_checked_harness}
use verify_c_common.Jobs.Numbers.Every.{
  nospec_mask_harness-MasksBounds, SumChecked, add_checked_harness-SumChecked,
}
use verify_c_common.Jobs.ByteBuf
use verify_c_common.Jobs.{Good}
use verify_c_common.Jobs.Cat.{cat3, Concatenated, lengths_fit, cat3-Concatenated}
use verify_c_common.Tests.{world_of}

abbrev append : ByteBuf → ByteCursor → Cmd (Bool × ByteBuf)
append to from = pure (
  leb from.len (to.capacity - to.len),
  record to { len = if leb from.len (to.capacity - to.len) then to.len + from.len else to.len },
)

abbrev from_buf : ByteBuf → ByteCursor
from_buf buf = record { len = buf.len; ptr = buf.buffer }

abbrev buf_of_len : ℕ → ByteBuf
buf_of_len n = record { len = n; buffer = null; capacity = 8; allocator = 1 }

-- Two bytes are there, and three, one and two are added: all fit just.
cat3-Concatenated_example :
    Ensures
      (λ r v.
        Concatenated (buf_of_len 2) 6 r v
        × Good (lengths_fit (buf_of_len 2) (buf_of_len 3) (buf_of_len 1) (buf_of_len 2) r.0 v))
      (cat3 append from_buf
        (buf_of_len 2)
        3
        (buf_of_len 3)
        (buf_of_len 1)
        (buf_of_len 2)
        (world_of 5))
cat3-Concatenated_example =
    cat3-Concatenated append (λ to from u fits. (refl, refl, refl)) from_buf (λ buf. refl)
      (buf_of_len 2) (buf_of_len 3) (buf_of_len 1) (buf_of_len 2) (world_of 5) (omega arith)
      (omega arith) (omega arith)

abbrev cursor_is_valid : ByteCursor → World → Bool
cursor_is_valid c u = (c.len == 0) || (not (is_null c.ptr) && readable u c.ptr c.len)

abbrev mask : ℕ → ℕ → ℕ
mask index bound =
    if ltb index bound && (leb bound (size_max / 2) && leb index (size_max / 2))
    then size_max
    else 0

nospec_mask_harness-MasksBounds_example :
    ((w : World) → Good (nospec_mask_harness mask w)) ↔ MasksBounds mask
nospec_mask_harness-MasksBounds_example = nospec_mask_harness-MasksBounds mask

-- Additions that wrap around and never report an error.
abbrev add_u64 : ℕ → ℕ → Option ℕ
add_u64 a b = some ((a + b) % 2 ^ 64)

abbrev add_u32 : ℕ → ℕ → Option ℕ
add_u32 a b = some ((a + b) % 2 ^ 32)

add_checked_harness-SumChecked_example :
    ((w : World) → Good (add_checked_harness add_u64 add_u32 w))
    ↔ ((a b : ℕ) → a < 2 ^ 64 → b < 2 ^ 64 → SumChecked (2 ^ 64) a b (add_u64 a b))
      × ((a b : ℕ) → a < 2 ^ 32 → b < 2 ^ 32 → SumChecked (2 ^ 32) a b (add_u32 a b))
add_checked_harness-SumChecked_example = add_checked_harness-SumChecked add_u64 add_u32

-- They pass the unit proof.
wrapping_passes : (w : World) → Good (add_checked_harness add_u64 add_u32 w)
wrapping_passes =
    (add_checked_harness-SumChecked add_u64 add_u32).1
      (λ a b small small'. refl, λ a b small small'. refl)

abbrev buf_is_valid : ByteBuf → World → Bool
buf_is_valid buf u = leb buf.len buf.capacity

abbrev bytes_behind : ByteBuf → ℕ → ByteBuf
bytes_behind buf n = record {
  len = 0;
  buffer = shift buf.buffer buf.len;
  capacity = n;
  allocator = 0;
}

-- The next `len` bytes, if there are so many.
abbrev advance_buf : ByteBuf → ByteBuf → ℕ → Cmd (Bool × ByteBuf × ByteBuf)
advance_buf buf output len =
    if leb len (buf.capacity - buf.len)
    then pure (true, record buf { len = buf.len + len }, bytes_behind buf len)
    else pure (false, buf, record { len = 0; buffer = null; capacity = 0; allocator = 0 })

abbrev list_is_valid : ArrayList → World → Bool
list_is_valid list u = leb (list.length * list.item_size) list.current_size

abbrev pop : ArrayList → Cmd (Bool × ArrayList)
pop list = pure (
  ltb 0 list.length && not (is_null list.data_ptr),
  record list { length = if is_null list.data_ptr then list.length else list.length - 1 },
)
