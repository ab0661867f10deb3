-- ===== src/Buffers/Cursor.antt =====
-- The cursor stub of aws-c-common-stubs/byte_cursor_advance_nospec_override.c against the plain one.
use verify_c_common.Base.{
  ℕ, ◌+◌, ◌-◌, ◌^◌, ◌≤◌, ◌<◌, ◌≡◌, ◌≢◌, ◌∙◌, ◌/◌, ltb, leb, ◌&&◌, if◌then◌else◌, size_max, arith,
  Bool-cases, inl, inr,
}
use verify_c_common.Base.Bits.{bit_and-ones}
use Prim.Native.Nat.{bit_and}
use verify_c_common.World.{null, shift}
use verify_c_common.Structs.{ByteCursor}
use verify_c_common.Buffers.{byte_cursor_advance_nospec}

-- What aws-c-common documents of its mask: all ones if `index` is in bounds, and 0 if it is not, or if one
-- of the two is more than half of SIZE_MAX.
abbrev pub MasksBounds : (ℕ → ℕ → ℕ) → Type 0
MasksBounds nospec_mask =
    (index bound : ℕ)
    → index < 2 ^ 64
    → bound < 2 ^ 64
    → nospec_mask index bound ≡ (
        if ltb index bound && (leb bound (size_max / 2) && leb index (size_max / 2))
        then size_max
        else 0)

-- Cutting `len` bytes off the front, without regard to speculation.
abbrev pub cut : ByteCursor → ℕ → ByteCursor × ByteCursor
cut cursor len =
    if leb len cursor.len && leb cursor.len (2 ^ 63 - 1)
    then (
      record { ptr = cursor.ptr; len = len },
      record { ptr = shift cursor.ptr len; len = cursor.len - len },
    )
    else (record { ptr = null; len = 0 }, cursor)

and_all : (x : ℕ) → x < 2 ^ 64 → bit_and x size_max ≡ x
and_all x h = bit_and-ones 64 x ∙ omega arith

-- For every `size_t` the stub does what the plain cut does, unless the cursor is as long as half of SIZE_MAX:
-- the masks have no effect on the result.
pub byte_cursor_advance_nospec-cut :
    (nospec_mask : ℕ → ℕ → ℕ) (cursor : ByteCursor) (len : ℕ)
    → MasksBounds nospec_mask
    → cursor.len < 2 ^ 64
    → cursor.len ≢ size_max / 2
    → len < 2 ^ 64
    → byte_cursor_advance_nospec nospec_mask cursor len ≡ cut cursor len
unfolding byte_cursor_advance_nospec
byte_cursor_advance_nospec-cut nospec_mask cursor len masks small not_half small' =
    elim (Bool-cases (leb len cursor.len && leb cursor.len (2 ^ 63 - 1))) [
      | inl inside ↦
          let mask : nospec_mask len (cursor.len + 1) ≡ size_max =
            masks len (cursor.len + 1) small' (ground arith) ∙ ground arith in
          ground (arith, mask, and_all len small', and_all cursor.len small)
      | inr outside ↦ ground arith
    ]

and_none : (x : ℕ) → bit_and x 0 ≡ 0
and_none x = bit_and-ones 0 x ∙ omega arith

-- Of a cursor that is just as long as half of SIZE_MAX nothing is cut off: the bound of the mask is one more,
-- and out of the range where the mask works, so both cursors are empty and at NULL.
pub byte_cursor_advance_nospec-half :
    (nospec_mask : ℕ → ℕ → ℕ) (cursor : ByteCursor) (len : ℕ)
    → MasksBounds nospec_mask
    → cursor.len ≡ size_max / 2
    → len ≤ cursor.len
    → byte_cursor_advance_nospec nospec_mask cursor len
      ≡ (record { ptr = null; len = 0 }, record { ptr = null; len = 0 })
unfolding byte_cursor_advance_nospec
byte_cursor_advance_nospec-half nospec_mask cursor len masks half le =
    let mask : nospec_mask len (cursor.len + 1) ≡ 0 =
      masks len (cursor.len + 1) (ground arith) (ground arith) ∙ ground arith in
    ground (arith, mask, and_none len, and_none cursor.len, and_none (bit_and len 0))
