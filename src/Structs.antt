-- ===== src/Structs.antt =====
-- The structures of aws-c-common that seahorn/lib reads and writes, field by field. An allocator is
-- the address of a `struct aws_allocator`, with 0 for NULL.
use verify_c_common.Base.{ℕ, Bool, true, false, Option, none, some, ◌==◌}
use verify_c_common.World.{Ptr}

abbrev pub sea_allocator : ℕ
sea_allocator = 1

abbrev pub sea_allocator_with_realloc : ℕ
sea_allocator_with_realloc = 2

pub record ByteBuf : Type 0 where
  pub len : ℕ
  pub buffer : Ptr
  pub capacity : ℕ
  pub allocator : ℕ

pub record ByteCursor : Type 0 where
  pub len : ℕ
  pub ptr : Ptr

pub record ArrayList : Type 0 where
  pub alloc : ℕ
  pub current_size : ℕ
  pub length : ℕ
  pub item_size : ℕ
  pub data_ptr : Ptr

-- `head` and `tail` are atomic pointers.
pub record RingBuffer : Type 0 where
  pub allocator : ℕ
  pub allocation : Ptr
  pub head : Ptr
  pub tail : Ptr
  pub allocation_end : Ptr

-- A pointer to a structure: NULL, or an address and what is there.
abbrev pub StructPtr : Type 0 → Type 0
StructPtr A = Option (ℕ × A)

abbrev pub same_struct : {A : Type 0} → StructPtr A → StructPtr A → Bool
same_struct none none = true
same_struct none (some b) = false
same_struct (some a) none = false
same_struct (some a) (some b) = a.0 == b.0

abbrev pub is_struct : {A : Type 0} → StructPtr A → Bool
is_struct none = false
is_struct (some a) = true
