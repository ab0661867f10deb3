-- ===== src/Alloc/Override.antt =====
-- seahorn/lib/allocator_override.c and error_override.c: the allocation functions of aws-c-common,
-- replaced.
pub mod Laws
use verify_c_common.Base.{
  ℕ, ◌+◌, ◌-◌, Bool, true, false, Option, none, some, not, ◌==◌, leb, if◌then◌else◌,
}
use verify_c_common.World.{
  Ptr, null, at, is_null, shift, World, ok, Cmd, pure, ◌>>=◌, ◌>>◌, sassert,
}
use verify_c_common.Alloc.{can_fail_malloc_havoc, free, memcpy, memset}

-- AWS_OP_SUCCESS and AWS_OP_ERR.
pub data Status : Type 0 where
  op_success op_err : Status

unfoldable pub raise_error_private : ℕ → Cmd (Unit {0})
raise_error_private err w = ok tt (record w { last_error = err })

unfoldable pub last_error : Cmd ℕ
last_error w = ok w.last_error w

-- `aws_raise_error` of aws-c-common stores the error and returns AWS_OP_ERR.
unfoldable pub raise_error : ℕ → Cmd Status
unfolding raise_error_private
raise_error err = do raise_error_private err; pure op_err

-- What is taken from aws-c-common: the code AWS_ERROR_OOM, and `aws_mul_size_checked`.
module _ (error_oom : ℕ) (mul_size_checked : ℕ → ℕ → Option ℕ) where
  unfoldable pub mem_acquire : ℕ → Cmd Ptr
  unfolding can_fail_malloc_havoc raise_error
  mem_acquire size = do
    sassert (not (size == 0))
    mem ← can_fail_malloc_havoc size
    if is_null mem then (do _ ← raise_error error_oom; pure mem) else pure mem

  abbrev calloc_bytes : Option ℕ → Cmd Ptr
  calloc_bytes none = pure null
  calloc_bytes (some required_bytes) = do
    mem ← mem_acquire required_bytes
    if is_null mem
        then (do _ ← raise_error error_oom; pure null)
        else (do memset mem 0 required_bytes; pure mem)

  unfoldable pub mem_calloc : (num size : ℕ) → Cmd Ptr
  unfolding mem_acquire raise_error memset
  mem_calloc num size = calloc_bytes (mul_size_checked num size)

  unfoldable pub mem_release : Ptr → Cmd (Unit {0})
  unfolding free
  mem_release p = if is_null p then pure tt else free p

  -- The last part of `aws_mem_realloc`, with the new memory at hand.
  unfoldable pub move_to : (newptr p : Ptr) → (oldsize newsize : ℕ) → Cmd (Status × Ptr)
  unfolding mem_release raise_error memcpy memset
  move_to newptr p oldsize newsize =
      if is_null newptr then (do s ← raise_error error_oom; pure (s, p)) else (do
        memcpy newptr p oldsize
        memset (shift newptr oldsize) 0 (newsize - oldsize)
        mem_release p
        pure (op_success, newptr))

  -- The status, and what `*ptr` is afterwards.
  unfoldable pub mem_realloc : Ptr → (oldsize newsize : ℕ) → Cmd (Status × Ptr)
  unfolding mem_release
  mem_realloc p oldsize newsize =
      if newsize == 0
      then (do mem_release p; pure (op_success, null))
      else if leb newsize oldsize
      then pure (op_success, p)
      else (do newptr ← mem_acquire newsize; move_to newptr p oldsize newsize)
