-- ===== src/Jobs/Cat.antt =====
-- seahorn/jobs/byte_buf_cat: `aws_byte_buf_cat` for three buffers, which that unit proof defines, and what
-- it asserts of the lengths. `aws_byte_buf_append` and `aws_byte_cursor_from_buf` belong to aws-c-common.
use mathlib.Core.Path.{subst}
use verify_c_common.Base.{
  ℕ, ◌+◌, ◌-◌, ◌≤◌, ◌≡◌, Bool, true, false, leb, ltb, ◌==◌, add_size, sub_size, if◌then◌else◌,
  arith, size_max,
}
use verify_c_common.World.{World, Cmd, ok, sassert, ◌>>=◌, ◌>>◌, Ensures}
use verify_c_common.World.Rules.{Ensures-bind, Ensures-mono}
use verify_c_common.Structs.{ByteBuf, ByteCursor}
use verify_c_common.Jobs.{Good}

-- Unless the last append has failed: on with the next.
abbrev pub on_success : Bool × ByteBuf → (ByteBuf → Cmd (Bool × ByteBuf)) → Cmd (Bool × ByteBuf)
on_success (true, dest) next w = next dest w
on_success (false, dest) next w = ok (false, dest) w

module _ (append : ByteBuf → ByteCursor → Cmd (Bool × ByteBuf))
    (from_buf : ByteBuf → ByteCursor) where
  -- Whether it is AWS_OP_SUCCESS, and what `*dest` is then.
  unfoldable pub cat3 :
      (dest : ByteBuf) (number_of_args : ℕ) (buf1 buf2 buf3 : ByteBuf) → Cmd (Bool × ByteBuf)
  cat3 dest number_of_args buf1 buf2 buf3 = do
    sassert (number_of_args == 3)
    r1 ← append dest (from_buf buf1)
    on_success r1 λ dest1.
        append dest1 (from_buf buf2) >>= λ r2. on_success r2 λ dest2. append dest2 (from_buf buf3)

-- What the unit proof asserts at once after the call; the sum is one of `size_t`.
unfoldable pub lengths_fit :
    (old_dest buffer1 buffer2 buffer3 : ByteBuf) → (success : Bool) → Cmd (Unit {0})
lengths_fit old_dest buffer1 buffer2 buffer3 true = sassert (
    leb (add_size (add_size buffer1.len buffer2.len) buffer3.len)
      (sub_size old_dest.capacity old_dest.len))
lengths_fit old_dest buffer1 buffer2 buffer3 false = sassert (
    ltb (sub_size old_dest.capacity old_dest.len)
      (add_size (add_size buffer1.len buffer2.len) buffer3.len))

-- `aws_byte_buf_append`, as documented: if there is room for `from`, that many bytes are added, and if
-- not, it fails and changes nothing.
abbrev pub Appended : (to : ByteBuf) (from : ByteCursor) → Bool × ByteBuf → World → Type 0
Appended to from (success, to') v =
    (to'.capacity ≡ to.capacity)
    × (success ≡ leb from.len (to.capacity - to.len))
    × (to'.len ≡ (if success then to.len + from.len else to.len))

-- `n` bytes are to be added to `dest`: they all are, or not all of them fit.
abbrev pub Concatenated : (dest : ByteBuf) (n : ℕ) → Bool × ByteBuf → World → Type 0
Concatenated dest n (success, dest') v =
    (dest'.capacity ≡ dest.capacity)
    × (success ≡ leb n (dest.capacity - dest.len))
    × (success ≡ true → dest'.len ≡ dest.len + n)

lengths_fit-Good :
    (dest b1 b2 b3 : ByteBuf) (success : Bool) (v : World)
    → dest.len ≤ dest.capacity
    → dest.capacity ≤ size_max
    → b1.len + b2.len + b3.len ≤ size_max
    → success ≡ leb (b1.len + b2.len + b3.len) (dest.capacity - dest.len)
    → Good (lengths_fit dest b1 b2 b3 success v)
unfolding lengths_fit
lengths_fit-Good dest b1 b2 b3 true v fits small sum e = ground arith
lengths_fit-Good dest b1 b2 b3 false v fits small sum e = ground arith

module _ (append : ByteBuf → ByteCursor → Cmd (Bool × ByteBuf))
    (append_lem : (to : ByteBuf) (from : ByteCursor) (u : World)
      → to.len ≤ to.capacity
      → Ensures (Appended to from) (append to from u)) where
  append_next :
      (dest : ByteBuf) (n : ℕ) (from : ByteCursor) (r : Bool × ByteBuf) (w : World)
      → dest.len ≤ dest.capacity
      → Concatenated dest n r w
      → Ensures (Concatenated dest (n + from.len)) (on_success r (λ d. append d from) w)
  append_next dest n from (true, d) w fits done =
      Ensures-mono (Appended d from) _ (append d from w) (append_lem d from w (ground arith))
        λ r v appended. ground arith
  append_next dest n from (false, d) w fits done = ground arith

  append_then :
      (dest : ByteBuf) (n total : ℕ) (from : ByteCursor) (r : Bool × ByteBuf)
      (k : Bool × ByteBuf → Cmd (Bool × ByteBuf)) (w : World)
      → dest.len ≤ dest.capacity
      → n + from.len ≤ total
      → ((r' : Bool × ByteBuf) (v : World)
          → Concatenated dest (n + from.len) r' v
          → Ensures (Concatenated dest total) (k r' v))
      → Concatenated dest n r w
      → Ensures (Concatenated dest total) (on_success r (λ d. append d from >>= k) w)
  append_then dest n total from (true, d) k w fits more rest done =
      Ensures-bind (Concatenated dest (n + from.len)) (Concatenated dest total) (append d from w) k
        (append_next dest n from (true, d) w fits done) λ r v. rest r v
  append_then dest n total from (false, d) k w fits more rest done = ground arith

  cat3-step :
      (from_buf : ByteBuf → ByteCursor) (dest : ByteBuf) (b1 b2 b3 : ByteBuf) (w : World)
      → ((buf : ByteBuf) → (from_buf buf).len ≡ buf.len)
      → dest.len ≤ dest.capacity
      → Ensures
          (Concatenated dest (b1.len + b2.len + b3.len))
          (cat3 append from_buf dest 3 b1 b2 b3 w)
  unfolding cat3
  cat3-step from_buf dest b1 b2 b3 w from_buf_lem fits =
      let e1 = from_buf_lem b1 in
      let e2 = from_buf_lem b2 in
      let e3 = from_buf_lem b3 in
      let total = b1.len + b2.len + b3.len in
      Ensures-bind (Concatenated dest b1.len) (Concatenated dest total)
        (append dest (from_buf b1) w) _
        (Ensures-mono (Appended dest (from_buf b1)) _ (append dest (from_buf b1) w)
          (append_lem dest (from_buf b1) w fits) (λ r v appended. ground arith))
        λ r1 w1 done1.
          append_then dest b1.len total (from_buf b2) r1 _ w1 fits (omega arith)
            (λ r2 w2 done2.
              subst
                (λ n.
                  Ensures (Concatenated dest n) (on_success r2 (λ d. append d (from_buf b3)) w2))
                (omega arith)
                (append_next dest (b1.len + (from_buf b2).len) (from_buf b3) r2 w2 fits done2))
            done1

  -- `aws_byte_buf_cat` for three buffers, where `aws_byte_buf_append` does what it documents: it succeeds
  -- exactly if all the bytes fit behind the old ones, although it tests them one buffer at a time, and
  -- then the length has grown by their sum; the capacity stays. So of buffers whose lengths add up to a
  -- `size_t` neither of the assertions of the unit proof about the lengths fails.
  pub cat3-Concatenated :
      (from_buf : ByteBuf → ByteCursor)
      → ((buf : ByteBuf) → (from_buf buf).len ≡ buf.len)
      → (dest b1 b2 b3 : ByteBuf) (w : World) → dest.len ≤ dest.capacity
      → dest.capacity ≤ size_max
      → b1.len + b2.len + b3.len ≤ size_max
      → Ensures
          (λ r v.
            Concatenated dest (b1.len + b2.len + b3.len) r v
            × Good (lengths_fit dest b1 b2 b3 r.0 v))
          (cat3 append from_buf dest 3 b1 b2 b3 w)
  cat3-Concatenated from_buf from_buf_lem dest b1 b2 b3 w fits small sum =
      Ensures-mono (Concatenated dest (b1.len + b2.len + b3.len)) _
        (cat3 append from_buf dest 3 b1 b2 b3 w)
        (cat3-step from_buf dest b1 b2 b3 w from_buf_lem fits)
        λ (success, d) v done.
          (done, lengths_fit-Good dest b1 b2 b3 success v fits small sum done.1)
