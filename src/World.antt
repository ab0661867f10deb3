-- ===== src/World.antt =====
-- What a unit proof runs on: the non-deterministic choices (include/nondet.h), `assume` and
-- `sassert`, the heap of byte blocks, the heap of linked list nodes, and the error of the thread.
pub mod Rules
use verify_c_common.Base.{
  ℕ, ◌+◌, ◌%◌, ◌^◌, Bool, true, false, Option, none, some, ◌==◌, ltb, not, ◌&&◌, if◌then◌else◌, leb,
}

-- A pointer to bytes: NULL, or an offset into an allocated block.
pub data Ptr : Type 0 where
  null : Ptr
  at : (block offset : ℕ) → Ptr

abbrev pub ptr_eq : Ptr → Ptr → Bool
ptr_eq null null = true
ptr_eq null (at c j) = false
ptr_eq (at b i) null = false
ptr_eq (at b i) (at c j) = (b == c) && (i == j)

abbrev pub is_null : Ptr → Bool
is_null null = true
is_null (at b i) = false

-- Pointer arithmetic stays in the block; NULL is not moved.
abbrev pub shift : Ptr → ℕ → Ptr
shift null n = null
shift (at b i) n = at b (i + n)

pub record Block : Type 0 where
  pub size : ℕ
  pub bytes : ℕ → ℕ

-- Linked list nodes have addresses of their own; the address 0 is NULL.
pub record Node : Type 0 where
  pub next : ℕ
  pub prev : ℕ

-- `tape` holds the values that the non-deterministic functions return, `pos` how many are used.
-- `oom` says which calls of `malloc` fail, `junk` what bytes a fresh block holds.
pub record World : Type 0 where
  pub tape : ℕ → ℕ
  pub pos : ℕ
  pub oom : ℕ → Bool
  pub junk : ℕ → ℕ → ℕ
  pub fresh : ℕ
  pub blocks : ℕ → Option Block
  pub nodes : ℕ → Option Node
  pub last_error : ℕ

-- `pruned`: an `assume` does not hold, so the run is no run. `failed`: an `sassert` does not hold.
-- `fault`: an access through a pointer that is NULL or out of bounds.
pub data Outcome (A : Type 0) : Type 0 where
  ok : A → World → Outcome A
  pruned : Outcome A
  failed : Outcome A
  fault : Outcome A

abbrev pub Cmd : Type 0 → Type 0
Cmd A = World → Outcome A

abbrev pub pure : {A : Type 0} → A → Cmd A
pure a w = ok a w

infixl 5 ◌>>=◌ ◌>>◌
abbrev pub and_then : {A B : Type 0} → Outcome A → (A → Cmd B) → Outcome B
and_then (ok a w) f = f a w
and_then pruned f = pruned
and_then failed f = failed
and_then fault f = fault

abbrev pub ◌>>=◌ : {A B : Type 0} → Cmd A → (A → Cmd B) → Cmd B
◌>>=◌ m f w = and_then (m w) f

abbrev pub ◌>>◌ : {B : Type 0} → Cmd (Unit {0}) → Cmd B → Cmd B
m >> k = m >>= λ _. k

abbrev pub assume : Bool → Cmd (Unit {0})
assume true w = ok tt w
assume false w = pruned

abbrev pub sassert : Bool → Cmd (Unit {0})
sassert true w = ok tt w
sassert false w = failed

abbrev pub crash : {A : Type 0} → Cmd A
crash w = fault

-- The non-deterministic functions: each takes the next value of the tape.
abbrev pub advance : ℕ → World → World
advance n w = record w { pos = w.pos + n }

abbrev pub nd_size_t : Cmd ℕ
nd_size_t w = ok (w.tape w.pos % 2 ^ 64) (advance 1 w)

abbrev pub nd_uint64_t : Cmd ℕ
nd_uint64_t w = ok (w.tape w.pos % 2 ^ 64) (advance 1 w)

abbrev pub nd_uint8_t : Cmd ℕ
nd_uint8_t w = ok (w.tape w.pos % 2 ^ 8) (advance 1 w)

abbrev pub nd_bool : Cmd Bool
nd_bool w = ok (not (w.tape w.pos == 0)) (advance 1 w)

-- Runs that are good: the postcondition holds, or an assumption has cut the run short.
abbrev pub Ensures : {A : Type 0} → (A → World → Type 0) → Outcome A → Type 0
Ensures P (ok a w) = P a w
Ensures P pruned = Unit
Ensures P failed = ⊥
Ensures P fault = ⊥

-- Total correctness: the run is not cut short either.
abbrev pub Returns : {A : Type 0} → (A → World → Type 0) → Outcome A → Type 0
Returns P (ok a w) = P a w
Returns P pruned = ⊥
Returns P failed = ⊥
Returns P fault = ⊥

-- Block reads and writes, in bounds.
abbrev pub update {ℓ} : {A : Type ℓ} → (ℕ → A) → ℕ → A → ℕ → A
update f k v j = if k == j then v else f j

unfoldable pub read_block : Option Block → ℕ → Cmd ℕ
read_block none i = crash
read_block (some k) i = if ltb i k.size then pure (k.bytes i) else crash

unfoldable pub load : Ptr → Cmd ℕ
unfolding read_block
load null = crash
load (at b i) = λ w. read_block (w.blocks b) i w

-- `AWS_MEM_IS_WRITABLE`, `sea_is_dereferenceable`: `len` bytes from `p` lie in a live block.
abbrev pub block_holds : Option Block → ℕ → Bool
block_holds none n = false
block_holds (some k) n = leb n k.size

abbrev pub deref : World → Ptr → ℕ → Bool
deref w null n = n == 0
deref w (at b i) n = block_holds (w.blocks b) (i + n)

pub write_block : Option Block → ℕ → ℕ → ℕ → Cmd (Unit {0})
write_block none b i v = crash
write_block (some k) b i v =
    if ltb i k.size
    then (λ w.
        ok tt (record w {
          blocks = update w.blocks b (some (record k { bytes = update k.bytes i v }));
        }))
    else crash

unfoldable pub store : Ptr → ℕ → Cmd (Unit {0})
unfolding write_block
store null v = crash
store (at b i) v = λ w. write_block (w.blocks b) b i v w
