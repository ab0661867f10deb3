-- ===== src/Jobs/Saved.antt =====
-- The byte that a unit proof saves in its set-up, and looks at again at the end.
use verify_c_common.Base.{
  ℕ, ◌+◌, ◌%◌, ◌^◌, ◌<◌, ◌≡◌, ◌⊎◌, refl, ap, Bool, Bool-cases, inl, inr, true, false, not, ◌&&◌,
  Option, none, some, ◌==◌, ltb, if◌then◌else◌, arith,
}
use verify_c_common.World.{
  Ptr, null, at, is_null, load, advance, read_block, Block, World, ok, Cmd, sassert, pure, and_then,
  ◌>>=◌, Ensures,
}
use verify_c_common.World.Rules.{Ensures-assume, Ensures-bind, Ensures-mono}
use verify_c_common.Alloc.{readable, readable_block}
use verify_c_common.Utils.{StoredByte, save_byte_from_array, assert_byte_from_buffer_matches}
use verify_c_common.Jobs.{Good, Checks, Checks-map}

-- The byte `b` is still where it was in the memory at `p`.
abbrev pub Kept : World → Ptr → StoredByte → Type 0
Kept v null b = Unit
Kept v (at c i) b = load (at c (i + b.index)) v ≡ ok b.byte v

read_eq :
    (k : Option Block) (i x : ℕ) (v : World)
    → read_block k i v ≡ ok x v
    → and_then (read_block k i v) (λ y. sassert (y == x)) ≡ ok tt v
read_eq k i x v e = rw (e) (ground arith)

read_means :
    (k : Option Block) (i x : ℕ) (v : World)
    → Good (and_then (read_block k i v) (λ y. sassert (y == x)))
    → read_block k i v ≡ ok x v
unfolding read_block
read_means none i x v good = absurd good
read_means (some k) i x v good = elim (Bool-cases (ltb i k.size)) [
  | inl inside ↦ ground arith
  | inr outside ↦ absurd (ground arith)
]

load_eq-Checks :
    (p : Ptr) (x : ℕ) → Checks (load p >>= λ y. sassert (y == x)) (λ v. load p v ≡ ok x v)
unfolding load
load_eq-Checks null x = record { passes = λ v h. cc; means = λ v h. absurd h }
load_eq-Checks (at c i) x = record {
  passes = λ v h. read_eq (v.blocks c) i x v h;
  means = λ v h. read_means (v.blocks c) i x v h;
}

pub Kept-Checks :
    (p : Ptr) (b : StoredByte)
    → Checks (assert_byte_from_buffer_matches p (some b)) (λ v. Kept v p b)
unfolding assert_byte_from_buffer_matches
Kept-Checks null b = record { passes = λ v h. refl; means = λ v h. tt }
Kept-Checks (at c i) b = load_eq-Checks (at c (i + b.index)) b.byte

pub if-Checks :
    (c : Bool) (m : Cmd (Unit {0})) (P : World → Type 0)
    → Checks m P
    → Checks (if c then m else pure tt) (λ v. c ≡ true → P v)
if-Checks true m P checks = Checks-map m P _ (λ v. (λ h e. h, λ h. h refl)) checks
if-Checks false m P checks = record { passes = λ v h. refl; means = λ v h e. ground arith }

read_block-there :
    (k : Option Block) (i n j : ℕ) (w : World)
    → readable_block k (i + n) ≡ true
    → j < n
    → Ensures (λ x u. (u ≡ w) × (read_block k (i + j) w ≡ ok x w)) (read_block k (i + j) w)
unfolding read_block
read_block-there none i n j w there lt = absurd (ground arith)
read_block-there (some k) i n j w there lt =
    let inside : ltb (i + j) k.size ≡ true = ground arith in rw (inside) (refl, refl)

-- What a save leaves: the blocks as they were, and a byte of them if there are any.
abbrev pub SavedFrom : World → Ptr → ℕ → StoredByte → World → Type 0
SavedFrom w p n b u = (u.blocks ≡ w.blocks) × (0 < n → Kept u p b)

save_there :
    (c i n : ℕ) (w : World)
    → 0 < n
    → readable w (at c i) n ≡ true
    → Ensures (SavedFrom w (at c i) n) (save_byte_from_array (at c i) n w)
unfolding save_byte_from_array load
save_there c i n w pos there =
    let some_bytes : (ltb 0 n && true) ≡ true = ground arith in
    let index = w.tape w.pos % 2 ^ 64 in
    let w' = advance 1 w in
    rw (some_bytes) (
      Ensures-assume (SavedFrom w (at c i) n) (ltb index n) w' _ λ inside.
        Ensures-bind (λ x u. (u ≡ w') × (read_block (w.blocks c) (i + index) w' ≡ ok x w')) _
          (read_block (w.blocks c) (i + index) w') _
          (read_block-there (w.blocks c) i n index w' there (ground arith))
          λ x u (same, found). (ap (λ v. v.blocks) same, λ _. rw (same) found))

save_nothing :
    (p : Ptr) (n : ℕ) (w : World)
    → (ltb 0 n && not (is_null p)) ≡ false
    → Ensures (λ b u. u.blocks ≡ w.blocks) (save_byte_from_array p n w)
unfolding save_byte_from_array
save_nothing p n w none_there = rw (none_there) refl

-- What is saved of memory that is there.
pub save_byte_from_array-SavedFrom :
    (p : Ptr) (n : ℕ) (w : World)
    → (p ≡ null) ⊎ (readable w p n ≡ true)
    → Ensures (SavedFrom w p n) (save_byte_from_array p n w)
save_byte_from_array-SavedFrom null n w there =
    Ensures-mono (λ b u. u.blocks ≡ w.blocks) (SavedFrom w null n) (save_byte_from_array null n w)
      (save_nothing null n w (ground arith)) λ b u same. (same, λ _. tt)
save_byte_from_array-SavedFrom (at c i) n w (inl e) = cc
save_byte_from_array-SavedFrom (at c i) n w (inr there) = elim (Bool-cases (ltb 0 n)) [
  | inl some_bytes ↦ save_there c i n w (ground arith) there
  | inr no_bytes ↦
      Ensures-mono (λ b u. u.blocks ≡ w.blocks) (SavedFrom w (at c i) n)
        (save_byte_from_array (at c i) n w) (save_nothing (at c i) n w (ground arith))
        λ b u same. (same, λ pos. absurd (ground arith))
]
