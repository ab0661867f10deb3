-- ===== src/Bytes/Copy.antt =====
-- The byte loops of seahorn/lib/bcmp.c copy and fill as the standard functions do.
use native.Mathlib.Decide.{dec_lt}
use verify_c_common.Base.{
  ℕ, zero, suc, ◌+◌, ◌%◌, ◌^◌, ◌≤◌, ◌<◌, ◌≡◌, ◌≢◌, refl, true, Option, none, some, arith,
}
use verify_c_common.World.{at, Block, World, ok, update, load, store, Returns}
use verify_c_common.World.Rules.{Returns-bind, Returns-mono}
use verify_c_common.Alloc.{readable, window}
use verify_c_common.Alloc.Laws.{SameBut, size_of}
use verify_c_common.Bytes.{copy_loop, symbiotic_memcpy, set_loop, symbiotic_memset}

abbrev put_bytes : Option Block → ℕ → ℕ → Option Block
put_bytes none j v = none
put_bytes (some k) j v = some (record k { bytes = update k.bytes j v })

-- The world with one byte written.
abbrev put_byte : World → ℕ → ℕ → ℕ → World
put_byte w b j v = record w { blocks = update w.blocks b (put_bytes (w.blocks b) j v) }

load_ok :
    (b o n i : ℕ) (w : World)
    → readable w (at b o) n ≡ true
    → i < n
    → load (at b (o + i)) w ≡ ok (window w (at b o) i) w
unfolding load
load_ok b o n i w r h = ground arith

store_ok :
    (b o n i v : ℕ) (w : World)
    → readable w (at b o) n ≡ true
    → i < n
    → store (at b (o + i)) v w ≡ ok tt (put_byte w b (o + i) v)
unfolding store
store_ok b o n i v w r h = ground arith

-- The range of `n` bytes at `(b, o)` is `f` from `i` up to `i + k` and as in `w` elsewhere.
record Written (f : ℕ → ℕ) (w : World) (b o i k : ℕ) (u : World) : Type 0 where
  written : (j : ℕ) → i ≤ j → j < i + k → window u (at b o) j ≡ f j
  below : (j : ℕ) → j < i → window u (at b o) j ≡ window w (at b o) j
  beyond : (j : ℕ) → i + k ≤ j → window u (at b o) j ≡ window w (at b o) j
  size : size_of u b ≡ size_of w b
  others : SameBut b w u

module _ {f : ℕ → ℕ} {w u : World} {b o i k : ℕ} where
  Written-step :
      readable w (at b o) (i + suc k) ≡ true
      → Written f (put_byte w b (o + i) (f i)) b o (i + 1) k u
      → Written f w b o i (suc k) u
  Written-step r h = record {
    written = λ j lo hi. elim (dec_lt i j) [
      | yes l ↦ h.written j (omega arith) (omega arith)
      | no n ↦ let here : j ≡ i = omega arith in rw here (ground (arith, h.below i))
    ];
    below = λ j l. ground (arith, h.below j);
    beyond = λ j l. ground (arith, h.beyond j);
    size = ground (arith, h.size);
    others = λ c ne. ground (arith, h.others c ne);
  }

-- No round is left.
Written-refl : (f : ℕ → ℕ) (w : World) (b o i : ℕ) → Written f w b o i 0 w
Written-refl f w b o i = record {
  written = λ j lo hi. absurd (omega arith);
  below = λ j l. refl;
  beyond = λ j l. refl;
  size = refl;
  others = λ d ne. refl;
}

module _ (b o : ℕ) where
  copy_loop_lem :
      (c p : ℕ) (f : ℕ → ℕ) (k i : ℕ) (w : World)
      → b ≢ c
      → readable w (at b o) (i + k) ≡ true
      → readable w (at c p) (i + k) ≡ true
      → ((j : ℕ) → window w (at c p) j ≡ f j)
      → Returns (λ _ u. Written f w b o i k u) (copy_loop (at b o) (at c p) k i w)
  unfolding copy_loop
  copy_loop_lem c p f zero i w apart rd rs src = Written-refl f w b o i
  copy_loop_lem c p f (suc k) i w apart rd rs src =
      rw
        (
          load_ok c p (i + suc k) i w rs (omega arith),
          src i,
          store_ok b o (i + suc k) i (f i) w rd (omega arith),
        )
        (Returns-mono _ _ (copy_loop (at b o) (at c p) k (i + 1) (put_byte w b (o + i) (f i)))
          (copy_loop_lem c p f k (i + 1) (put_byte w b (o + i) (f i)) apart (ground arith)
            (ground arith) (λ j. ground (arith, src j)))
          λ _ u h. Written-step rd h)

  set_loop_lem :
      (s k i : ℕ) (w : World)
      → readable w (at b o) (i + k) ≡ true
      → Returns (λ _ u. Written (λ _. s % 2 ^ 8) w b o i k u) (set_loop (at b o) s k i w)
  unfolding set_loop
  set_loop_lem s zero i w rd = Written-refl (λ _. s % 2 ^ 8) w b o i
  set_loop_lem s (suc k) i w rd = rw (store_ok b o (i + suc k) i (s % 2 ^ 8) w rd (omega arith)) (
      Returns-mono _ _ (set_loop (at b o) s k (i + 1) (put_byte w b (o + i) (s % 2 ^ 8)))
        (set_loop_lem s k (i + 1) (put_byte w b (o + i) (s % 2 ^ 8)) (ground arith))
        λ _ u h. Written-step rd h)

-- The range of `n` bytes at `(b, o)` holds `f`, the rest of its block and all other blocks are as
-- they were.
pub record Copied (f : ℕ → ℕ) (w : World) (b o n : ℕ) (u : World) : Type 0 where
  pub written : (j : ℕ) → j < n → window u (at b o) j ≡ f j
  pub beyond : (j : ℕ) → n ≤ j → window u (at b o) j ≡ window w (at b o) j
  pub size : size_of u b ≡ size_of w b
  pub others : SameBut b w u

Copied-of_Written :
    {f : ℕ → ℕ} {w : World} {b o n : ℕ} {u : World} → Written f w b o 0 n u → Copied f w b o n u
Copied-of_Written h = record {
  written = λ j l. h.written j (omega arith) (omega arith);
  beyond = λ j l. h.beyond j (omega arith);
  size = h.size;
  others = h.others;
}

module _ (b o n : ℕ) (w : World) (rd : readable w (at b o) n ≡ true) where
  -- The byte loop that is `memcpy` for Symbiotic, between two different blocks: it returns the
  -- destination, has copied the `n` bytes of the source, and has written nothing else.
  pub symbiotic_memcpy_lem :
      (c p : ℕ)
      → b ≢ c
      → readable w (at c p) n ≡ true
      → Returns
          (λ q u. (q ≡ at b o) × Copied (window w (at c p)) w b o n u)
          (symbiotic_memcpy (at b o) (at c p) n w)
  unfolding symbiotic_memcpy
  symbiotic_memcpy_lem c p apart rs =
      Returns-bind _ _ (copy_loop (at b o) (at c p) n 0 w) _
        (copy_loop_lem b o c p (window w (at c p)) n 0 w apart (ground arith) (ground arith)
          (λ j. refl))
        λ _ u h. (refl, Copied-of_Written h)

  -- The byte loop that is `memset` for Symbiotic fills the range with the low byte of `s`, and
  -- writes nothing else.
  pub symbiotic_memset_lem :
      (s : ℕ)
      → Returns
          (λ q u. (q ≡ at b o) × Copied (λ _. s % 2 ^ 8) w b o n u)
          (symbiotic_memset (at b o) s n w)
  unfolding symbiotic_memset
  symbiotic_memset_lem s =
      Returns-bind _ _ (set_loop (at b o) s n 0 w) _ (set_loop_lem b o s n 0 w (ground arith))
        λ _ u h. (refl, Copied-of_Written h)
