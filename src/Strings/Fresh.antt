-- ===== src/Strings/Fresh.antt =====
-- What the functions of seahorn/lib/string_helper.c that allocate a C string give.
use verify_c_common.Base.{
  ℕ, zero, suc, ◌+◌, ◌-◌, ◌^◌, ◌%◌, ◌≤◌, ◌<◌, ◌≡◌, ◌≢◌, ◌⊎◌, inl, inr, refl, ap, ◌∙◌, true, false,
  ltb, ◌==◌, Bool-cases, arith,
}
use verify_c_common.World.{
  Ptr, null, at, World, ok, pruned, Cmd, and_then, store, shift, advance, Ensures,
}
use verify_c_common.World.Rules.{Ensures-bind, Ensures-mono}
use verify_c_common.Alloc.{
  readable, window, sea_malloc_havoc, sea_malloc_havoc_safe, sea_malloc_aligned_havoc,
}
use verify_c_common.Alloc.Laws.{align_round_up_bounds}
use verify_c_common.Strings.{
  nonzero_loop, sea_init_str, init_unless_null, assume_size, c_str_of, sea_strlen,
  ensure_c_str_is_nd_allocated, ensure_c_str_is_nd_allocated_safe,
  ensure_c_str_is_nd_allocated_aligned,
}
use verify_c_common.Strings.Length.{IsString, load_in, sea_strlen_lem}

module _ (b o n k j : ℕ) (w : World) where
  skip : ltb j n ≡ false → nonzero_loop (suc k) j (at b o) n w ≡ nonzero_loop k (j + 1) (at b o) n w
  unfolding nonzero_loop
  skip h = ground (arith, h)

  module _ (r : readable w (at b o) (suc n) ≡ true) (below : ltb j n ≡ true) where
    go_on :
        (window w (at b o) j == 0) ≡ false
        → nonzero_loop (suc k) j (at b o) n w ≡ nonzero_loop k (j + 1) (at b o) n w
    unfolding nonzero_loop
    go_on h = ground (arith, load_in b o n j w r (ground arith))

    give_up : (window w (at b o) j == 0) ≡ true → nonzero_loop (suc k) j (at b o) n w ≡ pruned
    unfolding nonzero_loop
    give_up h = ground (arith, load_in b o n j w r (ground arith))

-- No byte from `j` up to `n` is zero.
abbrev pub NonzeroFrom : ℕ → ℕ → ℕ → World → ℕ → World → Type 0
NonzeroFrom b o n w j u = (u ≡ w) × ((i : ℕ) → j ≤ i → i < n → window w (at b o) i ≢ 0)

pub nonzero_loop-NonzeroFrom :
    (b o n k j : ℕ) (w : World)
    → readable w (at b o) (suc n) ≡ true
    → n ≤ j + k
    → Ensures (λ _ u. NonzeroFrom b o n w j u) (nonzero_loop k j (at b o) n w)
unfolding nonzero_loop
nonzero_loop-NonzeroFrom b o n zero j w r all = (refl, λ i le lt. absurd (omega arith))
nonzero_loop-NonzeroFrom b o n (suc k) j w r all =
    let rest = nonzero_loop-NonzeroFrom b o n k (j + 1) w r (omega arith) in
    elim (Bool-cases (ltb j n)) [
      | inr past ↦ rw (skip b o n k j w past) (
          Ensures-mono _ _ (nonzero_loop k (j + 1) (at b o) n w) rest
            λ _ u (same, nonzero). (same, λ i le lt. absurd (ground arith)))
      | inl below ↦ elim (Bool-cases (window w (at b o) j == 0)) [
        | inl end ↦ rw (give_up b o n k j w r below end) tt
        | inr on ↦ rw (go_on b o n k j w r below on) (
            Ensures-mono _ _ (nonzero_loop k (j + 1) (at b o) n w) rest λ _ u (same, nonzero). (
              same,
              λ i le lt. elim (Bool-cases (i == j)) [
                | inl here ↦
                    let e : i ≡ j = ground arith in ground (arith, ap (window w (at b o)) e)
                | inr later ↦ nonzero i (ground arith) lt
              ],
            ))
      ]
    ]

pub store_end :
    (b o n : ℕ) (w : World)
    → readable w (at b o) (suc n) ≡ true
    → Ensures
        (λ _ u. (readable u (at b o) (suc n) ≡ true) × (window u (at b o) n ≡ 0))
        (store (shift (at b o) n) 0 w)
unfolding store
store_end b o n w r = ground arith

sea_init_str-IsString :
    (max b o n : ℕ) (w : World)
    → readable w (at b o) (suc n) ≡ true
    → n ≤ max
    → Ensures (λ _ u. IsString u b o n) (sea_init_str max (at b o) n w)
unfolding sea_init_str
sea_init_str-IsString max b o n w r le =
    Ensures-bind _ _ (store (shift (at b o) n) 0 w) _ (store_end b o n w r) λ _ u (r', end).
      Ensures-mono _ _ (nonzero_loop max 0 (at b o) n u)
        (nonzero_loop-NonzeroFrom b o n max 0 u r' (omega arith))
        λ _ v (same, nonzero).
          rw (same) (record { holds = r'; ends = end; before = λ j lt. nonzero j (omega arith) lt })

-- An allocator gives NULL, or a new block with room for the size.
abbrev pub GivesRoom : (ℕ → Cmd Ptr) → Type 0
GivesRoom alloc =
    (sz : ℕ) (w : World)
    → sz ≤ 2 ^ 64 - 8
    → Ensures (λ p u. (p ≡ null) ⊎ ((p ≡ at w.fresh 0) × (readable u (at w.fresh 0) sz ≡ true)))
        (alloc sz w)

sea_malloc_havoc-GivesRoom : GivesRoom sea_malloc_havoc
unfolding sea_malloc_havoc
sea_malloc_havoc-GivesRoom sz w le = ground arith

sea_malloc_havoc_safe-GivesRoom : GivesRoom sea_malloc_havoc_safe
unfolding sea_malloc_havoc_safe
sea_malloc_havoc_safe-GivesRoom sz w le = ground arith

pub sea_malloc_aligned_havoc-GivesRoom : GivesRoom sea_malloc_aligned_havoc
unfolding sea_malloc_aligned_havoc
sea_malloc_aligned_havoc-GivesRoom sz w le = ground (arith, align_round_up_bounds sz (omega arith))

-- What is returned: NULL with `*len` left as it was, or a string in a new block whose length is
-- `*len` and what `sea_strlen` finds.
abbrev pub NullOrString : (max_string_len max_size len : ℕ) → World → Ptr × ℕ → World → Type 0
NullOrString max_string_len max_size len w (p, l) u =
    ((p ≡ null) × (l ≡ len))
    ⊎ ((p ≡ at w.fresh 0)
        × (l < max_size)
        × IsString u w.fresh 0 l
        × (sea_strlen max_string_len p max_size u ≡ ok l u))

module _ (alloc : ℕ → Cmd Ptr) (room : GivesRoom alloc) (max max_size len : ℕ)
    (fits : max ≤ 2 ^ 64 - 8) where
  made :
      (sz : ℕ) (w : World)
      → 0 < sz
      → sz ≤ max_size
      → max_size ≤ max
      → Ensures
          (NullOrString max max_size len w)
          (and_then (alloc sz w) (init_unless_null max sz len))
  made sz w pos le le' = Ensures-bind _ _ (alloc sz w) _ (room sz w (omega arith)) λ p u found.
      elim found [
        | inl nothing ↦ rw (nothing) (inl (refl, refl))
        | inr (new, readable_there) ↦
            let n = sz - 1 in
            let all : suc n ≡ sz = omega arith in
            let r : readable u (at w.fresh 0) (suc n) ≡ true =
              ap (readable u (at w.fresh 0)) all ∙ readable_there in
            rw (new) (
              Ensures-bind _ _ (sea_init_str max (at w.fresh 0) n u) _
                (sea_init_str-IsString max w.fresh 0 n u r (omega arith))
                λ _ v is_string.
                  let found_length =
                    sea_strlen_lem max max_size w.fresh 0 n v is_string (omega arith) in
                  inr (refl, omega arith, is_string, ground (arith, found_length)))
      ]

  sizes :
      (sz : ℕ) (w : World)
      → Ensures
          (λ _ u. (u ≡ w) × (0 < sz) × (sz ≤ max_size) × (max_size ≤ max))
          (assume_size max max_size sz w)
  sizes sz w = ground arith

  pub c_str_of-NullOrString :
      (w : World) → Ensures (NullOrString max max_size len w) (c_str_of max alloc max_size len w)
  unfolding c_str_of
  c_str_of-NullOrString w =
      let sz = w.tape w.pos % 2 ^ 64 in
      Ensures-bind _ _ (assume_size max max_size sz (advance 1 w)) _ (sizes sz (advance 1 w))
        λ _ u (same, pos, le, le'). rw (same) (made sz (advance 1 w) pos le le')

-- In every run that its assumptions do not cut short, each of the three functions that allocate a C
-- string gives NULL and leaves `*len` as it was, or a new string, shorter than the bound, whose length
-- it stores in `*len` and `sea_strlen` returns; no access is out of bounds.
pub ensure_c_str-NullOrString :
    (max_string_len max_size len : ℕ) (w : World)
    → max_string_len ≤ 2 ^ 64 - 8
    → Ensures
        (NullOrString max_string_len max_size len w)
        (ensure_c_str_is_nd_allocated max_string_len max_size len w)
      × Ensures
          (NullOrString max_string_len max_size len w)
          (ensure_c_str_is_nd_allocated_safe max_string_len max_size len w)
      × Ensures
          (NullOrString max_string_len max_size len w)
          (ensure_c_str_is_nd_allocated_aligned max_string_len max_size len w)
unfolding ensure_c_str_is_nd_allocated ensure_c_str_is_nd_allocated_safe
    ensure_c_str_is_nd_allocated_aligned
ensure_c_str-NullOrString max max_size len w fits = (
  c_str_of-NullOrString sea_malloc_havoc sea_malloc_havoc-GivesRoom max max_size len fits w,
  c_str_of-NullOrString sea_malloc_havoc_safe sea_malloc_havoc_safe-GivesRoom max max_size len fits
      w,
  c_str_of-NullOrString sea_malloc_aligned_havoc sea_malloc_aligned_havoc-GivesRoom max max_size len
      fits w,
)
