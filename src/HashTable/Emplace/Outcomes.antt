-- ===== src/HashTable/Emplace/Outcomes.antt =====
-- The two outcomes of a round of the loop of aws-c-common-stubs/s_emplace_item_override.c.
use native.Mathlib.Nat.{mod-lt, one-le-pow}
use mathlib.Core.Path.{subst}
use verify_c_common.Base.{
  ℕ, zero, suc, ◌+◌, ◌-◌, ◌^◌, ◌%◌, ◌<◌, ◌≤◌, ◌≡◌, ◌≢◌, refl, sym, ap, ◌∙◌, Bool, true, false,
  Option, none, some, ◌==◌, ltb, ◌||◌, add_size, get_elem?, arith,
}
use verify_c_common.HashTable.{Entry}
use verify_c_common.HashTable.Emplace.{
  Emplacing, keep_first, victim_probe, probe, emplace_at, emplace_loop,
}
use verify_c_common.HashTable.Emplace.Round.{probe_lem, probe_next, victim_next}
use verify_c_common.HashTable.Emplace.Steps.{Ends, swapped, after_swap, after_hole, after_skip}

keep_first-some : (o : Option ℕ) (i : ℕ) → (r : ℕ) × (keep_first o i ≡ some r)
keep_first-some none i = (i, refl)
keep_first-some (some r) i = (r, refl)

loop_stop :
    (fuel mask : ℕ) (s : Emplacing)
    → s.entry.hash_code ≡ 0
    → emplace_loop fuel mask s ≡ some (s.slots, s.rval)
unfolding emplace_loop
loop_stop zero mask s h = ground arith
loop_stop (suc fuel) mask s h = ground arith

loop_step :
    (fuel mask : ℕ) (s : Emplacing) (victim : Entry)
    → s.entry.hash_code ≢ 0
    → get_elem? s.slots (probe mask s.entry s.probe_idx) ≡ some victim
    → emplace_loop (suc fuel) mask s
      ≡ emplace_loop fuel mask (emplace_at mask (probe mask s.entry s.probe_idx) victim s)
unfolding emplace_loop
loop_step fuel mask s victim used found =
    let test : (s.entry.hash_code == 0) ≡ false = ground arith in
    rw (emplace_loop, test, found) refl

-- The two outcomes of a round.
abbrev pub swaps : ℕ → ℕ → Entry → Emplacing → Bool
swaps mask i victim s = (victim.hash_code == 0) || ltb (victim_probe mask victim i) s.probe_idx

module _ (m : ℕ) (m64 : m ≤ 64) (s : Emplacing) (victim : Entry)
    (found : get_elem? s.slots (probe (2 ^ m - 1) s.entry s.probe_idx) ≡ some victim)
    (used : s.entry.hash_code ≢ 0) where
  abbrev pub index : ℕ
  index = probe (2 ^ m - 1) s.entry s.probe_idx

  abbrev pub swap_next : Emplacing
  swap_next = swapped index s victim (add_size (victim_probe (2 ^ m - 1) victim index) 1)

  abbrev pub skip_next : Emplacing
  skip_next = record s { probe_idx = add_size s.probe_idx 1 }

  pub index_small : index < 2 ^ m
  index_small = omega (
    arith,
    probe_lem m s.entry s.probe_idx m64,
    mod-lt (s.entry.hash_code + s.probe_idx) (one-le-pow m 2 (omega arith)),
  )

  at_swap :
      swaps (2 ^ m - 1) index victim s ≡ true → emplace_at (2 ^ m - 1) index victim s ≡ swap_next
  at_swap h = rw (h) refl

  at_skip :
      swaps (2 ^ m - 1) index victim s ≡ false → emplace_at (2 ^ m - 1) index victim s ≡ skip_next
  at_skip h = rw (h) refl

  -- The next index is the next slot in both.
  abbrev pub next : ℕ
  next = (index + 1) % 2 ^ m

  pub swap_index :
      victim.hash_code < 2 ^ 64 → probe (2 ^ m - 1) swap_next.entry swap_next.probe_idx ≡ next
  swap_index fits = victim_next m victim index m64 fits

  pub skip_index : probe (2 ^ m - 1) skip_next.entry skip_next.probe_idx ≡ next
  skip_index = probe_next m s.entry s.probe_idx m64

  pub hole-Ends :
      (fuel d : ℕ)
      → victim.hash_code ≡ 0
      → Ends (2 ^ m) index d s (emplace_loop (suc fuel) (2 ^ m - 1) s)
  hole-Ends fuel d empty =
      let (r, at_r) = keep_first-some s.rval index in
      let test : swaps (2 ^ m - 1) index victim s ≡ true = ground arith in
      let stops =
        loop_step fuel (2 ^ m - 1) s victim used found
        ∙ ap (emplace_loop fuel (2 ^ m - 1)) (at_swap test)
        ∙ loop_stop fuel (2 ^ m - 1) swap_next empty in
      subst (Ends (2 ^ m) index d s) (sym stops)
        (after_hole (2 ^ m) index index_small s victim found swap_next.probe_idx d r empty at_r)

  pub swap-Ends :
      (fuel d : ℕ)
      → suc d < 2 ^ m
      → victim.hash_code < 2 ^ 64
      → swaps (2 ^ m - 1) index victim s ≡ true
      → Ends
          (2 ^ m)
          (probe (2 ^ m - 1) swap_next.entry swap_next.probe_idx)
          d
          swap_next
          (emplace_loop fuel (2 ^ m - 1) swap_next)
      → Ends (2 ^ m) index (suc d) s (emplace_loop (suc fuel) (2 ^ m - 1) s)
  swap-Ends fuel d small fits test ends =
      let steps =
        loop_step fuel (2 ^ m - 1) s victim used found
        ∙ ap (emplace_loop fuel (2 ^ m - 1)) (at_swap test) in
      subst (Ends (2 ^ m) index (suc d) s) (sym steps) (
        after_swap (2 ^ m) index index_small s victim found swap_next.probe_idx d
          (emplace_loop fuel (2 ^ m - 1) swap_next) small
          (subst (λ i. Ends (2 ^ m) i d swap_next (emplace_loop fuel (2 ^ m - 1) swap_next))
            (swap_index fits) ends))

  pub skip-Ends :
      (fuel d : ℕ)
      → swaps (2 ^ m - 1) index victim s ≡ false
      → Ends
          (2 ^ m)
          (probe (2 ^ m - 1) skip_next.entry skip_next.probe_idx)
          d
          skip_next
          (emplace_loop fuel (2 ^ m - 1) skip_next)
      → Ends (2 ^ m) index (suc d) s (emplace_loop (suc fuel) (2 ^ m - 1) s)
  skip-Ends fuel d test ends =
      let steps =
        loop_step fuel (2 ^ m - 1) s victim used found
        ∙ ap (emplace_loop fuel (2 ^ m - 1)) (at_skip test) in
      subst (Ends (2 ^ m) index (suc d) s) (sym steps) (
        after_skip (2 ^ m) index d skip_next.probe_idx s (emplace_loop fuel (2 ^ m - 1) skip_next) (
          subst (λ i. Ends (2 ^ m) i d skip_next (emplace_loop fuel (2 ^ m - 1) skip_next))
            skip_index ends))
