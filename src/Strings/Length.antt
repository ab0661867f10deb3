-- ===== src/Strings/Length.antt =====
-- `sea_strlen` of seahorn/lib/sea_string.cc finds the end of a string.
use verify_c_common.Base.{
  ℕ, zero, suc, ◌+◌, ◌≤◌, ◌<◌, ◌≡◌, ◌≢◌, refl, ap, true, false, leb, ◌==◌, if◌then◌else◌,
  Bool-cases, inl, inr, arith,
}
use verify_c_common.World.{at, World, ok, load, shift}
use verify_c_common.Alloc.{readable, window}
use verify_c_common.Strings.{end_loop, sea_strlen}

-- `n` is the length of the string at `(b, o)`, whose bytes up to the zero lie in a block.
pub record IsString (w : World) (b o n : ℕ) : Type 0 where
  pub holds : readable w (at b o) (suc n) ≡ true
  pub ends : window w (at b o) n ≡ 0
  pub before : (j : ℕ) → j < n → window w (at b o) j ≢ 0

pub load_in :
    (b o n i : ℕ) (w : World)
    → readable w (at b o) (suc n) ≡ true
    → i ≤ n
    → load (shift (at b o) i) w ≡ ok (window w (at b o) i) w
unfolding load
load_in b o n i w r le = ground arith

end_loop_lem :
    (b o n k i : ℕ) (w : World)
    → IsString w b o n
    → i ≤ n
    → n < i + k
    → end_loop k i (at b o) w ≡ ok n w
unfolding end_loop
end_loop_lem b o n zero i w s le lt = absurd (omega arith)
end_loop_lem b o n (suc k) i w s le lt = elim (Bool-cases (i == n)) [
  | inl here ↦
      let e : i ≡ n = ground arith in
      let zero_here : (window w (at b o) i == 0) ≡ true =
        ground (arith, s.ends, ap (window w (at b o)) e) in
      ground (arith, load_in b o n i w s.holds le, zero_here)
  | inr on ↦
      let below : i < n = ground arith in
      let more : (window w (at b o) i == 0) ≡ false = ground (arith, s.before i below) in
      let rest : end_loop k (i + 1) (at b o) w ≡ ok n w =
        end_loop_lem b o n k (i + 1) w s (omega arith) (omega arith) in
      ground (arith, load_in b o n i w s.holds le, more, rest)
]

-- `sea_strlen` of a string that is shorter than MAX_STRING_LEN returns its length, or 0 if that is
-- more than the bound it is called with; memory is only read.
pub sea_strlen_lem :
    (max_string_len max_size b o n : ℕ) (w : World)
    → IsString w b o n
    → n < max_string_len
    → sea_strlen max_string_len (at b o) max_size w ≡ ok (if leb n max_size then n else 0) w
unfolding sea_strlen
sea_strlen_lem max_string_len max_size b o n w s lt =
    rw (end_loop_lem b o n max_string_len 0 w s (omega arith) (omega arith)) refl
