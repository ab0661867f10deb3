-- ===== src/Jobs.antt =====
-- The unit proofs of seahorn/jobs. Each sets up an input, calls one function of aws-c-common, which is a
-- parameter here, and asserts what it has done. This file is about what such a proof shows.
pub mod LinkedList
pub mod Tests
pub mod Saved
pub mod Cursor
pub mod Ring
pub mod ArrayList
pub mod Cat
pub mod ByteBuf
pub mod Numbers
use verify_c_common.Base.{◌≡◌, ◌↔◌, refl, Bool, true}
use verify_c_common.World.{
  World, Outcome, ok, pruned, failed, fault, Cmd, and_then, sassert, ◌>>◌, Ensures,
}
use verify_c_common.World.Rules.{Ensures-bind}
use mathlib.Core.Path.{subst}

-- Nothing goes wrong: no assertion fails and no access faults.
abbrev pub Good : {A : Type 0} → Outcome A → Type 0
Good r = Ensures (λ _ _. Unit {0}) r

-- The assertions `m` change nothing, and nothing goes wrong in them exactly if `P` holds.
pub record Checks (m : Cmd (Unit {0})) (P : World → Type 0) : Type 0 where
  pub passes : (v : World) → P v → m v ≡ ok tt v
  pub means : (v : World) → Good (m v) → P v

-- `sassert(c)`, where `c` reads the heap.
abbrev pub expect : Cmd Bool → Cmd (Unit {0})
expect c w = and_then (c w) sassert

Good-first : {A B : Type 0} (r : Outcome A) (k : A → Cmd B) → Good (and_then r k) → Good r
Good-first (ok a w) k h = tt
Good-first pruned k h = tt
Good-first failed k h = absurd h
Good-first fault k h = absurd h

module _ (m n : Cmd (Unit {0})) (P Q : World → Type 0) where
  pub Checks-seq : Checks m P → Checks n Q → Checks (m >> n) (λ v. P v × Q v)
  Checks-seq c d = record {
    passes = λ v (p, q). rw (c.passes v p) (d.passes v q);
    means = λ v good.
        let p = c.means v (Good-first (m v) (λ _. n) good) in
        (p, d.means v (subst (λ r. Good (and_then r (λ _. n))) (c.passes v p) good));
  }

infixr 4 ◌&◌
pub ◌&◌ :
    {m n : Cmd (Unit {0})} {P Q : World → Type 0}
    → Checks m P
    → Checks n Q
    → Checks (m >> n) (λ v. P v × Q v)
c & d = Checks-seq _ _ _ _ c d

module _ {A : Type 0} (P Q : A → World → Type 0) where
  Ensures-at :
      (r : Outcome A)
      → ((a : A) (u : World) → r ≡ ok a u → P a u → Q a u)
      → Ensures P r
      → Ensures Q r
  Ensures-at (ok a u) step h = step a u refl h
  Ensures-at pruned step h = tt
  Ensures-at failed step h = absurd h
  Ensures-at fault step h = absurd h

Good-split :
    {A B : Type 0} (r : Outcome A) (k : A → Cmd B)
    → Good (and_then r k)
    → Ensures (λ a u. Good (k a u)) r
Good-split (ok a u) k h = h
Good-split pruned k h = tt
Good-split failed k h = absurd h
Good-split fault k h = absurd h

-- A unit proof whose operation is called on the data `S` of the set-up.
abbrev pub harness_on :
    {S R : Type 0} (set_up : Outcome S) (operation : S → Cmd R)
    (assertions : S → R → Cmd (Unit {0}))
    → Outcome (Unit {0})
harness_on set_up operation assertions =
    and_then set_up λ s u. and_then (operation s u) (assertions s)

-- A unit proof: the set-up, the operation, the assertions.
abbrev pub harness :
    {S R : Type 0} (set_up : Outcome S) (operation : Cmd R) (assertions : S → R → Cmd (Unit {0}))
    → Outcome (Unit {0})
harness set_up operation assertions = harness_on set_up (λ _. operation) assertions

module _ {S R : Type 0} (set_up : Outcome S) (Post : S → World → R → World → Type 0) where
  -- In every state that the set-up reaches, the operation does what `Post` says.
  abbrev pub Meets : (S → Cmd R) → Type 0
  Meets operation = Ensures (λ s u. Ensures (Post s u) (operation s u)) set_up

  pub harness_on-Meets :
      (operation : S → Cmd R) (assertions : S → R → Cmd (Unit {0}))
      → ((s : S) (u : World) → set_up ≡ ok s u → (r : R) → Checks (assertions s r) (Post s u r))
      → Good (harness_on set_up operation assertions) ↔ Meets operation
  harness_on-Meets operation assertions checks = (
    λ good.
        Ensures-at _ _ set_up
          (λ s u e rest.
            Ensures-at _ _ (operation s u) (λ r v _ good'. (checks s u e r).means v good')
              (Good-split (operation s u) (assertions s) rest))
          (Good-split set_up _ good),
    λ meets.
        Ensures-bind _ _ set_up _
          (Ensures-at _ (λ s u. Good (and_then (operation s u) (assertions s))) set_up
            (λ s u e post.
              Ensures-bind _ _ (operation s u) _ post λ r v p. rw ((checks s u e r).passes v p) tt)
            meets)
          λ s u good. good,
  )

pub harness-Meets :
    {S R : Type 0} (set_up : Outcome S) (operation : Cmd R) (Post : S → World → R → World → Type 0)
    (assertions : S → R → Cmd (Unit {0}))
    → ((s : S) (u : World) → set_up ≡ ok s u → (r : R) → Checks (assertions s r) (Post s u r))
    → Good (harness set_up operation assertions)
      ↔ Ensures (λ s u. Ensures (Post s u) (operation u)) set_up
harness-Meets set_up operation Post assertions checks =
    harness_on-Meets set_up Post (λ _. operation) assertions checks

pub Checks-map :
    (m : Cmd (Unit {0})) (P Q : World → Type 0)
    → ((v : World) → P v ↔ Q v)
    → Checks m P
    → Checks m Q
Checks-map m P Q same c = record {
  passes = λ v q. c.passes v ((same v).1 q);
  means = λ v good. (same v).0 (c.means v good);
}
