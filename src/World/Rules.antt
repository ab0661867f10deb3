-- ===== src/World/Rules.antt =====
-- Rules for the postconditions of runs.
use verify_c_common.Base.{◌≡◌, refl, Bool, true, false}
use verify_c_common.World.{
  World, Outcome, ok, pruned, failed, fault, Cmd, and_then, assume, Ensures, Returns,
}

module _ {A B : Type 0} where
  pub Ensures-bind :
      (P : A → World → Type 0) (Q : B → World → Type 0) (r : Outcome A) (k : A → Cmd B)
      → Ensures P r
      → ((a : A) (w : World) → P a w → Ensures Q (k a w))
      → Ensures Q (and_then r k)
  Ensures-bind P Q (ok a w) k h next = next a w h
  Ensures-bind P Q pruned k h next = tt
  Ensures-bind P Q failed k h next = absurd h
  Ensures-bind P Q fault k h next = absurd h

  pub Returns-bind :
      (P : A → World → Type 0) (Q : B → World → Type 0) (r : Outcome A) (k : A → Cmd B)
      → Returns P r
      → ((a : A) (w : World) → P a w → Returns Q (k a w))
      → Returns Q (and_then r k)
  Returns-bind P Q (ok a w) k h next = next a w h
  Returns-bind P Q pruned k h next = absurd h
  Returns-bind P Q failed k h next = absurd h
  Returns-bind P Q fault k h next = absurd h

  -- A run that has ended well came through its first part.
  pub >>=-ok :
      (r : Outcome A) (k : A → Cmd B) {b : B} {u : World}
      → and_then r k ≡ ok b u
      → (a : A) × (v : World) × (r ≡ ok a v) × (k a v ≡ ok b u)
  >>=-ok (ok a v) k h = (a, v, refl, h)
  >>=-ok pruned k h = cc
  >>=-ok failed k h = cc
  >>=-ok fault k h = cc

-- What comes after an assumption may use it.
pub Ensures-assume :
    {A : Type 0} (Q : A → World → Type 0) (c : Bool) (w : World) (k : Unit {0} → Cmd A)
    → (c ≡ true → Ensures Q (k tt w))
    → Ensures Q (and_then (assume c w) k)
Ensures-assume Q true w k rest = rest refl
Ensures-assume Q false w k rest = tt

module _ {A : Type 0} (P Q : A → World → Type 0) where
  pub Ensures-mono :
      (r : Outcome A) → Ensures P r → ((a : A) (w : World) → P a w → Q a w) → Ensures Q r
  Ensures-mono (ok a w) h weaken = weaken a w h
  Ensures-mono pruned h weaken = tt
  Ensures-mono failed h weaken = absurd h
  Ensures-mono fault h weaken = absurd h

  pub Returns-mono :
      (r : Outcome A) → Returns P r → ((a : A) (w : World) → P a w → Q a w) → Returns Q r
  Returns-mono (ok a w) h weaken = weaken a w h
  Returns-mono pruned h weaken = absurd h
  Returns-mono failed h weaken = absurd h
  Returns-mono fault h weaken = absurd h

module _ {A : Type 0} (P : A → World → Type 0) where
  -- A run that returns is a good run.
  pub Ensures-of_Returns : (r : Outcome A) → Returns P r → Ensures P r
  Ensures-of_Returns (ok a w) h = h
  Ensures-of_Returns pruned h = absurd h
  Ensures-of_Returns failed h = absurd h
  Ensures-of_Returns fault h = absurd h
