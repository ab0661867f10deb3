-- ===== src/HashTable/Emplace/Steps.antt =====
-- What one round of the loop of aws-c-common-stubs/s_emplace_item_override.c does to the rest.
use native.Mathlib.Nat.{mod-eq_of_lt}
use verify_c_common.Base.{
  ℕ, suc, ◌+◌, ◌^◌, ◌%◌, ◌<◌, ◌≤◌, ◌≡◌, ◌≢◌, sym, ap, ◌∙◌, Bool, Option, none, some, List,
  if◌then◌else◌, length, get_elem?, set, length-set, get_elem?-set_self, get_elem?-set_ne,
  get_elem?-bound, arith, some-inj,
}
use verify_c_common.HashTable.{Entry}
use verify_c_common.HashTable.Count.{count, count-set}
use verify_c_common.HashTable.Emplace.{Emplacing, keep_first}
use verify_c_common.HashTable.Emplace.Round.{path_next, path_apart}

abbrev pub HashesFit : List Entry → Type 0
HashesFit es = (i : ℕ) (e : Entry) → get_elem? es i ≡ some e → e.hash_code < 2 ^ 64

-- Nothing is lost: the slots hold what they held and the entry, in place of an empty one.
abbrev pub Keeps : List Entry → Entry → List Entry → Type 0
Keeps es entry es' =
    (last : Entry) × (last.hash_code ≡ 0)
    × ((p : Entry → Bool)
        → count p es' + (if p last then 1 else 0) ≡ count p es + (if p entry then 1 else 0))

-- The slots that are not on the way from `i` to `i + d` stay.
abbrev pub Untouched : (n i d : ℕ) → List Entry → List Entry → Type 0
Untouched n i d es es' =
    (r : ℕ) → ((j : ℕ) → j ≤ d → (i + j) % n ≢ r) → get_elem? es' r ≡ get_elem? es r

-- What the loop returns from the state `s` on.
abbrev pub Ends : (n i d : ℕ) → Emplacing → Option (List Entry × Option ℕ) → Type 0
Ends n i d s out =
    (es : List Entry) × (r : ℕ) × (out ≡ some (es, some r))
    × (length es ≡ length s.slots)
    × Keeps s.slots s.entry es
    × Untouched n i d s.slots es
    × (s.rval ≡ none → get_elem? es r ≡ some s.entry)
    × ((r' : ℕ) → s.rval ≡ some r' → r ≡ r')

pub here : (n i : ℕ) → i < n → (i + 0) % n ≡ i
here n i lt = ap (λ k. k % n) (omega arith) ∙ mod-eq_of_lt lt

abbrev pub swapped : ℕ → Emplacing → Entry → ℕ → Emplacing
swapped i s victim pr = record {
  slots = set s.slots i s.entry;
  entry = victim;
  probe_idx = pr;
  rval = keep_first s.rval i;
}

-- The loop after a swap with `victim`, which is in use.
module _ (n i : ℕ) (lt : i < n) (s : Emplacing) (victim : Entry)
    (found : get_elem? s.slots i ≡ some victim) (pr : ℕ) where
  stored : get_elem? (set s.slots i s.entry) i ≡ some s.entry
  stored = get_elem?-set_self s.slots i s.entry (get_elem?-bound s.slots i victim found)

  pub after_swap :
      (d : ℕ) (out : Option (List Entry × Option ℕ))
      → suc d < n
      → Ends n ((i + 1) % n) d (swapped i s victim pr) out
      → Ends n i (suc d) s out
  after_swap d out small (es, r, ends, len, (last, empty, keep), untouched, first, later) = (
    es,
    r,
    ends,
    len ∙ length-set s.slots i s.entry,
    (last, empty, (λ p. keep p ∙ count-set p s.slots i victim s.entry found)),
    (λ r' away.
        untouched r' (λ j le e. away (suc j) (omega arith) (sym (path_next n i j) ∙ e))
        ∙ get_elem?-set_ne s.slots s.entry (λ e. away 0 (omega arith) (here n i lt ∙ e))),
    (λ fresh.
        ap (get_elem? es) (later i (ap (λ o. keep_first o i) fresh))
        ∙ untouched i (λ j le e.
          path_apart n i (suc j) lt (omega arith) (omega arith) (sym (path_next n i j) ∙ e))
        ∙ stored),
    (λ r' e. later r' (ap (λ o. keep_first o i) e)),
  )

  -- The loop is over after a swap with an empty slot.
  pub after_hole :
      (d : ℕ) (r : ℕ)
      → victim.hash_code ≡ 0
      → keep_first s.rval i ≡ some r
      → Ends n i d s (some (set s.slots i s.entry, keep_first s.rval i))
  after_hole d r empty at_r = (
    set s.slots i s.entry,
    r,
    ap (λ o. some (set s.slots i s.entry, o)) at_r,
    length-set s.slots i s.entry,
    (victim, empty, (λ p. count-set p s.slots i victim s.entry found)),
    (λ r' away. get_elem?-set_ne s.slots s.entry (λ e. away 0 (omega arith) (here n i lt ∙ e))),
    (λ fresh.
        ap (get_elem? (set s.slots i s.entry))
          (some-inj (sym at_r ∙ ap (λ o. keep_first o i) fresh))
        ∙ stored),
    (λ r' e. some-inj (sym at_r ∙ ap (λ o. keep_first o i) e)),
  )

-- The loop after a round that has only moved on.
pub after_skip :
    (n i d pr : ℕ) (s : Emplacing) (out : Option (List Entry × Option ℕ))
    → Ends n ((i + 1) % n) d (record s { probe_idx = pr }) out
    → Ends n i (suc d) s out
after_skip n i d pr s out (es, r, ends, len, keep, untouched, first, later) = (
  es,
  r,
  ends,
  len,
  keep,
  (λ r' away. untouched r' (λ j le e. away (suc j) (omega arith) (sym (path_next n i j) ∙ e))),
  first,
  later,
)
